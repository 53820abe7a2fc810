-- ===== src/Stratum/Setup/Calm.antt =====
-- Setting up a connection (pool/src/stratum_sv2.rs) writes at most.
use mining_pool.Base.{false, none, some, ltb, ◌||◌, ◌==◌}
use mining_pool.Stratum.Protocol.{
  EitherFrame, handshake, sv2, Codec, SetupConnection, mining_protocol, other_protocol, setup_error,
  setup_success, unsupported_message, unsupported_protocol, protocol_version_mismatch,
}
use mining_pool.Stratum.State.{
  World, Error, write, ◌>>◌, bail, bad_protocol, bad_version, bad_message_type,
}
use mining_pool.Stratum.State.Keeps.{
  Keeps, IsCalm, write-Keeps, write_first, if-Leads, option-Leads,
}
use mining_pool.Stratum.Setup.{handle_setup_connection, setup_frame, check_setup, check_version}

module _ {F32 F64 : Type 0} (codec : Codec F32) {P : World F64 → Type 0} (calm : IsCalm P) where
  bail-Keeps : {A : Type 0} (e : Error) → Keeps P (bail {A = A} e)
  bail-Keeps e = record { led = λ w h. h }

  check_version-Keeps : (msg : SetupConnection) → Keeps P (check_version codec msg)
  unfolding check_version
  check_version-Keeps msg =
      if-Leads (ltb 2 msg.min_version || ltb msg.max_version 2)
        (write_first calm (setup_error 0 protocol_version_mismatch) false (λ _ h. h)
          (bail-Keeps bad_version))
        (write-Keeps calm (setup_success 2 0x02) false)

  check_setup-Keeps : (msg : SetupConnection) → Keeps P (check_setup codec msg)
  unfolding check_setup
  check_setup-Keeps msg =
      elim msg.protocol
        as (λ p. Keeps P (elim p [
          | mining_protocol ↦ check_version codec msg
          | other_protocol ↦ write (setup_error 0 unsupported_protocol) false >> bail bad_protocol
        ])) [
          | mining_protocol ↦ check_version-Keeps msg
          | other_protocol ↦
              write_first calm (setup_error 0 unsupported_protocol) false (λ _ h. h)
                (bail-Keeps bad_protocol)
        ]

  pub handle_setup_connection-Keeps : (f : EitherFrame) → Keeps P (handle_setup_connection codec f)
  unfolding handle_setup_connection setup_frame
  handle_setup_connection-Keeps handshake = bail-Keeps _
  handle_setup_connection-Keeps (sv2 none payload) = bail-Keeps _
  handle_setup_connection-Keeps (sv2 (some t) payload) =
      if-Leads (t == codec.type_setup_connection)
        (option-Leads (codec.parse_setup_connection payload) (bail-Keeps _) check_setup-Keeps)
        (write_first calm (setup_error 0 unsupported_message) false (λ _ h. h)
          (bail-Keeps bad_message_type))
