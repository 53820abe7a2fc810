-- ===== src/Stratum/Setup/Keeps.antt =====
-- Setting up a connection (pool/src/stratum_sv2.rs) leaves its state as it is.
use mining_pool.Base.{ℕ, inl, inr, false, ◌||◌, none, some, ltb, ◌==◌, Bool-cases, Option-cases}
use mining_pool.Bitcoin.{Bytes}
use mining_pool.Stratum.Protocol.{
  EitherFrame, handshake, sv2, SetupConnection, Codec, setup_error, setup_success,
  unsupported_message, unsupported_protocol, protocol_version_mismatch,
}
use mining_pool.Stratum.State.{
  after, ConnectionState, bail, bad_version, bad_protocol, bad_message_type, ◌>>◌, World, write,
}
use mining_pool.Stratum.State.Steps.{write_then, write_last, if_then}
use mining_pool.Stratum.Setup.{setup_frame, check_setup, check_version, handle_setup_connection}
use mining_pool.Stratum.Setup.Laws.{Protocol-cases}

module _ {F32 F64 : Type 0} (codec : Codec F32) where
  check_version-keeps :
      (P : ConnectionState → Type 0) (msg : SetupConnection) (w : World F64)
      → P w.state
      → P (after (check_version codec msg w)).state
  unfolding check_version
  check_version-keeps P msg w v =
      if_then P (ltb 2 msg.min_version || ltb msg.max_version 2)
        (write (setup_error 0 protocol_version_mismatch) false >> bail bad_version)
        (write (setup_success 2 0x02) false) w
        (write_then P (setup_error 0 protocol_version_mismatch) false
          (bail {A = Unit {0}} bad_version) w v (λ w' e. rw e v))
        (write_last P (setup_success 2 0x02) false w v)

  check_setup-keeps :
      (P : ConnectionState → Type 0) (msg : SetupConnection) (w : World F64)
      → P w.state
      → P (after (check_setup codec msg w)).state
  unfolding check_setup
  check_setup-keeps P msg w v = elim (Protocol-cases msg.protocol) [
    | inl mine ↦ rw (mine, check_setup, after) (check_version-keeps P msg w v)
    | inr other ↦
        rw (other, check_setup, after)
          (write_then P (setup_error 0 unsupported_protocol) false
            (bail {A = Unit {0}} bad_protocol) w v (λ w' e. rw e v))
  ]

  setup_frame-keeps :
      (P : ConnectionState → Type 0) (t : ℕ) (payload : Bytes) (w : World F64)
      → P w.state
      → P (after (setup_frame codec t payload w)).state
  unfolding setup_frame
  setup_frame-keeps P t payload w v = elim (Bool-cases (t == codec.type_setup_connection)) [
    | inr other ↦
        rw (other, setup_frame)
          (write_then P (setup_error 0 unsupported_message) false
            (bail {A = Unit {0}} bad_message_type) w v (λ w' e. rw e v))
    | inl same ↦ elim (Option-cases (codec.parse_setup_connection payload)) [
      | inl bad ↦ rw (same, bad, setup_frame) v
      | inr (msg, parsed) ↦ rw (same, parsed, setup_frame) (check_setup-keeps P msg w v)
    ]
  ]

  -- Setting up changes nothing of the state.
  pub handle_setup_connection-keeps :
      (P : ConnectionState → Type 0) (f : EitherFrame) (w : World F64)
      → P w.state
      → P (after (handle_setup_connection codec f w)).state
  unfolding handle_setup_connection
  handle_setup_connection-keeps P handshake w v = v
  handle_setup_connection-keeps P (sv2 none payload) w v = v
  handle_setup_connection-keeps P (sv2 (some t) payload) w v = setup_frame-keeps P t payload w v
