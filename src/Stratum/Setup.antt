-- ===== src/Stratum/Setup.antt =====
-- `handle_setup_connection` of pool/src/stratum_sv2.rs.
pub mod Laws
pub mod Keeps
pub mod Calm
use mining_pool.Base.{
  ℕ, zero, suc, ◌+◌, ◌-◌, ◌*◌, ◌/◌, ◌%◌, ◌^◌, ◌≤◌, ◌<◌, min, ◌≡◌, ◌≢◌, ◌↔◌, ◌⊎◌, inl, inr, refl, ap,
  sym, ◌∙◌, Bool, true, false, not, ◌&&◌, ◌||◌, Option, none, some, List, [], ◌∷◌, ◌++◌, map,
  append-nil, append_assoc, reverse, arith, ltb, leb, ◌==◌, if◌then◌else◌, ltb→lt, lt→ltb, ==_iff,
  ==_self, Bool-cases, Option-cases, length, take, drop, replicate, set, All, All-append,
  All-replicate, All-reverse, length-append, take-append-drop, take-append, drop-append,
  length-take, length-drop, length-replicate, length-reverse, list_eq, list_eq→eq, list_eq_self,
  Outcomes, answer, later,
}
use mining_pool.Bitcoin.{Bytes}
use mining_pool.Stratum.Protocol.{
  EitherFrame, handshake, sv2, mining_protocol, other_protocol, SetupConnection, Codec, setup_error,
  setup_success, unsupported_message, unsupported_protocol, protocol_version_mismatch,
}
use mining_pool.Stratum.State.{
  Action, Error, handshake_frame, missing_header, parse_error, bad_message_type, bad_protocol,
  bad_version, bail, write, ◌>>=◌, ◌>>◌,
}

module _ {F32 F64 : Type 0} (codec : Codec F32) where
  check_version : SetupConnection → Action F64 (Unit {0})
  check_version msg =
      if ltb 2 msg.min_version || ltb msg.max_version 2
      then (do write (setup_error 0 protocol_version_mismatch) false; bail bad_version)
      else write (setup_success 2 0x02) false

  check_setup : SetupConnection → Action F64 (Unit {0})
  check_setup msg = elim msg.protocol [
    | mining_protocol ↦ check_version msg
    | other_protocol ↦ do write (setup_error 0 unsupported_protocol) false; bail bad_protocol
  ]

  setup_frame : ℕ → Bytes → Action F64 (Unit {0})
  setup_frame msg_type payload =
      if msg_type == codec.type_setup_connection
      then (elim (codec.parse_setup_connection payload) [
        | none ↦ bail parse_error
        | some msg ↦ check_setup msg
      ])
      else (do write (setup_error 0 unsupported_message) false; bail bad_message_type)

  unfoldable pub handle_setup_connection : EitherFrame → Action F64 (Unit {0})
  unfolding setup_frame check_setup check_version
  handle_setup_connection handshake = bail handshake_frame
  handle_setup_connection (sv2 none payload) = bail missing_header
  handle_setup_connection (sv2 (some msg_type) payload) = setup_frame msg_type payload
