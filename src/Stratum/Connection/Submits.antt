-- ===== src/Stratum/Connection/Submits.antt =====
-- A frame with a share (pool/src/stratum_sv2.rs): what a turn of the connection's loop leaves behind.
use mining_pool.Base.{◌≡◌, ◌≢◌, refl, true, some, ◌==◌, ==_self, Bool-cases, inl, inr, ==_iff}
use mining_pool.Base.Int.{ℤ}
use mining_pool.Bitcoin.{Bytes, BitcoinLib, Floats}
use mining_pool.NodeIpc.Template.{RawTemplate}
use mining_pool.Stratum.Protocol.{Codec, sv2}
use mining_pool.Stratum.State.{World, after, return}
use mining_pool.Stratum.State.Steps.{bind_world}
use mining_pool.Stratum.Submit.{handle_submit_shares_extended}
use mining_pool.Stratum.Connection.{frame, dispatch_message, dispatch_sv2, turn}

module _ {F32 F64 : Type 0} (lib : BitcoinLib) (fl : Floats F32 F64) (codec : Codec F32)
    (other : codec.type_submit_shares_extended ≢ codec.type_open_extended_mining_channel) where
  dispatch_share :
      (payload : Bytes) (template : RawTemplate) (now : ℤ) (w : World F64)
      → dispatch_message lib fl codec
          (sv2 (some codec.type_submit_shares_extended) payload)
          template
          now
          w
        ≡ handle_submit_shares_extended lib fl codec payload w
  unfolding dispatch_message dispatch_sv2
  dispatch_share payload template now w =
      let t = codec.type_submit_shares_extended in
      elim (Bool-cases (t == codec.type_open_extended_mining_channel)) [
        | inl same ↦ absurd (other ((==_iff t codec.type_open_extended_mining_channel).0 same))
        | inr differs ↦ rw (differs, ==_self t) refl
      ]

  pub turn_share :
      (payload : Bytes) (template : RawTemplate) (now : ℤ) (w : World F64)
      → after (
          turn lib fl codec
            (frame (sv2 (some codec.type_submit_shares_extended) payload) template now)
            w)
        ≡ after (handle_submit_shares_extended lib fl codec payload w)
  unfolding turn
  turn_share payload template now w =
      let share = sv2 (some codec.type_submit_shares_extended) payload in
      let end = after (handle_submit_shares_extended lib fl codec payload w) in
      bind_world (λ w'. w' ≡ end) (λ w'. w' ≡ end)
        (dispatch_message lib fl codec share template now) (λ _. return true) w
        (rw (dispatch_share payload template now w) refl) (λ _ h. h) (λ _ _ h. h)
