-- ===== src/Stratum/Setup/Laws.antt =====
-- Which connections pool/src/stratum_sv2.rs sets up, and what the client is told.
use mining_pool.Base.{
  ◌↔◌, ℕ, ◌≤◌, ◌<◌, ◌≡◌, ◌≢◌, ◌∙◌, ◌⊎◌, ap, sym, ==_iff, Option, inl, inr, refl, true, false, none,
  some, [], ◌∷◌, ◌++◌, arith, ltb, ◌==◌, Bool-cases, Option-cases, answer, later,
}
use mining_pool.Bitcoin.{Bytes}
use mining_pool.Stratum.Protocol.{
  EitherFrame, handshake, sv2, Protocol, mining_protocol, other_protocol, SetupConnection, Codec,
  setup_error, setup_success, Message, Code, unsupported_message, unsupported_protocol,
  protocol_version_mismatch,
}
use mining_pool.Stratum.State.{
  handshake_frame, missing_header, parse_error, bad_version, bad_protocol, bad_message_type, World,
  Outcome, ok, err, write, Error,
}
use mining_pool.Stratum.Setup.{handle_setup_connection}

module _ {F32 : Type 0} (codec : Codec F32) where
  -- A frame that asks for the mining protocol in version 2.
  pub record Offers (f : EitherFrame) : Type 0 where
    pub payload : Bytes
    pub msg : SetupConnection
    pub framed : f ≡ sv2 (some codec.type_setup_connection) payload
    pub parsed : codec.parse_setup_connection payload ≡ some msg
    pub mining : msg.protocol ≡ mining_protocol
    pub from_two : msg.min_version ≤ 2
    pub to_two : 2 ≤ msg.max_version

  -- The frames that the handler refuses, with its error and the code that the client is told, if any.
  pub data Refused (f : EitherFrame) : Error → Option Code → Type 0 where
    handshaking : f ≡ handshake → Refused f handshake_frame none
    headless : (payload : Bytes) → f ≡ sv2 none payload → Refused f missing_header none
    other_type :
        (t : ℕ) (payload : Bytes)
        → f ≡ sv2 (some t) payload
        → t ≢ codec.type_setup_connection
        → Refused f bad_message_type (some unsupported_message)
    unparsed :
        (payload : Bytes)
        → f ≡ sv2 (some codec.type_setup_connection) payload
        → codec.parse_setup_connection payload ≡ none
        → Refused f parse_error none
    not_mining :
        (payload : Bytes) (msg : SetupConnection)
        → f ≡ sv2 (some codec.type_setup_connection) payload
        → codec.parse_setup_connection payload ≡ some msg
        → msg.protocol ≡ other_protocol
        → Refused f bad_protocol (some unsupported_protocol)
    too_new :
        (payload : Bytes) (msg : SetupConnection)
        → f ≡ sv2 (some codec.type_setup_connection) payload
        → codec.parse_setup_connection payload ≡ some msg
        → msg.protocol ≡ mining_protocol
        → 2 < msg.min_version
        → Refused f bad_version (some protocol_version_mismatch)
    too_old :
        (payload : Bytes) (msg : SetupConnection)
        → f ≡ sv2 (some codec.type_setup_connection) payload
        → codec.parse_setup_connection payload ≡ some msg
        → msg.protocol ≡ mining_protocol
        → msg.max_version < 2
        → Refused f bad_version (some protocol_version_mismatch)

module _ {F64 : Type 0} where
  -- The world behind one more message.
  abbrev pub told : World F64 → Message → World F64
  told w m = record w {
    sent = w.sent ++ (record { message = m; is_channel_msg = false } ∷ []);
    writes = later w.writes;
  }

  abbrev pub told_if : World F64 → Option Code → World F64
  told_if w none = w
  told_if w (some c) = told w (setup_error 0 c)

  ok_injective : {w w' : World F64} → ok tt w ≡ ok tt w' → w ≡ w'
  ok_injective h = ground arith

  ok_not_err : {w w' : World F64} {e : Error} → ok tt w ≢ err e w'
  ok_not_err h = ground arith

  err_injective :
      {e e' : Error} {w w' : World F64}
      → ◌≡◌ {A = Outcome F64 (Unit {0})} (err e w) (err e' w')
      → (e' ≡ e) × (w ≡ w')
  err_injective h = ground arith

pub Protocol-cases : (p : Protocol) → (p ≡ mining_protocol) ⊎ (p ≡ other_protocol)
Protocol-cases mining_protocol = inl refl
Protocol-cases other_protocol = inr refl

module _ {F32 F64 : Type 0} (codec : Codec F32) where
  setup_accepts :
      (f : EitherFrame) (w : World F64)
      → Offers codec f
      → answer w.writes ≡ true
      → handle_setup_connection codec f w ≡ ok tt (told w (setup_success 2 0x02))
  unfolding handle_setup_connection write
  setup_accepts f w o up = ground (arith, o.framed, o.parsed)

  setup_refuses :
      (f : EitherFrame) (w w' : World F64)
      → handle_setup_connection codec f w ≡ ok tt w'
      → Offers codec f
  unfolding handle_setup_connection write
  setup_refuses handshake w w' h = absurd (ground arith)
  setup_refuses (sv2 none payload) w w' h = absurd (ground arith)
  setup_refuses (sv2 (some t) payload) w w' h =
      elim (Option-cases (codec.parse_setup_connection payload)) [
        | inl e ↦ absurd (ground arith)
        | inr (msg, e) ↦ record {
          payload = payload;
          msg = msg;
          framed = ground arith;
          parsed = e;
          mining = ground arith;
          from_two = ground arith;
          to_two = ground arith;
        }
      ]

  setup_fails :
      (f : EitherFrame) (w : World F64) (e : Error) (c : Option Code)
      → answer w.writes ≡ true
      → Refused codec f e c
      → handle_setup_connection codec f w ≡ err e (told_if w c)
  unfolding handle_setup_connection write
  setup_fails f w _ _ up (handshaking framed) = rw framed refl
  setup_fails f w _ _ up (headless payload framed) = rw framed refl
  setup_fails f w _ _ up (other_type t payload framed other) = ground (arith, framed)
  setup_fails f w _ _ up (unparsed payload framed bad) = ground (arith, framed, bad)
  setup_fails f w _ _ up (not_mining payload msg framed parsed other) =
      ground (arith, framed, parsed, other)
  setup_fails f w _ _ up (too_new payload msg framed parsed mine late) =
      ground (arith, framed, parsed, mine)
  setup_fails f w _ _ up (too_old payload msg framed parsed mine late) =
      ground (arith, framed, parsed, mine)

module _ {F32 : Type 0} (codec : Codec F32) where
  -- Every frame is an offer or is refused.
  setup_cases :
      (f : EitherFrame) → Offers codec f ⊎ ((e : Error) × (c : Option Code) × Refused codec f e c)
  setup_cases handshake = inr (_, _, handshaking refl)
  setup_cases (sv2 none payload) = inr (_, _, headless payload refl)
  setup_cases (sv2 (some t) payload) = elim (Bool-cases (t == codec.type_setup_connection)) [
    | inr other ↦ inr (_, _, other_type t payload refl (ground arith))
    | inl same ↦
        let framed : sv2 (some t) payload ≡ sv2 (some codec.type_setup_connection) payload =
          ap (λ n. sv2 (some n) payload) ((==_iff t codec.type_setup_connection).0 same) in
        elim (Option-cases (codec.parse_setup_connection payload)) [
          | inl bad ↦ inr (_, _, unparsed payload framed bad)
          | inr (msg, parsed) ↦ elim (Protocol-cases msg.protocol) [
            | inr other ↦ inr (_, _, not_mining payload msg framed parsed other)
            | inl mine ↦ elim (Bool-cases (ltb 2 msg.min_version)) [
              | inl new ↦ inr (_, _, too_new payload msg framed parsed mine (ground arith))
              | inr low ↦ elim (Bool-cases (ltb msg.max_version 2)) [
                | inl old ↦ inr (_, _, too_old payload msg framed parsed mine (ground arith))
                | inr high ↦ inl (record {
                  payload = payload;
                  msg = msg;
                  framed = framed;
                  parsed = parsed;
                  mining = mine;
                  from_two = ground arith;
                  to_two = ground arith;
                })
              ]
            ]
          ]
        ]
  ]

module _ {F32 F64 : Type 0} (codec : Codec F32) where
  -- While writes succeed, the handler returns without an error exactly for the frames that ask for the mining
  -- protocol with 2 in the range of versions; it has then answered with SetupConnectionSuccess for version 2 and
  -- the flag for extended channels, and changed nothing else of the world.
  pub handle_setup_connection_lem :
      (f : EitherFrame) (w : World F64)
      → answer w.writes ≡ true
      → (Offers codec f ↔ ((w' : World F64) × (handle_setup_connection codec f w ≡ ok tt w')))
        × ((w' : World F64)
            → handle_setup_connection codec f w ≡ ok tt w'
            → w' ≡ told w (setup_success 2 0x02))
  handle_setup_connection_lem f w up = (
    (
      (λ o. (told w (setup_success 2 0x02), setup_accepts codec f w o up)),
      (λ (w', h). setup_refuses codec f w w' h),
    ),
    λ w' h.
        let same = sym h ∙ setup_accepts codec f w (setup_refuses codec f w w' h) up in
        ok_injective same,
  )

  -- While writes succeed, the handler ends with an error exactly for the frames that it refuses, with the error
  -- and the answer of that case: a frame that is no SV2 frame, has no header or cannot be parsed has no answer,
  -- another message is answered with unsupported_message, another protocol with unsupported_protocol, and a
  -- range of versions without 2 with protocol_version_mismatch; nothing else changes.
  pub handle_setup_connection-Refused :
      (f : EitherFrame) (w w' : World F64) (e : Error)
      → answer w.writes ≡ true
      → (handle_setup_connection codec f w ≡ err e w')
        ↔ ((c : Option Code) × Refused codec f e c × (w' ≡ told_if w c))
  handle_setup_connection-Refused f w w' e up = (
    (λ h. elim (setup_cases codec f) [
      | inl o ↦ absurd (ok_not_err (sym (setup_accepts codec f w o up) ∙ h))
      | inr (e', c, r) ↦
          let same = err_injective (sym h ∙ setup_fails codec f w e' c up r) in
          (c, rw (← same.0) r, same.1)
    ]),
    (λ (c, r, same). rw same (setup_fails codec f w e c up r)),
  )
