-- ===== src/Stratum/State/Steps.antt =====
-- How the actions of pool/src/stratum_sv2.rs run, one step at a time.
use mining_pool.Base.{
  ◌≡◌, ◌⊎◌, inl, inr, refl, Bool, true, false, [], ◌∷◌, ◌++◌, if◌then◌else◌, Bool-cases, answer,
  later,
}
use mining_pool.Db.Event.{DbEvent}
use mining_pool.Stratum.Protocol.{Message}
use mining_pool.Stratum.State.{
  World, ConnectionState, Checked, done, fail, check, Outcome, ok, err, after, send_event, Error,
  write_error, Action, write, ◌>>=◌, ◌>>◌,
}

module _ {F64 : Type 0} where
  -- The world after a message went out, and after a write failed.
  abbrev pub told : World F64 → Message → Bool → World F64
  told w message is_channel_msg = record w {
    sent = w.sent ++ (record { message = message; is_channel_msg = is_channel_msg } ∷ []);
    writes = later w.writes;
  }

  abbrev pub untold : World F64 → World F64
  untold w = record w { writes = later w.writes }

  pub write_ok :
      (m : Message) (b : Bool) (w : World F64)
      → answer w.writes ≡ true
      → write m b w ≡ ok tt (told w m b)
  unfolding write
  write_ok m b w up = rw up

  pub write_down :
      (m : Message) (b : Bool) (w : World F64)
      → answer w.writes ≡ false
      → write m b w ≡ err write_error (untold w)
  unfolding write
  write_down m b w down = rw down

  pub bind_ok :
      {A B : Type 0} (m : Action F64 A) (f : A → Action F64 B) (w w' : World F64) (a : A)
      → m w ≡ ok a w'
      → (m >>= f) w ≡ f a w'
  bind_ok m f w w' a e = rw (e, ◌>>=◌)

  pub bind_err :
      {A B : Type 0} (m : Action F64 A) (f : A → Action F64 B) (w w' : World F64) (x : Error)
      → m w ≡ err x w'
      → (m >>= f) w ≡ err x w'
  bind_err m f w w' x e = rw (e, ◌>>=◌)

  pub Outcome-cases :
      {A : Type 0} (o : Outcome F64 A)
      → ((a : A) × (w : World F64) × (o ≡ ok a w)) ⊎ ((e : Error) × (w : World F64) × (o ≡ err e w))
  Outcome-cases (ok a w) = inl (a, w, refl)
  Outcome-cases (err e w) = inr (e, w, refl)

  -- An event changes the list of events alone.
  pub send_event-keeps :
      (e : DbEvent F64) (w : World F64)
      → ((after (send_event e w)).state ≡ w.state)
        × ((after (send_event e w)).sent ≡ w.sent)
        × ((after (send_event e w)).solutions ≡ w.solutions)
  send_event-keeps e w = elim (Bool-cases w.has_db) [
    | inl db ↦ (rw db, rw db, rw db)
    | inr no_db ↦ (rw no_db, rw no_db, rw no_db)
  ]

  -- To show something of the state behind a write and what follows it: the state is that before.
  pub write_then :
      (P : ConnectionState → Type 0) (m : Message) (b : Bool) {B : Type 0} (k : Action F64 B)
      (w : World F64)
      → P w.state
      → ((w' : World F64) → w'.state ≡ w.state → P (after (k w')).state)
      → P (after ((write m b >> k) w)).state
  write_then P m b k w now next = elim (Bool-cases (answer w.writes)) [
    | inl up ↦ rw (bind_ok (write m b) (λ _. k) w _ tt (write_ok m b w up)) (next _ refl)
    | inr down ↦ rw (bind_err (write m b) (λ _. k) w _ write_error (write_down m b w down)) now
  ]

  pub check_then :
      (P : ConnectionState → Type 0) {A B : Type 0} (c : Checked A) (f : A → Action F64 B)
      (w : World F64)
      → P w.state
      → ((a : A) → c ≡ done a → P (after (f a w)).state)
      → P (after ((check c >>= f) w)).state
  check_then P (done a) f w now next = next a refl
  check_then P (fail e) f w now next = now

  -- The same for a write that ends a handler.
  pub write_last :
      (P : ConnectionState → Type 0) (m : Message) (b : Bool) (w : World F64)
      → P w.state
      → P (after (write m b w)).state
  write_last P m b w now = elim (Bool-cases (answer w.writes)) [
    | inl up ↦ rw (write_ok m b w up) now
    | inr down ↦ rw (write_down m b w down) now
  ]

  carry_on : {A B : Type 0} → Outcome F64 A → (A → Action F64 B) → Outcome F64 B
  carry_on (ok a w) f = f a w
  carry_on (err e w) f = err e w

  carry_on-after :
      (P Q : ConnectionState → Type 0) {A B : Type 0} (o : Outcome F64 A) (f : A → Action F64 B)
      → P (after o).state
      → ((s : ConnectionState) → P s → Q s)
      → ((a : A) (w' : World F64) → P w'.state → Q (after (f a w')).state)
      → Q (after (carry_on o f)).state
  unfolding carry_on
  carry_on-after P Q (ok a w) f now weaken next = next a w now
  carry_on-after P Q (err e w) f now weaken next = weaken w.state now

  outcome_cases :
      {A B : Type 0} (o : Outcome F64 A) (f : A → Action F64 B)
      → (elim o [ ok a w' ↦ f a w' | err e w' ↦ err e w' ]) ≡ carry_on o f
  unfolding carry_on
  outcome_cases (ok a w) f = refl
  outcome_cases (err e w) f = refl

  bind-carry_on :
      {A B : Type 0} (m : Action F64 A) (f : A → Action F64 B) (w : World F64)
      → (m >>= f) w ≡ carry_on (m w) f
  unfolding carry_on
  bind-carry_on m f w = outcome_cases (m w) f

  -- What holds behind an action holds behind what follows it, if that keeps it.
  pub bind_then :
      (P Q : ConnectionState → Type 0) {A B : Type 0} (m : Action F64 A) (f : A → Action F64 B)
      (w : World F64)
      → P (after (m w)).state
      → ((s : ConnectionState) → P s → Q s)
      → ((a : A) (w' : World F64) → P w'.state → Q (after (f a w')).state)
      → Q (after ((m >>= f) w)).state
  bind_then P Q m f w now weaken next =
      rw (bind-carry_on m f w) (carry_on-after P Q (m w) f now weaken next)

  carry_on-world :
      (P Q : World F64 → Type 0) {A B : Type 0} (o : Outcome F64 A) (f : A → Action F64 B)
      → P (after o)
      → ((w : World F64) → P w → Q w)
      → ((a : A) (w' : World F64) → P w' → Q (after (f a w')))
      → Q (after (carry_on o f))
  unfolding carry_on
  carry_on-world P Q (ok a w) f now weaken next = next a w now
  carry_on-world P Q (err e w) f now weaken next = weaken w now

  -- The same for the whole world.
  pub bind_world :
      (P Q : World F64 → Type 0) {A B : Type 0} (m : Action F64 A) (f : A → Action F64 B)
      (w : World F64)
      → P (after (m w))
      → ((w' : World F64) → P w' → Q w')
      → ((a : A) (w' : World F64) → P w' → Q (after (f a w')))
      → Q (after ((m >>= f) w))
  bind_world P Q m f w now weaken next =
      rw (bind-carry_on m f w) (carry_on-world P Q (m w) f now weaken next)

  pub if_then :
      (P : ConnectionState → Type 0) {A : Type 0} (b : Bool) (m n : Action F64 A) (w : World F64)
      → P (after (m w)).state
      → P (after (n w)).state
      → P (after ((if b then m else n) w)).state
  if_then P true m n w hm hn = hm
  if_then P false m n w hm hn = hn
