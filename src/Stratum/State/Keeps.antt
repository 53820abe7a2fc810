-- ===== src/Stratum/State/Keeps.antt =====
-- What the actions of pool/src/stratum_sv2.rs lead to: rules for a property of the whole world, errors included.
use mining_pool.Base.{
  ◌≡◌, refl, inl, inr, Bool, true, false, Option, none, some, List, if◌then◌else◌, Bool-cases,
  answer, Outcomes,
}
use mining_pool.Stratum.Protocol.{Message}
use mining_pool.Stratum.State.{
  World, Sent, Action, Checked, done, fail, after, write, check, ◌>>=◌, ◌>>◌,
}
use mining_pool.Stratum.State.Steps.{bind_world, write_ok, write_down}

module _ {F64 : Type 0} where
  -- From a world with the first property the action ends, well or not, in one with the second.
  pub record Leads (P Q : World F64 → Type 0) {A : Type 0} (m : Action F64 A) : Type 0 where
    pub led : (w : World F64) → P w → Q (after (m w))

  abbrev pub Keeps : (World F64 → Type 0) → {A : Type 0} → Action F64 A → Type 0
  Keeps P m = Leads P P m

  -- The property does not speak of what was written, nor of how writes end.
  pub record IsCalm (P : World F64 → Type 0) : Type 0 where
    pub told :
        (w : World F64) (sent : List Sent) (writes : Outcomes)
        → P w
        → P (record w { sent = sent; writes = writes })

  pub bind-Leads :
      {P Q R : World F64 → Type 0} {A B : Type 0} (m : Action F64 A) {f : A → Action F64 B}
      → Leads P R m
      → ((w : World F64) → R w → Q w)
      → ((a : A) → Leads R Q (f a))
      → Leads P Q (m >>= f)
  bind-Leads {P} {Q} {R} m {f} first weaken next = record {
    led = λ w h. bind_world R Q m f w (first.led w h) weaken (λ a w' h'. (next a).led w' h');
  }

  pub bind-Keeps :
      {P : World F64 → Type 0} {A B : Type 0} (m : Action F64 A) {f : A → Action F64 B}
      → Keeps P m
      → ((a : A) → Keeps P (f a))
      → Keeps P (m >>= f)
  bind-Keeps m first next = bind-Leads m first (λ _ h. h) next

  pub check_first :
      {P Q : World F64 → Type 0} {A B : Type 0} (c : Checked A) {f : A → Action F64 B}
      → ((w : World F64) → P w → Q w)
      → ((a : A) → c ≡ done a → Leads P Q (f a))
      → Leads P Q (check c >>= f)
  check_first (done a) weaken next = record { led = λ w h. (next a refl).led w h }
  check_first (fail e) weaken next = record { led = weaken }

  pub if-Leads :
      {P Q : World F64 → Type 0} {A : Type 0} (b : Bool) {m n : Action F64 A}
      → Leads P Q m
      → Leads P Q n
      → Leads P Q (if b then m else n)
  if-Leads true hm hn = hm
  if-Leads false hm hn = hn

  -- With what the test says in each branch.
  pub if_cases :
      {P Q : World F64 → Type 0} {A : Type 0} (b : Bool) {m n : Action F64 A}
      → (b ≡ true → Leads P Q m)
      → (b ≡ false → Leads P Q n)
      → Leads P Q (if b then m else n)
  if_cases true hm hn = hm refl
  if_cases false hm hn = hn refl

  pub option-Leads :
      {P Q : World F64 → Type 0} {A B : Type 0} (o : Option A) {m : Action F64 B}
      {f : A → Action F64 B}
      → Leads P Q m
      → ((a : A) → Leads P Q (f a))
      → Leads P Q (elim o [ none ↦ m | some a ↦ f a ])
  option-Leads none hm hf = hm
  option-Leads (some a) hm hf = hf a

  module _ {P : World F64 → Type 0} (calm : IsCalm P) where
    write_kept : (m : Message) (b : Bool) (w : World F64) → P w → P (after (write m b w))
    write_kept m b w h = elim (Bool-cases (answer w.writes)) [
      | inl up ↦ rw (write_ok m b w up) (calm.told w _ _ h)
      | inr down ↦ rw (write_down m b w down) (calm.told w w.sent _ h)
    ]

    pub write-Keeps : (m : Message) (b : Bool) → Keeps P (write m b)
    write-Keeps m b = record { led = write_kept m b }

    pub write_first :
        {Q : World F64 → Type 0} (m : Message) (b : Bool) {B : Type 0} {k : Action F64 B}
        → ((w : World F64) → P w → Q w)
        → Leads P Q k
        → Leads P Q (write m b >> k)
    write_first m b weaken rest = bind-Leads (write m b) (write-Keeps m b) weaken (λ _. rest)
