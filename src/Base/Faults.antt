-- ===== src/Base/Faults.antt =====
-- What the outside world answers to a sequence of calls that may fail (socket writes, statements of
-- a database): one Boolean for each call, `true` for success. After the last one all calls succeed.
use mathlib.Core.Bool.{Bool, true}
use mathlib.Core.List.{List, [], ◌∷◌}

abbrev pub Outcomes : Type 0
Outcomes = List Bool

abbrev pub answer : Outcomes → Bool
answer [] = true
answer (b ∷ bs) = b

abbrev pub later : Outcomes → Outcomes
later [] = []
later (b ∷ bs) = bs
