-- ===== src/Register/Turns.antt =====
-- The next turn of a journal is above the turns that it holds.
use deespec.Base.{
  ℕ, ◌+◌, ◌≡◌, refl, ◌≤◌, ◌<◌, Option, some, none, List, [], ◌∷◌, if◌then◌else◌, arith,
}
use deespec.Base.Int.{ℤ, pos, ltb_ℤ, pos_part}
use deespec.Register.Input.{max_turn, get_next_turn_number}

-- Every turn that the journal holds is below the bound.
abbrev pub TurnsBelow : ℕ → List (Option ℤ) → Type 0
TurnsBelow bound [] = Unit
TurnsBelow bound (none ∷ lines) = TurnsBelow bound lines
TurnsBelow bound (some turn ∷ lines) = (pos_part turn < bound) × TurnsBelow bound lines

TurnsBelow-max_turn :
    (best : ℕ) (lines : List (Option ℤ))
    → (best ≤ max_turn best lines) × TurnsBelow (max_turn best lines + 1) lines
unfolding max_turn
TurnsBelow-max_turn best [] = (omega arith, tt)
TurnsBelow-max_turn best (none ∷ lines) = TurnsBelow-max_turn best lines
TurnsBelow-max_turn best (some turn ∷ lines) =
    let next = if ltb_ℤ (pos best) turn then pos_part turn else best in
    let larger : (best ≤ next) × (pos_part turn ≤ next) = ground arith in
    let (above, below) = TurnsBelow-max_turn next lines in
    (omega (arith, larger, above), (omega (arith, larger, above), below))

abbrev pub TurnsOf : ℕ → Option (List (Option ℤ)) → Type 0
TurnsOf bound none = bound ≡ 1
TurnsOf bound (some lines) = TurnsBelow bound lines

pub get_next_turn_number-TurnsOf :
    (journal : Option (List (Option ℤ))) → TurnsOf (get_next_turn_number journal) journal
unfolding get_next_turn_number
get_next_turn_number-TurnsOf none = refl
get_next_turn_number-TurnsOf (some lines) = (TurnsBelow-max_turn 0 lines).1
