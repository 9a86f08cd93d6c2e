-- ===== src/Execution/Status.antt =====
-- internal/domain/execution/execution_status.go. The source's type is a string: `other` stands
-- for a string that is none of the constants.
use deespec.Base.{
  ℕ, String, Bool, true, false, not, ◌&&◌, ◌||◌, Option, none, some, List, [], ◌∷◌, any, str_eq,
}

pub data Status : Type 0 where
  ready wip review review_and_wip done unknown : Status
  other : String → Status

-- Go's `==` on the strings.
unfoldable pub same : Status → Status → Bool
same ready ready = true
same wip wip = true
same review review = true
same review_and_wip review_and_wip = true
same done done = true
same unknown unknown = true
same (other s) (other t) = str_eq s t
same _ _ = false

unfoldable pub is_active : Status → Bool
unfolding same
is_active s = not (same s done) && not (same s unknown)

unfoldable pub is_wip : Status → Bool
unfolding same
is_wip s = same s wip || same s review_and_wip

unfoldable pub is_review : Status → Bool
unfolding same
is_review s = same s review || same s review_and_wip

unfoldable pub is_valid : Status → Bool
is_valid ready = true
is_valid wip = true
is_valid review = true
is_valid review_and_wip = true
is_valid done = true
is_valid _ = false

-- The map of the valid transitions: `none` where the key is missing.
unfoldable pub valid_transitions : Status → Option (List Status)
valid_transitions ready = some (wip ∷ [])
valid_transitions wip = some (review ∷ [])
valid_transitions review = some (wip ∷ done ∷ review_and_wip ∷ [])
valid_transitions review_and_wip = some (review ∷ [])
valid_transitions done = some []
valid_transitions _ = none

unfoldable pub can_transition_to : Status → Status → Bool
unfolding same valid_transitions
can_transition_to s next = elim (valid_transitions s) [
  | none ↦ false
  | some allowed ↦ any (λ valid_next. same valid_next next) allowed
]

unfoldable pub priority : Status → ℕ
priority review_and_wip = 1
priority review = 2
priority wip = 3
priority ready = 4
priority done = 5
priority _ = 99
