-- ===== src/Execution/Step.antt =====
-- internal/domain/execution/execution_step.go. The source's type is a string: `other` stands for
-- a string that is none of the constants.
use deespec.Base.{
  ℕ, String, Bool, true, false, ◌||◌, Option, none, some, List, [], ◌∷◌, any, str_eq,
}
use deespec.Execution.Status.{Status}

pub data Step : Type 0 where
  ready implement_try first_review implement_second_try second_review : Step
  implement_third_try third_review reviewer_force_implement implementer_review done : Step
  other : String → Step

-- Go's `==` on the strings.
unfoldable pub same : Step → Step → Bool
same ready ready = true
same implement_try implement_try = true
same first_review first_review = true
same implement_second_try implement_second_try = true
same second_review second_review = true
same implement_third_try implement_third_try = true
same third_review third_review = true
same reviewer_force_implement reviewer_force_implement = true
same implementer_review implementer_review = true
same done done = true
same (other s) (other t) = str_eq s t
same _ _ = false

unfoldable pub to_number : Step → ℕ
to_number ready = 1
to_number implement_try = 2
to_number first_review = 3
to_number implement_second_try = 4
to_number second_review = 5
to_number implement_third_try = 6
to_number third_review = 7
to_number reviewer_force_implement = 8
to_number implementer_review = 9
to_number done = 10
to_number (other _) = 0

unfoldable pub to_status : Step → Status
to_status ready = Status.ready
to_status implement_try = Status.wip
to_status implement_second_try = Status.wip
to_status implement_third_try = Status.wip
to_status first_review = Status.review
to_status second_review = Status.review
to_status third_review = Status.review
to_status implementer_review = Status.review
to_status reviewer_force_implement = Status.review_and_wip
to_status done = Status.done
to_status (other _) = Status.unknown

unfoldable pub is_implementation : Step → Bool
unfolding same
is_implementation s =
    same s implement_try
    || same s implement_second_try
    || same s implement_third_try
    || same s reviewer_force_implement

unfoldable pub is_review : Step → Bool
unfolding same
is_review s =
    same s first_review
    || same s second_review
    || same s third_review
    || same s implementer_review
    || same s reviewer_force_implement

-- The map of the valid transitions: `none` where the key is missing.
unfoldable pub valid_transitions : Step → Option (List Step)
valid_transitions ready = some (implement_try ∷ [])
valid_transitions implement_try = some (first_review ∷ [])
valid_transitions first_review = some (implement_second_try ∷ done ∷ [])
valid_transitions implement_second_try = some (second_review ∷ [])
valid_transitions second_review = some (implement_third_try ∷ done ∷ [])
valid_transitions implement_third_try = some (third_review ∷ [])
valid_transitions third_review = some (reviewer_force_implement ∷ done ∷ [])
valid_transitions reviewer_force_implement = some (implementer_review ∷ [])
valid_transitions implementer_review = some (done ∷ [])
valid_transitions done = some []
valid_transitions (other _) = none

unfoldable pub can_transition_to : Step → Step → Bool
unfolding same valid_transitions
can_transition_to s next = elim (valid_transitions s) [
  | none ↦ false
  | some allowed ↦ any (λ valid_next. same valid_next next) allowed
]

unfoldable pub get_attempt_number : Step → ℕ
get_attempt_number implement_try = 1
get_attempt_number implement_second_try = 2
get_attempt_number implement_third_try = 3
get_attempt_number reviewer_force_implement = 4
get_attempt_number _ = 0

unfoldable pub is_valid : Step → Bool
is_valid (other _) = false
is_valid _ = true
