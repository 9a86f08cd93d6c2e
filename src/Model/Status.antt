-- ===== src/Model/Status.antt =====
-- internal/domain/model/value_object.go: the status and the step of a task. The source's types are
-- strings; `other` stands for a string that is none of the constants.
use deespec.Base.{String, Bool, true, false, Option, none, some, List, [], ◌∷◌, any, str_eq}

pub data Status : Type 0 where
  pending picked implementing reviewing done failed : Status
  other : String → Status

-- Go's `==` on the strings.
unfoldable pub same : Status → Status → Bool
same pending pending = true
same picked picked = true
same implementing implementing = true
same reviewing reviewing = true
same done done = true
same failed failed = true
same (other s) (other t) = str_eq s t
same _ _ = false

unfoldable pub is_valid : Status → Bool
is_valid (other _) = false
is_valid _ = true

-- The map of the valid transitions: `none` where the key is missing.
unfoldable pub valid_transitions : Status → Option (List Status)
valid_transitions pending = some (picked ∷ [])
valid_transitions picked = some (implementing ∷ pending ∷ [])
valid_transitions implementing = some (reviewing ∷ done ∷ failed ∷ pending ∷ [])
valid_transitions reviewing = some (done ∷ implementing ∷ failed ∷ [])
valid_transitions done = some []
valid_transitions failed = some (pending ∷ [])
valid_transitions (other _) = none

unfoldable pub can_transition_to : Status → Status → Bool
unfolding same valid_transitions
can_transition_to s next = elim (valid_transitions s) [
  | none ↦ false
  | some allowed ↦ any (λ allowed_status. same allowed_status next) allowed
]
