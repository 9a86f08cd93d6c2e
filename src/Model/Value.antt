-- ===== src/Model/Value.antt =====
-- internal/domain/model/value_object.go: the task type, the workflow step, and the counters of turns
-- and attempts. A counter holds no negative number: the constructors refuse them, and the
-- operations only add one. That an `int` wraps round after 2^63 increments is left out.
use deespec.Base.{ℕ, ◌+◌, String, Bool, true, false, Result, ok, err, if◌then◌else◌, str_eq}
use deespec.Base.Int.{ℤ, pos, ltb_ℤ, pos_part}

pub data TaskType : Type 0 where
  epic pbi sbi : TaskType
  other : String → TaskType

unfoldable pub is_valid_type : TaskType → Bool
is_valid_type (other _) = false
is_valid_type _ = true

pub data Step : Type 0 where
  pick implement review done : Step
  other : String → Step

unfoldable pub is_valid_step : Step → Bool
is_valid_step (other _) = false
is_valid_step _ = true

pub data ValueError : Type 0 where
  empty_task_id negative_turn attempt_below_one : ValueError

unfoldable pub new_task_id_from_string : String → Result ValueError String
new_task_id_from_string id = if str_eq id "" then err empty_task_id else ok id

pub record Turn : Type 0 where
  pub value : ℕ

unfoldable pub new_turn : Turn
new_turn = record { value = 0 }

unfoldable pub new_turn_from_int : ℤ → Result ValueError Turn
new_turn_from_int value =
    if ltb_ℤ value (pos 0) then err negative_turn else ok (record { value = pos_part value })

unfoldable pub increment_turn : Turn → Turn
increment_turn t = record { value = t.value + 1 }

pub record Attempt : Type 0 where
  pub value : ℕ

unfoldable pub new_attempt : Attempt
new_attempt = record { value = 1 }

unfoldable pub new_attempt_from_int : ℤ → Result ValueError Attempt
new_attempt_from_int value =
    if ltb_ℤ value (pos 1) then err attempt_below_one else ok (record { value = pos_part value })

unfoldable pub increment_attempt : Attempt → Attempt
increment_attempt a = record { value = a.value + 1 }
