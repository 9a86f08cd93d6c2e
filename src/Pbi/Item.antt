-- ===== src/Pbi/Item.antt =====
-- internal/domain/model/pbi/pbi.go. The clock is the argument `now`.
use deespec.Base.{ℕ, String, Bool, true, false, not, ◌||◌, Result, ok, err, str_eq, if◌then◌else◌}
use deespec.Base.Int.{ℤ, pos, ltb_ℤ}

-- `other` is a text that is none of the constants.
pub data Status : Type 0 where
  pending planning planed in_progress done failed : Status
  other : String → Status

unfoldable pub is_valid : Status → Bool
is_valid (other _) = false
is_valid _ = true

abbrev pub normal : ℤ
normal = pos 0

abbrev pub urgent : ℤ
urgent = pos 2

pub record Pbi : Type 0 where
  pub id : String
  pub title : String
  pub status : Status
  pub estimated_story_points : ℤ
  pub priority : ℤ
  pub parent_epic_id : String
  pub created_at : ℕ
  pub updated_at : ℕ

pub data PbiError : Type 0 where
  title_required bad_story_points bad_priority : PbiError
  invalid_status : Status → PbiError

unfoldable pub new_pbi : String → ℕ → Pbi
new_pbi title now = record {
  id = "";
  title = title;
  status = pending;
  estimated_story_points = pos 0;
  priority = normal;
  parent_epic_id = "";
  created_at = now;
  updated_at = now;
}

unfoldable pub validate : Pbi → Result PbiError (Unit {0})
unfolding is_valid
validate p =
    if str_eq p.title ""
    then err title_required
    else if ltb_ℤ p.estimated_story_points (pos 0) || ltb_ℤ (pos 13) p.estimated_story_points
    then err bad_story_points
    else if ltb_ℤ p.priority normal || ltb_ℤ urgent p.priority
    then err bad_priority
    else if not (is_valid p.status)
    then err (invalid_status p.status)
    else ok tt

unfoldable pub update_pbi_status : Pbi → Status → ℕ → Result PbiError Pbi
unfolding is_valid
update_pbi_status p new_status now =
    if not (is_valid new_status)
    then err (invalid_status new_status)
    else ok (record p { status = new_status; updated_at = now })

unfoldable pub update_pbi_title : Pbi → String → ℕ → Result PbiError Pbi
update_pbi_title p new_title now =
    if str_eq new_title ""
    then err title_required
    else ok (record p { title = new_title; updated_at = now })

unfoldable pub is_pbi_completed : Pbi → Bool
is_pbi_completed p = elim p.status [ done ↦ true | _ ↦ false ]

unfoldable pub is_pbi_pending : Pbi → Bool
is_pbi_pending p = elim p.status [ pending ↦ true | _ ↦ false ]

unfoldable pub is_pbi_in_progress : Pbi → Bool
is_pbi_in_progress p = elim p.status [ in_progress ↦ true | _ ↦ false ]
