-- ===== src/Register/Policy.antt =====
-- internal/application/usecase/register_sbi_usecase.go and register_sbi_usecase_helpers.go: the policy
-- of registrations and its validation. Whether a pattern compiles is the regular expressions' answer,
-- an argument.
use deespec.Base.{String, Bool, true, false, not, ◌&&◌, str_eq, Result, ok, err, if◌then◌else◌}
use deespec.Base.Int.{ℤ, pos, ltb_ℤ}

pub record IdPolicy : Type 0 where
  pub pattern : String
  pub max_len : ℤ

pub record TitlePolicy : Type 0 where
  pub max_len : ℤ
  pub deny_empty : Bool

pub record LabelsPolicy : Type 0 where
  pub pattern : String
  pub max_count : ℤ
  pub warn_on_duplicates : Bool

pub record SlugPolicy : Type 0 where
  pub nfkc : Bool
  pub lowercase : Bool
  pub allow : String
  pub max_runes : ℤ
  pub fallback : String
  pub windows_reserved_suffix : String
  pub trim_trailing_dot_space : Bool

pub record PathPolicy : Type 0 where
  pub base_dir : String
  pub max_bytes : ℤ
  pub deny_symlink_components : Bool
  pub enforce_containment : Bool

pub record CollisionPolicy : Type 0 where
  pub default_mode : String
  pub suffix_limit : ℤ

pub record JournalPolicy : Type 0 where
  pub record_source : Bool
  pub record_input_bytes : Bool

pub record RegisterPolicy : Type 0 where
  pub id : IdPolicy
  pub title : TitlePolicy
  pub labels : LabelsPolicy
  pub max_kb : ℤ
  pub slug : SlugPolicy
  pub path : PathPolicy
  pub collision : CollisionPolicy
  pub journal : JournalPolicy
  pub stderr_level_default : String

pub data PolicyError : Type 0 where
  invalid_id_pattern id_max_len_unsafe title_max_len_unsafe labels_max_count_unsafe : PolicyError
  input_max_kb_unsafe path_max_bytes_unsafe suffix_limit_unsafe : PolicyError

-- value > 0 && value > limit
unfoldable pub exceeds : ℤ → ℤ → Bool
exceeds limit value = ltb_ℤ (pos 0) value && ltb_ℤ limit value

module _ (compiles : String → Bool) where
  -- ValidatePolicy; the method validatePolicy has the same body.
  unfoldable pub validate_policy : RegisterPolicy → Result PolicyError (Unit {0})
  unfolding exceeds
  validate_policy p =
      if not (str_eq p.id.pattern "") && not (compiles p.id.pattern)
      then err invalid_id_pattern
      else if exceeds (pos 256) p.id.max_len
      then err id_max_len_unsafe
      else if exceeds (pos 1024) p.title.max_len
      then err title_max_len_unsafe
      else if exceeds (pos 128) p.labels.max_count
      then err labels_max_count_unsafe
      else if exceeds (pos 1024) p.max_kb
      then err input_max_kb_unsafe
      else if exceeds (pos 512) p.path.max_bytes
      then err path_max_bytes_unsafe
      else if exceeds (pos 1000) p.collision.suffix_limit
      then err suffix_limit_unsafe
      else ok tt

unfoldable pub get_default_register_policy : RegisterPolicy
get_default_register_policy = record {
  id = record { pattern = "^[A-Z0-9-]{1,64}$"; max_len = pos 64 };
  title = record { max_len = pos 200; deny_empty = true };
  labels = record { pattern = "^[a-z0-9-]+$"; max_count = pos 32; warn_on_duplicates = true };
  max_kb = pos 64;
  slug = record {
    nfkc = true;
    lowercase = true;
    allow = "a-z0-9-";
    max_runes = pos 60;
    fallback = "spec";
    windows_reserved_suffix = "-x";
    trim_trailing_dot_space = true;
  };
  path = record {
    base_dir = ".deespec/specs/sbi";
    max_bytes = pos 240;
    deny_symlink_components = true;
    enforce_containment = true;
  };
  collision = record { default_mode = "error"; suffix_limit = pos 99 };
  journal = record { record_source = false; record_input_bytes = false };
  stderr_level_default = "warn";
}
