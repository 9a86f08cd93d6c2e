-- ===== src/Register/Config.antt =====
-- internal/application/usecase/register_sbi_usecase.go and register_sbi_usecase_helpers.go: the
-- configuration that a registration works with, resolved from defaults, policy and flags. A limit of
-- the configuration is a positive default or a positive value of the policy, so it is a number.
use deespec.Base.{
  ℕ, ◌*◌, String, Bool, true, false, not, ◌&&◌, ◌||◌, str_eq, leb, ltb, Option, some, none, Result,
  ok, err, ◌>>=◌, if◌then◌else◌,
}
use deespec.Base.Int.{ℤ, pos, ltb_ℤ, pos_part}
use deespec.Register.Policy.{RegisterPolicy}

-- A compiled pattern is its text.
pub record ResolvedConfig : Type 0 where
  pub collision_mode : String
  pub input_source : String
  pub input_bytes : ℕ
  pub input_max_bytes : ℕ
  pub id_max_len : ℕ
  pub id_pattern : Option String
  pub title_max_len : ℕ
  pub title_deny_empty : Bool
  pub label_max_count : ℕ
  pub labels_pattern : Option String
  pub labels_warn_on_duplicates : Bool
  pub path_max_bytes : ℕ
  pub path_base_dir : String
  pub deny_symlinks : Bool
  pub enforce_containment : Bool
  pub slug_nfkc : Bool
  pub slug_lowercase : Bool
  pub slug_allow : String
  pub slug_max_runes : ℕ
  pub slug_fallback : String
  pub slug_windows_reserved_suffix : String
  pub slug_trim_trailing_dot_space : Bool
  pub collision_suffix_limit : ℕ
  pub stderr_level : String
  pub journal_record_source : Bool
  pub journal_record_input_bytes : Bool

pub data ConfigError : Type 0 where
  invalid_collision_mode invalid_stderr_level : String → ConfigError

-- The defaults of the method, which leaves out the checks of an empty title and of duplicate labels.
unfoldable pub default_config : ResolvedConfig
default_config = record {
  collision_mode = "error";
  input_source = "";
  input_bytes = 0;
  input_max_bytes = 64 * 1024;
  id_max_len = 64;
  id_pattern = none;
  title_max_len = 200;
  title_deny_empty = false;
  label_max_count = 32;
  labels_pattern = none;
  labels_warn_on_duplicates = false;
  path_max_bytes = 240;
  path_base_dir = ".deespec/specs/sbi";
  deny_symlinks = true;
  enforce_containment = true;
  slug_nfkc = true;
  slug_lowercase = true;
  slug_allow = "a-z0-9-";
  slug_max_runes = 60;
  slug_fallback = "untitled";
  slug_windows_reserved_suffix = "_spec";
  slug_trim_trailing_dot_space = true;
  collision_suffix_limit = 100;
  stderr_level = "info";
  journal_record_source = true;
  journal_record_input_bytes = true;
}

-- The defaults of the function for the command line.
unfoldable pub default_cli_config : ResolvedConfig
unfolding default_config
default_cli_config = record default_config {
  title_deny_empty = true;
  labels_warn_on_duplicates = true;
}

-- if value > 0 { limit = value }
unfoldable pub limit_or : ℤ → ℕ → ℕ
limit_or value limit = if ltb_ℤ (pos 0) value then pos_part value else limit

-- if value != "" { text = value }
unfoldable pub text_or : String → String → String
text_or value text = if not (str_eq value "") then value else text

unfoldable pub apply_policy : RegisterPolicy → ResolvedConfig → ResolvedConfig
unfolding limit_or text_or
apply_policy policy config = record config {
  id_max_len = limit_or policy.id.max_len config.id_max_len;
  title_max_len = limit_or policy.title.max_len config.title_max_len;
  label_max_count = limit_or policy.labels.max_count config.label_max_count;
  input_max_bytes =
      if ltb_ℤ (pos 0) policy.max_kb then pos_part policy.max_kb * 1024 else config.input_max_bytes;
  path_base_dir = text_or policy.path.base_dir config.path_base_dir;
  path_max_bytes = limit_or policy.path.max_bytes config.path_max_bytes;
  deny_symlinks = policy.path.deny_symlink_components;
  enforce_containment = policy.path.enforce_containment;
  slug_allow = text_or policy.slug.allow config.slug_allow;
  slug_max_runes = limit_or policy.slug.max_runes config.slug_max_runes;
  slug_fallback = text_or policy.slug.fallback config.slug_fallback;
  slug_windows_reserved_suffix =
      text_or policy.slug.windows_reserved_suffix config.slug_windows_reserved_suffix;
  slug_nfkc = policy.slug.nfkc;
  slug_lowercase = policy.slug.lowercase;
  slug_trim_trailing_dot_space = policy.slug.trim_trailing_dot_space;
  collision_mode = text_or policy.collision.default_mode config.collision_mode;
  collision_suffix_limit = limit_or policy.collision.suffix_limit config.collision_suffix_limit;
  stderr_level = text_or policy.stderr_level_default config.stderr_level;
  journal_record_source = policy.journal.record_source;
  journal_record_input_bytes = policy.journal.record_input_bytes;
}

unfoldable pub compiled_or : (String → Bool) → String → Option String → Option String
compiled_or compiles value pattern =
    if not (str_eq value "") && compiles value then some value else pattern

-- The same part of the function ResolveConfig.
unfoldable pub apply_cli_policy : (String → Bool) → RegisterPolicy → ResolvedConfig → ResolvedConfig
unfolding limit_or text_or compiled_or
apply_cli_policy compiles policy config = record config {
  id_max_len = limit_or policy.id.max_len config.id_max_len;
  id_pattern = compiled_or compiles policy.id.pattern config.id_pattern;
  title_max_len = limit_or policy.title.max_len config.title_max_len;
  title_deny_empty = policy.title.deny_empty;
  label_max_count = limit_or policy.labels.max_count config.label_max_count;
  labels_pattern = compiled_or compiles policy.labels.pattern config.labels_pattern;
  labels_warn_on_duplicates = policy.labels.warn_on_duplicates;
  input_max_bytes =
      if ltb_ℤ (pos 0) policy.max_kb then pos_part policy.max_kb * 1024 else config.input_max_bytes;
  path_base_dir = text_or policy.path.base_dir config.path_base_dir;
  path_max_bytes = limit_or policy.path.max_bytes config.path_max_bytes;
  deny_symlinks = policy.path.deny_symlink_components;
  enforce_containment = policy.path.enforce_containment;
  slug_allow = text_or policy.slug.allow config.slug_allow;
  slug_max_runes = limit_or policy.slug.max_runes config.slug_max_runes;
  slug_fallback = text_or policy.slug.fallback config.slug_fallback;
  slug_windows_reserved_suffix =
      text_or policy.slug.windows_reserved_suffix config.slug_windows_reserved_suffix;
  slug_nfkc = policy.slug.nfkc;
  slug_lowercase = policy.slug.lowercase;
  slug_trim_trailing_dot_space = policy.slug.trim_trailing_dot_space;
  collision_mode = text_or policy.collision.default_mode config.collision_mode;
  collision_suffix_limit = limit_or policy.collision.suffix_limit config.collision_suffix_limit;
  stderr_level = text_or policy.stderr_level_default config.stderr_level;
  journal_record_source = policy.journal.record_source;
  journal_record_input_bytes = policy.journal.record_input_bytes;
}

unfoldable pub set_collision_mode : String → ResolvedConfig → Result ConfigError ResolvedConfig
set_collision_mode mode config =
    if str_eq mode ""
    then ok config
    else if not (str_eq mode "error") && not (str_eq mode "suffix") && not (str_eq mode "replace")
    then err (invalid_collision_mode mode)
    else ok (record config { collision_mode = mode })

unfoldable pub is_level : String → Bool
is_level level =
    str_eq level "off"
    || str_eq level "error"
    || str_eq level "warn"
    || str_eq level "info"
    || str_eq level "debug"

unfoldable pub set_stderr_level : String → ResolvedConfig → Result ConfigError ResolvedConfig
unfolding is_level
set_stderr_level level config =
    if str_eq level ""
    then ok config
    else if not (is_level level)
    then err (invalid_stderr_level level)
    else ok (record config { stderr_level = level })

-- The method resolveConfig.
unfoldable pub resolve_config :
    String → String → Option RegisterPolicy → Result ConfigError ResolvedConfig
unfolding set_collision_mode set_stderr_level apply_policy
resolve_config on_collision stderr_level policy =
    let config : ResolvedConfig = elim policy [
      | none ↦ default_config
      | some p ↦ apply_policy p default_config
    ] in
    set_collision_mode on_collision config >>= set_stderr_level stderr_level

-- The function ResolveConfig.
unfoldable pub resolve_cli_config :
    (String → Bool) → String → String → Option RegisterPolicy → Result ConfigError ResolvedConfig
unfolding set_collision_mode set_stderr_level apply_cli_policy
resolve_cli_config compiles on_collision stderr_level policy =
    let config : ResolvedConfig = elim policy [
      | none ↦ default_cli_config
      | some p ↦ apply_cli_policy compiles p default_cli_config
    ] in
    set_collision_mode on_collision config >>= set_stderr_level stderr_level

-- levels[level], which is 0 for a missing key.
unfoldable pub level_of : String → ℕ
level_of level =
    if str_eq level "error"
    then 1
    else if str_eq level "warn"
    then 2
    else if str_eq level "info"
    then 3
    else if str_eq level "debug"
    then 4
    else 0

unfoldable pub should_log : ResolvedConfig → String → Bool
unfolding level_of
should_log config level =
    ltb 0 (level_of level) && leb (level_of level) (level_of config.stderr_level)
