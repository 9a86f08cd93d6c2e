-- ===== src/Register/Tests.antt =====
-- The theorems about registrations at concrete inputs.
use deespec.Base.{
  ℕ, ◌+◌, ◌≡◌, ◌≤◌, refl, ◌⊎◌, ◌>>=◌, leb, ◌==◌, ◌&&◌, ◌||◌, String, Bool, true, false, Option,
  some, none, List, [], ◌∷◌, Result, ok, err, if◌then◌else◌, arith,
}
use deespec.Base.Int.{pos}
use deespec.Register.Policy.{get_default_register_policy, validate_policy}
use deespec.Register.Config.{
  ResolvedConfig, default_config, text_or, resolve_config, resolve_cli_config, apply_policy,
  set_collision_mode, set_stderr_level,
}
use deespec.Register.Limits.{IsBounded, IsSafe, policy_mode, resolve_config-IsBounded}
use deespec.Register.Resolvers.{with_checks, resolve_cli_config-resolve_config}
use deespec.Register.Runes.{Runes, runes}
use deespec.Register.Slug.{TextRules, dot, slugify_title}
use deespec.Register.Slugs.{HasCleanTexts, IsSlug, slugify_title-IsSlug}
use deespec.Register.Validation.{RegisterSpec, new_register_validation_service, validate_spec}
use deespec.Register.Accepted.{Judges, validate_spec-Judges}
use deespec.Register.Paths.{Presence, build_spec_path, resolve_collision}
use deespec.Register.Collisions.{Resolves, resolve_collision-Resolves}
use deespec.Register.Input.{
  RegisterSbiInput, Reading, read_failed, is_dangerous, read_input, decode_spec,
  get_next_turn_number,
}
use deespec.Register.Reads.{Reads, read_input-Reads, read_input-partial}
use deespec.Register.Execute.{JournalEntry, Plan, Setting, PolicyFile, execute_registration}
use deespec.Register.Outcome.{IsPrepared, Answers, execute_registration_outcome}

abbrev all_compile : String → Bool
all_compile pattern = true

abbrev chosen : ResolvedConfig
unfolding default_config apply_policy get_default_register_policy
chosen = record (apply_policy get_default_register_policy default_config) {
  collision_mode = "suffix";
}

default_IsSafe : IsSafe all_compile (some get_default_register_policy)
unfolding validate_policy get_default_register_policy
default_IsSafe = refl

chosen_resolved : resolve_config "suffix" "" (some get_default_register_policy) ≡ ok chosen
unfolding resolve_config set_collision_mode set_stderr_level chosen apply_policy
    get_default_register_policy default_config
chosen_resolved = refl

resolve_config-IsBounded_example :
    IsBounded chosen
    × (chosen.collision_mode ≡ text_or "suffix" (policy_mode (some get_default_register_policy)))
resolve_config-IsBounded_example =
    resolve_config-IsBounded all_compile "suffix" "" (some get_default_register_policy) chosen
      default_IsSafe chosen_resolved

resolve_cli_config-resolve_config_example :
    resolve_cli_config all_compile "replace" "loud" (some get_default_register_policy) ≡ (
      resolve_config "replace" "loud" (some get_default_register_policy) >>= λ config.
      ok (with_checks all_compile (some get_default_register_policy) config))
resolve_cli_config-resolve_config_example =
    resolve_cli_config-resolve_config all_compile "replace" "loud"
      (some get_default_register_policy)

abbrev in_slug : ℕ → Bool
in_slug c = (leb b'a' c && leb c b'z') || (leb b'0' c && leb c b'9') || (c == b'-')

abbrev lower_ascii : ℕ → ℕ
lower_ascii c = if leb b'A' c && leb c b'Z' then c + 32 else c

abbrev ascii : TextRules
ascii = record { nfkc = λ s. s; lower = lower_ascii; class_of = λ class. some in_slug }

lower_ascii-dot : (c : ℕ) → lower_ascii c ≡ dot → c ≡ dot
lower_ascii-dot c h = ground arith

-- The configuration of the default policy; the suffix "_spec" of the defaults has a low line, which the
-- default class does not allow.
abbrev suffixed_x : ResolvedConfig
unfolding default_config
suffixed_x = record default_config { slug_windows_reserved_suffix = "-x" }

clean_texts : HasCleanTexts suffixed_x in_slug
unfolding suffixed_x default_config
clean_texts = ground arith

slugify_title-IsSlug_example :
    (slug : Runes) × (slugify_title ascii suffixed_x "CON" ≡ some slug)
    × IsSlug ascii suffixed_x in_slug slug
slugify_title-IsSlug_example =
    slugify_title-IsSlug ascii suffixed_x in_slug "CON" lower_ascii-dot refl clean_texts

-- The suffix keeps a title away from a reserved name.
reserved_title : slugify_title ascii default_config "CON" ≡ some (runes "con_spec")
unfolding slugify_title default_config
reserved_title = refl

-- A cut slug can end with the hyphen that was trimmed before.
cut_title :
    slugify_title ascii (record default_config { slug_max_runes = 4 }) "add ids"
    ≡ some (runes "add-")
unfolding slugify_title default_config
cut_title = refl

abbrev labelled : RegisterSpec
labelled = record { id = "SBI-7"; title = "Add ids"; labels = "api" ∷ "api" ∷ [] }

validate_spec-Judges_example :
    Judges labelled (validate_spec new_register_validation_service labelled)
validate_spec-Judges_example = validate_spec-Judges labelled

abbrev spec_path : Runes
spec_path = runes ".deespec/specs/sbi/SBI-7_add-ids"

-- The path and the one with the number 1 are taken.
abbrev stat_two : Runes → Presence
stat_two [] = Presence.missing
stat_two (c ∷ s) = Presence.present

resolve_collision-Resolves_example :
    Resolves stat_two spec_path
      (record chosen { collision_mode = "suffix" })
      (resolve_collision stat_two spec_path (record chosen { collision_mode = "suffix" }))
resolve_collision-Resolves_example =
    resolve_collision-Resolves stat_two spec_path (record chosen { collision_mode = "suffix" })

abbrev from_file : RegisterSbiInput
from_file = record {
  use_stdin = false;
  file_path = "specs/one.yml";
  input_data = [];
  on_collision = "";
  stderr_level = "";
  dry_run = false;
}

abbrev breaking : ℕ → List ℕ × Option String
breaking limit = (1 ∷ 2 ∷ [], some "input/output error")

abbrev broken_file : Reading
broken_file = record { stdin = breaking; open_file = λ path. some breaking }

read_input-Reads_example :
    Reads false broken_file from_file default_config
      (read_input false broken_file from_file default_config)
read_input-Reads_example = read_input-Reads false broken_file from_file default_config

path_allowed : is_dangerous "specs/one.yml" ≡ false
unfolding is_dangerous
path_allowed = refl

two_fit : 2 ≤ default_config.input_max_bytes
unfolding default_config
two_fit = omega arith

read_input-partial_example :
    (read_input false broken_file from_file default_config
      ≡ ok (1 ∷ 2 ∷ [], record default_config { input_source = "file"; input_bytes = 2 }))
    × (read_input false broken_file (record from_file { use_stdin = true }) default_config
        ≡ err (read_failed "input/output error"))
read_input-partial_example =
    read_input-partial false broken_file from_file default_config breaking 1 (2 ∷ [])
      "input/output error" refl refl path_allowed refl refl refl two_fit

abbrev one_spec : List ℕ → Result String RegisterSpec
one_spec bytes = ok labelled

abbrev here : Setting
here = record {
  policy_file = PolicyFile.absent;
  compiles = all_compile;
  test_mode = false;
  reading = broken_file;
  decoders = record { trim_space = λ s. s; lower = lower_ascii; json = one_spec; yaml = one_spec };
  service = new_register_validation_service;
  rules = ascii;
  files = record {
    join = λ base name. name;
    abs = λ path. some path;
    rel = λ base path. some path;
    parts = λ path. path ∷ [];
    stat = λ path. Presence.missing;
    lstat = λ path. Presence.missing;
  };
  journal = some (some (pos 4) ∷ none ∷ []);
}

abbrev count_entries : RegisterSpec → Runes → JournalEntry → ℕ → Option String × ℕ
count_entries spec path entry n = (none, n + 1)

execute_registration_outcome_example :
    (((execute_registration here count_entries from_file 0).1 ≡ 0)
      × ((execute_registration here count_entries from_file 0).0.succeeded ≡ false))
    ⊎ ((p : Plan) × IsPrepared here from_file p
        × Answers p
            (count_entries p.spec p.output.spec_path p.entry 0)
            (execute_registration here count_entries from_file 0))
execute_registration_outcome_example = execute_registration_outcome here count_entries from_file 0

-- This registration succeeds, with turn 5.
registered :
    ◌≡◌ {A = Bool × ℕ × ℕ}
      (
        (execute_registration here count_entries from_file 0).0.succeeded,
        (execute_registration here count_entries from_file 0).0.turn,
        (execute_registration here count_entries from_file 0).1,
      )
      (true, 5, 1)
unfolding execute_registration resolve_config read_input default_config decode_spec validate_spec
    new_register_validation_service build_spec_path slugify_title resolve_collision
    get_next_turn_number
registered = refl
