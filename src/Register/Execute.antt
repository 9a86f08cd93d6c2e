-- ===== src/Register/Execute.antt =====
-- internal/application/usecase/register_sbi_usecase.go: Execute. The transaction, with the states of
-- what it writes, is an argument. A class of runes that does not compile makes the source panic; here
-- it is a failure of the path. Times of the journal's entries are left out.
use deespec.Base.{
  ℕ, String, Bool, true, false, Option, some, none, List, [], ◌∷◌, ◌++◌, map, Result, ok, err,
  ◌>>=◌, if◌then◌else◌,
}
use deespec.Base.Int.{ℤ}
use deespec.Register.Policy.{RegisterPolicy, PolicyError, validate_policy}
use deespec.Register.Config.{ResolvedConfig, ConfigError, resolve_config}
use deespec.Register.Runes.{Runes}
use deespec.Register.Slug.{TextRules}
use deespec.Register.Validation.{
  RegisterSpec, RegisterValidationService, SpecError, SpecWarning, validate_spec,
}
use deespec.Register.Paths.{
  Files, PathError, build_spec_path, CollisionWarning, CollisionError, resolve_collision,
}
use deespec.Register.Input.{
  RegisterSbiInput, Reading, InputError, read_input, Decoders, decode_spec, get_next_turn_number,
}

pub data PolicyFile : Type 0 where
  absent unreadable malformed : PolicyFile
  parsed : RegisterPolicy → PolicyFile

pub data LoadError : Type 0 where
  policy_unreadable policy_malformed : LoadError
  policy_invalid : PolicyError → LoadError

pub data Failure : Type 0 where
  policy_failed : LoadError → Failure
  config_failed : ConfigError → Failure
  input_failed : InputError → Failure
  decode_failed transaction_failed : String → Failure
  spec_failed : SpecError → Failure
  path_failed : PathError → Failure
  collision_failed : CollisionError → Failure

pub data Warning : Type 0 where
  of_spec : SpecWarning → Warning
  of_collision : CollisionWarning → Warning

pub record RegisterSbiOutput : Type 0 where
  pub succeeded : Bool
  pub id : String
  pub spec_path : Runes
  pub warnings : List Warning
  pub failure : Option Failure
  pub turn : ℕ

pub record JournalEntry : Type 0 where
  pub turn : ℕ
  pub id : String
  pub title : String
  pub spec_path : Runes
  pub input_source : Option String
  pub input_bytes : Option ℕ

pub record Plan : Type 0 where
  pub spec : RegisterSpec
  pub output : RegisterSbiOutput
  pub entry : JournalEntry

-- What a registration finds.
pub record Setting : Type 0 where
  pub policy_file : PolicyFile
  pub compiles : String → Bool
  pub test_mode : Bool
  pub reading : Reading
  pub decoders : Decoders
  pub service : RegisterValidationService
  pub rules : TextRules
  pub files : Files
  pub journal : Option (List (Option ℤ))

unfoldable pub load_policy : (String → Bool) → PolicyFile → Result LoadError (Option RegisterPolicy)
load_policy compiles absent = ok none
load_policy compiles unreadable = err policy_unreadable
load_policy compiles malformed = err policy_malformed
load_policy compiles (parsed policy) = elim (validate_policy compiles policy) [
  | err failure ↦ err (policy_invalid failure)
  | ok _ ↦ ok (some policy)
]

-- The output of a registration that has failed.
unfoldable pub failed : String → Failure → RegisterSbiOutput
failed id failure = record {
  succeeded = false;
  id = id;
  spec_path = [];
  warnings = [];
  failure = some failure;
  turn = 0;
}

-- if err != nil { return &dto.RegisterSBIOutput{...}, nil }
abbrev pub or_failed {ℓ κ} :
    {E : Type ℓ} {A : Type κ} → String → (E → Failure) → Result E A → Result RegisterSbiOutput A
or_failed id failure (err e) = err (failed id (failure e))
or_failed id failure (ok a) = ok a

unfoldable pub collision_warnings : Option CollisionWarning → List Warning
collision_warnings none = []
collision_warnings (some warning) = of_collision warning ∷ []

unfoldable pub build_journal_entry : RegisterSpec → Runes → ResolvedConfig → ℕ → JournalEntry
build_journal_entry spec spec_path config turn = record {
  turn = turn;
  id = spec.id;
  title = spec.title;
  spec_path = spec_path;
  input_source = if config.journal_record_source then some config.input_source else none;
  input_bytes = if config.journal_record_input_bytes then some config.input_bytes else none;
}

module _ (setting : Setting) where
  unfoldable pub checked_spec : RegisterSpec → Result RegisterSbiOutput (List SpecWarning)
  unfolding failed
  checked_spec spec =
      let result = validate_spec setting.service spec in
      elim result.failure [
        | some failure ↦ err (failed spec.id (spec_failed failure))
        | none ↦ ok result.warnings
      ]

  -- The output, and the entry of the journal, for a path that is found.
  unfoldable pub planned :
      RegisterSpec → ResolvedConfig → List SpecWarning → Runes × Option CollisionWarning → Plan
  unfolding build_journal_entry
  planned spec config warnings (path, warning) =
      let turn = get_next_turn_number setting.journal in
      record {
        spec = spec;
        output = record {
          succeeded = true;
          id = spec.id;
          spec_path = path;
          warnings = map of_spec warnings ++ collision_warnings warning;
          failure = none;
          turn = turn;
        };
        entry = build_journal_entry spec path config turn;
      }

  -- Execute from the checks of the specification up to the transaction.
  unfoldable pub plan : RegisterSpec → ResolvedConfig → Result RegisterSbiOutput Plan
  unfolding checked_spec failed planned
  plan spec config = checked_spec spec >>= λ warnings.
      (or_failed spec.id path_failed
          (build_spec_path setting.files setting.rules config spec.id spec.title)
        >>= λ path.
            (or_failed spec.id collision_failed (resolve_collision setting.files.stat path config)
              >>= λ found. ok (planned spec config warnings found)))

  -- Execute up to the transaction.
  unfoldable pub prepare : RegisterSbiInput → Result RegisterSbiOutput Plan
  unfolding plan load_policy failed
  prepare input =
      or_failed "" policy_failed (load_policy setting.compiles setting.policy_file) >>= λ policy.
      (or_failed "" config_failed (resolve_config input.on_collision input.stderr_level policy)
        >>= λ config.
            (or_failed "" input_failed (read_input setting.test_mode setting.reading input config)
              >>= λ (read : List ℕ × ResolvedConfig).
                  (or_failed "" decode_failed (decode_spec setting.decoders read.0 input.file_path)
                    >>= λ spec. plan spec read.1)))

  module _ {W : Type 0}
      (transaction : RegisterSpec → Runes → JournalEntry → W → Option String × W) where
    unfoldable pub committed : Plan → Option String × W → RegisterSbiOutput × W
    unfolding failed
    committed p (some failure, w) = (failed p.spec.id (transaction_failed failure), w)
    committed p (none, w) = (p.output, w)

    unfoldable pub execute_registration : RegisterSbiInput → W → RegisterSbiOutput × W
    unfolding prepare committed
    execute_registration input w = elim (prepare input) [
      | err output ↦ (output, w)
      | ok p ↦ committed p (transaction p.spec p.output.spec_path p.entry w)
    ]
