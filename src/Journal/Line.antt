-- ===== src/Journal/Line.antt =====
-- internal/validator/journal/types.go and the checks of the fields in validator.go beside it. What
-- encoding/json and time.Parse make of a text is an argument. The texts of messages are constructors.
use Prim.Native.Char.{code}
use deespec.Base.{
  ℕ, suc, String, Bool, true, false, not, ◌&&◌, Option, some, none, List, [], ◌∷◌, ◌++◌, any, ◌==◌,
  str_eq, if◌then◌else◌,
}
use deespec.Base.Int.{ℤ, pos, negsuc, leb_ℤ, ltb_ℤ}
use deespec.Base.Text.{◌<>◌, decimal}
use deespec.Continuous.Errors.{contains}

-- An element of the artifacts: a text, an object, or another value of JSON.
pub data Artifact : Type 0 where
  text : String → Artifact
  object another : Artifact

-- `artifacts` is none for null.
pub record JournalEntry : Type 0 where
  pub timestamp : String
  pub turn : ℤ
  pub step : String
  pub decision : String
  pub elapsed_ms : ℤ
  pub error : String
  pub artifacts : Option (List Artifact)

-- The issues by their messages; all are errors but for a turn that decreased, which is a warning.
pub data Issue : Type 0 where
  invalid_json type_validation_failed : Issue
  wrong_key_count : ℕ → Issue
  missing_key : String → Issue
  empty_timestamp not_utc invalid_timestamp : Issue
  negative_turn : Issue
  turn_decreased : ℤ → ℤ → Issue
  invalid_step invalid_decision : String → Issue
  negative_elapsed_ms artifacts_nil : Issue
  invalid_artifact : ℕ → Issue
  no_matching_artifact : ℤ → Issue

abbrev pub is_warning : Issue → Bool
is_warning (turn_decreased _ _) = true
is_warning _ = false

abbrev pub is_error : Issue → Bool
is_error issue = not (is_warning issue)

abbrev pub valid_steps : List String
valid_steps = "plan" ∷ "implement" ∷ "test" ∷ "review" ∷ "done" ∷ []

abbrev pub valid_decisions : List String
valid_decisions = "OK" ∷ "NEEDS_CHANGES" ∷ "PENDING" ∷ []

abbrev pub required_keys : List String
required_keys = "ts" ∷ "turn" ∷ "step" ∷ "decision" ∷ "elapsed_ms" ∷ "error" ∷ "artifacts" ∷ []

-- strings.HasSuffix(ts, "Z")
unfoldable pub ends_with_z : String → Bool
ends_with_z String.[] = false
ends_with_z (String.◌∷◌ c String.[]) = code c == 90
ends_with_z (String.◌∷◌ c (String.◌∷◌ d s)) = ends_with_z (String.◌∷◌ d s)

unfoldable pub validate_timestamp : (String → Bool) → String → List Issue
unfolding ends_with_z
validate_timestamp parses ts =
    if str_eq ts ""
    then empty_timestamp ∷ []
    else (if not (ends_with_z ts) then not_utc ∷ [] else [])
      ++ (if parses ts then [] else invalid_timestamp ∷ [])

-- The issues, and the turn that the validator remembers.
unfoldable pub validate_turn : ℤ → ℤ → List Issue × ℤ
validate_turn previous turn =
    if ltb_ℤ turn (pos 0)
    then (negative_turn ∷ [], previous)
    else if leb_ℤ (pos 0) previous && ltb_ℤ turn previous
    then (turn_decreased previous turn ∷ [], turn)
    else ([], turn)

unfoldable pub validate_step : String → List Issue
validate_step step = if any (str_eq step) valid_steps then [] else invalid_step step ∷ []

unfoldable pub validate_decision : String → List Issue
validate_decision decision =
    if any (str_eq decision) valid_decisions then [] else invalid_decision decision ∷ []

unfoldable pub validate_elapsed_ms : ℤ → List Issue
validate_elapsed_ms elapsed_ms = if ltb_ℤ elapsed_ms (pos 0) then negative_elapsed_ms ∷ [] else []

abbrev pub decimal_ℤ : ℤ → String
decimal_ℤ (pos n) = decimal n
decimal_ℤ (negsuc n) = "-" <> decimal (suc n)

abbrev pub matches : String → Artifact → Bool
matches pattern_ (text path) = contains path pattern_
matches pattern_ object = false
matches pattern_ another = false

abbrev pub is_text : Artifact → Bool
is_text (text _) = true
is_text object = false
is_text another = false

abbrev pub allowed : Artifact → Bool
allowed another = false
allowed (text _) = true
allowed object = true

-- The issues of the elements from a place on.
unfoldable pub validate_elements : ℕ → List Artifact → List Issue
validate_elements place [] = []
validate_elements place (artifact ∷ artifacts) =
    let rest = validate_elements (suc place) artifacts in
    if allowed artifact then rest else invalid_artifact place ∷ rest

unfoldable pub validate_artifacts : Option (List Artifact) → ℤ → List Issue
unfolding validate_elements contains
validate_artifacts none turn = artifacts_nil ∷ []
validate_artifacts (some artifacts) turn =
    validate_elements 0 artifacts
    ++ (if any is_text artifacts && not (any (matches ("/turn" <> decimal_ℤ turn <> "/")) artifacts)
        then no_matching_artifact turn ∷ []
        else [])
