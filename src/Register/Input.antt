-- ===== src/Register/Input.antt =====
-- internal/application/usecase/register_sbi_usecase_helpers.go: the reading of the input and its format,
-- and the next turn of the journal. Files, standard input and decoders are arguments.
use deespec.Base.{
  ℕ, ◌+◌, ltb, ◌==◌, ◌&&◌, ◌||◌, not, String, Bool, true, false, str_eq, Option, some, none, List,
  [], ◌∷◌, map, length, Result, ok, err, if◌then◌else◌,
}
use deespec.Base.Int.{ℤ, pos, ltb_ℤ, pos_part}
use deespec.Register.Config.{ResolvedConfig}
use deespec.Register.Runes.{Runes, runes, runes_eq}
use deespec.Register.Validation.{RegisterSpec}
use deespec.Register.Paths.{ext}

pub record RegisterSbiInput : Type 0 where
  pub use_stdin : Bool
  pub file_path : String
  pub input_data : List ℕ
  pub on_collision : String
  pub stderr_level : String
  pub dry_run : Bool

-- The bytes that io.ReadAll gives for at most so many bytes, and its error if it has one; `open` is
-- os.Open, with nothing for an error.
pub record Reading : Type 0 where
  pub stdin : ℕ → List ℕ × Option String
  pub open_file : String → Option (ℕ → List ℕ × Option String)

pub data InputError : Type 0 where
  invalid_file_path open_failed empty_input : InputError
  read_failed : String → InputError
  input_too_large : ℕ → InputError

abbrev pub has_prefix : Runes → Runes → Bool
has_prefix [] s = true
has_prefix (c ∷ p) [] = false
has_prefix (c ∷ p) (d ∷ s) = c == d && has_prefix p s

-- strings.Contains(s, part)
abbrev pub contains : Runes → Runes → Bool
contains part [] = has_prefix part []
contains part (c ∷ s) = has_prefix part (c ∷ s) || contains part s

unfoldable pub is_dangerous : String → Bool
is_dangerous path =
    contains (runes "..") (runes path)
    || (has_prefix (runes "/") (runes path) && not (contains (runes "/tmp/") (runes path)))

-- The end of readInput.
unfoldable pub sized : ResolvedConfig → List ℕ → Result InputError (List ℕ × ResolvedConfig)
sized config [] = err empty_input
sized config (b ∷ bytes) =
    if ltb config.input_max_bytes (length (b ∷ bytes))
    then err (input_too_large config.input_max_bytes)
    else ok (b ∷ bytes, record config { input_bytes = length (b ∷ bytes) })

unfoldable pub sized_stdin :
    ResolvedConfig → List ℕ × Option String → Result InputError (List ℕ × ResolvedConfig)
unfolding sized
sized_stdin config (bytes, some failure) = err (read_failed failure)
sized_stdin config (bytes, none) = sized config bytes

-- The error of reading a file goes to a variable of the inner block, and the test below does not see it.
unfoldable pub sized_file :
    ResolvedConfig → List ℕ × Option String → Result InputError (List ℕ × ResolvedConfig)
unfolding sized
sized_file config (bytes, failure) = sized config bytes

unfoldable pub read_file :
    Bool → Reading → String → ResolvedConfig → Result InputError (List ℕ × ResolvedConfig)
unfolding is_dangerous sized_file
read_file test_mode reading path config =
    if not test_mode && is_dangerous path
    then err invalid_file_path
    else elim (reading.open_file path) [
      | none ↦ err open_failed
      | some read ↦ sized_file config (read (config.input_max_bytes + 1))
    ]

unfoldable pub read_input :
    Bool → Reading → RegisterSbiInput → ResolvedConfig → Result InputError (List ℕ × ResolvedConfig)
unfolding sized_stdin read_file
read_input test_mode reading input config = elim input.input_data [
  | b ∷ bytes ↦ ok (b ∷ bytes, record config { input_bytes = length (b ∷ bytes) })
  | [] ↦
      if input.use_stdin
      then sized_stdin (record config { input_source = "stdin" })
          (reading.stdin (config.input_max_bytes + 1))
      else read_file test_mode reading input.file_path (record config { input_source = "file" })
]

-- bytes.TrimSpace, the lower case of a rune, and the decoders of JSON and YAML, which refuse unknown
-- fields.
pub record Decoders : Type 0 where
  pub trim_space : List ℕ → List ℕ
  pub lower : ℕ → ℕ
  pub json : List ℕ → Result String RegisterSpec
  pub yaml : List ℕ → Result String RegisterSpec

abbrev pub starts_with_brace : List ℕ → Bool
starts_with_brace [] = false
starts_with_brace (b ∷ bytes) = b == b'{'

unfoldable pub is_json : Decoders → List ℕ → String → Bool
unfolding ext runes_eq
is_json decoders input file_path =
    if not (str_eq file_path "")
    then runes_eq (map decoders.lower (ext (runes file_path))) (runes ".json")
    else starts_with_brace (decoders.trim_space input)

unfoldable pub decode_spec : Decoders → List ℕ → String → Result String RegisterSpec
unfolding is_json
decode_spec decoders input file_path =
    if is_json decoders input file_path then decoders.json input else decoders.yaml input

-- The loop over the lines of the journal, each with its turn if it has one.
unfoldable pub max_turn : ℕ → List (Option ℤ) → ℕ
max_turn best [] = best
max_turn best (none ∷ lines) = max_turn best lines
max_turn best (some turn ∷ lines) =
    max_turn (if ltb_ℤ (pos best) turn then pos_part turn else best) lines

-- `none` is a journal that cannot be read.
unfoldable pub get_next_turn_number : Option (List (Option ℤ)) → ℕ
unfolding max_turn
get_next_turn_number none = 1
get_next_turn_number (some lines) = max_turn 0 lines + 1
