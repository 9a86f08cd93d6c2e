-- ===== src/Register/Reads.antt =====
-- What a reading of the input returns, and which failure it does not see.
use deespec.Base.{
  ℕ, ◌+◌, ◌≡◌, refl, sym, subst, ◌≤◌, ◌⊎◌, inl, inr, ltb, String, Bool, true, false, not, ◌&&◌,
  Option, some, none, List, [], ◌∷◌, length, Result, ok, err, Bool-cases, Option-cases, arith,
}
use deespec.Register.Config.{ResolvedConfig}
use deespec.Register.Input.{
  RegisterSbiInput, Reading, InputError, read_failed, is_dangerous, sized, sized_stdin, sized_file,
  read_file, read_input,
}

-- The bytes are some, and within the limit.
abbrev pub Fits : ResolvedConfig → List ℕ → Type 0
Fits config bytes = (1 ≤ length bytes) × (length bytes ≤ config.input_max_bytes)

-- The configuration has noted where the bytes come from, and how many there are.
abbrev pub Notes : ResolvedConfig → String → List ℕ → ResolvedConfig → Type 0
Notes config source bytes final =
    final ≡ record config { input_source = source; input_bytes = length bytes }

-- The bytes are as required, within the limit, and noted.
abbrev Passes :
    ResolvedConfig
    → String
    → (List ℕ → Type 0)
    → Result InputError (List ℕ × ResolvedConfig)
    → Type 0
Passes config source Given (err failure) = Unit
Passes config source Given (ok (bytes, final)) =
    Given bytes × Fits config bytes × Notes config source bytes final

sized-Passes :
    (config : ResolvedConfig) (source : String) (Given : List ℕ → Type 0) (bytes : List ℕ)
    → Given bytes
    → Passes config source Given (sized (record config { input_source = source }) bytes)
unfolding sized
sized-Passes config source Given [] given = tt
sized-Passes config source Given (b ∷ bytes) given =
    elim (Bool-cases (ltb config.input_max_bytes (length (b ∷ bytes)))) [
      | inl large ↦ rw large tt
      | inr small ↦ rw small (given, (ground arith, ground arith), refl)
    ]

-- Standard input, asked for one byte more than the limit, gives these bytes and does not fail.
abbrev pub FromStdin : Reading → ResolvedConfig → List ℕ → Type 0
FromStdin reading config bytes = reading.stdin (config.input_max_bytes + 1) ≡ (bytes, none)

-- The file opens, and gives these bytes when it is asked for one more than the limit.
abbrev pub FromFile : Reading → String → ResolvedConfig → List ℕ → Type 0
FromFile reading path config bytes =
    (read : ℕ → List ℕ × Option String) × (reading.open_file path ≡ some read)
    × ((read (config.input_max_bytes + 1)).0 ≡ bytes)

sized_stdin-Passes :
    (reading : Reading) (config : ResolvedConfig) (read : List ℕ × Option String)
    → reading.stdin (config.input_max_bytes + 1) ≡ read
    → Passes config "stdin"
        (FromStdin reading config)
        (sized_stdin (record config { input_source = "stdin" }) read)
unfolding sized_stdin
sized_stdin-Passes reading config (bytes, none) given =
    sized-Passes config "stdin" (FromStdin reading config) bytes given
sized_stdin-Passes reading config (bytes, some failure) given = tt

sized_file-Passes :
    (config : ResolvedConfig) (Given : List ℕ → Type 0) (read : List ℕ × Option String)
    → Given read.0
    → Passes config "file" Given (sized_file (record config { input_source = "file" }) read)
unfolding sized_file
sized_file-Passes config Given (bytes, failure) given = sized-Passes config "file" Given bytes given

-- The result of a reading: bytes handed over in the input, of any length; or the bytes that standard
-- input gives, or a file at a path that is not refused, at least one and within the limit.
abbrev pub Reads :
    Bool
    → Reading
    → RegisterSbiInput
    → ResolvedConfig
    → Result InputError (List ℕ × ResolvedConfig)
    → Type 0
Reads test_mode reading input config (err failure) = input.input_data ≡ []
Reads test_mode reading input config (ok (bytes, final)) =
    ((bytes ≡ input.input_data) × Notes config config.input_source bytes final)
    ⊎ ((input.use_stdin ≡ true)
        × FromStdin reading config bytes
        × Fits config bytes
        × Notes config "stdin" bytes final)
    ⊎ ((input.use_stdin ≡ false)
        × ((not test_mode && is_dangerous input.file_path) ≡ false)
        × FromFile reading input.file_path config bytes
        × Fits config bytes
        × Notes config "file" bytes final)

module _ (test_mode : Bool) (reading : Reading) (input : RegisterSbiInput) (config : ResolvedConfig)
    (empty : input.input_data ≡ []) where
  stdin-Reads :
      (result : Result InputError (List ℕ × ResolvedConfig))
      → input.use_stdin ≡ true
      → Passes config "stdin" (FromStdin reading config) result
      → Reads test_mode reading input config result
  stdin-Reads (err failure) stdin h = empty
  stdin-Reads (ok (bytes, final)) stdin h = inr (inl (stdin, h.0, h.1, h.2))

  file-Reads :
      (result : Result InputError (List ℕ × ResolvedConfig))
      → input.use_stdin ≡ false
      → (not test_mode && is_dangerous input.file_path) ≡ false
      → Passes config "file" (FromFile reading input.file_path config) result
      → Reads test_mode reading input config result
  file-Reads (err failure) file safe h = empty
  file-Reads (ok (bytes, final)) file safe h = inr (inr (file, safe, h.0, h.1, h.2))

data-cases : (bytes : List ℕ) → (bytes ≡ []) ⊎ ((b : ℕ) × (rest : List ℕ) × (bytes ≡ b ∷ rest))
data-cases [] = inl refl
data-cases (b ∷ rest) = inr (b, rest, refl)

module _ (test_mode : Bool) (reading : Reading) (input : RegisterSbiInput)
    (config : ResolvedConfig) where
  read_file-Reads :
      input.input_data ≡ []
      → input.use_stdin ≡ false
      → Reads test_mode reading input config
          (read_file test_mode reading input.file_path (record config { input_source = "file" }))
  unfolding read_file
  read_file-Reads empty file = elim (Bool-cases (not test_mode && is_dangerous input.file_path)) [
    | inl dangerous ↦ rw dangerous empty
    | inr safe ↦ elim (Option-cases (reading.open_file input.file_path)) [
      | inl closed ↦ rw (safe, closed) empty
      | inr (read, opened) ↦
          rw (safe, opened)
            (file-Reads test_mode reading input config empty _ file safe (
              sized_file-Passes config (FromFile reading input.file_path config)
                (read (config.input_max_bytes + 1)) (read, opened, refl)))
    ]
  ]

  -- A reading that succeeds returns the bytes handed over in the input, whatever their number; or,
  -- if none are, exactly the bytes that standard input, or a file whose path is not refused, gives
  -- when asked for one more than the limit, and these are at least one and no more than the limit,
  -- so that none is cut off. Standard input then has not failed; a file may have. It notes their number and their source in the configuration, and changes
  -- nothing else there. With bytes handed over it never fails.
  pub read_input-Reads :
      Reads test_mode reading input config (read_input test_mode reading input config)
  unfolding read_input
  read_input-Reads =
      let P = Reads test_mode reading input config in
      let result = read_input test_mode reading input config in
      elim (data-cases input.input_data) [
        | inr (b, rest, given) ↦
            let same : result ≡ ok (b ∷ rest, record config { input_bytes = length (b ∷ rest) }) =
              simp (given, read_input) in
            subst P (sym same) (inl (sym given, refl))
        | inl empty ↦ elim (Bool-cases input.use_stdin) [
          | inl stdin ↦
              let read = reading.stdin (config.input_max_bytes + 1) in
              let same : result ≡ sized_stdin (record config { input_source = "stdin" }) read =
                simp (empty, stdin, read_input) in
              subst P (sym same) (
                stdin-Reads test_mode reading input config empty _ stdin
                  (sized_stdin-Passes reading config read refl))
          | inr file ↦
              let same : result
                  ≡ read_file test_mode reading input.file_path
                      (record config { input_source = "file" }) =
                simp (empty, file, read_input) in
              subst P (sym same) (read_file-Reads empty file)
        ]
      ]

  -- Where a file and standard input both give some bytes, within the limit, and then fail alike, the
  -- reading of standard input fails, and the reading of the file returns the bytes without an error.
  pub read_input-partial :
      (read : ℕ → List ℕ × Option String) (b : ℕ) (bytes : List ℕ) (failure : String)
      → input.input_data ≡ []
      → input.use_stdin ≡ false
      → is_dangerous input.file_path ≡ false
      → reading.open_file input.file_path ≡ some read
      → read (config.input_max_bytes + 1) ≡ (b ∷ bytes, some failure)
      → reading.stdin (config.input_max_bytes + 1) ≡ (b ∷ bytes, some failure)
      → length (b ∷ bytes) ≤ config.input_max_bytes
      → (read_input test_mode reading input config
          ≡ ok (
            b ∷ bytes,
            record config { input_source = "file"; input_bytes = length (b ∷ bytes) },
          ))
        × (read_input test_mode reading (record input { use_stdin = true }) config
            ≡ err (read_failed failure))
  unfolding read_input read_file sized_file sized sized_stdin
  read_input-partial read b bytes failure empty file safe opened fails stdin_fails fits =
      let small : ltb config.input_max_bytes (length (b ∷ bytes)) ≡ false = ground arith in
      let refused : (not test_mode && is_dangerous input.file_path) ≡ false = ground arith in
      (
        simp (empty, file, refused, opened, fails, small, read_input, read_file, sized_file, sized),
        simp (empty, stdin_fails, read_input, sized_stdin),
      )
