-- ===== src/Journal/Valid.antt =====
-- What a line without issues is.
use deespec.Base.{
  ℕ, suc, ◌≡◌, ◌↔◌, refl, ◌∙◌, ◌⊎◌, inl, inr, String, Bool, true, false, Option, some, none, List,
  [], ◌∷◌, ◌++◌, ok, any, length, ◌==◌, ==_iff, str_eq, arith, Bool-cases, Result-cases,
}
use deespec.Base.Int.{ℤ, pos, leb_ℤ}
use deespec.Base.Text.{◌<>◌}
use deespec.Parallel.Ready.{AllAmong}
use deespec.Journal.Line.{
  JournalEntry, Artifact, Issue, is_text, matches, allowed, decimal_ℤ, ends_with_z, valid_steps,
  valid_decisions, required_keys, validate_timestamp, validate_turn, validate_step,
  validate_decision, validate_elapsed_ms, validate_elements, validate_artifacts,
}
use deespec.Journal.Validator.{
  SourceLine, missing_keys, validate_entry, validate_fields, validate_structured, validate_line,
}

abbrev pub AllAllowed : List Artifact → Type 0
AllAllowed [] = Unit
AllAllowed (artifact ∷ artifacts) = (allowed artifact ≡ true) × AllAllowed artifacts

-- Texts and objects only, and if there is a text, one that names the directory of the turn.
abbrev pub ValidArtifacts : ℤ → Option (List Artifact) → Type 0
ValidArtifacts turn none = ⊥
ValidArtifacts turn (some artifacts) =
    AllAllowed artifacts
    × ((any is_text artifacts ≡ false)
        ⊎ (any (matches ("/turn" <> decimal_ℤ turn <> "/")) artifacts ≡ true))

abbrev pub ValidEntry : (String → Bool) → ℤ → JournalEntry → Type 0
ValidEntry parses previous e =
    ((str_eq e.timestamp "" ≡ false)
      × (ends_with_z e.timestamp ≡ true)
      × (parses e.timestamp ≡ true))
    × ((leb_ℤ (pos 0) e.turn ≡ true) × (leb_ℤ previous e.turn ≡ true))
    × (any (str_eq e.step) valid_steps ≡ true)
    × (any (str_eq e.decision) valid_decisions ≡ true)
    × (leb_ℤ (pos 0) e.elapsed_ms ≡ true)
    × ValidArtifacts e.turn e.artifacts

-- The line is an object of JSON with the seven keys and no other, and holds a valid entry.
abbrev pub ValidLine : (String → Bool) → ℤ → SourceLine → JournalEntry → Type 0
ValidLine parses previous l e =
    ((keys : List String) × (l.keys ≡ ok keys) × (length keys ≡ 7) × AllAmong required_keys keys)
    × (l.entry ≡ ok e)
    × ValidEntry parses previous e

append-nil_iff : (xs ys : List Issue) → (xs ++ ys ≡ []) ↔ ((xs ≡ []) × (ys ≡ []))
append-nil_iff [] ys = (λ h. (refl, h), λ h. h.1)
append-nil_iff (x ∷ xs) ys = (λ h. cc, λ h. cc (h.0))

timestamp_iff :
    (parses : String → Bool) (ts : String)
    → (validate_timestamp parses ts ≡ [])
      ↔ ((str_eq ts "" ≡ false) × (ends_with_z ts ≡ true) × (parses ts ≡ true))
unfolding validate_timestamp
timestamp_iff parses ts = ground arith

turn_iff :
    (previous turn : ℤ)
    → ((validate_turn previous turn).0 ≡ [])
      ↔ ((leb_ℤ (pos 0) turn ≡ true) × (leb_ℤ previous turn ≡ true))
unfolding validate_turn
turn_iff previous turn = ground arith

elements_iff :
    (place : ℕ) (artifacts : List Artifact)
    → (validate_elements place artifacts ≡ []) ↔ AllAllowed artifacts
unfolding validate_elements
elements_iff place [] = (λ h. tt, λ h. refl)
elements_iff place (artifact ∷ artifacts) = ground (arith, elements_iff (suc place) artifacts)

artifacts_iff :
    (artifacts : Option (List Artifact)) (turn : ℤ)
    → (validate_artifacts artifacts turn ≡ []) ↔ ValidArtifacts turn artifacts
unfolding validate_artifacts
artifacts_iff none turn = (λ h. cc, λ h. elim h [ ])
artifacts_iff (some artifacts) turn =
    ground (arith, append-nil_iff (validate_elements 0 artifacts) _, elements_iff 0 artifacts)

missing_keys_iff :
    (keys required : List String) → (missing_keys keys required ≡ []) ↔ AllAmong required keys
unfolding missing_keys
missing_keys_iff keys [] = (λ h. tt, λ h. refl)
missing_keys_iff keys (key ∷ required) = ground (arith, missing_keys_iff keys required)

List-cases : (xs : List Issue) → (xs ≡ []) ⊎ ((x : Issue) × (ys : List Issue) × (xs ≡ x ∷ ys))
List-cases [] = inl refl
List-cases (x ∷ xs) = inr (x, xs, refl)

step_iff : (step : String) → (validate_step step ≡ []) ↔ (any (str_eq step) valid_steps ≡ true)
unfolding validate_step
step_iff step = elim (Bool-cases (any (str_eq step) valid_steps)) [
  | inl known ↦ (λ h. known, λ h. rw (h, validate_step) refl)
  | inr unknown ↦ (λ h. cc (simp (unknown, validate_step) at h), λ h. cc)
]

decision_iff :
    (decision : String)
    → (validate_decision decision ≡ []) ↔ (any (str_eq decision) valid_decisions ≡ true)
unfolding validate_decision
decision_iff decision = elim (Bool-cases (any (str_eq decision) valid_decisions)) [
  | inl known ↦ (λ h. known, λ h. rw (h, validate_decision) refl)
  | inr unknown ↦ (λ h. cc (simp (unknown, validate_decision) at h), λ h. cc)
]

elapsed_ms_iff :
    (elapsed_ms : ℤ) → (validate_elapsed_ms elapsed_ms ≡ []) ↔ (leb_ℤ (pos 0) elapsed_ms ≡ true)
unfolding validate_elapsed_ms
elapsed_ms_iff elapsed_ms = ground arith

-- Two lists of issues are empty together.
append_iff :
    {P Q : Type 0} (xs ys : List Issue)
    → ((xs ≡ []) ↔ P)
    → ((ys ≡ []) ↔ Q)
    → (xs ++ ys ≡ []) ↔ (P × Q)
append_iff xs ys first second = (
  λ h. let (left, right) = (append-nil_iff xs ys).0 h in (first.0 left, second.0 right),
  λ (p, q). (append-nil_iff xs ys).1 (first.1 p, second.1 q),
)

entry_iff :
    (parses : String → Bool) (previous : ℤ) (e : JournalEntry)
    → ((validate_entry parses previous e).0 ≡ []) ↔ ValidEntry parses previous e
unfolding validate_entry
entry_iff parses previous e =
    let all =
      append_iff _ (validate_artifacts e.artifacts e.turn)
        (append_iff _ (validate_elapsed_ms e.elapsed_ms)
          (append_iff _ (validate_decision e.decision)
            (append_iff _ (validate_step e.step)
              (append_iff (validate_timestamp parses e.timestamp) (validate_turn previous e.turn).0
                (timestamp_iff parses e.timestamp) (turn_iff previous e.turn))
              (step_iff e.step))
            (decision_iff e.decision))
          (elapsed_ms_iff e.elapsed_ms))
        (artifacts_iff e.artifacts e.turn) in
    (
      λ h.
          let (((((ts, turn), step), decision), elapsed), artifacts) = all.0 h in
          (ts, turn, step, decision, elapsed, artifacts),
      λ (ts, turn, step, decision, elapsed, artifacts).
          all.1 (((((ts, turn), step), decision), elapsed), artifacts),
    )

entry-turn :
    (parses : String → Bool) (previous : ℤ) (e : JournalEntry)
    → leb_ℤ (pos 0) e.turn ≡ true
    → (validate_entry parses previous e).1 ≡ e.turn
unfolding validate_entry validate_turn
entry-turn parses previous e h = ground (arith, h)

-- What a line that is checked up to its entry gives.
structured-valid :
    (parses : String → Bool) (previous : ℤ) (keys : List String) (l : SourceLine)
    → (validate_structured parses previous (missing_keys keys required_keys) l.entry).0 ≡ []
    → AllAmong required_keys keys
      × ((e : JournalEntry) × (l.entry ≡ ok e) × ValidEntry parses previous e)
unfolding validate_structured validate_fields
structured-valid parses previous keys l h = elim (List-cases (missing_keys keys required_keys)) [
  | inr (issue, issues, missing) ↦ cc (simp (missing, validate_structured) at h)
  | inl none_missing ↦ elim (Result-cases l.entry) [
    | inr (x, bad) ↦ cc (simp (none_missing, bad, validate_structured, validate_fields) at h)
    | inl (e, good) ↦
        let clean : (validate_entry parses previous e).0 ≡ [] =
          simp (none_missing, good, validate_structured, validate_fields) at h in
        (
          (missing_keys_iff keys required_keys).0 none_missing,
          (e, good, (entry_iff parses previous e).0 clean),
        )
  ]
]

-- A line without issues is an object with exactly the seven keys, whose entry is valid and whose turn
-- is not below the last one.
pub validate_line-valid :
    (parses : String → Bool) (previous : ℤ) (l : SourceLine)
    → (validate_line parses previous l).0 ≡ []
    → (e : JournalEntry) × ValidLine parses previous l e
unfolding validate_line
validate_line-valid parses previous l h = elim (Result-cases l.keys) [
  | inr (x, bad) ↦ cc (simp (bad, validate_line) at h)
  | inl (keys, good) ↦ elim (Bool-cases (length keys == 7)) [
    | inr wrong ↦ cc (simp (good, wrong, validate_line) at h)
    | inl seven ↦
        let (all, (e, read, valid)) =
          structured-valid parses previous keys l (simp (good, seven, validate_line) at h) in
        (e, ((keys, good, (==_iff (length keys) 7).0 seven, all), read, valid))
  ]
]

pair : (r : List Issue × ℤ) {xs : List Issue} {turn : ℤ} → r.0 ≡ xs → r.1 ≡ turn → r ≡ (xs, turn)
pair r first second = λ i. (first i, second i)

-- A valid line has no issues, and the validator goes on with its turn.
pub valid-validate_line :
    (parses : String → Bool) (previous : ℤ) (l : SourceLine) (e : JournalEntry)
    → ValidLine parses previous l e
    → validate_line parses previous l ≡ ([], e.turn)
unfolding validate_line validate_structured validate_fields
valid-validate_line parses previous l e ((keys, good, seven, all), read, valid) =
    let none_missing : missing_keys keys required_keys ≡ [] =
      (missing_keys_iff keys required_keys).1 all in
    let right_count : (length keys == 7) ≡ true = (==_iff (length keys) 7).1 seven in
    let same : validate_line parses previous l ≡ validate_entry parses previous e = simp (
      good, right_count, none_missing, read, validate_line, validate_structured, validate_fields,
    ) in
    same
    ∙ pair (validate_entry parses previous e) ((entry_iff parses previous e).1 valid)
        (entry-turn parses previous e valid.1.0)
