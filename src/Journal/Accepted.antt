-- ===== src/Journal/Accepted.antt =====
-- A file without warnings and errors.
use deespec.Base.{
  ℕ, ◌≡◌, ◌↔◌, refl, sym, subst, ap, ◌∙◌, ◌⊎◌, inl, inr, String, Bool, true, false, List, [], ◌∷◌,
  any, ◌+◌, ◌≤◌, str_eq, arith, Bool-cases,
}
use deespec.Base.Int.{ℤ, negsuc}
use deespec.Journal.Line.{JournalEntry, Issue, is_error, is_warning}
use deespec.Journal.Validator.{
  SourceLine, Summary, validate_line, count_line, Progress, initial, take_line, validate_lines,
}
use deespec.Journal.Valid.{ValidLine, validate_line-valid, valid-validate_line}

-- From the turn `previous` on, each line is blank or valid, and the next goes on with its turn.
abbrev pub ValidFrom : (String → Bool) → ℤ → List SourceLine → Type 0
ValidFrom parses previous [] = Unit
ValidFrom parses previous (l ∷ ls) =
    ((str_eq l.trimmed "" ≡ true) × ValidFrom parses previous ls)
    ⊎ ((str_eq l.trimmed "" ≡ false)
        × ((e : JournalEntry) × ValidLine parses previous l e × ValidFrom parses e.turn ls))

-- The lines with warnings or errors so far.
abbrev bad : Summary → ℕ
bad s = s.warn_lines + s.error_lines

warned_or_error :
    (issues : List Issue)
    → any is_error issues ≡ false
    → any is_warning issues ≡ false
    → issues ≡ []
warned_or_error [] h k = refl
warned_or_error (issue ∷ issues) h k = ground (arith, h, k)

-- A line without issues does not raise the number, and any other does.
count_line-bad :
    (parses : String → Bool) (issues : List Issue) (s : Summary)
    → ((issues ≡ []) × (bad (count_line parses issues s) ≡ bad s))
      ⊎ (bad (count_line parses issues s) ≡ bad s + 1)
unfolding count_line
count_line-bad parses issues s = elim (Bool-cases (any is_error issues)) [
  | inl errors ↦ inr (rw (errors, count_line) (omega arith))
  | inr no_errors ↦ elim (Bool-cases (any is_warning issues)) [
    | inl warnings ↦ inr (rw (no_errors, warnings, count_line) (omega arith))
    | inr no_warnings ↦
        inl (
          warned_or_error issues no_errors no_warnings,
          rw (no_errors, no_warnings, count_line) refl,
        )
  ]
]

-- A line that is not blank: it is valid and the loop goes on with its turn, or the number is raised.
take_line-bad :
    (parses : String → Bool) (l : SourceLine) (p : Progress parses)
    → str_eq l.trimmed "" ≡ false
    → ((e : JournalEntry) × ValidLine parses p.previous_turn l e
        × ((take_line parses l p).previous_turn ≡ e.turn)
        × (bad (take_line parses l p).summary ≡ bad p.summary))
      ⊎ (bad (take_line parses l p).summary ≡ bad p.summary + 1)
unfolding take_line
take_line-bad parses l p filled =
    elim (count_line-bad parses (validate_line parses p.previous_turn l).0 p.summary) [
      | inl (clean, same) ↦
          let (e, valid) = validate_line-valid parses p.previous_turn l clean in
          inl (
            e,
            valid,
            rw (filled, take_line)
                (ap (λ (r : List Issue × ℤ). r.1)
                  (valid-validate_line parses p.previous_turn l e valid)),
            rw (filled, take_line) same,
          )
      | inr raised ↦ inr (rw (filled, take_line) raised)
    ]

take_line-blank :
    (parses : String → Bool) (l : SourceLine) (p : Progress parses)
    → str_eq l.trimmed "" ≡ true
    → ((take_line parses l p).previous_turn ≡ p.previous_turn)
      × (bad (take_line parses l p).summary ≡ bad p.summary)
unfolding take_line
take_line-blank parses l p blank = rw (blank, take_line) (refl, refl)

take_line-grows :
    (parses : String → Bool) (l : SourceLine) (p : Progress parses)
    → bad p.summary ≤ bad (take_line parses l p).summary
take_line-grows parses l p = elim (Bool-cases (str_eq l.trimmed "")) [
  | inl blank ↦ omega (arith, (take_line-blank parses l p blank).1)
  | inr filled ↦ elim (take_line-bad parses l p filled) [
    | inl (_, _, _, same) ↦ omega (arith, same)
    | inr raised ↦ omega (arith, raised)
  ]
]

validate_lines-grows :
    (parses : String → Bool) (ls : List SourceLine) (p : Progress parses)
    → bad p.summary ≤ bad (validate_lines parses ls p).summary
unfolding validate_lines
validate_lines-grows parses [] p = omega arith
validate_lines-grows parses (l ∷ ls) p =
    omega (arith, take_line-grows parses l p, validate_lines-grows parses ls (take_line parses l p))

validate_lines-valid :
    (parses : String → Bool) (ls : List SourceLine) (p : Progress parses)
    → bad (validate_lines parses ls p).summary ≡ bad p.summary
    → ValidFrom parses p.previous_turn ls
unfolding validate_lines
validate_lines-valid parses [] p h = tt
validate_lines-valid parses (l ∷ ls) p h = elim (Bool-cases (str_eq l.trimmed "")) [
  | inl blank ↦
      let (turn, same) = take_line-blank parses l p blank in
      inl (
        blank,
        subst (λ previous. ValidFrom parses previous ls) turn
            (validate_lines-valid parses ls (take_line parses l p) (h ∙ sym same)),
      )
  | inr filled ↦ elim (take_line-bad parses l p filled) [
    | inl (e, valid, turn, same) ↦ inr (
      filled,
      (
        e,
        valid,
        subst (λ previous. ValidFrom parses previous ls) turn
            (validate_lines-valid parses ls (take_line parses l p) (h ∙ sym same)),
      ),
    )
    | inr raised ↦
        let grows = validate_lines-grows parses ls (take_line parses l p) in
        ground (arith, h, raised, grows)
  ]
]

count_line-clean : (parses : String → Bool) (s : Summary) → bad (count_line parses [] s) ≡ bad s
unfolding count_line
count_line-clean parses s = refl

valid-take_line :
    (parses : String → Bool) (l : SourceLine) (p : Progress parses) (e : JournalEntry)
    → str_eq l.trimmed "" ≡ false
    → ValidLine parses p.previous_turn l e
    → ((take_line parses l p).previous_turn ≡ e.turn)
      × (bad (take_line parses l p).summary ≡ bad p.summary)
unfolding take_line
valid-take_line parses l p e filled valid =
    let same = valid-validate_line parses p.previous_turn l e valid in
    (
      rw (filled, take_line) (ap (λ (r : List Issue × ℤ). r.1) same),
      rw (filled, take_line)
          (ap (λ (r : List Issue × ℤ). bad (count_line parses r.0 p.summary)) same
            ∙ count_line-clean parses p.summary),
    )

valid-validate_lines :
    (parses : String → Bool) (ls : List SourceLine) (p : Progress parses)
    → ValidFrom parses p.previous_turn ls
    → bad (validate_lines parses ls p).summary ≡ bad p.summary
unfolding validate_lines
valid-validate_lines parses [] p valid = refl
valid-validate_lines parses (l ∷ ls) p (inl (blank, rest)) =
    let (turn, same) = take_line-blank parses l p blank in
    valid-validate_lines parses ls (take_line parses l p)
      (subst (λ previous. ValidFrom parses previous ls) (sym turn) rest)
    ∙ same
valid-validate_lines parses (l ∷ ls) p (inr (filled, (e, valid, rest))) =
    let (turn, same) = valid-take_line parses l p e filled valid in
    valid-validate_lines parses ls (take_line parses l p)
      (subst (λ previous. ValidFrom parses previous ls) (sym turn) rest)
    ∙ same

-- The summary of a file counts no line with warnings and none with errors exactly if each line is
-- blank or an object of the seven keys with a valid entry, and no turn is below the one before.
pub validate_lines-accepts :
    (parses : String → Bool) (ls : List SourceLine)
    → ((validate_lines parses ls (initial parses)).summary.warn_lines
          + (validate_lines parses ls (initial parses)).summary.error_lines
        ≡ 0)
      ↔ ValidFrom parses (negsuc 0) ls
validate_lines-accepts parses ls = (
  λ h. validate_lines-valid parses ls (initial parses) h,
  λ valid. valid-validate_lines parses ls (initial parses) valid,
)
