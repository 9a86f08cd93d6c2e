-- ===== src/Journal/Summary.antt =====
-- The summary of a file, and what a file without issues is.
use deespec.Base.{
  ℕ, ◌≡◌, refl, inl, inr, String, Bool, List, [], ◌∷◌, ◌++◌, length, ◌+◌, ◌≤◌, str_eq, arith,
  Bool-cases, length-append,
}
use deespec.Journal.Line.{Issue}
use deespec.Journal.Validator.{
  SourceLine, LineResult, Summary, validate_line, count_line, Progress, initial, take_line,
  validate_lines,
}

-- Every line that is not blank has a result and is counted once.
abbrev pub Counted : Summary → List LineResult → ℕ → Type 0
Counted s results line_number =
    (s.lines ≡ s.ok_lines + s.warn_lines + s.error_lines)
    × (s.lines ≡ length results)
    × (s.lines ≤ line_number)

count_line-Counted :
    (parses : String → Bool) (issues : List Issue) (s : Summary) (results : List LineResult)
    (r : LineResult) (line_number : ℕ)
    → Counted s results line_number
    → Counted (count_line parses issues s) (results ++ r ∷ []) (line_number + 1)
unfolding count_line
count_line-Counted parses issues s results r line_number (total, all, few) =
    ground (arith, total, all, few, length-append results (r ∷ []))

take_line-Counted :
    (parses : String → Bool) (l : SourceLine) (p : Progress parses)
    → Counted p.summary p.results p.line_number
    → Counted
        (take_line parses l p).summary
        (take_line parses l p).results
        (take_line parses l p).line_number
unfolding take_line
take_line-Counted parses l p (total, all, few) = elim (Bool-cases (str_eq l.trimmed "")) [
  | inl blank ↦ rw (blank, take_line) (total, all, omega (arith, few))
  | inr filled ↦
      rw (filled, take_line)
        (count_line-Counted parses (validate_line parses p.previous_turn l).0 p.summary p.results _
          p.line_number (total, all, few))
]

validate_lines-keeps :
    (parses : String → Bool) (ls : List SourceLine) (p : Progress parses)
    → Counted p.summary p.results p.line_number
    → Counted
        (validate_lines parses ls p).summary
        (validate_lines parses ls p).results
        (validate_lines parses ls p).line_number
unfolding validate_lines
validate_lines-keeps parses [] p h = h
validate_lines-keeps parses (l ∷ ls) p h =
    validate_lines-keeps parses ls (take_line parses l p) (take_line-Counted parses l p h)

-- In the summary of a file each line that is not blank is counted once, as fine, with warnings or
-- with errors; there is one result for each of them.
pub validate_lines-Counted :
    (parses : String → Bool) (ls : List SourceLine)
    → Counted
        (validate_lines parses ls (initial parses)).summary
        (validate_lines parses ls (initial parses)).results
        (validate_lines parses ls (initial parses)).line_number
validate_lines-Counted parses ls =
    validate_lines-keeps parses ls (initial parses) (refl, refl, omega arith)
