-- ===== src/Register/Accepted.antt =====
-- Which specifications pass the checks, and which pass without a warning.
use deespec.Base.{
  ◌≡◌, refl, ◌≢◌, inl, inr, ◌≤◌, Option-cases, subst, sym, ◌↔◌, leb, String, Bool, true, false,
  ◌&&◌, ◌||◌, str_eq, eq_iff, some, none, List, [], ◌∷◌, ◌++◌, length, any, Result, ok, err, ◌>>=◌,
  Bool-cases, if◌then◌else◌, arith,
}
use deespec.Register.Runes.{Runes, runes, rune_bytes, byte_length}
use deespec.Register.Validation.{
  RegisterSpec, ValidationResult, labels_exceed, SpecError, SpecWarning, duplicate_label, all_runes,
  is_digit_or_hyphen, default_id_pattern, default_labels_pattern, new_register_validation_service,
  above, validate_id, validate_title, check_labels, validate_labels, labels_result, validate_spec,
}

-- Every label of the list fits the pattern of labels.
abbrev pub EachLabel : List String → Type 0
EachLabel [] = Unit
EachLabel (label ∷ labels) = (default_labels_pattern label ≡ true) × EachLabel labels

-- No label of the list is among those seen or stands in it twice.
abbrev pub AllNew : List String → List String → Type 0
AllNew seen [] = Unit
AllNew seen (label ∷ labels) = (any (str_eq label) seen ≡ false) × AllNew (label ∷ seen) labels

-- A text that fits the pattern of ids has a byte for each rune.
ascii_length :
    (s : Runes)
    → all_runes (λ c. (leb b'A' c && leb c b'Z') || is_digit_or_hyphen c) s ≡ true
    → byte_length s ≡ length s
unfolding byte_length rune_bytes
ascii_length [] h = omega arith
ascii_length (c ∷ s) h = ground (arith, ascii_length s)

empty_length : (s : String) → str_eq s "" ≡ true → length (runes s) ≡ 0
empty_length s h = rw ((eq_iff s "").0 h) refl

validate_id_lem :
    (id : String)
    → (validate_id new_register_validation_service id ≡ none) ↔ (default_id_pattern id ≡ true)
unfolding validate_id default_id_pattern new_register_validation_service
validate_id_lem id = ground (arith, ascii_length (runes id), empty_length id)

validate_title_lem :
    (title : String)
    → (validate_title new_register_validation_service title ≡ none)
      ↔ ((title ≢ "") × (byte_length (runes title) ≤ 200))
unfolding validate_title new_register_validation_service
validate_title_lem title = ground (arith, eq_iff title "")

-- The loop over the labels, by its three outcomes.
abbrev Scanned : List String → List String → Result SpecError (List SpecWarning) → Type 0
Scanned seen labels (err failure) = EachLabel labels → ⊥
Scanned seen labels (ok []) = EachLabel labels × AllNew seen labels
Scanned seen labels (ok (w ∷ ws)) = EachLabel labels × (AllNew seen labels → ⊥)

scan_step :
    (seen labels : List String) (label : String) (repeated : Bool)
    (rest : Result SpecError (List SpecWarning))
    → any (str_eq label) seen ≡ repeated
    → default_labels_pattern label ≡ true
    → Scanned (label ∷ seen) labels rest
    → Scanned seen (label ∷ labels) (
        rest >>= λ warnings.
        ok (if repeated && true then duplicate_label label ∷ warnings else warnings))
scan_step seen labels label repeated (err failure) e fits h = λ (_, each). h each
scan_step seen labels label true (ok []) e fits h = ((fits, h.0), λ (new, _). cc)
scan_step seen labels label false (ok []) e fits h = ((fits, h.0), (e, h.1))
scan_step seen labels label true (ok (w ∷ ws)) e fits h = ((fits, h.0), λ (new, _). cc)
scan_step seen labels label false (ok (w ∷ ws)) e fits h = ((fits, h.0), λ (new, rest). h.1 rest)

check_labels-Scanned :
    (seen labels : List String)
    → Scanned seen labels (check_labels new_register_validation_service seen labels)
unfolding check_labels new_register_validation_service
check_labels-Scanned seen [] = (tt, tt)
check_labels-Scanned seen (label ∷ labels) = elim (Bool-cases (default_labels_pattern label)) [
  | inl fits ↦ rw fits (
      scan_step seen labels label (any (str_eq label) seen)
        (check_labels new_register_validation_service (label ∷ seen) labels) refl fits
        (check_labels-Scanned (label ∷ seen) labels))
  | inr unfit ↦ rw unfit (λ (fits, _). cc)
]

-- What the default service asks of a specification.
pub record IsAcceptable (spec : RegisterSpec) : Type 0 where
  pub id : default_id_pattern spec.id ≡ true
  pub title : spec.title ≢ ""
  pub title_length : byte_length (runes spec.title) ≤ 200
  pub labels : EachLabel spec.labels

-- The result has no failure just if the specification is acceptable, and no warning either just if,
-- moreover, no label stands twice and there are no more than 32.
abbrev pub Judges : RegisterSpec → ValidationResult → Type 0
Judges spec result =
    ((result.failure ≡ none) ↔ IsAcceptable spec)
    × (((result.failure ≡ none) × (result.warnings ≡ []))
        ↔ (IsAcceptable spec × AllNew [] spec.labels × (length spec.labels ≤ 32)))

refused-Judges :
    (spec : RegisterSpec) (failure : SpecError)
    → (IsAcceptable spec → ⊥)
    → Judges spec (record { warnings = []; failure = some failure })
refused-Judges spec failure h =
    (((λ e. cc), (λ a. absurd (h a))), ((λ (e, _). cc), (λ (a, _, _). absurd (h a))))

append-ne-nil : (ws : List SpecWarning) (w : SpecWarning) → (ws ++ (w ∷ [])) ≢ []
append-ne-nil [] w e = cc
append-ne-nil (v ∷ ws) w e = cc

labels-Judges :
    (spec : RegisterSpec) (scanned : Result SpecError (List SpecWarning))
    → default_id_pattern spec.id ≡ true
    → (spec.title ≢ "") × (byte_length (runes spec.title) ≤ 200)
    → Scanned [] spec.labels scanned
    → Judges spec (
        labels_result (
          scanned >>= λ warnings. ok (
            if above 32 (length spec.labels)
            then warnings ++ (labels_exceed 32 (length spec.labels) ∷ [])
            else warnings)))
unfolding labels_result
labels-Judges spec (err failure) id title h = refused-Judges spec failure (λ a. h a.labels)
labels-Judges spec (ok []) id title h =
    let fine : IsAcceptable spec = record {
      id = id;
      title = title.0;
      title_length = title.1;
      labels = h.0;
    } in
    (
      ((λ _. fine), (λ _. refl)),
      ((λ (_, e). (fine, h.1, ground arith)), (λ (_, _, few). (refl, ground arith))),
    )
labels-Judges spec (ok (w ∷ ws)) id title h =
    let fine : IsAcceptable spec = record {
      id = id;
      title = title.0;
      title_length = title.1;
      labels = h.0;
    } in
    (
      ((λ _. fine), (λ _. refl)),
      (
        (λ (_, e). absurd (ground (arith, append-ne-nil (w ∷ ws)))),
        (λ (_, new, _). absurd (h.1 new)),
      ),
    )

-- With the default service a specification is refused just if its id is not of 1 to 64 capital
-- letters, digits and hyphens, or its title is empty or above 200 bytes, or a label is not of small
-- letters, digits and hyphens. An accepted one has no warning just if no label stands twice and there
-- are at most 32 labels.
pub validate_spec-Judges :
    (spec : RegisterSpec) → Judges spec (validate_spec new_register_validation_service spec)
unfolding validate_spec validate_labels
validate_spec-Judges spec =
    elim (Option-cases (validate_id new_register_validation_service spec.id)) [
      | inr (failure, e) ↦
          rw (e, validate_spec)
            (refused-Judges spec failure (λ a. cc (e, (validate_id_lem spec.id).1 a.id)))
      | inl fits ↦ elim (Option-cases (validate_title new_register_validation_service spec.title)) [
        | inr (failure, e) ↦
            rw (fits, e, validate_spec)
              (refused-Judges spec failure
                (λ a. cc (e, (validate_title_lem spec.title).1 (a.title, a.title_length))))
        | inl titled ↦
            let service = new_register_validation_service in
            let same : validate_spec service spec
                ≡ labels_result (validate_labels service spec.labels) =
              simp (fits, titled, validate_spec) in
            subst (Judges spec) (sym same) (
              unfold new_register_validation_service in
              labels-Judges spec (check_labels service [] spec.labels)
                ((validate_id_lem spec.id).0 fits) ((validate_title_lem spec.title).0 titled)
                (check_labels-Scanned [] spec.labels))
      ]
    ]
