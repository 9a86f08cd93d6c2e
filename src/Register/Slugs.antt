-- ===== src/Register/Slugs.antt =====
-- What a slug is made of, how long it can be, and that it is no reserved name.
use deespec.Base.{
  ℕ, ◌≡◌, ◌≢◌, refl, subst, ap, ◌≤◌, ◌+◌, ◌⊎◌, inl, inr, ◌==◌, ◌||◌, String, Bool, true, false,
  some, List, [], ◌∷◌, ◌++◌, map, length, length-append, any, Bool-cases, if◌then◌else◌, arith,
}
use deespec.Register.Config.{ResolvedConfig}
use deespec.Register.Runes.{
  Runes, runes, runes_eq, trim_left, trim_right, squeeze, until, runes_eq-length, length-take, Each,
  Each-append, Each-take, Each-trim_left, Each-trim_right, Each-squeeze,
}
use deespec.Register.Slug.{
  TextRules, hyphen, dot, windows_reserved_names, is_windows_reserved, normal_form, trimmed,
  truncated, or_fallback, slugify_title,
}

-- A rune that may stand in a slug.
abbrev pub IsAllowed : (ℕ → Bool) → ℕ → Type 0
IsAllowed allowed c = (allowed c ≡ true) ⊎ (c ≡ hyphen)

-- The texts of the configuration that go into slugs hold allowed runes only.
pub record HasCleanTexts (config : ResolvedConfig) (allowed : ℕ → Bool) : Type 0 where
  pub fallback : Each (IsAllowed allowed) (runes config.slug_fallback)
  pub suffix : Each (IsAllowed allowed) (runes config.slug_windows_reserved_suffix)
  pub no_dot : allowed dot ≡ false
  pub limited : 1 ≤ config.slug_max_runes
  pub fallback_fits : length (runes config.slug_fallback) ≤ config.slug_max_runes
  pub fallback_some : 1 ≤ length (runes config.slug_fallback)
  pub suffix_long : 2 ≤ length (runes config.slug_windows_reserved_suffix)

Each-replaced :
    (allowed : ℕ → Bool) (s : Runes)
    → Each (IsAllowed allowed) (map (λ c. if allowed c then c else hyphen) s)
Each-replaced allowed [] = tt
Each-replaced allowed (c ∷ s) = elim (Bool-cases (allowed c)) [
  | inl yes_allowed ↦ (ground arith, Each-replaced allowed s)
  | inr not_allowed ↦ (ground arith, Each-replaced allowed s)
]

module _ (config : ResolvedConfig) (allowed : ℕ → Bool) where
  trimmed-Each : (s : Runes) → Each (IsAllowed allowed) (trimmed config allowed s)
  unfolding trimmed
  trimmed-Each s =
      let P : ℕ → Type 0 = IsAllowed allowed in
      let is_hyphen : ℕ → Bool = λ c. c == hyphen in
      let joined = squeeze hyphen false (map (λ c. if allowed c then c else hyphen) s) in
      let inner = trim_right is_hyphen (trim_left is_hyphen joined) in
      let clean : Each P inner = Each-trim_right P is_hyphen (trim_left is_hyphen joined) (
        Each-trim_left P is_hyphen joined
          (Each-squeeze P hyphen false _ (Each-replaced allowed s))) in
      elim config.slug_trim_trailing_dot_space
        as (λ b. Each P (if b then trim_right (λ c. c == dot || c == b' ') inner else inner)) [
          | true ↦ Each-trim_right P (λ c. c == dot || c == b' ') inner clean
          | false ↦ clean
        ]

  truncated-Each :
      (s : Runes) → Each (IsAllowed allowed) s → Each (IsAllowed allowed) (truncated config s)
  unfolding truncated
  truncated-Each s h = ground (arith, Each-take (IsAllowed allowed) config.slug_max_runes s)

  truncated-le :
      (s : Runes) → 1 ≤ config.slug_max_runes → length (truncated config s) ≤ config.slug_max_runes
  unfolding truncated
  truncated-le s h = ground (arith, length-take config.slug_max_runes s)

  or_fallback-Each :
      (s : Runes)
      → HasCleanTexts config allowed
      → Each (IsAllowed allowed) s
      → Each (IsAllowed allowed) (or_fallback config s)
  unfolding or_fallback
  or_fallback-Each [] texts h = texts.fallback
  or_fallback-Each (c ∷ s) texts h = h

  or_fallback-length :
      (s : Runes)
      → HasCleanTexts config allowed
      → length s ≤ config.slug_max_runes
      → (1 ≤ length (or_fallback config s))
        × (length (or_fallback config s) ≤ config.slug_max_runes)
  unfolding or_fallback
  or_fallback-length [] texts h = (texts.fallback_some, texts.fallback_fits)
  or_fallback-length (c ∷ s) texts h = omega arith

-- Names of three or four runes, as all reserved names are.
abbrev IsShort : Runes → Type 0
IsShort name = (3 ≤ length name) × (length name ≤ 4)

abbrev AllShort : List Runes → Type 0
AllShort [] = Unit
AllShort (name ∷ names) = IsShort name × AllShort names

any-IsShort :
    (r : Runes) (names : List Runes) → AllShort names → any (runes_eq r) names ≡ true → IsShort r
any-IsShort r [] h e = cc
any-IsShort r (name ∷ names) (short, h) e =
    ground (arith, runes_eq-length r name, any-IsShort r names h)

reserved-AllShort : AllShort windows_reserved_names
reserved-AllShort = omega arith

module _ (lower : ℕ → ℕ) (dot_stays : (c : ℕ) → lower c ≡ dot → c ≡ dot) where
  until-map : (s : Runes) → Each (λ c. c ≢ dot) s → length (until dot (map lower s)) ≡ length s
  unfolding until
  until-map [] h = refl
  until-map (c ∷ s) (p, h) = ground (arith, dot_stays c, until-map s h)

Each-no_dot :
    (allowed : ℕ → Bool) (s : Runes)
    → allowed dot ≡ false
    → Each (IsAllowed allowed) s
    → Each (λ c. c ≢ dot) s
Each-no_dot allowed [] e h = tt
Each-no_dot allowed (c ∷ s) e (inl p, h) =
    ((λ same. cc (ap allowed same)), Each-no_dot allowed s e h)
Each-no_dot allowed (c ∷ s) e (inr p, h) = ((λ same. omega arith), Each-no_dot allowed s e h)

-- What a slug promises.
pub record IsSlug (rules : TextRules) (config : ResolvedConfig) (allowed : ℕ → Bool) (slug : Runes)
    : Type 0 where
  pub each_allowed : Each (IsAllowed allowed) slug
  pub not_empty : 1 ≤ length slug
  pub bounded :
      length slug ≤ config.slug_max_runes + length (runes config.slug_windows_reserved_suffix)
  pub not_reserved : is_windows_reserved rules slug ≡ false

module _ (rules : TextRules) (config : ResolvedConfig) (allowed : ℕ → Bool)
    (dot_stays : (c : ℕ) → rules.lower c ≡ dot → c ≡ dot)
    (texts : HasCleanTexts config allowed) where
  reserved-IsShort :
      (s : Runes) → Each (IsAllowed allowed) s → is_windows_reserved rules s ≡ true → IsShort s
  unfolding is_windows_reserved
  reserved-IsShort s h e =
      subst (λ n. (3 ≤ n) × (n ≤ 4))
        (until-map rules.lower dot_stays s (Each-no_dot allowed s texts.no_dot h))
        (any-IsShort (until dot (map rules.lower s)) windows_reserved_names reserved-AllShort e)

  -- The suffix makes a reserved name too long to be one.
  suffixed-IsSlug :
      (s : Runes)
      → Each (IsAllowed allowed) s
      → 1 ≤ length s
      → length s ≤ config.slug_max_runes
      → IsSlug rules config allowed (
          if is_windows_reserved rules s then s ++ runes config.slug_windows_reserved_suffix else s)
  suffixed-IsSlug s h some_runes fits = elim (Bool-cases (is_windows_reserved rules s)) [
    | inr free ↦ rw free record {
      each_allowed = h;
      not_empty = some_runes;
      bounded = omega arith;
      not_reserved = free;
    }
    | inl reserved ↦
        let suffix = runes config.slug_windows_reserved_suffix in
        let longer = length-append s suffix in
        let short = reserved-IsShort s h reserved in
        let long = texts.suffix_long in
        let clean = Each-append (IsAllowed allowed) s suffix h texts.suffix in
        rw reserved record {
          each_allowed = clean;
          not_empty = omega (arith, longer);
          bounded = omega (arith, longer);
          not_reserved = elim (Bool-cases (is_windows_reserved rules (s ++ suffix))) [
            | inr free ↦ free
            | inl again ↦
                let short_too = reserved-IsShort (s ++ suffix) clean again in
                absurd (omega (arith, longer, short_too, short, long))
          ];
        }
  ]

-- Where the allowed runes compile to a class without the dot, and the fallback and the suffix are
-- made of allowed runes and hyphens, the fallback not empty nor above the limit and the suffix of two
-- runes at least, every title has a slug: a text of allowed runes and hyphens, not empty, longer than
-- the limit by the suffix at most, and no reserved name of Windows.
pub slugify_title-IsSlug :
    (rules : TextRules) (config : ResolvedConfig) (allowed : ℕ → Bool) (title : String)
    → ((c : ℕ) → rules.lower c ≡ dot → c ≡ dot)
    → rules.class_of config.slug_allow ≡ some allowed
    → HasCleanTexts config allowed
    → (slug : Runes) × (slugify_title rules config title ≡ some slug)
      × IsSlug rules config allowed slug
unfolding slugify_title
slugify_title-IsSlug rules config allowed title dot_stays compiled texts =
    let cut = trimmed config allowed (normal_form rules config (runes title)) in
    let cut_each = trimmed-Each config allowed (normal_form rules config (runes title)) in
    let short = truncated config cut in
    let name = or_fallback config short in
    let sizes =
      or_fallback-length config allowed short texts
        (truncated-le config allowed cut texts.limited) in
    (
      (if is_windows_reserved rules name
          then name ++ runes config.slug_windows_reserved_suffix
          else name),
      rw (compiled, slugify_title) refl,
      suffixed-IsSlug rules config allowed dot_stays texts name
          (or_fallback-Each config allowed short texts (truncated-Each config allowed cut cut_each))
          sizes.0 sizes.1,
    )
