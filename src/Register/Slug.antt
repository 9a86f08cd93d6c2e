-- ===== src/Register/Slug.antt =====
-- internal/application/usecase/register_sbi_usecase_helpers.go: the slug of a title. The normal form
-- NFKC, the lower case of a rune and the compiled class of allowed runes are arguments; a class that
-- does not compile is a panic, `none`.
use deespec.Base.{
  ℕ, ltb, ◌==◌, ◌||◌, String, Bool, false, Option, some, none, List, [], ◌∷◌, ◌++◌, map, length,
  any, if◌then◌else◌,
}
use deespec.Register.Config.{ResolvedConfig}
use deespec.Register.Runes.{Runes, runes, runes_eq, take, trim_left, trim_right, squeeze, until}

-- What the slugs take from Unicode and from regexp: `class_of a` is the class `[a]`.
pub record TextRules : Type 0 where
  pub nfkc : Runes → Runes
  pub lower : ℕ → ℕ
  pub class_of : String → Option (ℕ → Bool)

abbrev pub hyphen : ℕ
hyphen = b'-'

abbrev pub dot : ℕ
dot = b'.'

abbrev pub windows_reserved_names : List Runes
windows_reserved_names =
    runes "con"
    ∷ runes "prn"
    ∷ runes "aux"
    ∷ runes "nul"
    ∷ runes "com1"
    ∷ runes "com2"
    ∷ runes "com3"
    ∷ runes "com4"
    ∷ runes "com5"
    ∷ runes "com6"
    ∷ runes "com7"
    ∷ runes "com8"
    ∷ runes "com9"
    ∷ runes "lpt1"
    ∷ runes "lpt2"
    ∷ runes "lpt3"
    ∷ runes "lpt4"
    ∷ runes "lpt5"
    ∷ runes "lpt6"
    ∷ runes "lpt7"
    ∷ runes "lpt8"
    ∷ runes "lpt9"
    ∷ []

module _ (rules : TextRules) where
  unfoldable pub is_windows_reserved : Runes → Bool
  unfolding until runes_eq
  is_windows_reserved name =
      any (runes_eq (until dot (map rules.lower name))) windows_reserved_names

  -- The first two steps.
  unfoldable pub normal_form : ResolvedConfig → Runes → Runes
  normal_form config title =
      let composed = if config.slug_nfkc then rules.nfkc title else title in
      if config.slug_lowercase then map rules.lower composed else composed

-- The replacement of what is not allowed, and the three trims.
unfoldable pub trimmed : ResolvedConfig → (ℕ → Bool) → Runes → Runes
unfolding squeeze trim_left trim_right
trimmed config allowed title =
    let replaced = map (λ c. if allowed c then c else hyphen) title in
    let joined = squeeze hyphen false replaced in
    let inner = trim_right (λ c. c == hyphen) (trim_left (λ c. c == hyphen) joined) in
    if config.slug_trim_trailing_dot_space
    then trim_right (λ c. c == dot || c == b' ') inner
    else inner

unfoldable pub truncated : ResolvedConfig → Runes → Runes
unfolding take
truncated config slug =
    if ltb 0 config.slug_max_runes
    then if ltb config.slug_max_runes (length slug) then take config.slug_max_runes slug else slug
    else slug

unfoldable pub or_fallback : ResolvedConfig → Runes → Runes
or_fallback config [] = runes config.slug_fallback
or_fallback config (c ∷ s) = c ∷ s

unfoldable pub slugify_title : TextRules → ResolvedConfig → String → Option Runes
unfolding normal_form trimmed truncated or_fallback is_windows_reserved
slugify_title rules config title = elim (rules.class_of config.slug_allow) [
  | none ↦ none
  | some allowed ↦
      let slug =
        or_fallback config
          (truncated config (trimmed config allowed (normal_form rules config (runes title)))) in
      some (
        if is_windows_reserved rules slug
        then slug ++ runes config.slug_windows_reserved_suffix
        else slug)
]
