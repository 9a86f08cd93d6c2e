-- ===== src/Register/Paths.antt =====
-- internal/application/usecase/register_sbi_usecase_helpers.go: the path of a specification, the
-- search for symbolic links on it and the resolution of a collision. The file system and Go's
-- path/filepath are arguments.
use deespec.Base.{
  ℕ, zero, suc, ◌+◌, ◌-◌, ltb, ◌==◌, ◌&&◌, not, any, String, Bool, true, false, str_eq, Option,
  some, none, List, [], ◌∷◌, ◌++◌, length, Result, ok, err, ◌>>=◌, if◌then◌else◌,
}
use deespec.Base.Text.{decimal}
use deespec.Register.Config.{ResolvedConfig}
use deespec.Register.Runes.{Runes, runes, byte_length, take}
use deespec.Register.Slug.{TextRules, slugify_title}

-- What os.Stat and os.Lstat say of a path; only os.Lstat tells a symbolic link.
pub data Presence : Type 0 where
  missing present symlink unknown : Presence

-- filepath.Join, Abs and Rel, the parts of a clean path between its separators, and os.Stat and
-- os.Lstat.
pub record Files : Type 0 where
  pub join : Runes → Runes → Runes
  pub abs : Runes → Option Runes
  pub rel : Runes → Runes → Option Runes
  pub parts : Runes → List Runes
  pub stat : Runes → Presence
  pub lstat : Runes → Presence

pub data PathError : Type 0 where
  invalid_class path_too_long path_escapes : PathError
  component_unknown component_symlink : Runes → PathError

-- strings.HasPrefix(path, "..")
unfoldable pub starts_with_dots : Runes → Bool
starts_with_dots (c ∷ d ∷ s) = c == b'.' && d == b'.'
starts_with_dots _ = false

module _ (files : Files) where
  unfoldable pub is_path_safe : Runes → Runes → Bool
  unfolding starts_with_dots
  is_path_safe base path = elim (files.abs base) [
    | none ↦ false
    | some abs_base ↦ elim (files.abs path) [
      | none ↦ false
      | some abs_path ↦ elim (files.rel abs_base abs_path) [
        | none ↦ false
        | some rel ↦ not (starts_with_dots rel)
      ]
    ]
  ]

  -- if current == "" { current = part } else { current = filepath.Join(current, part) }
  unfoldable pub extend_path : Runes → Runes → Runes
  extend_path [] part = part
  extend_path (c ∷ s) part = files.join (c ∷ s) part

  -- The loop over the parts.
  unfoldable pub check_parts : Runes → List Runes → Result PathError (Unit {0})
  unfolding extend_path
  check_parts current [] = ok tt
  check_parts current ([] ∷ rest) = check_parts current rest
  check_parts current ((c ∷ s) ∷ rest) =
      let next = extend_path current (c ∷ s) in
      let later = check_parts next rest in
      elim (files.lstat next) [
        | missing ↦ later
        | present ↦ later
        | symlink ↦ err (component_symlink next)
        | unknown ↦ err (component_unknown next)
      ]

  unfoldable pub check_for_symlinks : Runes → Result PathError (Unit {0})
  unfolding check_parts
  check_for_symlinks path = check_parts [] (files.parts path)

  -- The checks of buildSpecPath on a path.
  unfoldable pub checked_path : ResolvedConfig → Runes → Result PathError Runes
  unfolding is_path_safe check_for_symlinks byte_length
  checked_path config path =
      let links = check_for_symlinks path >>= λ _. ok path in
      if ltb config.path_max_bytes (byte_length path)
      then err path_too_long
      else if not (is_path_safe (runes config.path_base_dir) path)
      then err path_escapes
      else if config.deny_symlinks
      then links
      else ok path

  unfoldable pub build_spec_path :
      TextRules → ResolvedConfig → String → String → Result PathError Runes
  unfolding checked_path
  build_spec_path rules config id title = elim (slugify_title rules config title) [
    | none ↦ err invalid_class
    | some slug ↦
        checked_path config (files.join (runes config.path_base_dir) (runes id ++ (b'_' ∷ slug)))
  ]

-- filepath.Ext(path)
unfoldable pub ext_before : Runes → ℕ → Runes → Runes
ext_before (d ∷ ext) c s = d ∷ ext
ext_before [] c s = if c == b'.' && not (any (λ d. d == b'/') s) then c ∷ s else []

unfoldable pub ext : Runes → Runes
unfolding ext_before
ext [] = []
ext (c ∷ s) = ext_before (ext s) c s

-- fmt.Sprintf("%s-%d%s", strings.TrimSuffix(path, ext), i, ext)
unfoldable pub numbered : Runes → ℕ → Runes
unfolding ext decimal take
numbered path i =
    take (length path - length (ext path)) path ++ (b'-' ∷ (runes (decimal i) ++ ext path))

pub data CollisionWarning : Type 0 where
  replacing suffixed : Runes → CollisionWarning

pub data CollisionError : Type 0 where
  path_unknown path_exists : CollisionError
  suffix_limit_exceeded : ℕ → CollisionError
  invalid_mode : String → CollisionError

module _ (stat : Runes → Presence) where
  -- os.IsNotExist of the error of os.Stat
  unfoldable pub is_missing : Runes → Bool
  is_missing path = elim (stat path) [ missing ↦ true | _ ↦ false ]

  -- The loop over the suffixes, from `i` on, with `n` rounds left.
  unfoldable pub first_free : Runes → ℕ → ℕ → Option Runes
  unfolding is_missing
  first_free path i zero = none
  first_free path i (suc n) =
      let later = first_free path (i + 1) n in
      if is_missing (numbered path i) then some (numbered path i) else later

  unfoldable pub with_suffix :
      ℕ → Option Runes → Result CollisionError (Runes × Option CollisionWarning)
  with_suffix limit none = err (suffix_limit_exceeded limit)
  with_suffix limit (some path) = ok (path, some (suffixed path))

  unfoldable pub resolve_present :
      Runes → ResolvedConfig → Result CollisionError (Runes × Option CollisionWarning)
  unfolding first_free with_suffix
  resolve_present path config =
      if str_eq config.collision_mode "error"
      then err path_exists
      else if str_eq config.collision_mode "replace"
      then ok (path, some (replacing path))
      else if str_eq config.collision_mode "suffix"
      then with_suffix config.collision_suffix_limit
          (first_free path 1 config.collision_suffix_limit)
      else err (invalid_mode config.collision_mode)

  unfoldable pub resolve_collision :
      Runes → ResolvedConfig → Result CollisionError (Runes × Option CollisionWarning)
  unfolding resolve_present
  resolve_collision path config = elim (stat path) [
    | missing ↦ ok (path, none)
    | unknown ↦ err path_unknown
    | _ ↦ resolve_present path config
  ]
