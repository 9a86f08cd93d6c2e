-- ===== src/Register/Built.antt =====
-- What a path that is built has passed.
use deespec.Base.{
  ◌⊎◌, false, ◌≡◌, ◌≢◌, sym, subst, ◌≤◌, inl, inr, String, true, some, List, [], ◌∷◌, ◌++◌, ok,
  Option-cases, Result-cases, arith,
}
use deespec.Register.Config.{ResolvedConfig}
use deespec.Register.Runes.{Runes, runes, byte_length}
use deespec.Register.Slug.{TextRules, slugify_title}
use deespec.Register.Paths.{
  symlink, unknown, Files, is_path_safe, extend_path, check_parts, check_for_symlinks, checked_path,
  build_spec_path,
}

module _ (files : Files) where
  -- From `current` on, no part leads to a symbolic link or to a path that cannot be looked up.
  abbrev pub NoLink : Runes → List Runes → Type 0
  NoLink current [] = Unit
  NoLink current ([] ∷ rest) = NoLink current rest
  NoLink current ((c ∷ s) ∷ rest) =
      let next = extend_path files current (c ∷ s) in
      (files.lstat next ≢ symlink) × (files.lstat next ≢ unknown) × NoLink next rest

  check_parts-NoLink :
      (current : Runes) (parts : List Runes)
      → check_parts files current parts ≡ ok tt
      → NoLink current parts
  unfolding check_parts
  check_parts-NoLink current [] h = tt
  check_parts-NoLink current ([] ∷ rest) h = check_parts-NoLink current rest h
  check_parts-NoLink current ((c ∷ s) ∷ rest) h =
      ground (arith, check_parts-NoLink (extend_path files current (c ∷ s)) rest)

  -- The path of the specification is within the limit, inside the base directory by filepath.Rel, and
  -- without links if these are denied.
  pub record IsChecked (config : ResolvedConfig) (path : Runes) : Type 0 where
    pub short : byte_length path ≤ config.path_max_bytes
    pub safe : is_path_safe files (runes config.path_base_dir) path ≡ true
    pub no_links : (config.deny_symlinks ≡ false) ⊎ NoLink [] (files.parts path)

  checked_path-IsChecked :
      (config : ResolvedConfig) (path p : Runes)
      → checked_path files config path ≡ ok p
      → (p ≡ path) × IsChecked config path
  unfolding checked_path check_for_symlinks
  checked_path-IsChecked config path p h =
      elim (Result-cases (check_parts files [] (files.parts path))) [
        | inl (done, e) ↦ (
          ground arith,
          record {
            short = ground arith;
            safe = ground arith;
            no_links = inr (check_parts-NoLink [] (files.parts path) e);
          },
        )
        | inr (failure, e) ↦ (
          ground arith,
          record { short = ground arith; safe = ground arith; no_links = ground arith },
        )
      ]

  -- A path that is built is the base directory joined with the id, a low line and the title's slug,
  -- and has passed the checks.
  abbrev pub IsBuilt : TextRules → ResolvedConfig → String → String → Runes → Type 0
  IsBuilt rules config id title path =
      ((slug : Runes) × (slugify_title rules config title ≡ some slug)
        × (path ≡ files.join (runes config.path_base_dir) (runes id ++ (b'_' ∷ slug))))
      × IsChecked config path

  pub build_spec_path-IsBuilt :
      (rules : TextRules) (config : ResolvedConfig) (id title : String) (path : Runes)
      → build_spec_path files rules config id title ≡ ok path
      → IsBuilt rules config id title path
  unfolding build_spec_path
  build_spec_path-IsBuilt rules config id title path h =
      elim (Option-cases (slugify_title rules config title)) [
        | inl panics ↦ cc (simp (panics, build_spec_path) at h)
        | inr (slug, slugged) ↦
            let whole = files.join (runes config.path_base_dir) (runes id ++ (b'_' ∷ slug)) in
            let (same, checked) =
              checked_path-IsChecked config whole path (simp (slugged, build_spec_path) at h) in
            ((slug, slugged, same), subst (IsChecked config) (sym same) checked)
      ]
