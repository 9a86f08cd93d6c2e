-- ===== src/Register/Collisions.antt =====
-- What the resolution of a collision returns, and what a path that is built has passed.
use deespec.Base.{
  ℕ, zero, suc, ◌+◌, ◌≡◌, ◌≢◌, refl, sym, subst, ◌≤◌, ◌<◌, ◌⊎◌, inl, inr, ◌==◌, true, false, str_eq,
  eq_iff, Option, some, none, Result, ok, err, Bool-cases, differ, arith,
}
use deespec.Register.Config.{ResolvedConfig}
use deespec.Register.Runes.{Runes}
use deespec.Register.Paths.{
  Presence, missing, present, symlink, unknown, numbered, CollisionWarning, replacing, suffixed,
  CollisionError, path_unknown, path_exists, suffix_limit_exceeded, invalid_mode, is_missing,
  first_free, with_suffix, resolve_present, resolve_collision,
}

module _ (stat : Runes → Presence) where
  abbrev pub Taken : Runes → Type 0
  Taken path = stat path ≢ missing

  -- The numbers from `i` up to `k`, `k` left out, give no free path.
  abbrev pub AllTaken : Runes → ℕ → ℕ → Type 0
  AllTaken path i k = (j : ℕ) → i ≤ j → j < k → Taken (numbered path j)

  -- The least number from `i` on that gives a free path, below `k`.
  abbrev pub IsFirst : Runes → ℕ → ℕ → Option Runes → Type 0
  IsFirst path i k none = AllTaken path i k
  IsFirst path i k (some p) =
      (n : ℕ) × (i ≤ n) × (n < k) × (p ≡ numbered path n) × (stat p ≡ missing) × AllTaken path i n

  is_missing_lem : (path : Runes) → is_missing stat path ≡ true → stat path ≡ missing
  unfolding is_missing
  is_missing_lem path h = ground arith

  is_missing-Taken : (path : Runes) → is_missing stat path ≡ false → Taken path
  unfolding is_missing
  is_missing-Taken path h e = ground arith

  -- One more taken path in front.
  AllTaken-suc :
      (path : Runes) (i k : ℕ)
      → Taken (numbered path i)
      → AllTaken path (i + 1) k
      → AllTaken path i k
  AllTaken-suc path i k taken later j from below = elim (Bool-cases (j == i)) [
    | inl same ↦ let here : i ≡ j = ground arith in subst (λ n. Taken (numbered path n)) here taken
    | inr other ↦ later j (ground arith) below
  ]

  IsFirst-suc :
      (path : Runes) (i k : ℕ) (later : Option Runes)
      → Taken (numbered path i)
      → IsFirst path (i + 1) k later
      → IsFirst path i k later
  IsFirst-suc path i k none taken h = AllTaken-suc path i k taken h
  IsFirst-suc path i k (some p) taken (n, from, below, same, free, before) =
      (n, omega arith, below, same, free, AllTaken-suc path i n taken before)

  first_free-IsFirst :
      (path : Runes) (i rounds : ℕ) → IsFirst path i (i + rounds) (first_free stat path i rounds)
  unfolding first_free
  first_free-IsFirst path i zero = λ j from below. absurd (omega arith)
  first_free-IsFirst path i (suc rounds) = elim (Bool-cases (is_missing stat (numbered path i))) [
    | inl free ↦ rw free (
      i,
      omega arith,
      omega arith,
      refl,
      is_missing_lem (numbered path i) free,
      λ j from below. absurd (omega arith),
    )
    | inr taken ↦
        let ends : i + 1 + rounds ≡ i + suc rounds = omega arith in
        rw taken (
          IsFirst-suc path i (i + suc rounds) (first_free stat path (i + 1) rounds)
            (is_missing-Taken (numbered path i) taken)
            (subst (λ k. IsFirst path (i + 1) k (first_free stat path (i + 1) rounds)) ends
              (first_free-IsFirst path (i + 1) rounds)))
  ]

  -- Every result of resolveCollision, and what it says of the file system and of the mode.
  abbrev pub Resolves :
      Runes → ResolvedConfig → Result CollisionError (Runes × Option CollisionWarning) → Type 0
  Resolves path config (ok (p, none)) = (p ≡ path) × (stat path ≡ missing)
  Resolves path config (ok (p, some (replacing q))) =
      (p ≡ path) × (q ≡ path) × (config.collision_mode ≡ "replace") × Taken path
  Resolves path config (ok (p, some (suffixed q))) =
      (q ≡ p)
      × (config.collision_mode ≡ "suffix")
      × Taken path
      × IsFirst path 1 (config.collision_suffix_limit + 1) (some p)
  Resolves path config (err path_unknown) = stat path ≡ unknown
  Resolves path config (err path_exists) = (config.collision_mode ≡ "error") × Taken path
  Resolves path config (err (suffix_limit_exceeded limit)) =
      (limit ≡ config.collision_suffix_limit)
      × (config.collision_mode ≡ "suffix")
      × Taken path
      × AllTaken path 1 (config.collision_suffix_limit + 1)
  Resolves path config (err (invalid_mode mode)) =
      (mode ≡ config.collision_mode)
      × (mode ≢ "error")
      × (mode ≢ "replace")
      × (mode ≢ "suffix")
      × Taken path

  with_suffix-Resolves :
      (path : Runes) (config : ResolvedConfig) (found : Option Runes)
      → config.collision_mode ≡ "suffix"
      → Taken path
      → IsFirst path 1 (config.collision_suffix_limit + 1) found
      → Resolves path config (with_suffix stat config.collision_suffix_limit found)
  unfolding with_suffix
  with_suffix-Resolves path config none mode taken h = (refl, mode, taken, h)
  with_suffix-Resolves path config (some p) mode taken h = (refl, mode, taken, h)

  resolve_present-Resolves :
      (path : Runes) (config : ResolvedConfig)
      → Taken path
      → Resolves path config (resolve_present stat path config)
  unfolding resolve_present
  resolve_present-Resolves path config taken =
      let mode = config.collision_mode in
      elim (Bool-cases (str_eq mode "error")) [
        | inl e ↦ rw e ((eq_iff mode "error").0 e, taken)
        | inr e ↦ elim (Bool-cases (str_eq mode "replace")) [
          | inl r ↦ rw (e, r) (refl, refl, (eq_iff mode "replace").0 r, taken)
          | inr r ↦ elim (Bool-cases (str_eq mode "suffix")) [
            | inl s ↦
                let ends : 1 + config.collision_suffix_limit ≡ config.collision_suffix_limit + 1 =
                  omega arith in
                let found = first_free stat path 1 config.collision_suffix_limit in
                rw (e, r, s)
                  (with_suffix-Resolves path config found ((eq_iff mode "suffix").0 s) taken (
                    subst (λ k. IsFirst path 1 k found) ends
                      (first_free-IsFirst path 1 config.collision_suffix_limit)))
            | inr s ↦
                rw (e, r, s)
                  (
                    refl,
                    differ mode "error" e,
                    differ mode "replace" r,
                    differ mode "suffix" s,
                    taken,
                  )
          ]
        ]
      ]

  Presence-cases :
      (path : Runes)
      → (stat path ≡ missing)
        ⊎ (stat path ≡ unknown)
        ⊎ ((stat path ≡ present) ⊎ (stat path ≡ symlink))
  Presence-cases path =
      elim (stat path) as (λ p. (p ≡ missing) ⊎ (p ≡ unknown) ⊎ ((p ≡ present) ⊎ (p ≡ symlink))) [
        | missing ↦ inl refl
        | unknown ↦ inr (inl refl)
        | present ↦ inr (inr (inl refl))
        | symlink ↦ inr (inr (inr refl))
      ]

  -- The resolution returns the path itself if nothing is there; a path that is taken only to be
  -- replaced, in the mode "replace"; or in the mode "suffix" the path with the least number from 1 to
  -- the limit at which nothing is there. It fails only if the path cannot be looked up, is taken in
  -- the mode "error", is taken with every number up to the limit, or is taken in a mode that is none
  -- of the three.
  pub resolve_collision-Resolves :
      (path : Runes) (config : ResolvedConfig)
      → Resolves path config (resolve_collision stat path config)
  unfolding resolve_collision
  resolve_collision-Resolves path config =
      let P = Resolves path config in
      let result = resolve_collision stat path config in
      let rest = resolve_present stat path config in
      elim (Presence-cases path) [
        | inl free ↦
            let same : result ≡ ok (path, none) = simp (free, resolve_collision) in
            subst P (sym same) (refl, free)
        | inr (inl lost) ↦
            let same : result ≡ err path_unknown = simp (lost, resolve_collision) in
            subst P (sym same) lost
        | inr (inr (inl there)) ↦
            let same : result ≡ rest = simp (there, resolve_collision) in
            subst P (sym same) (resolve_present-Resolves path config (λ e. cc))
        | inr (inr (inr there)) ↦
            let same : result ≡ rest = simp (there, resolve_collision) in
            subst P (sym same) (resolve_present-Resolves path config (λ e. cc))
      ]
