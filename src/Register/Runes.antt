-- ===== src/Register/Runes.antt =====
-- Texts as lists of code points (Go's runes), with the functions of the packages strings and regexp
-- that the slugs use.
use Prim.Native.Char.{code}
use Prim.Native.String.{String}
use deespec.Base.{
  ℕ, zero, suc, ◌≡◌, ◌≤◌, ◌+◌, Bool, true, false, ◌&&◌, ◌==◌, ltb, List, [], ◌∷◌, ◌++◌, length,
  if◌then◌else◌, arith,
}

abbrev pub Runes : Type 0
Runes = List ℕ

-- []rune(s)
abbrev pub runes : String → Runes
runes String.[] = []
runes (String.◌∷◌ c s) = code c ∷ runes s

-- The bytes of a rune in UTF-8.
unfoldable pub rune_bytes : ℕ → ℕ
rune_bytes c = if ltb c 128 then 1 else if ltb c 2048 then 2 else if ltb c 65536 then 3 else 4

-- len(s)
unfoldable pub byte_length : Runes → ℕ
unfolding rune_bytes
byte_length [] = 0
byte_length (c ∷ s) = rune_bytes c + byte_length s

unfoldable pub runes_eq : Runes → Runes → Bool
runes_eq [] [] = true
runes_eq (c ∷ s) (d ∷ t) = c == d && runes_eq s t
runes_eq _ _ = false

-- runes[:n]
unfoldable pub take : ℕ → Runes → Runes
take zero s = []
take (suc n) [] = []
take (suc n) (c ∷ s) = c ∷ take n s

unfoldable pub trim_left : (ℕ → Bool) → Runes → Runes
trim_left cut [] = []
trim_left cut (c ∷ s) = if cut c then trim_left cut s else c ∷ s

-- A rune before what is left of the text behind it.
unfoldable pub before_trimmed : Bool → ℕ → Runes → Runes
before_trimmed true c [] = []
before_trimmed false c [] = c ∷ []
before_trimmed cuts c (d ∷ s) = c ∷ d ∷ s

unfoldable pub trim_right : (ℕ → Bool) → Runes → Runes
unfolding before_trimmed
trim_right cut [] = []
trim_right cut (c ∷ s) = before_trimmed (cut c) c (trim_right cut s)

-- The replacement of each run of `mark` by one, behind a rune that is `mark` or not.
unfoldable pub squeeze : ℕ → Bool → Runes → Runes
squeeze mark after [] = []
squeeze mark after (c ∷ s) =
    let rest = squeeze mark (c == mark) s in if c == mark && after then rest else c ∷ rest

-- strings.Split(s, mark)[0]
unfoldable pub until : ℕ → Runes → Runes
until mark [] = []
until mark (c ∷ s) = if c == mark then [] else c ∷ until mark s

pub runes_eq-length : (s t : Runes) → runes_eq s t ≡ true → length s ≡ length t
unfolding runes_eq
runes_eq-length [] [] h = omega arith
runes_eq-length [] (d ∷ t) h = cc
runes_eq-length (c ∷ s) [] h = cc
runes_eq-length (c ∷ s) (d ∷ t) h = ground (arith, runes_eq-length s t)

pub length-take : (n : ℕ) (s : Runes) → (length (take n s) ≤ n) × (length (take n s) ≤ length s)
unfolding take
length-take zero s = ground arith
length-take (suc n) [] = ground arith
length-take (suc n) (c ∷ s) = omega (arith, length-take n s)

-- A predicate that holds of every rune.
abbrev pub Each : (ℕ → Type 0) → Runes → Type 0
Each P [] = Unit
Each P (c ∷ s) = P c × Each P s

module _ (P : ℕ → Type 0) where
  pub Each-append : (s t : Runes) → Each P s → Each P t → Each P (s ++ t)
  Each-append [] t h k = k
  Each-append (c ∷ s) t (p, h) k = (p, Each-append s t h k)

  pub Each-take : (n : ℕ) (s : Runes) → Each P s → Each P (take n s)
  unfolding take
  Each-take zero s h = tt
  Each-take (suc n) [] h = tt
  Each-take (suc n) (c ∷ s) (p, h) = (p, Each-take n s h)

  pub Each-trim_left : (cut : ℕ → Bool) (s : Runes) → Each P s → Each P (trim_left cut s)
  unfolding trim_left
  Each-trim_left cut [] h = tt
  Each-trim_left cut (c ∷ s) (p, h) =
      elim (cut c) as (λ b. Each P (if b then trim_left cut s else c ∷ s)) [
        | true ↦ Each-trim_left cut s h
        | false ↦ (p, h)
      ]

  Each-before_trimmed :
      (cuts : Bool) (c : ℕ) (s : Runes) → P c → Each P s → Each P (before_trimmed cuts c s)
  unfolding before_trimmed
  Each-before_trimmed true c [] p h = tt
  Each-before_trimmed false c [] p h = (p, tt)
  Each-before_trimmed true c (d ∷ s) p h = (p, h)
  Each-before_trimmed false c (d ∷ s) p h = (p, h)

  pub Each-trim_right : (cut : ℕ → Bool) (s : Runes) → Each P s → Each P (trim_right cut s)
  unfolding trim_right
  Each-trim_right cut [] h = tt
  Each-trim_right cut (c ∷ s) (p, h) =
      Each-before_trimmed (cut c) c (trim_right cut s) p (Each-trim_right cut s h)

  pub Each-squeeze :
      (mark : ℕ) (after : Bool) (s : Runes) → Each P s → Each P (squeeze mark after s)
  unfolding squeeze
  Each-squeeze mark after [] h = tt
  Each-squeeze mark after (c ∷ s) (p, h) =
      elim (c == mark && after)
        as (λ b.
          Each P (if b then squeeze mark (c == mark) s else c ∷ squeeze mark (c == mark) s)) [
            | true ↦ Each-squeeze mark (c == mark) s h
            | false ↦ (p, Each-squeeze mark (c == mark) s h)
          ]
