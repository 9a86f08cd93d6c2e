-- ===== src/Picker/Texts.antt =====
-- Go's `<` on texts, by the codes of the characters.
use Prim.Native.String.{[], ◌∷◌}
use Prim.Native.Char.{code}
use text.Mathlib.TextEquality.{Char-path}
use deespec.Base.{◌≡◌, refl, String, Bool, true, false, arith, ltb, if◌then◌else◌}

-- A strict total order.
pub record TextOrder (before : String → String → Bool) : Type 0 where
  pub irreflexive : (a : String) → before a a ≡ false
  pub transitive : (a b c : String) → before a b ≡ true → before b c ≡ true → before a c ≡ true
  pub total : (a b : String) → before a b ≡ false → before b a ≡ false → a ≡ b

unfoldable pub before : String → String → Bool
before [] [] = false
before [] (d ∷ t) = true
before (c ∷ s) [] = false
before (c ∷ s) (d ∷ t) =
    let rest = before s t in
    if ltb (code c) (code d) then true else if ltb (code d) (code c) then false else rest

before-irreflexive : (a : String) → before a a ≡ false
unfolding before
before-irreflexive [] = refl
before-irreflexive (c ∷ s) = ground (arith, before-irreflexive s)

before-transitive : (a b c : String) → before a b ≡ true → before b c ≡ true → before a c ≡ true
unfolding before
before-transitive a [] [] h k = h
before-transitive [] b (z ∷ c) h k = refl
before-transitive (x ∷ a) [] (z ∷ c) h k = cc
before-transitive a (y ∷ b) [] h k = cc
before-transitive (x ∷ a) (y ∷ b) (z ∷ c) h k = ground (arith, before-transitive a b c)

before-total : (a b : String) → before a b ≡ false → before b a ≡ false → a ≡ b
unfolding before
before-total [] [] h k = refl
before-total [] (y ∷ b) h k = cc
before-total (x ∷ a) [] h k = cc
before-total (x ∷ a) (y ∷ b) h k =
    let first : x ≡ y = Char-path x y (ground arith) in
    let later : a ≡ b = before-total a b (ground arith) (ground arith) in λ i. first i ∷ later i

pub before-TextOrder : TextOrder before
before-TextOrder = record {
  irreflexive = before-irreflexive;
  transitive = before-transitive;
  total = before-total;
}
