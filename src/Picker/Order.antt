-- ===== src/Picker/Order.antt =====
-- The comparison of the sort is a strict order, and the filter lets only ready tasks through.
use deespec.Base.{
  ℕ, ◌≡◌, refl, sym, ap, ◌∙◌, if◌then◌else◌, ◌⊎◌, inl, inr, String, Bool, true, false, not, ◌&&◌,
  List, [], ◌∷◌, str_eq, eq_iff, arith, Bool-cases, ltb, ◌==◌,
}
use deespec.Base.Int.{ℤ, ltb_ℤ}
use deespec.Picker.Texts.{TextOrder, before, before-TextOrder}
use deespec.Picker.Tasks.{
  SbiTask, Criterion, by_por, by_priority, by_registered_at, by_sequence, by_id, unknown,
  criterion_of, by_criterion, comes_before, eq_ℤ,
}

-- The comparison by one integer keeps the transitivity of what follows it.
ℤ-transitive :
    (x y z : ℤ) (r s t : Bool)
    → (if not (eq_ℤ x y) then ltb_ℤ x y else r) ≡ true
    → (if not (eq_ℤ y z) then ltb_ℤ y z else s) ≡ true
    → (r ≡ false) ⊎ (s ≡ false) ⊎ (t ≡ true)
    → (if not (eq_ℤ x z) then ltb_ℤ x z else t) ≡ true
ℤ-transitive x y z r s t h k later = ground arith

ℤ-transitive-descending :
    (x y z : ℤ) (r s t : Bool)
    → (if not (eq_ℤ x y) then ltb_ℤ y x else r) ≡ true
    → (if not (eq_ℤ y z) then ltb_ℤ z y else s) ≡ true
    → (r ≡ false) ⊎ (s ≡ false) ⊎ (t ≡ true)
    → (if not (eq_ℤ x z) then ltb_ℤ z x else t) ≡ true
ℤ-transitive-descending x y z r s t h k later = ground arith

ℕ-transitive :
    (x y z : ℕ) (p q w r s t : Bool)
    → p ≡ true
    → q ≡ true
    → w ≡ true
    → (if not (x == y && p) then ltb x y else r) ≡ true
    → (if not (y == z && q) then ltb y z else s) ≡ true
    → (r ≡ false) ⊎ (s ≡ false) ⊎ (t ≡ true)
    → (if not (x == z && w) then ltb x z else t) ≡ true
ℕ-transitive x y z p q w r s t ep eq ew h k later = ground arith

ℤ_negative :
    (x y z : ℤ) (r s t : Bool)
    → (if not (eq_ℤ x y) then ltb_ℤ x y else r) ≡ false
    → (if not (eq_ℤ y z) then ltb_ℤ y z else s) ≡ false
    → (r ≡ true) ⊎ (s ≡ true) ⊎ (t ≡ false)
    → (if not (eq_ℤ x z) then ltb_ℤ x z else t) ≡ false
ℤ_negative x y z r s t h k later = ground arith

ℤ_negative-descending :
    (x y z : ℤ) (r s t : Bool)
    → (if not (eq_ℤ x y) then ltb_ℤ y x else r) ≡ false
    → (if not (eq_ℤ y z) then ltb_ℤ z y else s) ≡ false
    → (r ≡ true) ⊎ (s ≡ true) ⊎ (t ≡ false)
    → (if not (eq_ℤ x z) then ltb_ℤ z x else t) ≡ false
ℤ_negative-descending x y z r s t h k later = ground arith

ℕ_negative :
    (x y z : ℕ) (p q w r s t : Bool)
    → p ≡ true
    → q ≡ true
    → w ≡ true
    → (if not (x == y && p) then ltb x y else r) ≡ false
    → (if not (y == z && q) then ltb y z else s) ≡ false
    → (r ≡ true) ⊎ (s ≡ true) ⊎ (t ≡ false)
    → (if not (x == z && w) then ltb x z else t) ≡ false
ℕ_negative x y z p q w r s t ep eq ew h k later = ground arith

module _ (before : String → String → Bool) (order : TextOrder before) where
  String-transitive :
      (x y z : String) (r s t : Bool)
      → (if not (str_eq x y) then before x y else r) ≡ true
      → (if not (str_eq y z) then before y z else s) ≡ true
      → (r ≡ false) ⊎ (s ≡ false) ⊎ (t ≡ true)
      → (if not (str_eq x z) then before x z else t) ≡ true
  String-transitive x y z r s t h k later =
      ground
        (arith, order.transitive x y z, order.irreflexive x, eq_iff x y, eq_iff y z, eq_iff x z)

  String-negative :
      (x y z : String) (r s t : Bool)
      → (if not (str_eq x y) then before x y else r) ≡ false
      → (if not (str_eq y z) then before y z else s) ≡ false
      → (r ≡ true) ⊎ (s ≡ true) ⊎ (t ≡ false)
      → (if not (str_eq x z) then before x z else t) ≡ false
  String-negative x y z r s t h k later = elim (Bool-cases (str_eq x z)) [
    | inl same ↦
        let alike : x ≡ z = ground (arith, eq_iff x z, same) in
        let back : before y z ≡ before y x = ap (before y) (sym alike) in
        ground (arith, back, order.total x y, eq_iff x y, eq_iff y z, eq_iff x z)
    | inr other ↦ ground (
      arith,
      order.transitive x z y,
      order.transitive y x z,
      order.total x y,
      order.total y z,
      order.irreflexive x,
      eq_iff x y,
      eq_iff y z,
      eq_iff x z,
    )
  ]

  by_criterion-transitive :
      (criterion : Criterion) (a b c : SbiTask) (r s t : Bool)
      → a.location ≡ b.location
      → b.location ≡ c.location
      → by_criterion before criterion a b r ≡ true
      → by_criterion before criterion b c s ≡ true
      → (r ≡ false) ⊎ (s ≡ false) ⊎ (t ≡ true)
      → by_criterion before criterion a c t ≡ true
  unfolding by_criterion
  by_criterion-transitive by_por a b c r s t ab bc h k later =
      ℤ-transitive a.por b.por c.por r s t h k later
  by_criterion-transitive by_priority a b c r s t ab bc h k later =
      ℤ-transitive-descending a.priority b.priority c.priority r s t h k later
  by_criterion-transitive by_registered_at a b c r s t ab bc h k later =
      ℕ-transitive a.registered_at b.registered_at c.registered_at (a.location == b.location)
        (b.location == c.location) (a.location == c.location) r s t (ground (arith, ab))
        (ground (arith, bc)) (ground (arith, ab, bc)) h k later
  by_criterion-transitive by_sequence a b c r s t ab bc h k later =
      ℤ-transitive a.sequence b.sequence c.sequence r s t h k later
  by_criterion-transitive by_id a b c r s t ab bc h k later =
      String-transitive a.id b.id c.id r s t h k later
  by_criterion-transitive unknown a b c r s t ab bc h k later = ground (arith, later)

  by_criterion-same :
      (criterion : Criterion) (a : SbiTask) (r : Bool) → by_criterion before criterion a a r ≡ r
  unfolding by_criterion
  by_criterion-same by_id a r = ground (arith, eq_iff a.id a.id)
  by_criterion-same _ a r = ground arith

  comes_before-irreflexive :
      (criteria : List String) (a : SbiTask) → comes_before before criteria a a ≡ false
  unfolding comes_before
  comes_before-irreflexive [] a = refl
  comes_before-irreflexive (criterion ∷ criteria) a =
      by_criterion-same (criterion_of criterion) a (comes_before before criteria a a)
      ∙ comes_before-irreflexive criteria a

  comes_before-transitive :
      (criteria : List String) (a b c : SbiTask)
      → a.location ≡ b.location
      → b.location ≡ c.location
      → comes_before before criteria a b ≡ true
      → comes_before before criteria b c ≡ true
      → comes_before before criteria a c ≡ true
  unfolding comes_before
  comes_before-transitive [] a b c ab bc h k = cc
  comes_before-transitive (criterion ∷ criteria) a b c ab bc h k =
      by_criterion-transitive (criterion_of criterion) a b c _ _ _ ab bc h k
        (elim (Bool-cases (comes_before before criteria a b)) [
          | inr no_first ↦ inl no_first
          | inl first ↦ elim (Bool-cases (comes_before before criteria b c)) [
            | inr no_second ↦ inr (inl no_second)
            | inl second ↦ inr (inr (comes_before-transitive criteria a b c ab bc first second))
          ]
        ])

  by_criterion-negative :
      (criterion : Criterion) (a b c : SbiTask) (r s t : Bool)
      → a.location ≡ b.location
      → b.location ≡ c.location
      → by_criterion before criterion a b r ≡ false
      → by_criterion before criterion b c s ≡ false
      → (r ≡ true) ⊎ (s ≡ true) ⊎ (t ≡ false)
      → by_criterion before criterion a c t ≡ false
  unfolding by_criterion
  by_criterion-negative by_por a b c r s t ab bc h k later =
      ℤ_negative a.por b.por c.por r s t h k later
  by_criterion-negative by_priority a b c r s t ab bc h k later =
      ℤ_negative-descending a.priority b.priority c.priority r s t h k later
  by_criterion-negative by_registered_at a b c r s t ab bc h k later =
      ℕ_negative a.registered_at b.registered_at c.registered_at (a.location == b.location)
        (b.location == c.location) (a.location == c.location) r s t (ground (arith, ab))
        (ground (arith, bc)) (ground (arith, ab, bc)) h k later
  by_criterion-negative by_sequence a b c r s t ab bc h k later =
      ℤ_negative a.sequence b.sequence c.sequence r s t h k later
  by_criterion-negative by_id a b c r s t ab bc h k later =
      String-negative a.id b.id c.id r s t h k later
  by_criterion-negative unknown a b c r s t ab bc h k later = ground (arith, later)

  comes_before-negative :
      (criteria : List String) (a b c : SbiTask)
      → a.location ≡ b.location
      → b.location ≡ c.location
      → comes_before before criteria a b ≡ false
      → comes_before before criteria b c ≡ false
      → comes_before before criteria a c ≡ false
  unfolding comes_before
  comes_before-negative [] a b c ab bc h k = refl
  comes_before-negative (criterion ∷ criteria) a b c ab bc h k =
      by_criterion-negative (criterion_of criterion) a b c _ _ _ ab bc h k
        (elim (Bool-cases (comes_before before criteria a b)) [
          | inl first ↦ inl first
          | inr no_first ↦ elim (Bool-cases (comes_before before criteria b c)) [
            | inl second ↦ inr (inl second)
            | inr no_second ↦
                inr (inr (comes_before-negative criteria a b c ab bc no_first no_second))
          ]
        ])

-- For every list of criteria and times in one location the comparison is a strict weak order, as the
-- sort asks for: no task comes before itself, it is transitive, and a task that comes before another comes before or after
-- every third.
pub comes_before_weak_order :
    (criteria : List String) (a b c : SbiTask)
    → a.location ≡ b.location
    → b.location ≡ c.location
    → (comes_before before criteria a a ≡ false)
      × (comes_before before criteria a b
            && comes_before before criteria b c
            && not (comes_before before criteria a c)
          ≡ false)
      × (comes_before before criteria a c
            && not (comes_before before criteria a b)
            && not (comes_before before criteria b c)
          ≡ false)
comes_before_weak_order criteria a b c ab bc = (
  comes_before-irreflexive before before-TextOrder criteria a,
  ground (arith, comes_before-transitive before before-TextOrder criteria a b c ab bc),
  ground (arith, comes_before-negative before before-TextOrder criteria a b c ab bc),
)

pub comes_before-asymmetric :
    (criteria : List String) (a b : SbiTask)
    → a.location ≡ b.location
    → comes_before before criteria a b ≡ true
    → comes_before before criteria b a ≡ false
comes_before-asymmetric criteria a b ab h =
    ground (arith, comes_before_weak_order criteria a b a ab (sym ab))
