-- ===== src/Picker/Ordered.antt =====
-- Predicates on the lists of ids that the search for cycles keeps.
use deespec.Base.{◌≡◌, refl, String, Bool, true, false, List, [], ◌∷◌, any, str_eq, arith, eq_refl}
use deespec.Parallel.Ready.{AllAmong}
use deespec.Picker.Tasks.{SbiTask}
use deespec.Picker.Cycles.{dependencies, without}

abbrev pub In : String → List String → Type 0
In x xs = any (str_eq x) xs ≡ true

-- Every id of the list stands before its dependencies, so that none of them leads to a cycle.
abbrev pub Ordered : List SbiTask → List String → Type 0
Ordered tasks [] = Unit
Ordered tasks (id ∷ ids) = AllAmong (dependencies tasks id) ids × Ordered tasks ids

-- Every id of the list has a dependency that passes the test.
abbrev pub EachDependsOn : List SbiTask → (String → Bool) → List String → Type 0
EachDependsOn tasks test [] = Unit
EachDependsOn tasks test (id ∷ ids) =
    (any test (dependencies tasks id) ≡ true) × EachDependsOn tasks test ids

pub any_mono :
    (p q : String → Bool)
    → ((x : String) → p x ≡ true → q x ≡ true)
    → (xs : List String) → any p xs ≡ true
    → any q xs ≡ true
any_mono p q step [] h = h
any_mono p q step (x ∷ xs) h = ground (arith, step x, any_mono p q step xs)

pub EachDependsOn-mono :
    (tasks : List SbiTask) (p q : String → Bool)
    → ((x : String) → p x ≡ true → q x ≡ true)
    → (ids : List String) → EachDependsOn tasks p ids
    → EachDependsOn tasks q ids
EachDependsOn-mono tasks p q step [] h = tt
EachDependsOn-mono tasks p q step (id ∷ ids) (here, there) =
    (any_mono p q step (dependencies tasks id) here, EachDependsOn-mono tasks p q step ids there)

without-absent : (id : String) (xs : List String) → any (str_eq id) xs ≡ false → without id xs ≡ xs
unfolding without
without-absent id [] h = refl
without-absent id (x ∷ xs) h = ground (arith, without-absent id xs)

pub without-head :
    (id : String) (xs : List String) → any (str_eq id) xs ≡ false → without id (id ∷ xs) ≡ xs
unfolding without
without-head id xs h = ground (arith, without-absent id xs, eq_refl id)
