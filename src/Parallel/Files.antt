-- ===== src/Parallel/Files.antt =====
-- Which SBI owns which file after registrations and unregistrations.
use deespec.Base.{
  ◌≡◌, ◌≢◌, refl, String, Bool, false, some, List, [], ◌∷◌, arith, any, str_eq, eq_iff,
}
use deespec.Base.Dict.{Dict, lookup, insert, lookup-insert, lookup-delete}
use deespec.Parallel.ConflictDetector.{any_taken, register_paths, unregister_path, unregister_paths}

-- The SBI `id` owns every file of the list.
abbrev pub Owns : Dict String → String → List String → Type 0
Owns active id [] = Unit
Owns active id (path ∷ paths) = (lookup path active ≡ some id) × Owns active id paths

register_paths-same :
    (active : Dict String) (id : String) (paths : List String) (path : String)
    → lookup path active ≡ some id
    → lookup path (register_paths active id paths) ≡ some id
unfolding register_paths
register_paths-same active id [] path h = h
register_paths-same active id (p ∷ paths) path h =
    register_paths-same (insert p id active) id paths path
      (ground (arith, lookup-insert p path id active))

pub register_paths-Owns :
    (active : Dict String) (id : String) (paths : List String)
    → Owns (register_paths active id paths) id paths
unfolding register_paths
register_paths-Owns active id [] = tt
register_paths-Owns active id (p ∷ paths) = (
  register_paths-same (insert p id active) id paths p
      (ground (arith, lookup-insert p p id active, eq_iff p p)),
  register_paths-Owns (insert p id active) id paths,
)

any_taken-insert :
    (active : Dict String) (id : String) (path : String) (paths : List String)
    → any_taken active id paths ≡ false
    → any_taken (insert path id active) id paths ≡ false
unfolding any_taken
any_taken-insert active id path [] h = refl
any_taken-insert active id path (p ∷ paths) h =
    ground
      (arith, any_taken-insert active id path paths, lookup-insert path p id active, eq_iff id id)

register_paths-other :
    (active : Dict String) (id : String) (paths : List String) (path j : String)
    → any_taken active id paths ≡ false
    → lookup path active ≡ some j
    → lookup path (register_paths active id paths) ≡ some j
unfolding register_paths any_taken
register_paths-other active id [] path j free h = h
register_paths-other active id (p ∷ paths) path j free h =
    register_paths-other (insert p id active) id paths path j
      (any_taken-insert active id p paths (ground arith))
      (ground (arith, lookup-insert p path id active, eq_iff p path, eq_iff j id))

-- A registration without a conflict takes no file from another SBI.
pub register_paths-keeps :
    (active : Dict String) (id : String) (paths : List String) (j : String) (owned : List String)
    → any_taken active id paths ≡ false
    → Owns active j owned
    → Owns (register_paths active id paths) j owned
register_paths-keeps active id paths j [] free h = tt
register_paths-keeps active id paths j (path ∷ owned) free (first, rest) = (
  register_paths-other active id paths path j free first,
  register_paths-keeps active id paths j owned free rest,
)

unregister_path-other :
    (active : Dict String) (id p path j : String)
    → id ≢ j
    → lookup path active ≡ some j
    → lookup path (unregister_path active id p) ≡ some j
unfolding unregister_path
unregister_path-other active id p path j different h =
    ground (arith, lookup-delete p path active, eq_iff p path, eq_iff j id)

unregister_paths-other :
    (active : Dict String) (id : String) (paths : List String) (path j : String)
    → id ≢ j
    → lookup path active ≡ some j
    → lookup path (unregister_paths active id paths) ≡ some j
unfolding unregister_paths
unregister_paths-other active id [] path j different h = h
unregister_paths-other active id (p ∷ paths) path j different h =
    unregister_paths-other (unregister_path active id p) id paths path j different
      (unregister_path-other active id p path j different h)

-- An unregistration takes no file from another SBI.
pub unregister_paths-keeps :
    (active : Dict String) (id : String) (paths : List String) (j : String) (owned : List String)
    → id ≢ j
    → Owns active j owned
    → Owns (unregister_paths active id paths) j owned
unregister_paths-keeps active id paths j [] different h = tt
unregister_paths-keeps active id paths j (path ∷ owned) different (first, rest) = (
  unregister_paths-other active id paths path j different first,
  unregister_paths-keeps active id paths j owned different rest,
)

-- Whether two lists of files have a file in common.
abbrev pub shares : List String → List String → Bool
shares paths others = any (λ path. any (str_eq path) others) paths

Owns-absent :
    (active : Dict String) (id j : String) (path : String) (others : List String)
    → id ≢ j
    → lookup path active ≡ some id
    → Owns active j others
    → any (str_eq path) others ≡ false
Owns-absent active id j path [] different h o = refl
Owns-absent active id j path (p ∷ others) different h (first, rest) =
    ground (arith, Owns-absent active id j path others different h rest, eq_iff path p)

pub Owns-disjoint :
    (active : Dict String) (id j : String) (paths others : List String)
    → id ≢ j
    → Owns active id paths
    → Owns active j others
    → shares paths others ≡ false
Owns-disjoint active id j [] others different o o' = refl
Owns-disjoint active id j (path ∷ paths) others different (first, rest) o' = ground (
  arith,
  Owns-absent active id j path others different first o',
  Owns-disjoint active id j paths others different rest o',
)
