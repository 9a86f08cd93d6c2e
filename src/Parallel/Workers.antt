-- ===== src/Parallel/Workers.antt =====
-- The workers of a batch and the SBIs that wait: whose files they own, and that their ids differ.
use deespec.Base.{◌≡◌, ◌≢◌, sym, ◌+◌, String, Bool, false, List, [], ◌∷◌, length, arith}
use deespec.Base.Dict.{Dict}
use deespec.Model.Sbi.{Sbi}
use deespec.Parallel.ConflictDetector.{any_taken, register_paths, unregister_paths}
use deespec.Parallel.Runner.{Worker, Picks, here, there}
use deespec.Parallel.Files.{Owns, register_paths-keeps, unregister_paths-keeps}

-- Every worker owns its files.
abbrev pub Owned : Dict String → List Worker → Type 0
Owned active [] = Unit
Owned active (w ∷ ws) = Owns active w.sbi.id w.sbi.metadata.file_paths × Owned active ws

-- No worker, or no waiting SBI, has this id.
abbrev pub Apart : String → List Worker → Type 0
Apart id [] = Unit
Apart id (w ∷ ws) = (id ≢ w.sbi.id) × Apart id ws

abbrev pub NotAmong : String → List Sbi → Type 0
NotAmong id [] = Unit
NotAmong id (s ∷ rest) = (id ≢ s.id) × NotAmong id rest

-- The ids of the workers differ, and so do those of the waiting SBIs, also from the workers'.
abbrev pub Distinct : List Worker → Type 0
Distinct [] = Unit
Distinct (w ∷ ws) = Apart w.sbi.id ws × Distinct ws

abbrev pub Waiting : List Worker → List Sbi → Type 0
Waiting ws [] = Unit
Waiting ws (s ∷ rest) = Apart s.id ws × NotAmong s.id rest × Waiting ws rest

pub Owned-register :
    (active : Dict String) (s : Sbi) (ws : List Worker)
    → any_taken active s.id s.metadata.file_paths ≡ false
    → Owned active ws
    → Owned (register_paths active s.id s.metadata.file_paths) ws
Owned-register active s [] free o = tt
Owned-register active s (w ∷ ws) free (first, rest) = (
  register_paths-keeps active s.id s.metadata.file_paths w.sbi.id w.sbi.metadata.file_paths free
      first,
  Owned-register active s ws free rest,
)

pub Owned-unregister :
    (active : Dict String) (s : Sbi) (ws : List Worker)
    → Apart s.id ws
    → Owned active ws
    → Owned (unregister_paths active s.id s.metadata.file_paths) ws
Owned-unregister active s [] apart o = tt
Owned-unregister active s (w ∷ ws) (different, apart) (first, rest) = (
  unregister_paths-keeps active s.id s.metadata.file_paths w.sbi.id w.sbi.metadata.file_paths
      different first,
  Owned-unregister active s ws apart rest,
)

pub Picks-Owned :
    (active : Dict String) {w : Worker} {ws rest : List Worker}
    → Picks w ws rest
    → Owned active ws
    → Owns active w.sbi.id w.sbi.metadata.file_paths × Owned active rest
Picks-Owned active here o = o
Picks-Owned active (there p) (first, o) =
    let (own, others) = Picks-Owned active p o in (own, (first, others))

pub Picks-Apart :
    (id : String) {w : Worker} {ws rest : List Worker}
    → Picks w ws rest
    → Apart id ws
    → (id ≢ w.sbi.id) × Apart id rest
Picks-Apart id here a = a
Picks-Apart id (there p) (first, a) =
    let (own, others) = Picks-Apart id p a in (own, (first, others))

pub Picks-Distinct :
    {w : Worker} {ws rest : List Worker}
    → Picks w ws rest
    → Distinct ws
    → Apart w.sbi.id rest × Distinct rest
Picks-Distinct here d = d
Picks-Distinct (there p) (apart, d) =
    let (own, others) = Picks-Distinct p d in
    let (different, apart') = Picks-Apart _ p apart in
    ((λ e. different (sym e), own), (apart', others))

pub Picks-Waiting :
    (queue : List Sbi) {w : Worker} {ws rest : List Worker}
    → Picks w ws rest
    → Waiting ws queue
    → Waiting rest queue
Picks-Waiting [] p q = tt
Picks-Waiting (s ∷ queue) p (apart, among, q) =
    let (_, apart') = Picks-Apart s.id p apart in (apart', among, Picks-Waiting queue p q)

pub Picks-length :
    {w : Worker} {ws rest : List Worker} → Picks w ws rest → length ws ≡ length rest + 1
Picks-length here = omega arith
Picks-length (there p) = omega (arith, Picks-length p)

-- The next SBI joins the workers.
pub Waiting-join :
    (queue : List Sbi) (w : Worker) (ws : List Worker)
    → NotAmong w.sbi.id queue
    → Waiting ws queue
    → Waiting (w ∷ ws) queue
Waiting-join [] w ws among q = tt
Waiting-join (s ∷ queue) w ws (different, among) (apart, among', q) =
    ((λ e. different (sym e), apart), among', Waiting-join queue w ws among q)

-- A worker keeps its id when it gives its slot back.
pub Waiting-same :
    (queue : List Sbi) (w : Worker) (holds : Bool) {ws rest : List Worker}
    → Picks w ws rest
    → Waiting ws queue
    → Waiting ((record w { holds_slot = holds }) ∷ rest) queue
Waiting-same [] w holds p q = tt
Waiting-same (s ∷ queue) w holds p (apart, among, q) =
    (Picks-Apart s.id p apart, among, Waiting-same queue w holds p q)
