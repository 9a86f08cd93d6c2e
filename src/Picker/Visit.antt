-- ===== src/Picker/Visit.antt =====
-- The loop of the search for cycles over the dependencies of a task, and its end.
use deespec.Base.{
  ◌≡◌, refl, sym, subst, ◌∙◌, ◌⊎◌, inl, inr, String, Bool, true, false, List, [], ◌∷◌, any, str_eq,
  arith, ◌||◌, eq_refl,
}
use deespec.Parallel.Ready.{AllAmong}
use deespec.Picker.Tasks.{SbiTask}
use deespec.Picker.Cycles.{Search, dependencies, without, leave, then_visit, visit_all}
use deespec.Picker.Ordered.{In, Ordered, EachDependsOn, any_mono, EachDependsOn-mono, without-head}

abbrev pub marked_or_on_path : Search → String → Bool
marked_or_on_path s x = any (str_eq x) s.in_cycle || any (str_eq x) s.visiting

abbrev pub Chained : List SbiTask → List String → List String → Type 0
Chained tasks path marks =
    EachDependsOn tasks (λ x. any (str_eq x) marks || any (str_eq x) path) marks

pub record Good (tasks : List SbiTask) (s : Search) : Type 0 where
  pub ordered : Ordered tasks s.visited
  pub chained : EachDependsOn tasks (marked_or_on_path s) s.in_cycle

-- A search that ended at a cycle: what it put on the path is marked.
pub record Found (tasks : List SbiTask) (s s' : Search) : Type 0 where
  pub path_grows : (x : String) → In x s.visiting → In x s'.visiting
  pub marks_grow : (x : String) → In x s.in_cycle → In x s'.in_cycle
  pub path_marked : (x : String) → In x s'.visiting → In x s.visiting ⊎ In x s'.in_cycle
  pub visits_grow : (x : String) → In x s.visited → In x s'.visited
  pub good : Good tasks s'

-- A search that met no cycle.
pub record Closed (tasks : List SbiTask) (s s' : Search) : Type 0 where
  pub same_path : s'.visiting ≡ s.visiting
  pub same_marks : s'.in_cycle ≡ s.in_cycle
  pub visits_grow : (x : String) → In x s.visited → In x s'.visited
  pub good : Good tasks s'

abbrev pub After : List SbiTask → String → Search → Bool × Search → Type 0
After tasks id s (true, s') = Found tasks s s' × In id s'.visiting
After tasks id s (false, s') = Closed tasks s s' × In id s'.visited

abbrev pub AfterAll : List SbiTask → List String → Search → Bool × Search → Type 0
AfterAll tasks ids s (true, s') =
    Found tasks s s' × (any (λ x. any (str_eq x) s'.visiting) ids ≡ true)
AfterAll tasks ids s (false, s') = Closed tasks s s' × AllAmong ids s'.visited

module _ (tasks : List SbiTask) where
  Closed-Found : (s s' s'' : Search) → Closed tasks s s' → Found tasks s' s'' → Found tasks s s''
  Closed-Found s s' s'' closed found = record {
    path_grows = λ x h. found.path_grows x (subst (In x) (sym closed.same_path) h);
    marks_grow = λ x h. found.marks_grow x (subst (In x) (sym closed.same_marks) h);
    path_marked = λ x h. elim (found.path_marked x h) [
      | inl before ↦ inl (subst (In x) closed.same_path before)
      | inr marked ↦ inr marked
    ];
    visits_grow = λ x h. found.visits_grow x (closed.visits_grow x h);
    good = found.good;
  }

  Closed-Closed : (s s' s'' : Search) → Closed tasks s s' → Closed tasks s' s'' → Closed tasks s s''
  Closed-Closed s s' s'' first second = record {
    same_path = second.same_path ∙ first.same_path;
    same_marks = second.same_marks ∙ first.same_marks;
    visits_grow = λ x h. second.visits_grow x (first.visits_grow x h);
    good = second.good;
  }

  add_visited :
      (id : String) (ids : List String) (s s' : Search)
      → Closed tasks s s'
      → In id s'.visited
      → (r : Bool × Search) → AfterAll tasks ids s' r
      → AfterAll tasks (id ∷ ids) s r
  add_visited id ids s s' closed here (true, s'') (found, there) =
      (Closed-Found s s' s'' closed found, ground arith)
  add_visited id ids s s' closed here (false, s'') (closed', there) =
      (Closed-Closed s s' s'' closed closed', (closed'.visits_grow id here, there))

  then_visit-AfterAll :
      (go_on : Search → Bool × Search) (id : String) (ids : List String) (s : Search)
      (r : Bool × Search)
      → After tasks id s r
      → ((s' : Search)
          → s'.visiting ≡ s.visiting
          → Good tasks s'
          → AfterAll tasks ids s' (go_on s'))
      → AfterAll tasks (id ∷ ids) s (then_visit go_on r)
  unfolding then_visit
  then_visit-AfterAll go_on id ids s (true, s') (found, here) rest = (found, ground arith)
  then_visit-AfterAll go_on id ids s (false, s') (closed, here) rest =
      add_visited id ids s s' closed here (go_on s') (rest s' closed.same_path closed.good)

  pub visit_all-AfterAll :
      (visit : String → Search → Bool × Search) (path : List String)
      → ((id : String) (s : Search)
          → s.visiting ≡ path
          → Good tasks s
          → After tasks id s (visit id s))
      → (ids : List String) (s : Search) → s.visiting ≡ path
      → Good tasks s
      → AfterAll tasks ids s (visit_all visit ids s)
  unfolding visit_all
  visit_all-AfterAll visit path after [] s same good =
      (record { same_path = refl; same_marks = refl; visits_grow = λ x h. h; good = good }, tt)
  visit_all-AfterAll visit path after (id ∷ ids) s same good =
      then_visit-AfterAll (visit_all visit ids) id ids s (visit id s) (after id s same good)
        (λ s' same' good'. visit_all-AfterAll visit path after ids s' (same' ∙ same) good')

  pub leave-After :
      (id : String) (s : Search)
      → any (str_eq id) s.visiting ≡ false
      → Good tasks s
      → (r : Bool × Search)
      → AfterAll tasks (dependencies tasks id) (record s { visiting = id ∷ s.visiting }) r
      → After tasks id s (leave id r)
  unfolding leave
  leave-After id s fresh good (true, s') (found, deeper) = (
    record {
      path_grows = λ x h. found.path_grows x (ground (arith, h));
      marks_grow = λ x h. ground (arith, found.marks_grow x h);
      path_marked = λ x h. elim (found.path_marked x h) [
        | inl before ↦ ground (arith, before)
        | inr marked ↦ inr (ground (arith, marked))
      ];
      visits_grow = found.visits_grow;
      good = record {
        ordered = found.good.ordered;
        chained = (
          any_mono (λ x. any (str_eq x) s'.visiting)
              (marked_or_on_path (record s' { in_cycle = id ∷ s'.in_cycle })) (λ x h. ground arith)
              (dependencies tasks id) deeper,
          EachDependsOn-mono tasks (marked_or_on_path s')
              (marked_or_on_path (record s' { in_cycle = id ∷ s'.in_cycle })) (λ x h. ground arith)
              s'.in_cycle found.good.chained,
        );
      };
    },
    found.path_grows id (ground (arith, eq_refl id)),
  )
  leave-After id s fresh good (false, s') (closed, all) =
      let same : without id s'.visiting ≡ s.visiting =
        subst (λ path. without id path ≡ s.visiting) (sym closed.same_path)
          (without-head id s.visiting fresh) in
      (
        record {
          same_path = same;
          same_marks = closed.same_marks;
          visits_grow = λ x h. ground (arith, closed.visits_grow x h);
          good = record {
            ordered = (all, closed.good.ordered);
            chained =
                subst (Chained tasks (without id s'.visiting)) (sym closed.same_marks)
                  (subst (λ path. Chained tasks path s.in_cycle) (sym same) good.chained);
          };
        },
        ground (arith, eq_refl id),
      )
