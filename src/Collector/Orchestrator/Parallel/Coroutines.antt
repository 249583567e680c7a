-- ===== src/Collector/Orchestrator/Parallel/Coroutines.antt =====
-- What the tasks of an event loop return, in whatever order it resumes them.
use ai_sre_platform_for_auto.Common.{
  ℕ, zero, suc, ◌≡◌, refl, ap, ◌∙◌, Option, none, some, [], ◌∷◌, ◌++◌, map,
}
use ai_sre_platform_for_auto.Errors.{Kind}
use ai_sre_platform_for_auto.Collector.{List, Text}
use ai_sre_platform_for_auto.Collector.Orchestrator.Parallel.{
  Coroutine, returned, raised, waits, resumed, left_by, resume, run_loop, with_rest, result_of,
  gathered,
}

module _ {S A : Type 0} where
  -- Some run of the coroutine returns `a`.
  abbrev pub Returns : Coroutine S A → A → Type 0
  Returns (returned b) a = b ≡ a
  Returns (raised kind message) a = ⊥
  Returns (waits next left) a = (s : S) × Returns (next s) a

  -- Some run of the coroutine raises the exception.
  abbrev pub Raises : Coroutine S A → Kind → Text → Type 0
  Raises (returned b) k m = ⊥
  Raises (raised kind message) k m = (kind ≡ k) × (message ≡ m)
  Raises (waits next left) k m = (s : S) × Raises (next s) k m

  -- No run raises, and what it returns has the property.
  abbrev pub Gives : (A → Type 0) → Coroutine S A → Type 0
  Gives P (returned a) = P a
  Gives P (raised kind message) = ⊥
  Gives P (waits next left) = (s : S) → Gives P (next s)

  -- the tasks and the elements of a list, side by side
  abbrev pub GivesAll : {B : Type 0} → (B → A → Type 0) → List B → List (Coroutine S A) → Type 0
  GivesAll P [] [] = Unit
  GivesAll P [] (task ∷ tasks) = ⊥
  GivesAll P (b ∷ bs) [] = ⊥
  GivesAll P (b ∷ bs) (task ∷ tasks) = Gives (P b) task × GivesAll P bs tasks

  pub resumed-Returns :
      (task : Coroutine S A) (s : S) (a : A) → Returns (resumed task s) a → Returns task a
  unfolding resumed
  resumed-Returns (returned b) s a h = h
  resumed-Returns (raised kind message) s a h = h
  resumed-Returns (waits next left) s a h = (s, h)

  pub resumed-Raises :
      (task : Coroutine S A) (s : S) (k : Kind) (m : Text)
      → Raises (resumed task s) k m
      → Raises task k m
  unfolding resumed
  resumed-Raises (returned b) s k m h = h
  resumed-Raises (raised kind message) s k m h = h
  resumed-Raises (waits next left) s k m h = (s, h)

  resumed-Gives :
      (P : A → Type 0) (task : Coroutine S A) (s : S) → Gives P task → Gives P (resumed task s)
  unfolding resumed
  resumed-Gives P (returned b) s h = h
  resumed-Gives P (raised kind message) s h = h
  resumed-Gives P (waits next left) s h = h s

module _ {A B : Type 0} (P : B → A → Type 0) where
  -- the results and the elements of a list, side by side
  abbrev pub HoldsAll : List B → List A → Type 0
  HoldsAll [] [] = Unit
  HoldsAll [] (a ∷ rest) = ⊥
  HoldsAll (b ∷ bs) [] = ⊥
  HoldsAll (b ∷ bs) (a ∷ rest) = P b a × HoldsAll bs rest

  abbrev pub HoldsSome : List B → Option (List A) → Type 0
  HoldsSome bs none = Unit
  HoldsSome bs (some results) = HoldsAll bs results

module _ {S A B : Type 0} (P : B → A → Type 0) where
  resume-GivesAll :
      (i : ℕ) (bs : List B) (tasks : List (Coroutine S A)) (s : S)
      → GivesAll P bs tasks
      → let (tasks', s') = resume i tasks s in GivesAll P bs tasks'
  unfolding resume
  resume-GivesAll i [] [] s h = h
  resume-GivesAll i (b ∷ bs) [] s h = h
  resume-GivesAll i [] (task ∷ tasks) s h = absurd h
  resume-GivesAll zero (b ∷ bs) (task ∷ tasks) s (h, hs) = (resumed-Gives (P b) task s h, hs)
  resume-GivesAll (suc i) (b ∷ bs) (task ∷ tasks) s (h, hs) = (h, resume-GivesAll i bs tasks s hs)

  pub run_loop-GivesAll :
      (picks : List ℕ) (bs : List B) (tasks : List (Coroutine S A)) (s : S)
      → GivesAll P bs tasks
      → let (tasks', s') = run_loop picks tasks s in GivesAll P bs tasks'
  unfolding run_loop
  run_loop-GivesAll [] bs tasks s h = h
  run_loop-GivesAll (i ∷ picks) bs tasks s h =
      let (tasks', s') = resume i tasks s in
      run_loop-GivesAll picks bs tasks' s' (resume-GivesAll i bs tasks s h)

  with_rest-HoldsSome :
      (b : B) (bs : List B) (task : Coroutine S A) (rest : Option (List A))
      → Gives (P b) task
      → HoldsSome P bs rest
      → HoldsSome P (b ∷ bs) (with_rest (result_of task) rest)
  with_rest-HoldsSome b bs (returned a) none h hs = tt
  with_rest-HoldsSome b bs (returned a) (some results) h hs = (h, hs)
  with_rest-HoldsSome b bs (raised kind message) rest h hs = absurd h
  with_rest-HoldsSome b bs (waits next left) rest h hs = tt

  pub gathered-HoldsSome :
      (bs : List B) (tasks : List (Coroutine S A))
      → GivesAll P bs tasks
      → HoldsSome P bs (gathered tasks)
  unfolding gathered
  gathered-HoldsSome [] [] h = tt
  gathered-HoldsSome [] (task ∷ tasks) h = absurd h
  gathered-HoldsSome (b ∷ bs) [] h = absurd h
  gathered-HoldsSome (b ∷ bs) (task ∷ tasks) (h, hs) =
      with_rest-HoldsSome b bs task (gathered tasks) h (gathered-HoldsSome bs tasks hs)

module _ {S A : Type 0} where
  pub run_loop-append :
      (picks more : List ℕ) (tasks : List (Coroutine S A)) (s : S)
      → run_loop (picks ++ more) tasks s
        ≡ (let (tasks', s') = run_loop picks tasks s in run_loop more tasks' s')
  unfolding run_loop
  run_loop-append [] more tasks s = refl
  run_loop-append (i ∷ picks) more tasks s =
      let (tasks', s') = resume i tasks s in run_loop-append picks more tasks' s'

  -- picks of the tasks behind the first
  run_loop-behind :
      (picks : List ℕ) (task : Coroutine S A) (tasks : List (Coroutine S A)) (s : S)
      → run_loop (map suc picks) (task ∷ tasks) s
        ≡ (let (tasks', s') = run_loop picks tasks s in (task ∷ tasks', s'))
  unfolding run_loop resume
  run_loop-behind [] task tasks s = refl
  run_loop-behind (i ∷ picks) task tasks s =
      let (tasks', s') = resume i tasks s in run_loop-behind picks task tasks' s'

  -- A first task that does not raise returns when it is resumed often enough.
  first-returns :
      (P : A → Type 0) (task : Coroutine S A) (tasks : List (Coroutine S A)) (s : S)
      → Gives P task
      → (picks : List ℕ) × (a : A) × (s' : S) × (run_loop picks (task ∷ tasks) s
          ≡ (returned a ∷ tasks, s'))
  unfolding run_loop resume resumed left_by
  first-returns P (returned a) tasks s h = ([], a, s, refl)
  first-returns P (raised kind message) tasks s h = absurd h
  first-returns P (waits next left) tasks s h =
      let (picks, a, s', e) = first-returns P (next s) tasks (left s) (h s) in (0 ∷ picks, a, s', e)

module _ {S A B : Type 0} (P : B → A → Type 0) where
  -- Tasks that do not raise can all return.
  pub all-return :
      (bs : List B) (tasks : List (Coroutine S A)) (s : S)
      → GivesAll P bs tasks
      → (picks : List ℕ) × (results : List A) × (gathered (run_loop picks tasks s).0 ≡ some results)
  unfolding run_loop gathered
  all-return [] [] s h = ([], [], refl)
  all-return [] (task ∷ tasks) s h = absurd h
  all-return (b ∷ bs) [] s h = absurd h
  all-return (b ∷ bs) (task ∷ tasks) s (h, hs) =
      let (first, a, s', e) = first-returns (P b) task tasks s h in
      let (more, results, f) = all-return bs tasks s' hs in
      (
        first ++ map suc more,
        a ∷ results,
        ap (λ r. gathered r.0)
              (run_loop-append first (map suc more) (task ∷ tasks) s
                ∙ ap (λ r. run_loop (map suc more) r.0 r.1) e
                ∙ run_loop-behind more (returned a) tasks s')
            ∙ ap (with_rest (some a)) f,
      )
