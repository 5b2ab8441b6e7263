-- ===== src/Activity/Local.antt =====
-- beginWork and the function that it returns (frontend/src/store/activityStore.ts), among all the
-- other calls that change the store.
use inboxone.Common.{
  ℕ, ◌+◌, ◌≤◌, ◌<◌, ◌≡◌, refl, ap, ◌∙◌, ◌≢◌, ◌⊎◌, String, false, not, List, [], ◌∷◌, arith, str_eq,
  str_eq_iff, filter, filter-append, All, Bool-cases, inl, inr,
}
use inboxone.Common.Decimal.{show_inj}
use text.Mathlib.TextLemmas.{append_cancel_left}
use mathlib.Core.List.{append-nil}
use inboxone.Activity.{
  WorkItem, WorkDescription, Activity, local_id, begin_work, finish_work, receive_activity, Refresh,
  start_refresh, Reply, failed, not_ok, snapshot, finish_refresh,
}

-- The calls that change the store, in the order in which they happen.
pub data Action : Type 0 where
  begin : WorkDescription → Action
  finish : String → Action
  receive : List WorkItem → Action
  start : Action
  respond : Refresh → Reply → Action

unfoldable pub step : Action → Activity → Activity
step (begin work) s = (begin_work work s).1
step (finish id) s = finish_work id s
step (receive items) s = receive_activity items s
step start s = (start_refresh s).1
step (respond r reply) s = finish_refresh r reply s

unfoldable pub run : List Action → Activity → Activity
run [] s = s
run (a ∷ es) s = run es (step a s)

-- the local items under an id
abbrev pub shown : String → List WorkItem → List WorkItem
shown id = filter (λ item. str_eq item.id id)

-- the action does not finish the work with this id
abbrev pub Keeps : String → Action → Type 0
Keeps id (finish id') = id' ≢ id
Keeps id _ = Unit

local_id_inj : (m n : ℕ) → local_id m ≡ local_id n → m ≡ n
unfolding local_id
local_id_inj m n h = show_inj m n (append_cancel_left "local-" _ _ h)

shown-finish_self :
    (id : String) (xs : List WorkItem) → shown id (filter (λ item. not (str_eq item.id id)) xs) ≡ []
shown-finish_self id [] = refl
shown-finish_self id (x ∷ xs) = ground (arith, shown-finish_self id xs)

shown-finish_other :
    (id id' : String) (xs : List WorkItem)
    → id' ≢ id
    → shown id (filter (λ item. not (str_eq item.id id')) xs) ≡ shown id xs
shown-finish_other id id' [] h = refl
shown-finish_other id id' (x ∷ xs) h =
    ground (arith, shown-finish_other id id' xs h, str_eq_iff x.id id, str_eq_iff x.id id')

pub finish_refresh-local :
    (r : Refresh) (reply : Reply) (s : Activity)
    → ((finish_refresh r reply s).local ≡ s.local)
      × ((finish_refresh r reply s).sequence ≡ s.sequence)
unfolding finish_refresh
finish_refresh-local r failed s = (refl, refl)
finish_refresh-local r not_ok s = (refl, refl)
finish_refresh-local r (snapshot items) s = ground arith

shown-begin :
    (k : ℕ) (work : WorkDescription) (s : Activity)
    → s.sequence + 1 ≢ k
    → shown (local_id k) (begin_work work s).1.local ≡ shown (local_id k) s.local
unfolding begin_work
shown-begin k work s h =
    let new = local_id (s.sequence + 1) in
    let other : str_eq new (local_id k) ≡ false =
      ground (arith, str_eq_iff new (local_id k), local_id_inj (s.sequence + 1) k) in
    rw (filter-append, other) (append-nil _)

step-sequence : (a : Action) (s : Activity) → s.sequence ≤ (step a s).sequence
unfolding step begin_work finish_work receive_activity start_refresh
step-sequence (respond r reply) s = omega (arith, (finish_refresh-local r reply s).1)
step-sequence _ s = omega arith

shown-step :
    (k : ℕ) (a : Action) (s : Activity)
    → k ≤ s.sequence
    → Keeps (local_id k) a
    → shown (local_id k) (step a s).local ≡ shown (local_id k) s.local
unfolding step finish_work receive_activity start_refresh
shown-step k (begin work) s h keeps = shown-begin k work s (omega arith)
shown-step k (finish id') s h keeps = shown-finish_other (local_id k) id' s.local keeps
shown-step k (receive items) s h keeps = refl
shown-step k start s h keeps = refl
shown-step k (respond r reply) s h keeps =
    ap (shown (local_id k)) (finish_refresh-local r reply s).0

shown-run :
    (k : ℕ) (es : List Action) (s : Activity)
    → k ≤ s.sequence
    → All (Keeps (local_id k)) es
    → shown (local_id k) (run es s).local ≡ shown (local_id k) s.local
unfolding run
shown-run k [] s h keeps = refl
shown-run k (a ∷ es) s h keeps =
    shown-run k es (step a s) (omega (arith, step-sequence a s)) keeps.1
    ∙ shown-step k a s h keeps.0

-- once no item has an issued id, none gets it again
shown-step_nil :
    (k : ℕ) (a : Action) (s : Activity)
    → (k ≤ s.sequence) ⊎ ((step a s).sequence < k)
    → shown (local_id k) s.local ≡ []
    → shown (local_id k) (step a s).local ≡ []
unfolding step finish_work receive_activity start_refresh begin_work
shown-step_nil k (finish id') s h e = elim (Bool-cases (str_eq id' (local_id k))) [
  | inl same ↦
      let p = (str_eq_iff id' (local_id k)).0 same in rw p (shown-finish_self (local_id k) s.local)
  | inr other ↦
      shown-finish_other (local_id k) id' s.local
        (λ p. cc (other, (str_eq_iff id' (local_id k)).1 p))
      ∙ e
]
shown-step_nil k (begin work) s h e = shown-begin k work s (omega arith) ∙ e
shown-step_nil k (receive items) s h e = e
shown-step_nil k start s h e = e
shown-step_nil k (respond r reply) s h e =
    ap (shown (local_id k)) (finish_refresh-local r reply s).0 ∙ e

shown-run_nil :
    (k : ℕ) (es : List Action) (s : Activity)
    → k ≤ s.sequence
    → shown (local_id k) s.local ≡ []
    → shown (local_id k) (run es s).local ≡ []
unfolding run
shown-run_nil k [] s h e = e
shown-run_nil k (a ∷ es) s h e =
    shown-run_nil k es (step a s) (omega (arith, step-sequence a s))
      (shown-step_nil k a s (inl h) e)

-- The store lists no id that is still to be issued.
abbrev pub IsFresh : Activity → Type 0
IsFresh s = (k : ℕ) → s.sequence < k → shown (local_id k) s.local ≡ []

run-sequence : (es : List Action) (s : Activity) → s.sequence ≤ (run es s).sequence
unfolding run
run-sequence [] s = omega arith
run-sequence (a ∷ es) s = omega (arith, step-sequence a s, run-sequence es (step a s))

module _ (work : WorkDescription) (s : Activity) (fresh : IsFresh s) where
  begun : (begin_work work s).0 ≡ local_id (s.sequence + 1)
  unfolding begin_work
  begun = refl

  shown-begin_self :
      shown (begin_work work s).0 (begin_work work s).1.local
      ≡ record { id = (begin_work work s).0; work = work } ∷ []
  unfolding begin_work
  shown-begin_self = rw (
    filter-append,
    fresh (s.sequence + 1) (omega arith),
    (str_eq_iff (local_id (s.sequence + 1)) (local_id (s.sequence + 1))).1 refl,
  )

  -- Work begun in a store that lists no future id is listed exactly once, as it was described,
  -- whatever happens until its own finish function is called; once that is called it is gone, and
  -- nothing that happens later brings its id back.
  pub shown-until_finish :
      (es later : List Action)
      → All (Keeps (begin_work work s).0) es
      → let id = (begin_work work s).0 in
        let t = run es (begin_work work s).1 in
        (shown id t.local ≡ record { id = id; work = work } ∷ [])
        × (shown id (run later (finish_work id t)).local ≡ [])
  unfolding begin_work finish_work
  shown-until_finish es later keeps =
      let k = s.sequence + 1 in
      let t = run es (begin_work work s).1 in
      (
        shown-run k es (begin_work work s).1 (omega arith) keeps ∙ shown-begin_self,
        shown-run_nil k later (finish_work (local_id k) t)
            (omega (arith, run-sequence es (begin_work work s).1))
            (shown-finish_self (local_id k) t.local),
      )

step-IsFresh : (a : Action) (s : Activity) → IsFresh s → IsFresh (step a s)
step-IsFresh a s fresh k h =
    shown-step_nil k a s (inr h) (fresh k (omega (arith, step-sequence a s)))

-- A store reached from the initial one lists no id that is still to be issued.
pub run-IsFresh : (es : List Action) (s : Activity) → IsFresh s → IsFresh (run es s)
unfolding run
run-IsFresh [] s fresh = fresh
run-IsFresh (a ∷ es) s fresh = run-IsFresh es (step a s) (step-IsFresh a s fresh)
