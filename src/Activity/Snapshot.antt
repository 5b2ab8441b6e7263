-- ===== src/Activity/Snapshot.antt =====
-- refreshActivity (frontend/src/store/activityStore.ts): a slow answer against what has happened
-- since the request.
use inboxone.Common.{◌≤◌, ◌<◌, ◌≡◌, refl, ap, ◌⊎◌, inl, inr, List, [], ◌∷◌, arith}
use inboxone.Activity.{
  WorkItem, Activity, begin_work, finish_work, receive_activity, Refresh, start_refresh, Reply,
  failed, not_ok, snapshot, finish_refresh,
}
use inboxone.Activity.Local.{Action, begin, finish, receive, start, respond, step, run}

-- the action is an event of the stream
abbrev pub IsReceive : Action → Type 0
IsReceive (receive items) = Unit
IsReceive _ = ⊥

-- one of the actions is
abbrev pub HasReceive : List Action → Type 0
HasReceive [] = ⊥
HasReceive (a ∷ es) = IsReceive a ⊎ HasReceive es

finish_refresh_counters :
    (r : Refresh) (reply : Reply) (s : Activity)
    → ((finish_refresh r reply s).revision ≡ s.revision)
      × ((finish_refresh r reply s).snapshot_request ≡ s.snapshot_request)
unfolding finish_refresh
finish_refresh_counters r (snapshot items) s = ground arith
finish_refresh_counters r _ s = (refl, refl)

step-revision : (a : Action) (s : Activity) → s.revision ≤ (step a s).revision
unfolding step begin_work finish_work receive_activity start_refresh
step-revision (respond r reply) s = omega (arith, (finish_refresh_counters r reply s).0)
step-revision _ s = omega arith

run-revision : (es : List Action) (s : Activity) → s.revision ≤ (run es s).revision
unfolding run
run-revision [] s = omega arith
run-revision (a ∷ es) s = omega (arith, step-revision a s, run-revision es (step a s))

receive-revision : (a : Action) (s : Activity) → IsReceive a → s.revision < (step a s).revision
unfolding step receive_activity
receive-revision (receive items) s h = omega arith
receive-revision (begin work) s h = absurd h
receive-revision (finish id) s h = absurd h
receive-revision start s h = absurd h
receive-revision (respond r reply) s h = absurd h

run-revision-lt :
    (es : List Action) (s : Activity) → HasReceive es → s.revision < (run es s).revision
unfolding run
run-revision-lt [] s h = absurd h
run-revision-lt (a ∷ es) s (inl here) =
    omega (arith, receive-revision a s here, run-revision es (step a s))
run-revision-lt (a ∷ es) s (inr later) =
    omega (arith, step-revision a s, run-revision-lt es (step a s) later)

stale :
    (r : Refresh) (reply : Reply) (s : Activity)
    → r.revision < s.revision
    → finish_refresh r reply s ≡ s
unfolding finish_refresh
stale r (snapshot items) s h = ground arith
stale r failed s h = refl
stale r not_ok s h = refl

-- Whatever the request of a refresh answers, it changes nothing if an event of the stream has been
-- received since the refresh started.
pub finish_refresh_after_receive :
    (s : Activity) (es : List Action) (reply : Reply)
    → HasReceive es
    → let (r, started) = start_refresh s in finish_refresh r reply (run es started) ≡ run es started
unfolding start_refresh
finish_refresh_after_receive s es reply h =
    stale _ reply _ (run-revision-lt es (start_refresh s).1 h)

-- A refresh that no later event and no later snapshot has overtaken sets exactly the snapshot.
pub finish_refresh_in_time :
    (r : Refresh) (items : List WorkItem) (s : Activity)
    → s.revision ≡ r.revision
    → s.applied_snapshot ≤ r.request
    → finish_refresh r (snapshot items) s
      ≡ record s { server = items; applied_snapshot = r.request }
unfolding finish_refresh
finish_refresh_in_time r items s h k = ground arith

-- The last snapshot applied is one of a request that was made.
abbrev pub IsOrdered : Activity → Type 0
IsOrdered s = s.applied_snapshot ≤ s.snapshot_request

-- An answer belongs to a request that was made.
abbrev pub IsMade : Activity → Action → Type 0
IsMade s (respond r reply) = r.request ≤ s.snapshot_request
IsMade s _ = Unit

-- every answer of the run belongs to a request that was made before it
abbrev pub AreMade : Activity → List Action → Type 0
AreMade s [] = Unit
AreMade s (a ∷ es) = IsMade s a × AreMade (step a s) es

applied_grows : (a : Action) (s : Activity) → s.applied_snapshot ≤ (step a s).applied_snapshot
unfolding step begin_work finish_work receive_activity start_refresh finish_refresh
applied_grows (respond r (snapshot items)) s = ground arith
applied_grows (respond r failed) s = omega arith
applied_grows (respond r not_ok) s = omega arith
applied_grows _ s = omega arith

run-applied_grows :
    (es : List Action) (s : Activity) → s.applied_snapshot ≤ (run es s).applied_snapshot
unfolding run
run-applied_grows [] s = omega arith
run-applied_grows (a ∷ es) s = omega (arith, applied_grows a s, run-applied_grows es (step a s))

older :
    (r : Refresh) (reply : Reply) (s : Activity)
    → r.request < s.applied_snapshot
    → finish_refresh r reply s ≡ s
unfolding finish_refresh
older r (snapshot items) s h = ground arith
older r failed s h = refl
older r not_ok s h = refl

step-request : (a : Action) (s : Activity) → s.snapshot_request ≤ (step a s).snapshot_request
unfolding step begin_work finish_work receive_activity start_refresh
step-request (respond r reply) s = omega (arith, (finish_refresh_counters r reply s).1)
step-request _ s = omega arith

run-request : (es : List Action) (s : Activity) → s.snapshot_request ≤ (run es s).snapshot_request
unfolding run
run-request [] s = omega arith
run-request (a ∷ es) s = omega (arith, step-request a s, run-request es (step a s))

-- a refresh, and a second one that is started after it, with actions before that and after
abbrev pub restart : List Action → Activity → Refresh × Activity
restart between s = start_refresh (run between (start_refresh s).1)

abbrev pub waited : List Action → List Action → Activity → Activity
waited between after s = run after (restart between s).1

restart-request :
    (between : List Action) (s : Activity)
    → (start_refresh s).0.request < (restart between s).0.request
unfolding start_refresh
restart-request between s = omega (arith, run-request between (start_refresh s).1)

older_changes_nothing :
    (first second : Refresh) (items : List WorkItem) (reply : Reply) (s : Activity)
    (es : List Action)
    → first.request < second.request
    → s.revision ≡ second.revision
    → s.applied_snapshot ≤ second.request
    → let t = run es (finish_refresh second (snapshot items) s) in finish_refresh first reply t ≡ t
older_changes_nothing first second items reply s es order same fits =
    let applied = finish_refresh_in_time second items s same fits in
    older first reply _ (
      rw applied (
        omega (
          arith,
          run-applied_grows es (record s { server = items; applied_snapshot = second.request }),
        )))

-- Of two refreshes, the second started at any time after the first: when the snapshot of the second one has been
-- applied, which it is if no event of the stream and no later snapshot has come before it, then the answer of the
-- first one changes nothing, whatever happens before the second starts, before its snapshot comes and after that.
pub finish_refresh_out_of_order :
    (s : Activity) (between after later : List Action) (items : List WorkItem) (reply : Reply)
    → (waited between after s).revision ≡ (restart between s).0.revision
    → (waited between after s).applied_snapshot ≤ (restart between s).0.request
    → let t =
        run later
          (finish_refresh (restart between s).0 (snapshot items) (waited between after s)) in
      ((finish_refresh (restart between s).0 (snapshot items) (waited between after s)).server
        ≡ items)
      × (finish_refresh (start_refresh s).0 reply t ≡ t)
finish_refresh_out_of_order s between after later items reply same fits = (
  ap (λ t. t.server)
      (finish_refresh_in_time (restart between s).0 items (waited between after s) same fits),
  older_changes_nothing (start_refresh s).0 (restart between s).0 items reply
      (waited between after s) later (restart-request between s) same fits,
)

step-IsOrdered : (a : Action) (s : Activity) → IsMade s a → IsOrdered s → IsOrdered (step a s)
unfolding step begin_work finish_work receive_activity start_refresh finish_refresh
step-IsOrdered (respond r (snapshot items)) s made h = ground arith
step-IsOrdered (respond r failed) s made h = h
step-IsOrdered (respond r not_ok) s made h = h
step-IsOrdered start s made h = omega arith
step-IsOrdered _ s made h = h

-- A refresh that starts now is in time as long as nothing comes in between: its answer is applied.
pub start_refresh-finish :
    (es : List Action) (s : Activity) (items : List WorkItem)
    → AreMade s es
    → IsOrdered s
    → let (r, started) = start_refresh (run es s) in
      (finish_refresh r (snapshot items) started).server ≡ items
unfolding run start_refresh finish_refresh
start_refresh-finish [] s items made h = ground arith
start_refresh-finish (a ∷ es) s items made h =
    start_refresh-finish es (step a s) items made.1 (step-IsOrdered a s made.0 h)
