-- ===== src/Client/Request/Lifetime.antt =====
-- How long the work of a request is shown (`request` of frontend/src/api/client.ts).
use inboxone.Common.{
  ◌+◌, ◌≡◌, refl, sym, ap, ◌∙◌, String, true, false, ◌&&◌, none, some, List, [], ◌∷◌, ◌++◌, str_eq,
  All,
}
use inboxone.Activity.{
  WorkDescription, WorkItem, Activity, local_id, begin_work, finish_work, start_refresh, Reply,
  snapshot,
}
use inboxone.Activity.Local.{
  Action, begin, start, respond, Keeps, shown, step, run, IsFresh, shown-until_finish,
}
use inboxone.Activity.Snapshot.{IsOrdered, AreMade, start_refresh-finish}
use inboxone.Client.{Url, Method}
use inboxone.Client.Request.{
  ActivityOption, work_for, Result, succeeds, is_sync, begin_for, begin_request, finish_for,
  receive_result, end_request,
}

run-append : (es later : List Action) (s : Activity) → run (es ++ later) s ≡ run later (run es s)
unfolding run
run-append [] later s = refl
run-append (a ∷ es) later s = run-append es later (step a s)

All-append :
    (P : Action → Type 0) (es later : List Action) → All P es → All P later → All P (es ++ later)
All-append P [] later h k = k
All-append P (a ∷ es) later h k = (h.0, All-append P es later h.1 k)

module _ (activity : ActivityOption) (url : Url) (method : Method) (work : WorkDescription)
    (s : Activity) (fresh : IsFresh s) (counted : work_for activity url method ≡ some work) where
  abbrev id : String
  id = local_id (s.sequence + 1)

  begun :
      begin_request activity url method s
      ≡ (some (record { work = work; id = id }), (begin_work work s).1)
  unfolding begin_request begin_for begin_work
  begun = rw counted

  -- A request that fails, or that is no request to synchronise, shows its work once, with the id that it
  -- was given, until it has ended, and from then on never again.
  pub request-shown :
      {C : Type 0} (result : Result C) (es later : List Action)
      → All (Keeps id) es
      → (succeeds result && str_eq work.kind "sync") ≡ false
      → let (pending, t) = begin_request activity url method s in
        let (refresh, u) = receive_result pending result (run es t) in
        (shown id (run es t).local ≡ record { id = id; work = work } ∷ [])
        × (refresh ≡ none)
        × (shown id (run later u).local ≡ [])
  unfolding receive_result is_sync finish_for begin_work
  request-shown result es later keeps ends =
      rw (begun, ends)
        (let (during, after) = shown-until_finish work s fresh es later keeps in
          (during, refl, after))

  -- A request to synchronise that succeeds shows its work once until the refresh of the activity that
  -- follows has been answered, however it is answered, and from then on never again.
  pub request-shown_sync :
      {C : Type 0} (result : Result C) (es later after : List Action) (reply : Reply)
      → All (Keeps id) es
      → All (Keeps id) later
      → (succeeds result && str_eq work.kind "sync") ≡ true
      → let (pending, t) = begin_request activity url method s in
        let (r, u) = start_refresh (run es t) in
        (receive_result pending result (run es t) ≡ (some r, u))
        × (shown id (run later u).local ≡ record { id = id; work = work } ∷ [])
        × (shown id (run after (end_request pending r reply (run later u))).local ≡ [])
  unfolding receive_result is_sync finish_for end_request begin_work run step
  request-shown_sync result es later after reply keeps keeps' ends =
      let t = run es (begin_work work s).1 in
      let first = es ++ start ∷ later in
      let last = respond (start_refresh t).0 reply ∷ [] in
      let kept = All-append (Keeps id) es (start ∷ later) keeps (tt, keeps') in
      let early = shown-until_finish work s fresh first [] kept in
      let late =
        shown-until_finish work s fresh (first ++ last) after
          (All-append (Keeps id) first last kept (tt, tt)) in
      let waiting = run-append es (start ∷ later) (begin_work work s).1 in
      let answered = run-append first last (begin_work work s).1 ∙ ap (run last) waiting in
      rw (begun, ends)
        (
          refl,
          ap (λ (a : Activity). shown id a.local) (sym waiting) ∙ early.0,
          ap (λ a. shown id (run after (finish_work id a)).local) (sym answered) ∙ late.1,
        )

  -- The refresh that follows such a request is answered with a snapshot before anything else happens:
  -- then the snapshot is what the server's work is, at the moment in which the request's own work goes.
  pub end_request-server :
      {C : Type 0} (result : Result C) (es : List Action) (items : List WorkItem)
      → AreMade s (begin work ∷ es)
      → IsOrdered s
      → (succeeds result && str_eq work.kind "sync") ≡ true
      → let (pending, t) = begin_request activity url method s in
        let (r, u) = start_refresh (run es t) in
        (receive_result pending result (run es t) ≡ (some r, u))
        × ((end_request pending r (snapshot items) u).server ≡ items)
  unfolding receive_result is_sync finish_for end_request begin_work finish_work run step
  end_request-server result es items made ordered ends =
      let applied = start_refresh-finish (begin work ∷ es) s items made ordered in
      rw (begun, ends) (refl, applied)
