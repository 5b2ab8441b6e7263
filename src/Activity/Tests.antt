-- ===== src/Activity/Tests.antt =====
-- The activity store (frontend/src/store/activityStore.ts) on concrete inputs.
use mathlib.Core.List.{Perm}
use inboxone.Common.{◌≡◌, refl, inl, none, some, List, [], ◌∷◌, ◌++◌, map, arith, All}
use inboxone.Common.Decimal.{show}
use inboxone.Activity.{
  WorkItem, WorkDescription, activity_label, initial, local_id, begin_work, finish_work,
  receive_activity, start_refresh, snapshot, finish_refresh, same_work, insert, sort, visible_work,
}
use inboxone.Activity.Local.{begin, receive, start, step, run, shown, IsFresh, shown-until_finish}
use inboxone.Activity.Snapshot.{
  restart, waited, finish_refresh_after_receive, finish_refresh_out_of_order,
}
use inboxone.Activity.Visible.{IsOwn, visible_work-server}

program : Unit {0}
unfolding activity_label initial local_id begin_work finish_work receive_activity start_refresh
    finish_refresh same_work insert sort visible_work step run show
program = tt

abbrev list_work : WorkDescription
list_work = record {
  label = "Loading messages…";
  kind = "list";
  state = none;
  account_id = some 3;
  folder_id = none;
  folder_ids = none;
  message_id = none;
  priority = some 25;
}

abbrev open_message : WorkDescription
open_message = record list_work {
  label = "Opening message…";
  kind = "message";
  message_id = some 9;
  priority = none;
}

labels :
    (activity_label
        (record { id = "local-1"; work = list_work })
        (record { account_id = 3; name = "Work" } ∷ [])
      ≡ "Work · Loading messages…")
    × (activity_label (record { id = "local-1"; work = list_work }) []
        ≡ "Account #3 · Loading messages…")
unfolding program
labels = (refl, refl)

-- what was begun last leads within its rank, and the list requests come after the others
ordered :
    map
      (λ (w : WorkItem). w.id)
      (visible_work
        (run (begin list_work ∷ begin open_message ∷ begin list_work ∷ []) initial).local
        [])
    ≡ "local-2" ∷ "local-3" ∷ "local-1" ∷ []
unfolding program
ordered = refl

initial-IsFresh : IsFresh initial
unfolding initial
initial-IsFresh k h = refl

shown-until_finish_example :
    let id = (begin_work list_work initial).0 in
    let t = run (receive [] ∷ []) (begin_work list_work initial).1 in
    (shown id t.local ≡ record { id = id; work = list_work } ∷ [])
    × (shown id (run (begin list_work ∷ []) (finish_work id t)).local ≡ [])
shown-until_finish_example =
    shown-until_finish list_work initial initial-IsFresh (receive [] ∷ []) (begin list_work ∷ [])
      (tt, tt)

finish_refresh_after_receive_example :
    let (r, started) = start_refresh initial in
    finish_refresh r
      (snapshot [])
      (run (receive (record { id = "s"; work = list_work } ∷ []) ∷ []) started)
    ≡ run (receive (record { id = "s"; work = list_work } ∷ []) ∷ []) started
finish_refresh_after_receive_example =
    finish_refresh_after_receive initial (receive (record { id = "s"; work = list_work } ∷ []) ∷ [])
      (snapshot []) (inl tt)

finish_refresh_out_of_order_example :
    let t = run (start ∷ []) (
      finish_refresh
        (restart (start ∷ []) initial).0
        (snapshot [])
        (waited (start ∷ []) (begin list_work ∷ []) initial)) in
    ((finish_refresh
        (restart (start ∷ []) initial).0
        (snapshot [])
        (waited (start ∷ []) (begin list_work ∷ []) initial)).server
      ≡ [])
    × (finish_refresh
          (start_refresh initial).0
          (snapshot (record { id = "s"; work = list_work } ∷ []))
          t
        ≡ t)
unfolding initial begin_work start_refresh step run
finish_refresh_out_of_order_example =
    finish_refresh_out_of_order initial (start ∷ []) (begin list_work ∷ []) (start ∷ []) []
      (snapshot (record { id = "s"; work = list_work } ∷ [])) refl (omega arith)

abbrev two : List WorkItem
two =
    record { id = "local-1"; work = list_work }
    ∷ record { id = "local-2"; work = open_message }
    ∷ []

visible_work-server_example :
    (added : List WorkItem) × (left_out : List WorkItem) × (visible_work two two
      ≡ visible_work two [] ++ added)
    × Perm (added ++ left_out) two
    × All (λ item. ¬ IsOwn two item) added
    × All (IsOwn two) left_out
visible_work-server_example = visible_work-server two two
