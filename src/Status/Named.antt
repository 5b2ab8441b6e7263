-- ===== src/Status/Named.antt =====
-- The requests of the program and the work that the footer names: frontend/src/api/client.ts,
-- frontend/src/store/activityStore.ts and frontend/src/components/StatusBar.tsx together.
use inboxone.Common.{
  ℕ, ◌+◌, ◌≤◌, ◌<◌, ◌≡◌, refl, sym, ap, ◌∙◌, arith, String, Bool, true, Option, none, some, List,
  [], ◌∷◌, ◌++◌, leb, or_else, All, All-filter, All-concat, any,
}
use inboxone.Types.{Account}
use inboxone.Activity.{
  WorkDescription, WorkItem, Activity, initial, local_id, begin_work, finish_work, receive_activity,
  start_refresh, activity_label, rank,
}
use inboxone.Activity.Local.{
  Action, begin, finish, receive, start, respond, step, run, finish_refresh-local,
}
use inboxone.Client.Paths.{MessageFilters, Call, trigger_all, url_of, method_of}
use inboxone.Client.Describe.{shown_as, describe_calls}
use inboxone.Client.Hooks.{list_work, ask_page, ask_message, message_work}
use inboxone.Client.Request.{ActivityOption, unspecified, work_for, begin_for, begin_request}
use inboxone.Mailbox.{folder_request}
use inboxone.Status.{Connections, footer, names_of}
use inboxone.Status.Foreground.{top}
use inboxone.Status.Latest.{
  later, top-snoc, top-rank, unranked, unranked-rank, top-unranked, footer_of-top,
}

-- the requests of the program, with what their callers say of them
pub data IsRequest : Call × ActivityOption → Type 0 where
  plain : (c : Call) → IsRequest (c, unspecified)
  page :
      (filters : MessageFilters) (cursor : Option String) (cached : Bool)
      → IsRequest (ask_page filters cursor cached)
  message : (id : ℕ) (cached : Bool) → IsRequest (ask_message id cached)
  folder :
      (accounts : List Account) (account_id : ℕ) (folder_id : Option ℕ)
      → IsRequest (folder_request accounts account_id folder_id)

abbrev pub work_of_request : Call × ActivityOption → Option WorkDescription
work_of_request (c, activity) = work_for activity (url_of c) (method_of c)

abbrev is_ordinary : Option WorkDescription → Bool
is_ordinary none = true
is_ordinary (some work) = leb (or_else work.priority 100) 100

shown_as-ordinary : (c : Call) → is_ordinary (shown_as c) ≡ true
shown_as-ordinary trigger_all = refl
shown_as-ordinary _ = refl

request-ordinary :
    (q : Call × ActivityOption) → IsRequest q → is_ordinary (work_of_request q) ≡ true
unfolding work_for ask_page ask_message folder_request list_work message_work
request-ordinary _ (plain c) = ap is_ordinary (describe_calls c) ∙ shown_as-ordinary c
request-ordinary _ (page filters cursor cached) = refl
request-ordinary _ (message id cached) = refl
request-ordinary _ (folder accounts account_id folder_id) = refl

-- The work that has been begun is that of requests of the program.
abbrev pub IsOfProgram : Action → Type 0
IsOfProgram (begin work) =
    (q : Call × ActivityOption) × IsRequest q × (work_of_request q ≡ some work)
IsOfProgram _ = Unit

abbrev pub IsOrdinary : Activity → Type 0
IsOrdinary s = All (λ item. rank item ≤ 100) s.local

ordinary_rank :
    (q : Call × ActivityOption) (work : WorkDescription)
    → IsRequest q
    → work_of_request q ≡ some work
    → or_else work.priority 100 ≤ 100
ordinary_rank q work made counted =
    let h = ap is_ordinary (sym counted) ∙ request-ordinary q made in ground (arith, h)

step-IsOrdinary : (a : Action) (s : Activity) → IsOfProgram a → IsOrdinary s → IsOrdinary (step a s)
unfolding step begin_work finish_work receive_activity start_refresh
step-IsOrdinary (begin work) s (q, made, counted) h =
    All-concat _ s.local _ h (ordinary_rank q work made counted)
step-IsOrdinary (finish id) s p h = All-filter _ _ s.local h
step-IsOrdinary (receive items) s p h = h
step-IsOrdinary start s p h = h
step-IsOrdinary (respond r reply) s p h = rw (finish_refresh-local r reply s).0 h

run-IsOrdinary :
    (es : List Action) (s : Activity) → All IsOfProgram es → IsOrdinary s → IsOrdinary (run es s)
unfolding run
run-IsOrdinary [] s p h = h
run-IsOrdinary (a ∷ es) s p h = run-IsOrdinary es (step a s) p.1 (step-IsOrdinary a s p.0 h)

-- the label under which the footer names work of an id
abbrev pub named : String → WorkDescription → Option Connections → Option String
named id work data_ = some (activity_label (record { id = id; work = work }) (names_of data_))

later-ordinary :
    (a : WorkItem) (o : Option WorkItem)
    → unranked a ≡ true
    → ((b : WorkItem) → o ≡ some b → rank b ≤ 100)
    → later a o ≡ a
later-ordinary a none h k = refl
later-ordinary a (some b) h k =
    let own = unranked-rank a h in let bound = k b refl in ground (arith, own, bound)

later-listing : (a b : WorkItem) → rank a < rank b → later a (some b) ≡ b
later-listing a b h = ground (arith, h)

module _ (es : List Action) (ours : All IsOfProgram es) (data_ : Option Connections) where
  abbrev store : Activity
  store = run es initial

  bounded : (b : WorkItem) → top store.local ≡ some b → rank b ≤ 100
  unfolding initial
  bounded = top-rank 100 store.local (run-IsOrdinary es initial ours tt)

  -- Whatever the program has asked for before, whatever of it is over, and whatever the server reports: a request
  -- that is begun and whose work has no priority is what the footer names at once.
  pub begin_request-footer :
      (c : Call) (activity : ActivityOption) (work : WorkDescription)
      → work_of_request (c, activity) ≡ some work
      → work.priority ≡ none
      → let (pending, t) = begin_request activity (url_of c) (method_of c) store in
        (footer t.local t.server data_).work_label
        ≡ named (local_id (store.sequence + 1)) work data_
  unfolding begin_request begin_for begin_work
  begin_request-footer c activity work counted plain_ =
      let item : WorkItem = record { id = local_id (store.sequence + 1); work = work } in
      let own : unranked item ≡ true = rw plain_ refl in
      let first =
        top-snoc store.local item ∙ ap some (later-ordinary item (top store.local) own bounded) in
      rw counted (footer_of-top (store.local ++ item ∷ []) store.server data_ item first)

  -- A page of the list that is asked for does not change what the footer names while work without a priority is
  -- under way in this tab.
  pub ask_page-footer :
      (filters : MessageFilters) (cursor : Option String) (cached : Bool)
      → any unranked store.local ≡ true
      → let (c, activity) = ask_page filters cursor cached in
        let (pending, t) = begin_request activity (url_of c) (method_of c) store in
        (footer t.local t.server data_).work_label
        ≡ (footer store.local store.server data_).work_label
  unfolding ask_page list_work begin_request begin_for begin_work work_for
  ask_page-footer filters cursor cached h =
      let item : WorkItem = record {
        id = local_id (store.sequence + 1);
        work = list_work filters cursor cached;
      } in
      let (b, e, above) = top-unranked store.local h in
      let lower : rank item < rank b = omega (arith, above) in
      let kept =
        top-snoc store.local item
        ∙ ap (λ o. some (later item o)) e
        ∙ ap some (later-listing item b lower) in
      footer_of-top (store.local ++ item ∷ []) store.server data_ b kept
      ∙ sym (footer_of-top store.local store.server data_ b e)
