-- ===== src/Activity.antt =====
-- frontend/src/store/activityStore.ts: the work that this tab has under way, the work that the
-- server reports, and what the status bar shows of both.
pub mod Local
pub mod Snapshot
pub mod Visible
pub mod SameWork
mod Tests
use inboxone.Common.{
  ℕ, suc, ◌+◌, String, Bool, true, false, not, ◌&&◌, ◌||◌, Option, none, some, List, [], ◌∷◌, ◌++◌,
  reverse, ltb, leb, ◌==◌, ◌=?=◌, if◌then◌else◌, is_some, or_else, or_text, str_eq, ◌^^◌, filter,
  any, find?, contains,
}
use inboxone.Common.Decimal.{show}

pub data WorkState : Type 0 where
  queued running : WorkState

-- `WorkDescription`: a work item with no id yet
pub record WorkDescription : Type 0 where
  pub label : String
  pub kind : String
  pub state : Option WorkState
  pub account_id : Option ℕ
  pub folder_id : Option ℕ
  pub folder_ids : Option (List ℕ)
  pub message_id : Option ℕ
  pub priority : Option ℕ

pub record WorkItem : Type 0 where
  pub id : String
  pub work : WorkDescription
  open work use *

pub record AccountName : Type 0 where
  pub account_id : ℕ
  pub name : String

account_text : Option AccountName → ℕ → String
account_text none id = "Account #" ^^ show id
account_text (some a) id = or_text (some a.name) ("Account #" ^^ show id)

label_for : Option ℕ → String → List AccountName → String
unfolding account_text
label_for none label accounts = label
label_for (some id) label accounts =
    account_text (find? (λ a. a.account_id == id) accounts) id ^^ " · " ^^ label

unfoldable pub activity_label : WorkItem → List AccountName → String
unfolding label_for
activity_label item accounts = label_for item.work.account_id item.work.label accounts

-- The store, and the three counters that the module keeps beside it.
pub record Activity : Type 0 where
  pub local : List WorkItem
  pub server : List WorkItem
  pub revision : ℕ
  pub sequence : ℕ
  pub snapshot_request : ℕ
  pub applied_snapshot : ℕ

unfoldable pub initial : Activity
initial = record {
  local = [];
  server = [];
  revision = 0;
  sequence = 0;
  snapshot_request = 0;
  applied_snapshot = 0;
}

-- `beginWork`: the id under which the work is listed, and the new store
unfoldable pub local_id : ℕ → String
local_id n = "local-" ^^ show n

unfoldable pub begin_work : WorkDescription → Activity → String × Activity
begin_work work s =
    let id = local_id (s.sequence + 1) in
    (
      id,
      record s {
        local = s.local ++ record { id = id; work = work } ∷ [];
        sequence = s.sequence + 1;
      },
    )

-- the function that `beginWork` returns
unfoldable pub finish_work : String → Activity → Activity
finish_work id s = record s { local = filter (λ item. not (str_eq item.id id)) s.local }

unfoldable pub receive_activity : List WorkItem → Activity → Activity
receive_activity items s = record s { server = items; revision = s.revision + 1 }

-- `refreshActivity` up to its `await`: what the call remembers while the request is under way
pub record Refresh : Type 0 where
  pub revision : ℕ
  pub request : ℕ

unfoldable pub start_refresh : Activity → Refresh × Activity
start_refresh s = (
  record { revision = s.revision; request = s.snapshot_request + 1 },
  record s { snapshot_request = s.snapshot_request + 1 },
)

-- how the request ends: with an exception or the timeout, a status that is not ok, or a snapshot
pub data Reply : Type 0 where
  failed : Reply
  not_ok : Reply
  snapshot : List WorkItem → Reply

-- the rest of `refreshActivity`
unfoldable pub finish_refresh : Refresh → Reply → Activity → Activity
finish_refresh r failed s = s
finish_refresh r not_ok s = s
finish_refresh r (snapshot items) s =
    if s.revision == r.revision && leb s.applied_snapshot r.request
    then record s { applied_snapshot = r.request; server = items }
    else s

-- `server.folder_ids?.includes(id)`
abbrev includes : Option (List ℕ) → ℕ → Bool
includes none id = false
includes (some ids) id = contains id ids

same_folder : Option ℕ → WorkItem → Bool
same_folder none server = true
same_folder (some id) server =
    server.work.folder_id =?= some id
    || not (is_some server.work.folder_ids) && not (is_some server.work.folder_id)
    || includes server.work.folder_ids id

same_place : WorkItem → WorkItem → Bool
unfolding same_folder
same_place local server =
    if is_some local.work.account_id && not (local.work.account_id =?= server.work.account_id)
    then false
    else same_folder local.work.folder_id server

unfoldable pub same_work : WorkItem → WorkItem → Bool
unfolding same_place
same_work local server =
    if not (str_eq local.work.kind server.work.kind)
    then false
    else if is_some local.work.message_id
    then local.work.message_id =?= server.work.message_id
    else same_place local server

abbrev pub rank : WorkItem → ℕ
rank item = or_else item.work.priority 100

-- `sort((a, b) => rank(b) - rank(a))`: a stable sort, highest rank first
unfoldable pub insert : WorkItem → List WorkItem → List WorkItem
insert a [] = a ∷ []
insert a (b ∷ xs) = if ltb (rank a) (rank b) then b ∷ insert a xs else a ∷ b ∷ xs

unfoldable pub sort : List WorkItem → List WorkItem
sort [] = []
sort (a ∷ xs) = insert a (sort xs)

unfoldable pub visible_work : List WorkItem → List WorkItem → List WorkItem
visible_work local server =
    sort (reverse local) ++ filter (λ item. not (any (λ own. same_work own item) local)) server
