-- ===== src/Client.antt =====
-- The HTTP client of the program, frontend/src/api/client.ts: which work a request counts as, how its
-- response is read, and what it tells the activity store while it is under way.
pub mod Paths
pub mod Prefixes
mod Params
pub mod Cache
pub mod Describe
pub mod Request
pub mod Hooks
mod Tests
use Prim.Native.Char.{code}
use Prim.Native.String
use inboxone.Common.{
  ℕ, zero, suc, ◌+◌, ◌*◌, ◌-◌, String, Bool, true, false, not, ◌&&◌, ◌||◌, Option, none, some, List,
  [], ◌∷◌, leb, ◌==◌, if◌then◌else◌, is_some, or_else, str_eq, filled?,
}
use inboxone.Common.Decimal.{is_digit, scan, number}
use inboxone.Activity.{
  WorkDescription, Activity, begin_work, finish_work, Refresh, start_refresh, Reply, finish_refresh,
}

-- A URL as the request's path names it: the path, and the query's parameters, decoded.
pub record Url : Type 0 where
  pub pathname : String
  pub search_params : List (String × String)

pub data Method : Type 0 where
  method_get method_post method_put method_patch method_delete : Method

is_get : Method → Bool
is_get method_get = true
is_get _ = false

is_post : Method → Bool
is_post method_post = true
is_post _ = false

is_delete : Method → Bool
is_delete method_delete = true
is_delete _ = false

-- `searchParams.get(name)` and `searchParams.has(name)`
unfoldable pub param : String → List (String × String) → Option String
param name [] = none
param name ((k, v) ∷ params) =
    let rest = param name params in if str_eq k name then some v else rest

pub has_param : String → List (String × String) → Bool
unfolding param
has_param name params = is_some (param name params)

abbrev pub nonzero : Option ℕ → Option ℕ
nonzero none = none
nonzero (some zero) = none
nonzero (some (suc n)) = some (suc n)

numeral : Option String → Option ℕ
numeral none = none
numeral (some text) = number text

-- `Number(searchParams.get(name)) || undefined`
unfoldable pub id_param : String → List (String × String) → Option ℕ
unfolding numeral param
id_param name params = nonzero (numeral (param name params))

-- what follows a prefix
unfoldable pub strip : String → String → Option String
strip String.[] s = some s
strip (String.◌∷◌ c p) String.[] = none
strip (String.◌∷◌ c p) (String.◌∷◌ d s) =
    let rest = strip p s in if code c == code d then rest else none

-- `(\d+)(?:\/(.*))?$`: the number, and what follows the slash
pub after_number : ℕ × String → Option (ℕ × Option String)
after_number (n, String.[]) = some (n, none)
after_number (n, String.◌∷◌ c s) = if code c == b'/' then some (n, some s) else none

match_number : String → Option (ℕ × Option String)
unfolding after_number scan is_digit
match_number String.[] = none
match_number (String.◌∷◌ c s) =
    let rest = after_number (scan 0 (String.◌∷◌ c s)) in if is_digit c then rest else none

match_rest : Option String → Option (ℕ × Option String)
unfolding match_number
match_rest none = none
match_rest (some s) = match_number s

unfoldable pub match_id : String → String → Option (ℕ × Option String)
unfolding match_rest strip
match_id prefix pathname = match_rest (strip prefix pathname)

-- `action === text`
is_action : Option String → String → Bool
is_action none text = false
is_action (some action) text = str_eq action text

starts_with : String → Option String → Bool
unfolding strip
starts_with prefix none = false
starts_with prefix (some action) = is_some (strip prefix action)

abbrev pub work_of : String → String → WorkDescription
work_of label kind = record {
  label = label;
  kind = kind;
  state = none;
  account_id = none;
  folder_id = none;
  folder_ids = none;
  message_id = none;
  priority = none;
}

message_work : String → String → ℕ → WorkDescription
message_work label kind id = record (work_of label kind) { message_id = some id }

describe_message : ℕ → Option String → Method → WorkDescription
unfolding message_work is_action starts_with is_delete
describe_message id action method =
    if is_action action "reply" || is_action action "forward"
    then message_work "Sending…" "send" id
    else if starts_with "attachments/" action
    then message_work "Downloading attachment…" "attachment" id
    else if is_action action "flags"
    then message_work "Updating read status…" "flags" id
    else if is_delete method
    then message_work "Deleting message…" "delete" id
    else message_work "Opening message…" "message" id

account_work : String → String → ℕ → WorkDescription
account_work label kind id = record (work_of label kind) { account_id = some id }

-- the account's part of `describe`, which goes on to the last test where it returns nothing
describe_account : ℕ → Option String → Method → Option WorkDescription
unfolding account_work is_action is_get is_delete
describe_account id action method =
    if is_action action "test-connection"
    then some (account_work "Testing connection…" "test" id)
    else if not (is_get method)
    then some (
        account_work (if is_delete method then "Removing account…" else "Saving account…") "account"
          id)
    else if is_action action "folders"
    then some (account_work "Loading folders…" "folders" id)
    else none

describe_new_account : Url → Method → Option WorkDescription
unfolding is_post
describe_new_account url method =
    if str_eq url.pathname "/api/accounts" && is_post method
    then some (work_of "Adding account…" "account")
    else none

describe_account_match : Option (ℕ × Option String) → Url → Method → Option WorkDescription
unfolding describe_new_account describe_account
describe_account_match none url method = describe_new_account url method
describe_account_match (some (id, action)) url method =
    let work = describe_account id action method in
    if is_some work then work else describe_new_account url method

describe_lists : Url → Method → Option WorkDescription
unfolding describe_account_match has_param id_param match_id
describe_lists url method =
    let account_id = id_param "account_id" url.search_params in
    let folder_id = id_param "folder_id" url.search_params in
    if str_eq url.pathname "/api/messages/mark-all-read"
    then some (record (work_of "Updating read status…" "flags") {
      account_id = account_id;
      folder_id = folder_id;
    })
    else if str_eq url.pathname "/api/messages"
        && not (has_param "notifications_only" url.search_params)
    then some
        (record (work_of
          (if has_param "cursor" url.search_params
            then "Loading more messages…"
            else "Loading messages…")
          "list") { priority = some 25; account_id = account_id; folder_id = folder_id })
    else describe_account_match (match_id "/api/accounts/" url.pathname) url method

describe_message_match : Option (ℕ × Option String) → Url → Method → Option WorkDescription
unfolding describe_lists describe_message
describe_message_match none url method = describe_lists url method
describe_message_match (some (id, action)) url method = some (describe_message id action method)

unfoldable pub describe : Url → Method → Option WorkDescription
unfolding describe_message_match id_param match_id
describe url method =
    let account_id = id_param "account_id" url.search_params in
    let folder_id = id_param "folder_id" url.search_params in
    if str_eq url.pathname "/api/sync/trigger" || str_eq url.pathname "/api/sync/retry"
    then some
        (record (work_of
          (if is_some folder_id then "Refreshing folder…" else "Refreshing accounts…") "sync") {
            account_id = account_id;
            folder_id = folder_id;
          })
    else describe_message_match (match_id "/api/messages/" url.pathname) url method
