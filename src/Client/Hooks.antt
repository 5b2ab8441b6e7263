-- ===== src/Client/Hooks.antt =====
-- How the hooks of frontend/src/api/useMessages.ts ask: what they say of their requests, by what is cached.
use inboxone.Common.{ℕ, String, Bool, Option, some, filled?, if◌then◌else◌}
use inboxone.Activity.{WorkDescription}
use inboxone.Client.{work_of}
use inboxone.Client.Paths.{MessageFilters, Call, list_messages, get_message}
use inboxone.Client.Request.{ActivityOption, given}

-- `useMessages`: the label of a request for a page, by its cursor and whether the list is cached
unfoldable pub list_label : Option String → Bool → String
list_label page_param cached =
    if filled? page_param
    then "Loading more messages…"
    else if cached
    then "Refreshing messages…"
    else "Loading messages…"

unfoldable pub list_work : MessageFilters → Option String → Bool → WorkDescription
unfolding list_label
list_work filters page_param cached = record (work_of (list_label page_param cached) "list") {
  priority = some 25;
  account_id = filters.account_id;
  folder_id = filters.folder_id;
}

-- `useMessage`
unfoldable pub message_work : ℕ → Bool → WorkDescription
message_work id cached =
    record (work_of (if cached then "Refreshing message…" else "Opening message…") "message") {
      message_id = some id;
    }

-- the requests of the two hooks
unfoldable pub ask_page : MessageFilters → Option String → Bool → Call × ActivityOption
ask_page filters page_param cached =
    (list_messages filters page_param, given (list_work filters page_param cached))

unfoldable pub ask_message : ℕ → Bool → Call × ActivityOption
ask_message id cached = (get_message id, given (message_work id cached))
