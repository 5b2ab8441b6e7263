-- ===== src/Client/Paths.antt =====
-- The requests that the program makes, as their paths and methods: frontend/src/api/useMessages.ts,
-- useAccounts.ts, useSync.ts, useMicrosoftOAuth.ts and useAuth.ts in the same folder, and the calls of
-- the client in frontend/src/components and frontend/src/pages.
use inboxone.Common.{
  ℕ, String, Bool, Option, none, some, List, [], ◌∷◌, ◌++◌, ◌^^◌, filled?, truthy?, if◌then◌else◌,
}
use inboxone.Common.Decimal.{show}
use inboxone.Types.{Segment}
use inboxone.Client.{Url, Method, method_get, method_post, method_put, method_patch, method_delete}

pub record MessageFilters : Type 0 where
  pub account_id : Option ℕ
  pub folder_id : Option ℕ
  pub unread_only : Bool
  pub search : Option String

-- `if (id) params.set(name, String(id))`
unfoldable pub id_entry : String → Option ℕ → List (String × String)
id_entry name none = []
id_entry name (some id) = if truthy? (some id) then (name, show id) ∷ [] else []

unfoldable pub text_entry : String → Option String → List (String × String)
text_entry name none = []
text_entry name (some text) = if filled? (some text) then (name, text) ∷ [] else []

unfoldable pub build_query : MessageFilters → Option String → List (String × String)
unfolding id_entry text_entry
build_query filters cursor =
    id_entry "account_id" filters.account_id
    ++ (id_entry "folder_id" filters.folder_id
        ++ ((if filters.unread_only then ("unread_only", "true") ∷ [] else [])
            ++ (text_entry "search" filters.search ++ text_entry "cursor" cursor)))

-- The calls of the client. Those of a message or an account have its id; what the server has named stands in a path
-- as it is.
pub data Call : Type 0 where
  trigger_all list_accounts create_account list_recent_unread connections presence me login logout
        get_settings oauth_start :
      Call
  trigger_account trigger_folder retry : ℕ → Call
  list_messages : MessageFilters → Option String → Call
  mark_all_read : Option ℕ → Option ℕ → Call
  get_message update_flags delete_message reply forward : ℕ → Call
  download : ℕ → Segment → Call
  update_account delete_account test_connection list_folders update_folders : ℕ → Call
  save_settings : Call
  oauth_reconnect : ℕ → Call
  oauth_poll : Segment → Call

unfoldable pub bare : String → Url
bare pathname = record { pathname = pathname; search_params = [] }

unfoldable pub message_path : ℕ → String → Url
unfolding bare
message_path id suffix = bare ("/api/messages/" ^^ show id ^^ suffix)

unfoldable pub account_path : ℕ → String → Url
unfolding bare
account_path id suffix = bare ("/api/accounts/" ^^ show id ^^ suffix)

-- The path of a call.
unfoldable pub url_of : Call → Url
unfolding bare message_path account_path build_query id_entry
url_of trigger_all = bare "/api/sync/trigger"
url_of (trigger_account id) = record (bare "/api/sync/trigger") {
  search_params = ("account_id", show id) ∷ [];
}
url_of (trigger_folder id) = record (bare "/api/sync/trigger") {
  search_params = ("folder_id", show id) ∷ [];
}
url_of (retry id) = record (bare "/api/sync/retry") { search_params = ("account_id", show id) ∷ [] }
url_of connections = bare "/api/sync/connections"
url_of presence = bare "/api/sync/presence"
url_of (list_messages filters cursor) = record (bare "/api/messages") {
  search_params = build_query filters cursor;
}
url_of list_recent_unread = record (bare "/api/messages") {
  search_params = ("unread_only", "true") ∷ ("notifications_only", "true") ∷ ("limit", "200") ∷ [];
}
url_of (mark_all_read account_id folder_id) = record (bare "/api/messages/mark-all-read") {
  search_params = id_entry "account_id" account_id ++ id_entry "folder_id" folder_id;
}
url_of (get_message id) = message_path id ""
url_of (update_flags id) = message_path id "/flags"
url_of (delete_message id) = message_path id ""
url_of (reply id) = message_path id "/reply"
url_of (forward id) = message_path id "/forward"
url_of (download id part_index) = message_path id ("/attachments/" ^^ part_index.text)
url_of list_accounts = bare "/api/accounts"
url_of create_account = bare "/api/accounts"
url_of (update_account id) = account_path id ""
url_of (delete_account id) = account_path id ""
url_of (test_connection id) = account_path id "/test-connection"
url_of (list_folders id) = account_path id "/folders"
url_of (update_folders id) = account_path id "/folders"
url_of oauth_start = bare "/api/accounts/oauth/microsoft/start"
url_of (oauth_reconnect id) = bare ("/api/accounts/oauth/microsoft/reconnect/" ^^ show id)
url_of (oauth_poll flow_id) = bare ("/api/accounts/oauth/microsoft/poll/" ^^ flow_id.text)
url_of me = bare "/api/auth/me"
url_of login = bare "/api/auth/login"
url_of logout = bare "/api/auth/logout"
url_of get_settings = bare "/api/settings"
url_of save_settings = bare "/api/settings"

unfoldable pub method_of : Call → Method
method_of connections = method_get
method_of (list_messages _ _) = method_get
method_of list_recent_unread = method_get
method_of (get_message _) = method_get
method_of (download _ _) = method_get
method_of list_accounts = method_get
method_of (list_folders _) = method_get
method_of (oauth_poll _) = method_get
method_of me = method_get
method_of get_settings = method_get
method_of (delete_message _) = method_delete
method_of (delete_account _) = method_delete
method_of (update_account _) = method_put
method_of (update_folders _) = method_put
method_of save_settings = method_patch
method_of _ = method_post
