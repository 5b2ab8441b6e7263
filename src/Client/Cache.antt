-- ===== src/Client/Cache.antt =====
-- The queries of frontend/src/api/useMessages.ts, useAccounts.ts, useSync.ts and useAuth.ts in the same
-- folder, and of frontend/src/components/RefreshSettings.tsx, by their keys, and which of them a request makes stale when it has succeeded. The cache is
-- react-query's: which keys a filter `matches` is a parameter.
use inboxone.Common.{
  arith, Option, ℕ, ◌≡◌, String, Bool, true, false, not, ◌&&◌, List, [], ◌∷◌, any, str_eq,
  if◌then◌else◌,
}
use inboxone.Client.Paths.{
  MessageFilters, Call, get_message, update_flags, mark_all_read, delete_message, reply, forward,
  create_account, update_account, delete_account, update_folders, login, logout, save_settings,
}

pub data KeyPart : Type 0 where
  word : String → KeyPart
  number : ℕ → KeyPart
  by_filters : MessageFilters → KeyPart

-- the keys of the queries
abbrev pub messages_key : MessageFilters → List KeyPart
messages_key filters = word "messages" ∷ by_filters filters ∷ []

abbrev pub recent_unread_key : String → List KeyPart
recent_unread_key membership = word "messages" ∷ word "recent-unread" ∷ word membership ∷ []

abbrev pub detail_key : ℕ → List KeyPart
detail_key id = word "messages" ∷ word "detail" ∷ number id ∷ []

abbrev pub accounts_key : List KeyPart
accounts_key = word "accounts" ∷ []

abbrev pub folders_key : ℕ → List KeyPart
folders_key id = word "accounts" ∷ number id ∷ word "folders" ∷ []

-- `query.queryKey[1] !== "detail"`
abbrev pub is_no_detail : List KeyPart → Bool
is_no_detail (_ ∷ word w ∷ _) = not (str_eq w "detail")
is_no_detail _ = true

-- An argument of `invalidateQueries`: a key, and whether the queries of single messages are left out.
pub record Invalidation : Type 0 where
  pub query_key : List KeyPart
  pub spares_detail : Bool

abbrev all_of : List KeyPart → Invalidation
all_of key = record { query_key = key; spares_detail = false }

-- what is made stale when a call has succeeded
unfoldable pub invalidated_after : Call → List Invalidation
invalidated_after (get_message id) =
    all_of accounts_key ∷ record { query_key = word "messages" ∷ []; spares_detail = true } ∷ []
invalidated_after (update_flags id) = all_of (word "messages" ∷ []) ∷ all_of accounts_key ∷ []
invalidated_after (mark_all_read a f) = all_of (word "messages" ∷ []) ∷ all_of accounts_key ∷ []
invalidated_after (delete_message id) = all_of (word "messages" ∷ []) ∷ all_of accounts_key ∷ []
invalidated_after (reply id) = all_of (word "messages" ∷ []) ∷ []
invalidated_after (forward id) = all_of (word "messages" ∷ []) ∷ []
invalidated_after create_account = all_of accounts_key ∷ []
invalidated_after (update_account id) = all_of accounts_key ∷ []
invalidated_after (delete_account id) = all_of accounts_key ∷ []
invalidated_after (update_folders id) =
    all_of accounts_key ∷ all_of (folders_key id) ∷ all_of (word "messages" ∷ []) ∷ []
invalidated_after login = all_of (word "auth" ∷ []) ∷ []
invalidated_after logout = all_of (word "auth" ∷ []) ∷ []
invalidated_after save_settings = all_of (word "connections" ∷ []) ∷ []
invalidated_after _ = []

-- the calls that change what the server has of the messages
pub data MailChange : Type 0 where
  change_flags change_deleted change_folders : ℕ → MailChange
  change_all : Option ℕ → Option ℕ → MailChange

abbrev pub call_of : MailChange → Call
call_of (change_flags id) = update_flags id
call_of (change_deleted id) = delete_message id
call_of (change_folders id) = update_folders id
call_of (change_all account_id folder_id) = mark_all_read account_id folder_id

module _ (matches : List KeyPart → List KeyPart → Bool) where
  abbrev pub is_stale : List KeyPart → Invalidation → Bool
  is_stale key inv =
      matches inv.query_key key && (if inv.spares_detail then is_no_detail key else true)

  abbrev pub goes_stale : Call → List KeyPart → Bool
  goes_stale call key = any (is_stale key) (invalidated_after call)

module _ (matches : List KeyPart → List KeyPart → Bool)
    (by_first : (w v : String) (rest : List KeyPart)
      → matches (word w ∷ []) (word v ∷ rest) ≡ str_eq w v) where
  last_of :
      (k : ℕ) (key : List KeyPart)
      → matches accounts_key key ≡ false
      → matches (word "messages" ∷ []) key ≡ true
      → goes_stale matches (update_folders k) key ≡ true
  unfolding invalidated_after
  last_of k key h e = rw (h, e) (ground arith)

  -- A call that changes mail makes every list of messages, every open message, the recent unread mail and
  -- the unread counts stale.
  pub goes_stale-call_of :
      (c : MailChange) (f : MessageFilters) (membership : String) (id : ℕ)
      → (goes_stale matches (call_of c) (messages_key f) ≡ true)
        × (goes_stale matches (call_of c) (recent_unread_key membership) ≡ true)
        × (goes_stale matches (call_of c) (detail_key id) ≡ true)
        × (goes_stale matches (call_of c) accounts_key ≡ true)
  unfolding invalidated_after
  goes_stale-call_of (change_flags k) f membership id =
      (rw by_first, rw by_first, rw by_first, rw (by_first, by_first))
  goes_stale-call_of (change_all a k) f membership id =
      (rw by_first, rw by_first, rw by_first, rw (by_first, by_first))
  goes_stale-call_of (change_deleted k) f membership id =
      (rw by_first, rw by_first, rw by_first, rw (by_first, by_first))
  goes_stale-call_of (change_folders k) f membership id = (
    last_of k (messages_key f) (by_first "accounts" "messages" _)
        (by_first "messages" "messages" _),
    last_of k (recent_unread_key membership) (by_first "accounts" "messages" _)
        (by_first "messages" "messages" _),
    last_of k (detail_key id) (by_first "accounts" "messages" _) (by_first "messages" "messages" _),
    rw by_first,
  )

  -- Opening a message makes the lists and the counts stale, but no open message: it does not ask for
  -- itself again.
  pub goes_stale-get_message :
      (opened id : ℕ) (f : MessageFilters) (membership : String)
      → (goes_stale matches (get_message opened) (detail_key id) ≡ false)
        × (goes_stale matches (get_message opened) (messages_key f) ≡ true)
        × (goes_stale matches (get_message opened) (recent_unread_key membership) ≡ true)
        × (goes_stale matches (get_message opened) accounts_key ≡ true)
  unfolding invalidated_after
  goes_stale-get_message opened id f membership =
      (rw (by_first, by_first), rw (by_first, by_first), rw (by_first, by_first), rw by_first)
