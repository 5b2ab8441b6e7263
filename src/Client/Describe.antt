-- ===== src/Client/Describe.antt =====
-- Which work the requests of the program count as (`describe` of frontend/src/api/client.ts, against the
-- paths that the rest of the program asks for).
use Prim.Native.Char.{Char}
use text.Mathlib.TextLemmas.{cons-append, append_assoc}
use inboxone.Common.{
  ℕ, zero, suc, ◌≡◌, refl, ap, ◌∙◌, String, false, Option, none, some, if◌then◌else◌, filled?, ◌^^◌,
}
use inboxone.Common.Decimal.{show, number-show, scan, is_digit}
use inboxone.Types.{Segment}
use inboxone.Activity.{WorkDescription}
use inboxone.Client.{
  Method, method_get, method_post, method_put, method_delete, param, has_param, nonzero, numeral,
  id_param, strip, after_number, match_number, match_rest, match_id, work_of, message_work,
  is_action, starts_with, describe_message, account_work, describe_account, describe_new_account,
  describe_account_match, describe_lists, describe_message_match, describe, is_get, is_post,
  is_delete,
}
use inboxone.Client.Paths.{
  MessageFilters, id_entry, Call, trigger_all, create_account, trigger_account, trigger_folder,
  retry, list_messages, mark_all_read, get_message, update_flags, delete_message, reply, forward,
  download, update_account, delete_account, test_connection, list_folders, update_folders,
  oauth_reconnect, oauth_poll, bare, message_path, account_path, url_of, method_of,
}
use inboxone.Client.Prefixes.{strip-append, str_eq-strip, strip-apart, apart, match_id-show}
use inboxone.Client.Params.{
  id_param-id_entry, id_param-id_entry_other, id_param-id_entry_last, param-id_entry-none,
  list_account, list_folder, list_notifications, list_cursor,
}

-- the path of a message, and what follows its id
describe-message_path :
    (id : ℕ) (suffix : String) (action : Option String) (method : Method)
    → after_number (scan id suffix) ≡ some (id, action)
    → describe (message_path id suffix) method ≡ some (describe_message id action method)
unfolding describe message_path bare describe_message_match
describe-message_path id suffix action method h = rw (
  str_eq-strip "/api/messages/" (show id ^^ suffix) "/api/sync/trigger" (unfold strip in refl),
  str_eq-strip "/api/messages/" (show id ^^ suffix) "/api/sync/retry" (unfold strip in refl),
  match_id-show "/api/messages/" id suffix,
  h,
)

match_id-messages_accounts : (s : String) → match_id "/api/messages/" ("/api/accounts/" ^^ s) ≡ none
unfolding match_id match_rest
match_id-messages_accounts s =
    rw (strip-apart "/api/messages/" "/api/accounts/" s (unfold apart in refl))

describe-accounts :
    (s : String) (method : Method)
    → let url = bare ("/api/accounts/" ^^ s) in
      describe url method
      ≡ describe_account_match (match_id "/api/accounts/" ("/api/accounts/" ^^ s)) url method
unfolding describe bare describe_message_match describe_lists
describe-accounts s method = rw (
  str_eq-strip "/api/accounts/" s "/api/sync/trigger" (unfold strip in refl),
  str_eq-strip "/api/accounts/" s "/api/sync/retry" (unfold strip in refl),
  match_id-messages_accounts s,
  str_eq-strip "/api/accounts/" s "/api/messages/mark-all-read" (unfold strip in refl),
  str_eq-strip "/api/accounts/" s "/api/messages" (unfold strip in refl),
)

describe-account_path :
    (id : ℕ) (suffix : String) (action : Option String) (method : Method) (work : WorkDescription)
    → after_number (scan id suffix) ≡ some (id, action)
    → describe_account id action method ≡ some work
    → describe (account_path id suffix) method ≡ some work
unfolding account_path describe_account_match
describe-account_path id suffix action method work h k =
    describe-accounts (show id ^^ suffix) method
    ∙ unfold bare in rw (match_id-show "/api/accounts/" id suffix, h, k)

-- What a request is shown as: its label and kind, and the account, folder or message that it is about. A
-- call that is not listed is not shown.
abbrev pub about_message : String → String → ℕ → WorkDescription
about_message label kind id = record (work_of label kind) { message_id = some id }

abbrev pub about_account : String → String → ℕ → WorkDescription
about_account label kind id = record (work_of label kind) { account_id = some id }

abbrev pub about_mail : String → String → Option ℕ → Option ℕ → WorkDescription
about_mail label kind account_id folder_id = record (work_of label kind) {
  account_id = nonzero account_id;
  folder_id = nonzero folder_id;
}

abbrev pub refreshing_folder : Option ℕ → String
refreshing_folder none = "Refreshing accounts…"
refreshing_folder (some _) = "Refreshing folder…"

abbrev pub loading : Option String → String
loading cursor = if filled? cursor then "Loading more messages…" else "Loading messages…"

abbrev pub loading_work : Option String → MessageFilters → WorkDescription
loading_work cursor filters =
    let work = about_mail (loading cursor) "list" filters.account_id filters.folder_id in
    record work { priority = some 25 }

abbrev pub shown_as : Call → Option WorkDescription
shown_as trigger_all = some (work_of "Refreshing accounts…" "sync")
shown_as (trigger_account id) = some (about_mail "Refreshing accounts…" "sync" (some id) none)
shown_as (trigger_folder id) =
    some (about_mail (refreshing_folder (nonzero (some id))) "sync" none (some id))
shown_as (retry id) = some (about_mail "Refreshing accounts…" "sync" (some id) none)
shown_as (list_messages filters cursor) = some (loading_work cursor filters)
shown_as (mark_all_read account_id folder_id) =
    some (about_mail "Updating read status…" "flags" account_id folder_id)
shown_as (get_message id) = some (about_message "Opening message…" "message" id)
shown_as (update_flags id) = some (about_message "Updating read status…" "flags" id)
shown_as (delete_message id) = some (about_message "Deleting message…" "delete" id)
shown_as (reply id) = some (about_message "Sending…" "send" id)
shown_as (forward id) = some (about_message "Sending…" "send" id)
shown_as (download id part_index) = some (about_message "Downloading attachment…" "attachment" id)
shown_as create_account = some (work_of "Adding account…" "account")
shown_as (update_account id) = some (about_account "Saving account…" "account" id)
shown_as (delete_account id) = some (about_account "Removing account…" "account" id)
shown_as (test_connection id) = some (about_account "Testing connection…" "test" id)
shown_as (list_folders id) = some (about_account "Loading folders…" "folders" id)
shown_as (update_folders id) = some (about_account "Saving account…" "account" id)
shown_as _ = none

program : Unit {0}
unfolding describe describe_message_match describe_lists describe_account_match describe_new_account
    describe_account describe_message url_of method_of bare id_param numeral param has_param
    match_id match_rest strip match_number after_number is_get is_post is_delete is_action
    starts_with message_work account_work message_path account_path scan is_digit id_entry
program = tt

describe-trigger :
    (id : ℕ)
    → (describe (url_of (trigger_account id)) method_post ≡ shown_as (trigger_account id))
      × (describe (url_of (trigger_folder id)) method_post ≡ shown_as (trigger_folder id))
      × (describe (url_of (retry id)) method_post ≡ shown_as (retry id))
unfolding program
describe-trigger zero = (rw number-show, rw number-show, rw number-show)
describe-trigger (suc n) = (rw number-show, rw number-show, rw number-show)

describe-list_messages :
    (filters : MessageFilters) (cursor : Option String)
    → describe (url_of (list_messages filters cursor)) method_get
      ≡ shown_as (list_messages filters cursor)
unfolding program
describe-list_messages filters cursor = rw (
  list_account filters cursor,
  list_folder filters cursor,
  list_notifications filters cursor,
  list_cursor filters cursor,
)

describe-mark_all_read :
    (account_id folder_id : Option ℕ)
    → describe (url_of (mark_all_read account_id folder_id)) method_post
      ≡ shown_as (mark_all_read account_id folder_id)
unfolding program
describe-mark_all_read account_id folder_id = rw (
  id_param-id_entry "account_id" account_id _
      (param-id_entry-none "account_id" "folder_id" folder_id refl),
  id_param-id_entry_other "folder_id" "account_id" account_id (id_entry "folder_id" folder_id) refl,
  id_param-id_entry_last "folder_id" folder_id,
)

describe-accounts_none :
    (c : Char) (s : String) (method : Method)
    → is_digit c ≡ false
    → describe (bare ("/api/accounts/" ^^ String.◌∷◌ c s)) method ≡ none
unfolding match_id match_rest match_number describe_account_match describe_new_account
describe-accounts_none c s method h =
    describe-accounts (String.◌∷◌ c s) method
    ∙ rw (strip-append, h)
        (unfold bare in
          rw
            (str_eq-strip "/api/accounts/" (String.◌∷◌ c s) "/api/accounts" (unfold strip in refl)))

describe-oauth :
    (s : String) (method : Method)
    → describe (bare ("/api/accounts/oauth/microsoft/" ^^ s)) method ≡ none
describe-oauth s method =
    ap (λ p. describe (bare p) method) (append_assoc "/api/accounts/" "oauth/microsoft/" s)
    ∙ ap (λ p. describe (bare ("/api/accounts/" ^^ p)) method) (cons-append "o" "auth/microsoft/" s)
    ∙ describe-accounts_none "o" ("auth/microsoft/" ^^ s) method (unfold is_digit in refl)

describe_message-attachment :
    (id : ℕ) (part_index : String) (method : Method)
    → describe_message id (some ("attachments/" ^^ part_index)) method
      ≡ message_work "Downloading attachment…" "attachment" id
unfolding describe_message is_action starts_with
describe_message-attachment id part_index method = rw (
  str_eq-strip "attachments/" part_index "reply" (unfold strip in refl),
  str_eq-strip "attachments/" part_index "forward" (unfold strip in refl),
  strip-append,
)

describe-download :
    (id : ℕ) (part_index : Segment)
    → describe (url_of (download id part_index)) method_get ≡ shown_as (download id part_index)
unfolding url_of message_work
describe-download id part_index =
    describe-message_path id ("/attachments/" ^^ part_index.text)
      (some ("attachments/" ^^ part_index.text)) method_get
      (ap (λ s. after_number (scan id s)) (cons-append "/" "attachments/" part_index.text)
        ∙ unfold scan is_digit after_number in refl)
    ∙ ap some (describe_message-attachment id part_index.text method_get)

pub describe_calls : (c : Call) → describe (url_of c) (method_of c) ≡ shown_as c
unfolding program
describe_calls (trigger_account id) = (describe-trigger id).0
describe_calls (trigger_folder id) = (describe-trigger id).1
describe_calls (retry id) = (describe-trigger id).2
describe_calls (list_messages filters cursor) = describe-list_messages filters cursor
describe_calls (mark_all_read account_id folder_id) = describe-mark_all_read account_id folder_id
describe_calls (get_message id) = describe-message_path id "" none method_get refl
describe_calls (update_flags id) = describe-message_path id "/flags" (some "flags") method_post refl
describe_calls (delete_message id) = describe-message_path id "" none method_delete refl
describe_calls (reply id) = describe-message_path id "/reply" (some "reply") method_post refl
describe_calls (forward id) = describe-message_path id "/forward" (some "forward") method_post refl
describe_calls (download id part_index) = describe-download id part_index
describe_calls (update_account id) = describe-account_path id "" none method_put _ refl refl
describe_calls (delete_account id) = describe-account_path id "" none method_delete _ refl refl
describe_calls (test_connection id) =
    describe-account_path id "/test-connection" (some "test-connection") method_post _ refl refl
describe_calls (list_folders id) =
    describe-account_path id "/folders" (some "folders") method_get _ refl refl
describe_calls (update_folders id) =
    describe-account_path id "/folders" (some "folders") method_put _ refl refl
describe_calls (oauth_reconnect id) =
    ap (λ p. describe (bare p) method_post)
      (append_assoc "/api/accounts/oauth/microsoft/" "reconnect/" (show id))
    ∙ describe-oauth ("reconnect/" ^^ show id) method_post
describe_calls (oauth_poll flow_id) =
    ap (λ p. describe (bare p) method_get)
      (append_assoc "/api/accounts/oauth/microsoft/" "poll/" flow_id.text)
    ∙ describe-oauth ("poll/" ^^ flow_id.text) method_get
describe_calls _ = refl
