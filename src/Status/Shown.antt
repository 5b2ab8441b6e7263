-- ===== src/Status/Shown.antt =====
-- What each request of the program is shown as: `request` and `describe` of frontend/src/api/client.ts, with what
-- frontend/src/api/useMessages.ts and frontend/src/pages/InboxPage.tsx say of their requests.
use inboxone.Common.{
  ℕ, ◌≡◌, refl, ap, ◌∙◌, inl, inr, String, Bool, true, false, Option, none, some, List, [], ◌∷◌,
  ◌==◌, if◌then◌else◌, filled?, or_text, ◌^^◌, find?, Bool-cases,
}
use inboxone.Types.{Account, Folder}
use inboxone.Activity.{WorkDescription}
use inboxone.Client.{work_of}
use inboxone.Client.Paths.{Call}
use inboxone.Client.Describe.{shown_as, describe_calls, about_message}
use inboxone.Client.Hooks.{list_label, list_work, ask_page, ask_message, message_work}
use inboxone.Client.Request.{ActivityOption, work_for}
use inboxone.Mailbox.{find_folder, folder_name, refresh_label, folder_request}
use inboxone.Status.Named.{IsRequest, plain, page, message, folder, work_of_request}

-- the folders of the account that has the id, and the name of a folder among them, or "account"
abbrev pub folders_of : List Account → ℕ → List Folder
folders_of [] id = []
folders_of (account ∷ accounts) id =
    if account.id == id then account.folders else folders_of accounts id

abbrev pub name_in : List Folder → Option ℕ → String
name_in [] (some id) = "account"
name_in folders none = "account"
name_in (f ∷ folders) (some id) =
    if f.id == id then or_text f.display_name f.imap_path else name_in folders (some id)

abbrev pub page_label : Bool → Bool → String
page_label true cached = "Loading more messages…"
page_label false true = "Refreshing messages…"
page_label false false = "Loading messages…"

abbrev pub message_label : Bool → String
message_label true = "Refreshing message…"
message_label false = "Opening message…"

-- What each request is shown as, if it is: the work that its caller names, or what its path is known as.
abbrev pub asked_work : {q : Call × ActivityOption} → IsRequest q → Option WorkDescription
asked_work (plain c) = shown_as c
asked_work (page filters cursor cached) =
    some (record (work_of (page_label (filled? cursor) cached) "list") {
      account_id = filters.account_id;
      folder_id = filters.folder_id;
      priority = some 25;
    })
asked_work (message id cached) = some (about_message (message_label cached) "message" id)
asked_work (folder accounts account_id folder_id) =
    some
      (record (work_of ("Refreshing " ^^ name_in (folders_of accounts account_id) folder_id ^^ "…")
        "sync") { account_id = some account_id; folder_id = folder_id })

list_label-page_label :
    (cursor : Option String) (cached : Bool)
    → list_label cursor cached ≡ page_label (filled? cursor) cached
unfolding list_label
list_label-page_label cursor cached = elim (Bool-cases (filled? cursor)) [
  | inl more ↦ rw more refl
  | inr first ↦ elim (Bool-cases cached) [
    | inl kept ↦ rw (first, kept) refl
    | inr new ↦ rw (first, new) refl
  ]
]

message_label-eq :
    (cached : Bool)
    → (if cached then "Refreshing message…" else "Opening message…") ≡ message_label cached
message_label-eq true = refl
message_label-eq false = refl

find_folder-folders_of :
    (accounts : List Account) (account_id id : ℕ)
    → find_folder (some id) (find? (λ account. account.id == account_id) accounts)
      ≡ find? (λ (f : Folder). f.id == id) (folders_of accounts account_id)
unfolding find_folder
find_folder-folders_of [] account_id id = refl
find_folder-folders_of (account ∷ accounts) account_id id =
    elim (Bool-cases (account.id == account_id)) [
      | inl same ↦ rw same refl
      | inr other ↦ rw other (find_folder-folders_of accounts account_id id)
    ]

refresh_label-name_in :
    (folders : List Folder) (id : ℕ)
    → refresh_label (find? (λ (f : Folder). f.id == id) folders)
      ≡ "Refreshing " ^^ name_in folders (some id) ^^ "…"
unfolding refresh_label folder_name
refresh_label-name_in [] id = refl
refresh_label-name_in (f ∷ folders) id = elim (Bool-cases (f.id == id)) [
  | inl same ↦ rw same refl
  | inr other ↦ rw other (refresh_label-name_in folders id)
]

refresh_label-find_folder :
    (accounts : List Account) (account_id : ℕ) (folder_id : Option ℕ)
    → refresh_label (find_folder folder_id (find? (λ account. account.id == account_id) accounts))
      ≡ "Refreshing " ^^ name_in (folders_of accounts account_id) folder_id ^^ "…"
refresh_label-find_folder accounts account_id none = unfold find_folder refresh_label in refl
refresh_label-find_folder accounts account_id (some id) =
    ap refresh_label (find_folder-folders_of accounts account_id id)
    ∙ refresh_label-name_in (folders_of accounts account_id) id

-- Every request of the program is shown as what it is: one for a page of the list, for a message or for a folder as
-- its caller says, by what is cached and under the folder's name; every other one by its path and method, with the
-- account, folder or message whose id it names, where an id is not 0, and those that only watch or belong to no mail
-- are not shown.
pub request-shown :
    (q : Call × ActivityOption) (made : IsRequest q) → work_of_request q ≡ asked_work made
unfolding work_for ask_page ask_message folder_request list_work message_work
request-shown _ (plain c) = describe_calls c
request-shown _ (page filters cursor cached) = rw (list_label-page_label cursor cached) refl
request-shown _ (message id cached) = rw (message_label-eq cached) refl
request-shown _ (folder accounts account_id folder_id) =
    rw (refresh_label-find_folder accounts account_id folder_id) refl
