-- ===== src/Rail/Highlight.antt =====
-- Which entry of the rail is highlighted (frontend/src/components/AccountFilterRail.tsx), for the choices that
-- the page makes (frontend/src/pages/InboxPage.tsx).
use inboxone.Common.{
  ◌≡◌, ◌≤◌, refl, ap, arith, ℕ, ◌+◌, Bool, true, false, Option, none, some, List, [], ◌∷◌, ◌++◌,
  map, ◌==◌, if◌then◌else◌, Bool-cases, inl, inr,
}
use inboxone.Mailbox.{Mailbox, Event, run}
use inboxone.Mailbox.Choice.{IsChoice, ChoiceOf, run-IsChoice}
use inboxone.Types.{Folder, Account}
use inboxone.Rail.{
  Expanded, is_expanded, FolderEntry, AccountEntry, RailView, folder_entry, account_entry,
  rail_view,
}

abbrev pub one_if : Bool → ℕ
one_if true = 1
one_if false = 0

abbrev pub selected_folders : List FolderEntry → ℕ
selected_folders [] = 0
selected_folders (f ∷ fs) = one_if f.is_selected + selected_folders fs

abbrev pub selected_shown : Option (List FolderEntry) → ℕ
selected_shown none = 0
selected_shown (some fs) = selected_folders fs

abbrev pub selected_accounts : List AccountEntry → ℕ
selected_accounts [] = 0
selected_accounts (a ∷ as_) =
    one_if a.is_selected + selected_shown a.folders + selected_accounts as_

-- how many entries are highlighted
abbrev pub highlights : RailView → ℕ
highlights v = one_if v.all_selected + selected_accounts v.accounts

-- how often an id is in a list of them
abbrev pub occurrences : ℕ → List ℕ → ℕ
occurrences a [] = 0
occurrences a (b ∷ bs) = one_if (a == b) + occurrences a bs

abbrev pub folder_ids : List Folder → List ℕ
folder_ids fs = map (λ (f : Folder). f.id) fs

-- the folders of the accounts that are unfolded
abbrev pub shown_ids : Expanded → List Account → List ℕ
shown_ids e [] = []
shown_ids e (a ∷ as_) = (if is_expanded a.id e then folder_ids a.folders else []) ++ shown_ids e as_

abbrev pub account_ids : List Account → List ℕ
account_ids accounts = map (λ (a : Account). a.id) accounts

occurrences-append :
    (a : ℕ) (xs ys : List ℕ) → occurrences a (xs ++ ys) ≡ occurrences a xs + occurrences a ys
occurrences-append a [] ys = omega arith
occurrences-append a (x ∷ xs) ys = omega (arith, occurrences-append a xs ys)

-- the entries of accounts that are highlighted, and those of folders
abbrev pub account_part : Option ℕ → Option ℕ → List ℕ → ℕ
account_part none _ ids = 0
account_part (some id) (some _) ids = 0
account_part (some id) none ids = occurrences id ids

abbrev pub folder_part : Option ℕ → List ℕ → ℕ
folder_part none ids = 0
folder_part (some id) ids = occurrences id ids

folder_part-append :
    (f : Option ℕ) (xs ys : List ℕ) → folder_part f (xs ++ ys) ≡ folder_part f xs + folder_part f ys
folder_part-append none xs ys = omega arith
folder_part-append (some id) xs ys = occurrences-append id xs ys

account_part-cons :
    (s f : Option ℕ) (a : Account) (e : Expanded) (ids : List ℕ)
    → account_part s f (a.id ∷ ids)
      ≡ one_if (account_entry s f e a).is_selected + account_part s f ids
unfolding account_entry
account_part-cons none f a e ids = omega arith
account_part-cons (some id) none a e ids = ground arith
account_part-cons (some id) (some g) a e ids = ground arith

folders-selected :
    (f : Option ℕ) (fs : List Folder)
    → selected_folders (map (folder_entry f) fs) ≡ folder_part f (folder_ids fs)
unfolding folder_entry
folders-selected none [] = refl
folders-selected none (f ∷ fs) = omega (arith, folders-selected none fs)
folders-selected (some id) [] = refl
folders-selected (some id) (f ∷ fs) =
    ap (λ n. one_if (id == f.id) + n) (folders-selected (some id) fs)

folder_part-nil : (f : Option ℕ) → folder_part f [] ≡ 0
folder_part-nil none = refl
folder_part-nil (some id) = refl

shown-selected :
    (s f : Option ℕ) (e : Expanded) (a : Account)
    → selected_shown (account_entry s f e a).folders
      ≡ folder_part f (if is_expanded a.id e then folder_ids a.folders else [])
unfolding account_entry
shown-selected s f e a = elim (Bool-cases (is_expanded a.id e)) [
  | inl open_ ↦ rw open_ (folders-selected f a.folders)
  | inr shut ↦ rw (shut, folder_part-nil f)
]

accounts-selected :
    (s f : Option ℕ) (e : Expanded) (accounts : List Account)
    → selected_accounts (map (account_entry s f e) accounts)
      ≡ account_part s f (account_ids accounts) + folder_part f (shown_ids e accounts)
accounts-selected none none e [] = refl
accounts-selected none (some g) e [] = refl
accounts-selected (some id) none e [] = refl
accounts-selected (some id) (some g) e [] = refl
accounts-selected s f e (a ∷ as_) = omega (
  arith,
  account_part-cons s f a e (account_ids as_),
  shown-selected s f e a,
  folder_part-append f (if is_expanded a.id e then folder_ids a.folders else []) (shown_ids e as_),
  accounts-selected s f e as_,
)

highlights-le :
    (s f : Option ℕ) (e : Expanded) (accounts : List Account)
    → IsChoice s f
    → ((id : ℕ) → occurrences id (account_ids accounts) ≤ 1)
    → ((id : ℕ) → occurrences id (shown_ids e accounts) ≤ 1)
    → highlights (rail_view s f e accounts) ≤ 1
unfolding rail_view
highlights-le none none e accounts h k k' = omega (arith, accounts-selected none none e accounts)
highlights-le none (some g) e accounts h k k' = cc
highlights-le (some id) none e accounts h k k' =
    omega (arith, accounts-selected (some id) none e accounts, k id)
highlights-le (some id) (some g) e accounts h k k' =
    omega (arith, accounts-selected (some id) (some g) e accounts, k' g)

-- Whatever is chosen on the page, clicked in a notification or loaded anew: with accounts and shown folders that
-- differ in their ids, at most one entry of the rail is highlighted.
pub run-highlights :
    (es : List (List Account × Event)) (s : Mailbox) (e : Expanded) (accounts : List Account)
    → ChoiceOf s
    → ((id : ℕ) → occurrences id (account_ids accounts) ≤ 1)
    → ((id : ℕ) → occurrences id (shown_ids e accounts) ≤ 1)
    → highlights
        (rail_view (run es s).ui.selected_account_id (run es s).ui.selected_folder_id e accounts)
      ≤ 1
run-highlights es s e accounts h k k' =
    highlights-le (run es s).ui.selected_account_id (run es s).ui.selected_folder_id e accounts
      (run-IsChoice es s h) k k'
