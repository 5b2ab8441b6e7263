-- ===== src/Client/Params.antt =====
-- The parameters of a query (`buildQuery` of frontend/src/api/useMessages.ts, and their reading in
-- frontend/src/api/client.ts).
use mathlib.Core.List
use inboxone.Common.{
  ℕ, zero, suc, ◌≡◌, refl, sym, ap, ◌∙◌, String, Bool, true, false, Option, none, some, List, [],
  ◌∷◌, ◌++◌, if◌then◌else◌, is_some, filled?, str_eq, str_eq_iff,
}
use inboxone.Common.Decimal.{number-show}
use inboxone.Client.{param, has_param, nonzero, numeral, id_param}
use inboxone.Client.Paths.{MessageFilters, id_entry, text_entry, build_query}

pub id_param-id_entry :
    (name : String) (id : Option ℕ) (params : List (String × String))
    → param name params ≡ none
    → id_param name (id_entry name id ++ params) ≡ nonzero id
unfolding id_param numeral param id_entry
id_param-id_entry name none params h = rw h
id_param-id_entry name (some zero) params h = rw h
id_param-id_entry name (some (suc n)) params h =
    rw ((str_eq_iff name name).1 refl, number-show (suc n))

param-id_entry_other :
    (name other : String) (id : Option ℕ) (params : List (String × String))
    → str_eq other name ≡ false
    → param name (id_entry other id ++ params) ≡ param name params
unfolding param id_entry
param-id_entry_other name other none params h = refl
param-id_entry_other name other (some zero) params h = refl
param-id_entry_other name other (some (suc n)) params h = rw h

pub id_param-id_entry_other :
    (name other : String) (id : Option ℕ) (params : List (String × String))
    → str_eq other name ≡ false
    → id_param name (id_entry other id ++ params) ≡ id_param name params
unfolding id_param
id_param-id_entry_other name other id params h =
    ap (λ o. nonzero (numeral o)) (param-id_entry_other name other id params h)

pub id_param-id_entry_last :
    (name : String) (id : Option ℕ) → id_param name (id_entry name id) ≡ nonzero id
unfolding param
id_param-id_entry_last name id =
    ap (id_param name) (sym (List.append-nil (id_entry name id)))
    ∙ id_param-id_entry name id [] refl

pub param-id_entry-none :
    (name other : String) (id : Option ℕ)
    → str_eq other name ≡ false
    → param name (id_entry other id) ≡ none
unfolding param
param-id_entry-none name other id h =
    ap (param name) (sym (List.append-nil (id_entry other id)))
    ∙ param-id_entry_other name other id [] h

param-text_entry_other :
    (name other : String) (text : Option String) (params : List (String × String))
    → str_eq other name ≡ false
    → param name (text_entry other text ++ params) ≡ param name params
unfolding param text_entry
param-text_entry_other name other none params h = refl
param-text_entry_other name other (some String.[]) params h = refl
param-text_entry_other name other (some (String.◌∷◌ c s)) params h = rw h

has_param-text_entry :
    (name : String) (text : Option String)
    → is_some (param name (text_entry name text)) ≡ filled? text
unfolding param text_entry
has_param-text_entry name none = refl
has_param-text_entry name (some String.[]) = refl
has_param-text_entry name (some (String.◌∷◌ c s)) = rw ((str_eq_iff name name).1 refl)

param-text_entry-none :
    (name other : String) (text : Option String)
    → str_eq other name ≡ false
    → param name (text_entry other text) ≡ none
unfolding param text_entry
param-text_entry-none name other none h = refl
param-text_entry-none name other (some String.[]) h = refl
param-text_entry-none name other (some (String.◌∷◌ c s)) h = rw h

abbrev flag_entry : Bool → List (String × String)
flag_entry unread_only = if unread_only then ("unread_only", "true") ∷ [] else []

param-flag_entry_other :
    (name : String) (flag : Bool) (params : List (String × String))
    → str_eq "unread_only" name ≡ false
    → param name (flag_entry flag ++ params) ≡ param name params
unfolding param
param-flag_entry_other name true params h = rw h
param-flag_entry_other name false params h = refl

module _ (filters : MessageFilters) (cursor : Option String) where
  abbrev after_ids : List (String × String)
  after_ids =
      flag_entry filters.unread_only
      ++ (text_entry "search" filters.search ++ text_entry "cursor" cursor)

  param-after_ids :
      (name : String)
      → str_eq "unread_only" name ≡ false
      → str_eq "search" name ≡ false
      → param name after_ids ≡ param name (text_entry "cursor" cursor)
  param-after_ids name h k =
      param-flag_entry_other name filters.unread_only _ h
      ∙ param-text_entry_other name "search" filters.search _ k

  param-after_ids-none :
      (name : String)
      → str_eq "unread_only" name ≡ false
      → str_eq "search" name ≡ false
      → str_eq "cursor" name ≡ false
      → param name after_ids ≡ none
  param-after_ids-none name h k l =
      param-after_ids name h k ∙ param-text_entry-none name "cursor" cursor l

  build_query-eq :
      build_query filters cursor
      ≡ id_entry "account_id" filters.account_id
        ++ (id_entry "folder_id" filters.folder_id ++ after_ids)
  unfolding build_query
  build_query-eq = refl

  param-build_query :
      (name : String)
      → str_eq "account_id" name ≡ false
      → str_eq "folder_id" name ≡ false
      → param name (build_query filters cursor) ≡ param name after_ids
  param-build_query name h k =
      ap (param name) build_query-eq
      ∙ param-id_entry_other name "account_id" filters.account_id _ h
      ∙ param-id_entry_other name "folder_id" filters.folder_id after_ids k

  pub list_account : id_param "account_id" (build_query filters cursor) ≡ nonzero filters.account_id
  list_account =
      ap (id_param "account_id") build_query-eq
      ∙ id_param-id_entry "account_id" filters.account_id _ (
          param-id_entry_other "account_id" "folder_id" filters.folder_id after_ids refl
          ∙ param-after_ids-none "account_id" refl refl refl)

  pub list_folder : id_param "folder_id" (build_query filters cursor) ≡ nonzero filters.folder_id
  list_folder =
      ap (id_param "folder_id") build_query-eq
      ∙ id_param-id_entry_other "folder_id" "account_id" filters.account_id _ refl
      ∙ id_param-id_entry "folder_id" filters.folder_id after_ids
          (param-after_ids-none "folder_id" refl refl refl)

  pub list_notifications : has_param "notifications_only" (build_query filters cursor) ≡ false
  unfolding has_param
  list_notifications = ap is_some (
      param-build_query "notifications_only" refl refl
      ∙ param-after_ids-none "notifications_only" refl refl refl)

  pub list_cursor : has_param "cursor" (build_query filters cursor) ≡ filled? cursor
  unfolding has_param
  list_cursor =
      ap is_some (param-build_query "cursor" refl refl ∙ param-after_ids "cursor" refl refl)
      ∙ has_param-text_entry "cursor" cursor
