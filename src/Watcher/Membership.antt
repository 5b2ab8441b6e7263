-- ===== src/Watcher/Membership.antt =====
-- The membership text and the folders that are read back from it
-- (frontend/src/components/NewMailWatcher.tsx).
use inboxone.Common.{
  ℕ, ◌≤◌, ◌≡◌, refl, ◌∙◌, inl, inr, Bool, ◌&&◌, ◌||◌, some, List, [], ◌∷◌, ◌++◌, map, flat_map,
  arith, leb, ◌==◌, contains, any, filter, All, Bool-cases,
}
use inboxone.Common.Split.{numbers, numbers-join}
use inboxone.Types.{Folder, Account}
use inboxone.Inboxes.{inbox_folders}
use inboxone.Watcher.{insert, sort, membership}

contains-insert : (a b : ℕ) (xs : List ℕ) → contains a (insert b xs) ≡ (b == a || contains a xs)
contains-insert a b [] = refl
contains-insert a b (x ∷ xs) = ground (arith, contains-insert a b xs)

contains-sort : (a : ℕ) (xs : List ℕ) → contains a (sort xs) ≡ contains a xs
unfolding sort
contains-sort a [] = refl
contains-sort a (x ∷ xs) = ground (arith, contains-insert a x (sort xs), contains-sort a xs)

abbrev pub IsAscending : List ℕ → Type 0
IsAscending [] = Unit
IsAscending (x ∷ xs) = All (λ y. x ≤ y) xs × IsAscending xs

All-insert : (n a : ℕ) (xs : List ℕ) → n ≤ a → All (λ y. n ≤ y) xs → All (λ y. n ≤ y) (insert a xs)
All-insert n a [] h hs = (h, tt)
All-insert n a (x ∷ xs) h hs = ground (arith, All-insert n a xs h hs.1)

All-le : (n a : ℕ) (xs : List ℕ) → n ≤ a → All (λ y. a ≤ y) xs → All (λ y. n ≤ y) xs
All-le n a [] h hs = tt
All-le n a (x ∷ xs) h hs = (omega arith, All-le n a xs h hs.1)

insert-IsAscending : (a : ℕ) (xs : List ℕ) → IsAscending xs → IsAscending (insert a xs)
insert-IsAscending a [] h = (tt, tt)
insert-IsAscending a (x ∷ xs) h = elim (Bool-cases (leb a x)) [
  | inl low ↦ rw low ((ground arith, All-le a x xs (ground arith) h.0), h)
  | inr high ↦ rw high (All-insert x a xs (ground arith) h.0, insert-IsAscending a xs h.1)
]

pub sort-IsAscending : (xs : List ℕ) → IsAscending (sort xs)
unfolding sort
sort-IsAscending [] = tt
sort-IsAscending (x ∷ xs) = insert-IsAscending x (sort xs) (sort-IsAscending xs)

-- a folder with this id is an inbox of an account
abbrev pub is_inbox_id : ℕ → List Account → Bool
is_inbox_id id accounts = any (λ a. any (λ f. f.is_inbox && f.id == id) a.folders) accounts

contains-ids :
    (id : ℕ) (fs : List Folder)
    → contains id (map (λ f. f.id) (filter (λ f. f.is_inbox) fs))
      ≡ any (λ f. f.is_inbox && f.id == id) fs
contains-ids id [] = refl
contains-ids id (f ∷ fs) = ground (arith, contains-ids id fs)

contains-map-append :
    (id : ℕ) (xs ys : List Folder)
    → contains id (map (λ f. f.id) (xs ++ ys))
      ≡ (contains id (map (λ f. f.id) xs) || contains id (map (λ f. f.id) ys))
contains-map-append id [] ys = refl
contains-map-append id (x ∷ xs) ys = ground (arith, contains-map-append id xs ys)

contains-all_ids :
    (id : ℕ) (accounts : List Account)
    → contains id (map (λ f. f.id) (flat_map inbox_folders accounts)) ≡ is_inbox_id id accounts
unfolding inbox_folders
contains-all_ids id [] = refl
contains-all_ids id (a ∷ accounts) =
    contains-map-append id (inbox_folders a) (flat_map inbox_folders accounts)
    ∙ ground (arith, contains-ids id a.folders, contains-all_ids id accounts)

-- The text of the membership lists the ids in ascending order, and what is read back from it are exactly
-- the ids of the folders that are inboxes.
pub numbers-membership :
    (accounts : List Account)
    → IsAscending (numbers (membership (some accounts)))
      × ((id : ℕ) → contains id (numbers (membership (some accounts))) ≡ is_inbox_id id accounts)
unfolding membership
numbers-membership accounts =
    let back = numbers-join (sort (map (λ (f : Folder). f.id) (flat_map inbox_folders accounts))) in
    rw back (
      sort-IsAscending _,
      λ id.
          contains-sort id (map (λ (f : Folder). f.id) (flat_map inbox_folders accounts))
          ∙ contains-all_ids id accounts,
    )
