-- ===== src/Activity/Visible.antt =====
-- visibleWork (frontend/src/store/activityStore.ts): the order of what the status bar shows, and which
-- phases of the server it hides.
use mathlib.Core.List.{Perm, reverse_aux, append-nil, reverse_perm, perm_middle}
use mathlib.Core.List.Perm
use inboxone.Common.{
  ℕ, ◌≤◌, ◌≡◌, refl, ◌∙◌, ◌⊎◌, ◌↔◌, inl, inr, Bool, true, not, List, [], ◌∷◌, ◌++◌, reverse, arith,
  ltb, ◌==◌, filter, any, All, Bool-cases,
}
use inboxone.Activity.SameWork.{IsSameWork, same_work_iff}
use inboxone.Activity.{WorkItem, rank, insert, sort, visible_work, same_work}

abbrev pub has_rank : ℕ → WorkItem → Bool
has_rank p item = rank item == p

-- no item stands above one of a higher rank
abbrev pub IsDescending : List WorkItem → Type 0
IsDescending [] = Unit
IsDescending (x ∷ xs) = All (λ y. rank y ≤ rank x) xs × IsDescending xs

filter-insert :
    (p : ℕ) (a : WorkItem) (xs : List WorkItem)
    → filter (has_rank p) (insert a xs) ≡ filter (has_rank p) (a ∷ xs)
unfolding insert
filter-insert p a [] = refl
filter-insert p a (b ∷ xs) = ground (arith, filter-insert p a xs)

filter-sort : (p : ℕ) (xs : List WorkItem) → filter (has_rank p) (sort xs) ≡ filter (has_rank p) xs
unfolding sort
filter-sort p [] = refl
filter-sort p (a ∷ xs) = ground (arith, filter-sort p xs, filter-insert p a (sort xs))

perm-insert : (a : WorkItem) (xs : List WorkItem) → Perm (insert a xs) (a ∷ xs)
unfolding insert
perm-insert a [] = Perm.refl _
perm-insert a (b ∷ xs) = elim (Bool-cases (ltb (rank a) (rank b))) [
  | inl lower ↦ rw lower (Perm.trans (Perm.cons b (perm-insert a xs)) (Perm.swap a b xs))
  | inr other ↦ rw other (Perm.refl _)
]

perm-sort : (xs : List WorkItem) → Perm (sort xs) xs
unfolding sort
perm-sort [] = Perm.refl _
perm-sort (a ∷ xs) = Perm.trans (perm-insert a (sort xs)) (Perm.cons a (perm-sort xs))

All-insert {κ} :
    (P : WorkItem → Type κ) (a : WorkItem) (xs : List WorkItem)
    → P a
    → All P xs
    → All P (insert a xs)
unfolding insert
All-insert P a [] h hs = (h, tt)
All-insert P a (b ∷ xs) h hs = ground (arith, All-insert P a xs h hs.1)

All-below :
    (a b : WorkItem) (xs : List WorkItem)
    → rank b ≤ rank a
    → All (λ y. rank y ≤ rank b) xs
    → All (λ y. rank y ≤ rank a) xs
All-below a b [] h hs = tt
All-below a b (x ∷ xs) h hs = (omega arith, All-below a b xs h hs.1)

insert-IsDescending :
    (a : WorkItem) (xs : List WorkItem) → IsDescending xs → IsDescending (insert a xs)
unfolding insert
insert-IsDescending a [] h = (tt, tt)
insert-IsDescending a (b ∷ xs) h = elim (Bool-cases (ltb (rank a) (rank b))) [
  | inl lower ↦
      rw lower
        (All-insert (λ y. rank y ≤ rank b) a xs (ground arith) h.0, insert-IsDescending a xs h.1)
  | inr other ↦ rw other ((ground arith, All-below a b xs (ground arith) h.0), h)
]

sort-IsDescending : (xs : List WorkItem) → IsDescending (sort xs)
unfolding sort
sort-IsDescending [] = tt
sort-IsDescending (a ∷ xs) = insert-IsDescending a (sort xs) (sort-IsDescending xs)

filter-reverse_aux :
    (p : WorkItem → Bool) (xs ys : List WorkItem)
    → filter p (reverse_aux xs ys) ≡ reverse_aux (filter p xs) (filter p ys)
filter-reverse_aux p [] ys = refl
filter-reverse_aux p (x ∷ xs) ys = ground (arith, filter-reverse_aux p xs (x ∷ ys))

filter-reverse :
    (p : WorkItem → Bool) (xs : List WorkItem) → filter p (reverse xs) ≡ reverse (filter p xs)
filter-reverse p xs = filter-reverse_aux p xs []

-- The work of this tab comes first and all of it is shown, in descending rank; of one rank, what was
-- begun last stands first.
pub visible_work-local :
    (local : List WorkItem)
    → Perm (visible_work local []) local
      × IsDescending (visible_work local [])
      × ((p : ℕ)
          → filter (has_rank p) (visible_work local []) ≡ reverse (filter (has_rank p) local))
unfolding visible_work
visible_work-local local = rw (append-nil (sort (reverse local))) (
  Perm.trans (perm-sort (reverse local)) (reverse_perm local),
  sort-IsDescending (reverse local),
  λ p. filter-sort p (reverse local) ∙ filter-reverse (has_rank p) local,
)

-- This tab has an item of the same kind for the same message, or for work that the server's covers.
abbrev pub IsOwn : List WorkItem → WorkItem → Type 0
IsOwn [] item = ⊥
IsOwn (own ∷ local) item =
    ((own.work.kind ≡ item.work.kind) × IsSameWork own.work.message_id own item) ⊎ IsOwn local item

any_in :
    (own : WorkItem) (local : List WorkItem) (item : WorkItem)
    → ((own.work.kind ≡ item.work.kind) × IsSameWork own.work.message_id own item
        → same_work own item ≡ true)
    → (IsOwn local item → any (λ a. same_work a item) local ≡ true)
    → IsOwn (own ∷ local) item
    → any (λ a. same_work a item) (own ∷ local) ≡ true
any_in own local item f g (inl here) = let h = f here in ground arith
any_in own local item f g (inr later) = let h = g later in ground arith

any-IsOwn :
    (local : List WorkItem) (item : WorkItem)
    → (any (λ own. same_work own item) local ≡ true) ↔ IsOwn local item
any-IsOwn [] item = ((λ h. cc), λ h. absurd h)
any-IsOwn (own ∷ local) item =
    let ih = any-IsOwn local item in
    let same = same_work_iff own item in
    (
      λ h. elim (Bool-cases (same_work own item)) [
        | inl equal ↦ inl (same.0 equal)
        | inr other ↦ inr (ih.0 (ground arith))
      ],
      any_in own local item same.1 ih.1,
    )

filter_known :
    (local server : List WorkItem)
    → All
        (λ item. ¬ IsOwn local item)
        (filter (λ item. not (any (λ own. same_work own item) local)) server)
filter_known local [] = tt
filter_known local (item ∷ server) = ground (arith, any-IsOwn local item, filter_known local server)

-- the server's items that `visible_work` leaves out
abbrev hidden : List WorkItem → List WorkItem → List WorkItem
hidden local = filter (λ item. any (λ own. same_work own item) local)

hidden-IsOwn : (local server : List WorkItem) → All (IsOwn local) (hidden local server)
hidden-IsOwn local [] = tt
hidden-IsOwn local (item ∷ server) = ground (arith, any-IsOwn local item, hidden-IsOwn local server)

partition-perm :
    (p : WorkItem → Bool) (xs : List WorkItem) → Perm (filter (λ x. not (p x)) xs ++ filter p xs) xs
partition-perm p [] = Perm.refl []
partition-perm p (x ∷ xs) = elim (Bool-cases (p x)) [
  | inl found ↦ rw found (
      Perm.trans (perm_middle (filter (λ y. not (p y)) xs) (filter p xs))
        (Perm.cons x (partition-perm p xs)))
  | inr other ↦ rw other (Perm.cons x (partition-perm p xs))
]

-- After this tab's own work come the items of the server, each of them unless this tab has an item for the same
-- work, which is one of the same kind that is about the same message, or, where this tab's names none, whose
-- account does not differ and whose folder the server's item covers: what is added, with what is left out, makes
-- up the server's list, nothing that is added is this tab's own work, and all that is left out is.
pub visible_work-server :
    (local server : List WorkItem)
    → (added : List WorkItem) × (left_out : List WorkItem) × (visible_work local server
        ≡ visible_work local [] ++ added)
      × Perm (added ++ left_out) server
      × All (λ item. ¬ IsOwn local item) added
      × All (IsOwn local) left_out
unfolding visible_work
visible_work-server local server = (
  filter (λ item. not (any (λ own. same_work own item) local)) server,
  hidden local server,
  rw (append-nil (sort (reverse local))),
  partition-perm (λ item. any (λ own. same_work own item) local) server,
  filter_known local server,
  hidden-IsOwn local server,
)
