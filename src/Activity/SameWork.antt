-- ===== src/Activity/SameWork.antt =====
-- sameWork (frontend/src/store/activityStore.ts) against a description of which work is the same.
use inboxone.Common.{
  ℕ, ◌≡◌, refl, sym, ◌↔◌, inl, inr, true, not, Option, none, some, List, arith, ◌=?=◌, ==_refl,
  is_some, Bool-cases, str_eq_iff, contains,
}
use inboxone.Activity.{WorkItem, same_work, same_place, same_folder, includes}

-- Where the server's item may stand for work on a folder: the folder itself, no folder at all, or a
-- list of folders that has it.
pub data Covers (item : WorkItem) (folder : ℕ) : Type 0 where
  folder : item.work.folder_id ≡ some folder → Covers item folder
  everything : item.work.folder_ids ≡ none → item.work.folder_id ≡ none → Covers item folder
  among :
      (ids : List ℕ)
      → item.work.folder_ids ≡ some ids
      → contains folder ids ≡ true
      → Covers item folder

abbrev pub CoversFolder : Option ℕ → WorkItem → Type 0
CoversFolder none item = Unit
CoversFolder (some f) item = Covers item f

abbrev pub FitsAccount : Option ℕ → WorkItem → Type 0
FitsAccount none item = Unit
FitsAccount (some a) item = item.work.account_id ≡ some a

-- The meaning of `sameWork`: the same message, or, for work on no message, an account that does not
-- differ and a folder that is covered.
abbrev pub IsSameWork : Option ℕ → WorkItem → WorkItem → Type 0
IsSameWork (some m) own item = item.work.message_id ≡ some m
IsSameWork none own item =
    FitsAccount own.work.account_id item × CoversFolder own.work.folder_id item

includes-Covers :
    (o : Option (List ℕ)) (f : ℕ) (item : WorkItem)
    → item.work.folder_ids ≡ o
    → includes o f ≡ true
    → Covers item f
includes-Covers none f item e h = cc
includes-Covers (some ids) f item e h = among ids e h

=?=_eq : (a b : Option ℕ) → (a =?= b) ≡ true → a ≡ b
=?=_eq none none h = refl
=?=_eq (some a) (some b) h = ground arith
=?=_eq none (some b) h = cc
=?=_eq (some a) none h = cc

not_some : {A : Type 0} (o : Option A) → not (is_some o) ≡ true → o ≡ none
not_some none h = refl
not_some (some a) h = cc

same_folder_sound :
    (f : Option ℕ) (item : WorkItem) → same_folder f item ≡ true → CoversFolder f item
unfolding same_folder
same_folder_sound none item h = tt
same_folder_sound (some f) item h = elim (Bool-cases (item.work.folder_id =?= some f)) [
  | inl same ↦ folder (=?=_eq _ _ same)
  | inr other ↦ elim (Bool-cases (includes item.work.folder_ids f)) [
    | inl listed ↦ includes-Covers item.work.folder_ids f item refl listed
    | inr missing ↦ everything (not_some _ (ground arith)) (not_some _ (ground arith))
  ]
]

same_folder_complete :
    (f : Option ℕ) (item : WorkItem) → CoversFolder f item → same_folder f item ≡ true
unfolding same_folder
same_folder_complete none item h = refl
same_folder_complete (some f) item (folder e) = rw e (ground (arith, ==_refl f))
same_folder_complete (some f) item (everything e e') = ground arith
same_folder_complete (some f) item (among ids e h) = ground arith

same_place_iff :
    (a : Option ℕ) (own item : WorkItem)
    → own.work.account_id ≡ a
    → (same_place own item ≡ true) ↔ (FitsAccount a item × CoversFolder own.work.folder_id item)
unfolding same_place
same_place_iff none own item e = (
  λ h. (tt, same_folder_sound own.work.folder_id item (ground arith)),
  λ h. rw e (same_folder_complete own.work.folder_id item h.1),
)
same_place_iff (some a) own item e = (
  λ h. (
    sym (=?=_eq (some a) item.work.account_id (ground arith)),
    same_folder_sound own.work.folder_id item (ground arith),
  ),
  λ h. rw (e, h.0) (ground (arith, ==_refl a, same_folder_complete own.work.folder_id item h.1)),
)

same_work_cases :
    (m : Option ℕ) (own item : WorkItem)
    → own.work.message_id ≡ m
    → (same_work own item ≡ true) ↔ ((own.work.kind ≡ item.work.kind) × IsSameWork m own item)
unfolding same_work
same_work_cases none own item e =
    let kinds = str_eq_iff own.work.kind item.work.kind in
    let place = same_place_iff own.work.account_id own item refl in
    (λ h. (ground (arith, kinds), place.0 (ground arith)), λ h. rw (kinds.1 h.0, e) (place.1 h.1))
same_work_cases (some m) own item e =
    let kinds = str_eq_iff own.work.kind item.work.kind in
    (
      λ h. (ground (arith, kinds), sym (=?=_eq (some m) item.work.message_id (ground arith))),
      λ h. rw (kinds.1 h.0, e, h.1) (==_refl m),
    )

-- `sameWork` holds exactly of two items of one kind that are about the same message, or, where the
-- tab's own item names no message, whose accounts do not differ and whose folder the server's item
-- covers.
pub same_work_iff :
    (own item : WorkItem)
    → (same_work own item ≡ true)
      ↔ ((own.work.kind ≡ item.work.kind) × IsSameWork own.work.message_id own item)
same_work_iff own item = same_work_cases own.work.message_id own item refl
