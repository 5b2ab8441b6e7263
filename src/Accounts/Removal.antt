-- ===== src/Accounts/Removal.antt =====
-- An account is removed only when that has been confirmed
-- (`AccountRow` of frontend/src/pages/SettingsAccountsPage.tsx).
use inboxone.Common.{
  ◌≡◌, ◌∙◌, refl, ap, arith, ==_refl, ==_iff, Bool-cases, inl, inr, ℕ, suc, ◌+◌, Bool, true, false,
  List, [], ◌∷◌, ◌==◌, if◌then◌else◌,
}
use inboxone.Types.{Account}
use inboxone.Client.Paths.{Call, delete_account}
use inboxone.Accounts.{
  Row, row_of, press_test, is_testing, test_ends, press_folders, press_remove, cancel_remove,
  confirm, RowEvent, tests, folders, removes, cancels, confirms, test_answers, loads, reload,
  row_step, row_run,
}

-- the requests of a row that remove an account with some id
abbrev pub removals : ℕ → List Call → ℕ
removals id [] = 0
removals id (delete_account other ∷ cs) = (if other == id then 1 else 0) + removals id cs
removals id (_ ∷ cs) = removals id cs

-- the requests of a row that remove any account
abbrev pub all_removals : List Call → ℕ
all_removals [] = 0
all_removals (delete_account _ ∷ cs) = suc (all_removals cs)
all_removals (_ ∷ cs) = all_removals cs

-- how often the dialog is confirmed while it is open, of a dialog that is open or not at first
abbrev pub confirmed : Bool → List RowEvent → ℕ
confirmed open_ [] = 0
confirmed open_ (removes ∷ es) = confirmed true es
confirmed open_ (cancels ∷ es) = confirmed false es
confirmed open_ (confirms ∷ es) = (if open_ then 1 else 0) + confirmed false es
confirmed open_ (_ ∷ es) = confirmed open_ es

-- the requests that a state has made beyond those of an earlier one, of one account
record IsMore (n : ℕ) (r t : Row) : Type 0 where
  same_id : t.account.id ≡ r.account.id
  more_removals : all_removals t.sent ≡ n + all_removals r.sent
  more_of_it : removals r.account.id t.sent ≡ n + removals r.account.id r.sent

IsMore-refl : (r : Row) → IsMore 0 r r
IsMore-refl r = record { same_id = refl; more_removals = omega arith; more_of_it = omega arith }

IsMore-trans : (m n : ℕ) (r t u : Row) → IsMore m r t → IsMore n t u → IsMore (m + n) r u
IsMore-trans m n r t u h k = record {
  same_id = k.same_id ∙ h.same_id;
  more_removals = omega arith;
  more_of_it =
      omega (arith, ap (λ i. removals i u.sent) h.same_id, ap (λ i. removals i t.sent) h.same_id);
}

-- the part of `confirmed` that one event accounts for, and whether the dialog is open then
now : Bool → RowEvent → ℕ
now open_ confirms = if open_ then 1 else 0
now open_ _ = 0

open_after : Bool → RowEvent → Bool
open_after open_ removes = true
open_after open_ cancels = false
open_after open_ confirms = false
open_after open_ _ = open_

confirmed-cons :
    (b : Bool) (e : RowEvent) (es : List RowEvent)
    → confirmed b (e ∷ es) ≡ now b e + confirmed (open_after b e) es
unfolding now open_after
confirmed-cons b tests es = omega arith
confirmed-cons b folders es = omega arith
confirmed-cons b removes es = omega arith
confirmed-cons b cancels es = omega arith
confirmed-cons b confirms es = refl
confirmed-cons b (test_answers a) es = omega arith
confirmed-cons b (loads a) es = omega arith

confirm-IsMore : (b : Bool) (r : Row) → r.confirm_remove ≡ b → IsMore (now b confirms) r (confirm r)
unfolding confirm now
confirm-IsMore true r h = simp h (record {
  same_id = refl;
  more_removals = omega arith;
  more_of_it = ground (arith, ==_refl r.account.id);
})
confirm-IsMore false r h = simp h (IsMore-refl r)

kept : (r t : Row) → t.account.id ≡ r.account.id → t.sent ≡ r.sent → IsMore 0 r t
kept r t id sent = record {
  same_id = id;
  more_removals = omega (arith, ap all_removals sent);
  more_of_it = omega (arith, ap (removals r.account.id) sent);
}

confirm_closes : (r : Row) → (confirm r).confirm_remove ≡ false
unfolding confirm
confirm_closes r = ground arith

step-IsMore :
    (e : RowEvent) (r : Row)
    → IsMore (now r.confirm_remove e) r (row_step e r)
      × ((row_step e r).confirm_remove ≡ open_after r.confirm_remove e)
unfolding row_step press_test test_ends press_folders press_remove cancel_remove reload now
    open_after
step-IsMore tests r =
    (record { same_id = refl; more_removals = omega arith; more_of_it = omega arith }, refl)
step-IsMore folders r = (kept r _ refl refl, refl)
step-IsMore removes r = (kept r _ refl refl, refl)
step-IsMore cancels r = (kept r _ refl refl, refl)
step-IsMore confirms r = (confirm-IsMore r.confirm_remove r refl, confirm_closes r)
step-IsMore (test_answers a) r = elim (Bool-cases (is_testing r.test)) [
  | inl busy ↦ simp busy (kept r _ refl refl, refl)
  | inr other ↦ simp other (IsMore-refl r, refl)
]
step-IsMore (loads a) r = elim (Bool-cases (a.id == r.account.id)) [
  | inl same ↦ simp same (kept r _ ((==_iff a.id r.account.id).0 same) refl, refl)
  | inr other ↦ simp other (IsMore-refl r, refl)
]

run-IsMore :
    (es : List RowEvent) (r : Row) → IsMore (confirmed r.confirm_remove es) r (row_run es r)
unfolding row_run
run-IsMore [] r = IsMore-refl r
run-IsMore (e ∷ es) r =
    let (more, after) = step-IsMore e r in
    let rest = run-IsMore es (row_step e r) in
    rw (confirmed-cons r.confirm_remove e es) (
      IsMore-trans (now r.confirm_remove e) (confirmed (open_after r.confirm_remove e) es) r
        (row_step e r) (row_run es (row_step e r)) more (rw (← after) rest))

-- A row asks to remove an account exactly as often as that has been confirmed in a dialog that was open, and
-- it is always the account of the row, however it has been loaded anew meanwhile.
pub row_run-removals :
    (es : List RowEvent) (account : Account)
    → (all_removals (row_run es (row_of account)).sent ≡ confirmed false es)
      × (removals account.id (row_run es (row_of account)).sent ≡ confirmed false es)
row_run-removals es account =
    let more = run-IsMore es (row_of account) in
    (omega (arith, more.more_removals), omega (arith, more.more_of_it))
