-- ===== src/Accounts/Rows.antt =====
-- What a row shows of the test of its account (`AccountRow` of frontend/src/pages/SettingsAccountsPage.tsx).
use inboxone.Common.{
  ◌≡◌, refl, arith, =?=_refl, Bool, true, false, Option, some, List, [], ◌∷◌, any,
}
use inboxone.Types.{TestConnectionResult}
use inboxone.Accounts.{
  TestState, testing, Row, press_test, is_testing, answer_test, test_ends, press_folders,
  press_remove, cancel_remove, confirm, RowEvent, tests, folders, removes, cancels, confirms,
  test_answers, loads, reload, row_step, row_run, test_lines, row_view,
}

abbrev pub is_answer : RowEvent → Bool
is_answer (test_answers _) = true
is_answer _ = false

abbrev pub is_test : RowEvent → Bool
is_test tests = true
is_test _ = false

-- the last test is of the row's account, and stands so
record IsTest (state : TestState) (r : Row) : Type 0 where
  of_account : r.test_variables ≡ some r.account.id
  stands : r.test ≡ state

lines-IsTest :
    (state : TestState) (r : Row) → IsTest state r → (row_view r).lines ≡ test_lines state
unfolding row_view
lines-IsTest state r h = simp (h.of_account, =?=_refl (some r.account.id), h.stands)

-- an event that neither starts nor answers a test
step-IsTest :
    (state : TestState) (e : RowEvent) (r : Row)
    → is_test e ≡ false
    → is_answer e ≡ false
    → IsTest state r
    → IsTest state (row_step e r)
unfolding row_step press_folders press_remove cancel_remove confirm reload
step-IsTest state tests r h k t = cc
step-IsTest state folders r h k t = record { of_account = t.of_account; stands = t.stands }
step-IsTest state removes r h k t = record { of_account = t.of_account; stands = t.stands }
step-IsTest state cancels r h k t = record { of_account = t.of_account; stands = t.stands }
step-IsTest state confirms r h k t = ground arith
step-IsTest state (test_answers a) r h k t = cc
step-IsTest state (loads a) r h k t = ground arith

run-IsTest :
    (state : TestState) (es : List RowEvent) (r : Row)
    → any is_test es ≡ false
    → any is_answer es ≡ false
    → IsTest state r
    → IsTest state (row_run es r)
unfolding row_run
run-IsTest state [] r h k t = t
run-IsTest state (e ∷ es) r h k t =
    run-IsTest state es (row_step e r) (ground arith) (ground arith)
      (step-IsTest state e r (ground arith) (ground arith) t)

press-IsTest : (r : Row) → IsTest testing (row_step tests r)
unfolding row_step press_test
press-IsTest r = record { of_account = refl; stands = refl }

answer-IsTest :
    (answer : Option TestConnectionResult) (r : Row)
    → IsTest testing r
    → IsTest (answer_test answer) (row_step (test_answers answer) r)
unfolding row_step test_ends is_testing
answer-IsTest answer r h = simp h.stands (record { of_account = h.of_account; stands = refl })

-- From the press of a row's test button no result is shown, also none of an earlier test, until that test is
-- answered; then its own result is, and stays, whatever else is done to the row and however its account is
-- loaded anew, until the next press.
pub row_run-lines :
    (es fs : List RowEvent) (answer : Option TestConnectionResult) (r : Row)
    → any is_test es ≡ false
    → any is_answer es ≡ false
    → any is_test fs ≡ false
    → any is_answer fs ≡ false
    → ((row_view (row_run es (row_step tests r))).lines ≡ [])
      × ((row_view
            (row_run fs (row_step (test_answers answer) (row_run es (row_step tests r))))).lines
          ≡ test_lines (answer_test answer))
unfolding test_lines
row_run-lines es fs answer r h k h' k' =
    let waiting = run-IsTest testing es _ h k (press-IsTest r) in
    let answered = answer-IsTest answer _ waiting in
    (
      lines-IsTest testing _ waiting,
      lines-IsTest (answer_test answer) _ (run-IsTest (answer_test answer) fs _ h' k' answered),
    )
