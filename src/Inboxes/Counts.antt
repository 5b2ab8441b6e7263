-- ===== src/Inboxes/Counts.antt =====
-- Unread counts are sums over the inbox folders (frontend/src/api/inboxes.ts).
use inboxone.Common.{
  ℕ, ◌+◌, ◌≡◌, refl, ◌∙◌, ◌↔◌, none, List, [], ◌∷◌, ◌++◌, flat_map, arith, if◌then◌else◌, filter,
}
use inboxone.Types.{Folder, Account}
use inboxone.Inboxes.{inbox_folders, sum_from, inbox_unread_count, total_unread, unread_badge}

abbrev pub sum {ℓ} : {A : Type ℓ} → (A → ℕ) → List A → ℕ
sum f [] = 0
sum f (x ∷ xs) = f x + sum f xs

pub sum_from-eq {ℓ} :
    {A : Type ℓ} (f : A → ℕ) (n : ℕ) (xs : List A) → sum_from f n xs ≡ n + sum f xs
sum_from-eq f n [] = omega arith
sum_from-eq f n (x ∷ xs) = sum_from-eq f (n + f x) xs ∙ omega arith

sum-append {ℓ} : {A : Type ℓ} (f : A → ℕ) (xs ys : List A) → sum f (xs ++ ys) ≡ sum f xs + sum f ys
sum-append f [] ys = omega arith
sum-append f (x ∷ xs) ys = omega (arith, sum-append f xs ys)

-- the unread mail of a folder, as far as the folder is an inbox
abbrev pub inbox_unread : Folder → ℕ
inbox_unread folder = if folder.is_inbox then folder.unread_count else 0

sum-filter :
    (fs : List Folder)
    → sum (λ f. f.unread_count) (filter (λ f. f.is_inbox) fs) ≡ sum inbox_unread fs
sum-filter [] = refl
sum-filter (f ∷ fs) = ground (arith, sum-filter fs)

count-eq : (a : Account) → inbox_unread_count a ≡ sum inbox_unread a.folders
unfolding inbox_unread_count
count-eq a =
    sum_from-eq (λ (f : Folder). f.unread_count) 0 (filter (λ f. f.is_inbox) a.folders)
    ∙ omega (arith, sum-filter a.folders)

sum-flat_map :
    (rows : List Account)
    → sum inbox_unread_count rows ≡ sum (λ f. f.unread_count) (flat_map inbox_folders rows)
unfolding inbox_unread_count
sum-flat_map [] = refl
sum-flat_map (a ∷ rows) = omega (
  arith,
  sum_from-eq (λ (f : Folder). f.unread_count) 0 (inbox_folders a),
  sum-append (λ (f : Folder). f.unread_count) (inbox_folders a) (flat_map inbox_folders rows),
  sum-flat_map rows,
)

-- The total that the rail and the tab show is the sum of the unread counts of exactly the inbox folders
-- of all accounts, which are the folders that the new-mail watcher observes.
pub total_unread-eq :
    (accounts : List Account)
    → total_unread accounts ≡ sum_from (λ f. f.unread_count) 0 (flat_map inbox_folders accounts)
unfolding total_unread
total_unread-eq accounts = omega (
  arith,
  sum_from-eq inbox_unread_count 0 accounts,
  sum_from-eq (λ (f : Folder). f.unread_count) 0 (flat_map inbox_folders accounts),
  sum-flat_map accounts,
)

-- An account's badge is hidden exactly when no folder of the account that is an inbox has unread mail.
pub unread_badge-none_iff :
    (account : Account)
    → (unread_badge (inbox_unread_count account) ≡ none) ↔ (sum inbox_unread account.folders ≡ 0)
unfolding unread_badge
unread_badge-none_iff account =
    let e = count-eq account in ((λ h. ground arith), (λ h. ground arith))
