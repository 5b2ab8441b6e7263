-- ===== src/Watcher/Inventory.antt =====
-- The membership text forgets in which order accounts and folders come, and nothing else
-- (frontend/src/components/NewMailWatcher.tsx).
use mathlib.Core.HLevel.{hedberg}
use mathlib.Core.Quot
use mathlib.Core.Quot.{Quot, Quot-set}
use inboxone.Common.{
  suc, str_eq, str_eq_iff, ℕ, ◌≤◌, ◌<◌, ◌≡◌, refl, sym, ap, ◌∙◌, arith, String, some, List, [], ◌∷◌,
  map, flat_map, ◌==◌, ==_refl, ==_iff, if◌then◌else◌, All, Bool-cases, inl, inr, ◌↔◌, join,
}
use inboxone.Common.Decimal.{show}
use inboxone.Common.Split.{numbers, numbers-join}
use inboxone.Types.{Folder, Account}
use inboxone.Inboxes.{inbox_folders}
use inboxone.Watcher.{insert, sort, membership}
use inboxone.Watcher.Membership.{IsAscending, sort-IsAscending}

-- how often an id occurs
abbrev pub count : ℕ → List ℕ → ℕ
count a [] = 0
count a (x ∷ xs) = let rest = count a xs in if x == a then suc rest else rest

count-insert : (a b : ℕ) (xs : List ℕ) → count a (insert b xs) ≡ count a (b ∷ xs)
count-insert a b [] = refl
count-insert a b (x ∷ xs) = ground (arith, count-insert a b xs)

count-sort : (a : ℕ) (xs : List ℕ) → count a (sort xs) ≡ count a xs
unfolding sort
count-sort a [] = refl
count-sort a (x ∷ xs) = ground (arith, count-insert a x (sort xs), count-sort a xs)

-- an id that occurs has what all have
count-All : (n a : ℕ) (xs : List ℕ) → All (λ y. n ≤ y) xs → 0 < count a xs → n ≤ a
count-All n a [] h k = absurd (omega (arith, k))
count-All n a (x ∷ xs) h k = ground (arith, ==_iff x a, h.0, count-All n a xs h.1)

-- two lists hold the same ids, each as often
abbrev pub AreAlike : List ℕ → List ℕ → Type 0
AreAlike xs ys = (a : ℕ) → count a xs ≡ count a ys

head-le : (x y : ℕ) (xs ys : List ℕ) → IsAscending (x ∷ xs) → AreAlike (x ∷ xs) (y ∷ ys) → x ≤ y
head-le x y xs ys up same =
    let own : 0 < count y (y ∷ ys) = ground (arith, ==_refl y) in
    let there : 0 < count y (x ∷ xs) = omega (arith, own, same y) in
    elim (Bool-cases (x == y)) [
      | inl equal ↦ omega (arith, (==_iff x y).0 equal)
      | inr other ↦ count-All x y xs up.0 (ground (arith, there, other))
    ]

-- ascending lists that hold the same ids are the same
ascending-eq : (xs ys : List ℕ) → IsAscending xs → IsAscending ys → AreAlike xs ys → xs ≡ ys
ascending-eq [] [] up up' same = refl
ascending-eq [] (y ∷ ys) up up' same =
    let none_ = same y in let own = ==_refl y in absurd (ground (arith, none_, own))
ascending-eq (x ∷ xs) [] up up' same =
    let none_ = same x in let own = ==_refl x in absurd (ground (arith, none_, own))
ascending-eq (x ∷ xs) (y ∷ ys) up up' same =
    let low = head-le x y xs ys up same in
    let high = head-le y x ys xs up' (λ a. sym (same a)) in
    let equal : x ≡ y = omega (arith, low, high) in
    let rest : AreAlike xs ys =
      λ a. let here = ap (λ z. count a (z ∷ xs)) (sym equal) ∙ same a in ground (arith, here) in
    ap (λ z. z ∷ xs) equal ∙ ap (λ zs. y ∷ zs) (ascending-eq xs ys up.1 up'.1 rest)

-- the ids of the folders that are inboxes
abbrev pub inbox_ids : List Account → List ℕ
inbox_ids accounts = map (λ (f : Folder). f.id) (flat_map inbox_folders accounts)

-- The membership text is the same for two lists of accounts exactly if they have the same inbox folders, in whatever order.
pub membership_iff :
    (accounts others : List Account)
    → (membership (some accounts) ≡ membership (some others))
      ↔ AreAlike (inbox_ids accounts) (inbox_ids others)
unfolding membership
membership_iff accounts others =
    let xs = inbox_ids accounts in
    let ys = inbox_ids others in
    (
      λ e a.
          let sorted : sort xs ≡ sort ys =
            sym (numbers-join (sort xs)) ∙ ap numbers e ∙ numbers-join (sort ys) in
          sym (count-sort a xs) ∙ ap (count a) sorted ∙ count-sort a ys,
      λ same.
          let sorted : sort xs ≡ sort ys =
            ascending-eq (sort xs) (sort ys) (sort-IsAscending xs) (sort-IsAscending ys)
              (λ a. count-sort a xs ∙ same a ∙ sym (count-sort a ys)) in
          ap (λ ns. join "," (map show ns)) sorted,
    )

String_set : IsSet String
String_set = hedberg (λ s t. elim (Bool-cases (str_eq s t)) [
  | inl same ↦ yes ((str_eq_iff s t).0 same)
  | inr other ↦ no (λ p. cc (other, (str_eq_iff s t).1 p))
])

-- Accounts as the watcher sees them: those with the same inbox folders are the same.
abbrev pub HaveSameInboxes : List Account → List Account → Type 0
HaveSameInboxes accounts others = AreAlike (inbox_ids accounts) (inbox_ids others)

abbrev pub Inventory : Type 0
Inventory = Quot HaveSameInboxes

pub text_of : Inventory → String
text_of =
    Quot.lift String_set (λ accounts. membership (some accounts))
      (λ accounts others same. (membership_iff accounts others).1 same)

-- The membership text is a text of the inbox folders alone, and a different one for different folders.
pub text_of-injective : (p q : Inventory) → text_of p ≡ text_of q → p ≡ q
unfolding text_of
text_of-injective =
    Quot.ind (λ p. hlevel (Quot-set))
      (λ accounts.
        Quot.ind (λ q. hlevel (Quot-set))
          (λ others e. Quot.sound ((membership_iff accounts others).0 e)))
