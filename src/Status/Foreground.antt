-- ===== src/Status/Foreground.antt =====
-- Which work the footer names (frontend/src/components/StatusBar.tsx).
use mathlib.Core.List.{reverse-append}
use inboxone.Common.{
  ◌≡◌, refl, ap, ◌∙◌, arith, false, Option, none, some, List, [], ◌∷◌, ◌++◌, reverse, head?, ltb,
  if◌then◌else◌, or_else,
}
use inboxone.Activity.{WorkItem, AccountName, activity_label, rank, insert, sort, visible_work}
use inboxone.Status.{Connections, footer_of, footer, names_of}

-- the work of the highest rank; of several, the one that was begun last
abbrev pub better : WorkItem → Option WorkItem → WorkItem
better a none = a
better a (some b) = if ltb (rank b) (rank a) then a else b

abbrev pub top : List WorkItem → Option WorkItem
top [] = none
top (a ∷ as_) = some (better a (top as_))

-- the same, from the end of the list
over : WorkItem → Option WorkItem → WorkItem
over a none = a
over a (some b) = if ltb (rank a) (rank b) then b else a

best : List WorkItem → Option WorkItem
best [] = none
best (a ∷ as_) = some (over a (best as_))

head-insert : (a : WorkItem) (xs : List WorkItem) → head? (insert a xs) ≡ some (over a (head? xs))
unfolding insert over
head-insert a [] = refl
head-insert a (b ∷ xs) = ground arith

head-sort : (xs : List WorkItem) → head? (sort xs) ≡ best xs
unfolding sort best
head-sort [] = refl
head-sort (a ∷ xs) = head-insert a (sort xs) ∙ ap (λ o. some (over a o)) (head-sort xs)

over-better :
    (x a : WorkItem) (o : Option WorkItem) → over x (some (better a o)) ≡ better a (some (over x o))
unfolding over
over-better x a none = ground arith
over-better x a (some b) = ground arith

best-snoc : (xs : List WorkItem) (a : WorkItem) → best (xs ++ a ∷ []) ≡ some (better a (best xs))
unfolding best over
best-snoc [] a = refl
best-snoc (x ∷ xs) a =
    ap (λ o. some (over x o)) (best-snoc xs a) ∙ ap some (over-better x a (best xs))

best-reverse : (xs : List WorkItem) → best (reverse xs) ≡ top xs
unfolding best
best-reverse [] = refl
best-reverse (x ∷ xs) =
    ap best (reverse-append (x ∷ []) xs)
    ∙ best-snoc (reverse xs) x
    ∙ ap (λ o. some (better x o)) (best-reverse xs)

head-append : (xs ys : List WorkItem) (a : WorkItem) → head? xs ≡ some a → head? (xs ++ ys) ≡ some a
head-append [] ys a h = cc
head-append (x ∷ xs) ys a h = h

head-visible :
    (a : WorkItem) (local server : List WorkItem)
    → head? (visible_work (a ∷ local) server) ≡ top (a ∷ local)
unfolding visible_work
head-visible a local server =
    head-append (sort (reverse (a ∷ local))) _ (better a (top local))
      (head-sort (reverse (a ∷ local)) ∙ best-reverse (a ∷ local))

footer_of-head :
    (work : List WorkItem) (names : List AccountName) (a : WorkItem)
    → head? work ≡ some a
    → ((footer_of work names).work_label ≡ some (activity_label a names))
      × ((footer_of work names).shows_label ≡ false)
unfolding footer_of
footer_of-head [] names a h = cc
footer_of-head (x ∷ []) names a h = (ap (λ o. some (activity_label (or_else o a) names)) h, refl)
footer_of-head (x ∷ y ∷ work) names a h =
    (ap (λ o. some (activity_label (or_else o a) names)) h, refl)

-- While this tab has work of its own under way, whatever the server has: the footer names the tab's work of the
-- highest rank, of several the one begun last, with its account, and hides the label of the connection.
pub footer-top :
    (a : WorkItem) (local server : List WorkItem) (data_ : Option Connections)
    → ((footer (a ∷ local) server data_).work_label
        ≡ some (activity_label (better a (top local)) (names_of data_)))
      × ((footer (a ∷ local) server data_).shows_label ≡ false)
unfolding footer
footer-top a local server data_ =
    footer_of-head (visible_work (a ∷ local) server) (names_of data_) (better a (top local))
      (head-visible a local server)
