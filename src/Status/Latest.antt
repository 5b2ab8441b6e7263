-- ===== src/Status/Latest.antt =====
-- Which work the footer names once more has been begun (frontend/src/components/StatusBar.tsx).
use mathlib.Core.Path.{subst}
use mathlib.Core.Option.{some_inj}
use inboxone.Common.{
  ℕ, ◌≤◌, ◌≡◌, refl, ap, ◌∙◌, arith, Bool, true, not, Option, none, some, List, [], ◌∷◌, ◌++◌, ltb,
  if◌then◌else◌, All, any, is_some, Bool-cases, Option-cases, inl, inr,
}
use inboxone.Activity.{WorkItem, activity_label, rank}
use inboxone.Status.{Connections, footer, names_of}
use inboxone.Status.Foreground.{better, top, footer-top}

-- of two works, the one begun later, unless the other has a higher rank
abbrev pub later : WorkItem → Option WorkItem → WorkItem
later a none = a
later a (some b) = if ltb (rank a) (rank b) then b else a

better-later :
    (x a : WorkItem) (o : Option WorkItem)
    → better x (some (later a o)) ≡ later a (some (better x o))
better-later x a none = ground arith
better-later x a (some b) = ground arith

pub top-snoc : (xs : List WorkItem) (a : WorkItem) → top (xs ++ a ∷ []) ≡ some (later a (top xs))
top-snoc [] a = refl
top-snoc (x ∷ xs) a =
    ap (λ o. some (better x o)) (top-snoc xs a) ∙ ap some (better-later x a (top xs))

better-rank :
    (p : ℕ) (x : WorkItem) (o : Option WorkItem)
    → rank x ≤ p
    → ((b : WorkItem) → o ≡ some b → rank b ≤ p)
    → rank (better x o) ≤ p
better-rank p x none h k = h
better-rank p x (some b) h k = let bound = k b refl in ground (arith, bound)

pub top-rank :
    (p : ℕ) (xs : List WorkItem)
    → All (λ i. rank i ≤ p) xs
    → (b : WorkItem) → top xs ≡ some b
    → rank b ≤ p
top-rank p [] h b e = cc
top-rank p (x ∷ xs) h b e =
    let bound = better-rank p x (top xs) h.0 (top-rank p xs h.1) in
    subst (λ i. rank i ≤ p) (some_inj.0 e) bound

-- work without a priority
abbrev pub unranked : WorkItem → Bool
unranked item = not (is_some item.work.priority)

pub unranked-rank : (x : WorkItem) → unranked x ≡ true → 100 ≤ rank x
unranked-rank x h = elim (Option-cases x.work.priority) [
  | inl none_ ↦ rw none_ (omega arith)
  | inr (p, some_) ↦ cc (h, some_)
]

better-unranked : (x : WorkItem) (o : Option WorkItem) → unranked x ≡ true → 100 ≤ rank (better x o)
better-unranked x none h = unranked-rank x h
better-unranked x (some b) h = let own = unranked-rank x h in ground (arith, own)

better-above : (p : ℕ) (x b : WorkItem) → p ≤ rank b → p ≤ rank (better x (some b))
better-above p x b h = ground (arith, h)

pub top-unranked :
    (xs : List WorkItem)
    → any unranked xs ≡ true
    → (b : WorkItem) × (top xs ≡ some b) × (100 ≤ rank b)
top-unranked [] h = cc
top-unranked (x ∷ xs) h = elim (Bool-cases (unranked x)) [
  | inl own ↦ (better x (top xs), refl, better-unranked x (top xs) own)
  | inr other ↦
      let rest : any unranked xs ≡ true = cc (h, other) in
      let (b, e, above) = top-unranked xs rest in
      (better x (some b), ap (λ o. some (better x o)) e, better-above 100 x b above)
]

pub footer_of-top :
    (local server : List WorkItem) (data_ : Option Connections) (b : WorkItem)
    → top local ≡ some b
    → (footer local server data_).work_label ≡ some (activity_label b (names_of data_))
footer_of-top [] server data_ b e = cc
footer_of-top (a ∷ local) server data_ b e =
    (footer-top a local server data_).0
    ∙ ap (λ i. some (activity_label i (names_of data_))) (some_inj.0 e)
