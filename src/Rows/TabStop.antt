-- ===== src/Rows/TabStop.antt =====
-- The one row of the list that the tab key reaches (`tabbableId` of frontend/src/components/MessageList.tsx).
use inboxone.Common.{
  String, ℕ, ◌≡◌, ◌≢◌, refl, sym, ap, ◌∙◌, inl, inr, true, List, [], ◌∷◌, map, Option, none, some,
  arith, length, filter, any, ◌==◌, ◌=?=◌, ==_refl, if_true, if_false, Bool-cases, All,
}
use inboxone.Types.{MessageSummary}
use inboxone.Rows.{tabbable_id, first_id, RowView, row_view, list_rows}

-- no two messages have one id
abbrev pub AreDistinct : List MessageSummary → Type 0
AreDistinct [] = Unit
AreDistinct (m ∷ ms) = All (λ k. k.id ≢ m.id) ms × AreDistinct ms

stops : Option ℕ → List MessageSummary → List MessageSummary
stops o messages = filter (λ m. some m.id =?= o) messages

stops-none :
    (id : ℕ) (ms : List MessageSummary) → All (λ k. k.id ≢ id) ms → length (stops (some id) ms) ≡ 0
unfolding stops
stops-none id [] h = refl
stops-none id (m ∷ ms) h = ground (arith, stops-none id ms h.1)

stops-first :
    (m : MessageSummary) (ms : List MessageSummary)
    → All (λ k. k.id ≢ m.id) ms
    → length (stops (some m.id) (m ∷ ms)) ≡ 1
unfolding stops
stops-first m ms h = ground (arith, ==_refl m.id, stops-none m.id ms h)

stops-there :
    (o : Option ℕ) (ms : List MessageSummary)
    → AreDistinct ms
    → any (λ m. some m.id =?= o) ms ≡ true
    → length (stops o ms) ≡ 1
unfolding stops
stops-there o [] h there = cc
stops-there none (m ∷ ms) h there = stops-there none ms h.1 there
stops-there (some id) (m ∷ ms) h there = elim (Bool-cases (m.id == id)) [
  | inl same ↦
      let e : m.id ≡ id = ground arith in
      ap (λ i. length (stops (some i) (m ∷ ms))) (sym e) ∙ stops-first m ms h.0
  | inr other ↦ rw other (stops-there (some id) ms h.1 (ground arith))
]

stops-rows :
    (format_date : Option String → String) (selected t : Option ℕ) (ms : List MessageSummary)
    → length (filter (λ (r : RowView). r.tabbable) (map (row_view format_date selected t) ms))
      ≡ length (stops t ms)
unfolding row_view stops
stops-rows format_date selected t [] = refl
stops-rows format_date selected t (m ∷ ms) = ground (arith, stops-rows format_date selected t ms)

stops-tabbable_id :
    (selected : Option ℕ) (m : MessageSummary) (ms : List MessageSummary)
    → AreDistinct (m ∷ ms)
    → length (stops (tabbable_id selected (m ∷ ms)) (m ∷ ms)) ≡ 1
unfolding tabbable_id first_id
stops-tabbable_id selected m ms h =
    let here = any (λ k. some k.id =?= selected) (m ∷ ms) in
    elim (Bool-cases here) [
      | inl there ↦
          ap (λ o. length (stops o (m ∷ ms))) (if_true here selected (some m.id) there)
          ∙ stops-there selected (m ∷ ms) h there
      | inr absent ↦
          ap (λ o. length (stops o (m ∷ ms))) (if_false here selected (some m.id) absent)
          ∙ stops-first m ms h.0
    ]

-- A list with messages has exactly one row that the tab key reaches, whichever message is selected, one
-- of the list, another or none.
pub list_rows-tabbable :
    (format_date : Option String → String) (selected : Option ℕ) (m : MessageSummary)
    (ms : List MessageSummary)
    → AreDistinct (m ∷ ms)
    → length (filter (λ (r : RowView). r.tabbable) (list_rows format_date selected (m ∷ ms))) ≡ 1
unfolding list_rows
list_rows-tabbable format_date selected m ms h =
    stops-rows format_date selected (tabbable_id selected (m ∷ ms)) (m ∷ ms)
    ∙ stops-tabbable_id selected m ms h
