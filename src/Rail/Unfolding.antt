-- ===== src/Rail/Unfolding.antt =====
-- Folding and unfolding the accounts of the rail (frontend/src/components/AccountFilterRail.tsx).
use inboxone.Common.{
  ◌≡◌, refl, ap, ◌∙◌, ==_iff, Bool-cases, inl, inr, ℕ, Bool, not, List, [], ◌∷◌, ◌==◌,
  if◌then◌else◌,
}
use inboxone.Rail.{Expanded, is_expanded, toggle_expanded}

unfoldable pub toggles : List ℕ → Expanded → Expanded
toggles [] e = e
toggles (id ∷ ids) e = toggles ids (toggle_expanded id e)

-- whether an id is listed an odd number of times, of a truth value that is turned as often
abbrev pub turned : ℕ → List ℕ → Bool → Bool
turned id [] b = b
turned id (other ∷ ids) b = turned id ids (if other == id then not b else b)

toggle_lem :
    (id other : ℕ) (e : Expanded)
    → is_expanded id (toggle_expanded other e)
      ≡ (if other == id then not (is_expanded id e) else is_expanded id e)
unfolding toggle_expanded is_expanded
toggle_lem id other e = elim (Bool-cases (other == id)) [
  | inl same ↦ simp same (ap (λ k. not (is_expanded k e)) ((==_iff other id).0 same))
  | inr differs ↦ simp differs
]

-- After any presses of the arrows an account is unfolded exactly if it was and its own arrow has been pressed
-- an even number of times, or it was not and an odd number of times.
pub is_expanded-toggles :
    (ids : List ℕ) (id : ℕ) (e : Expanded)
    → is_expanded id (toggles ids e) ≡ turned id ids (is_expanded id e)
unfolding toggles
is_expanded-toggles [] id e = refl
is_expanded-toggles (other ∷ ids) id e =
    is_expanded-toggles ids id (toggle_expanded other e)
    ∙ ap (turned id ids) (toggle_lem id other e)
