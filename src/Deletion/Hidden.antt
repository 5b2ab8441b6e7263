-- ===== src/Deletion/Hidden.antt =====
-- What the inbox page hides (frontend/src/pages/InboxPage.tsx) under each change.
use inboxone.Common.{
  ℕ, ◌≡◌, sym, ◌∙◌, inl, inr, true, false, none, some, List, ◌∷◌, arith, ==_refl, contains, add,
  delete, contains-add, contains-delete, Option-cases, ℕ_discrete,
}
use inboxone.Deletion.{get, remove, land}
use inboxone.Deletion.Invariant.{IsHidden}
use inboxone.Deletion.Frame.{
  get-remove_ne, get-remove_self, contains-land_ne, contains-land_self, land-AreSingle,
}

module _ (m : List (ℕ × ℕ)) (pending flights : List ℕ) (v : IsHidden m pending flights)
    (id : ℕ) where
  pub schedule-IsHidden :
      (handle : ℕ)
      → contains id flights ≡ false
      → IsHidden ((id, handle) ∷ m) (add id pending) flights
  schedule-IsHidden handle grounded = record {
    hidden = λ a. contains-add a id pending ∙ ground (arith, v.hidden a);
    apart = λ h a mapped. elim (ℕ_discrete id a) [
      | yes same ↦ rw (← same) grounded
      | no other ↦ v.apart h a (ground arith)
    ];
    single = v.single;
  }

  pub undo-IsHidden :
      (handle : ℕ) → get id m ≡ some handle → IsHidden (remove id m) (delete id pending) flights
  undo-IsHidden handle mapped = record {
    hidden = λ a. contains-delete a id pending ∙ elim (ℕ_discrete a id) [
      | yes same ↦
          let gone : get a (remove id m) ≡ none = rw same (get-remove_self id m) in
          let grounded : contains a flights ≡ false = rw same (v.apart handle id mapped) in
          ground arith
      | no other ↦ ground (arith, v.hidden a, get-remove_ne a id m other)
    ];
    apart = λ h a there. elim (ℕ_discrete a id) [
      | yes same ↦ let gone : get a (remove id m) ≡ none = rw same (get-remove_self id m) in cc
      | no other ↦ v.apart h a (sym (get-remove_ne a id m other) ∙ there)
    ];
    single = v.single;
  }

  pub commit-IsHidden :
      (handle : ℕ) → get id m ≡ some handle → IsHidden (remove id m) pending (id ∷ flights)
  commit-IsHidden handle mapped = record {
    hidden = λ a. v.hidden a ∙ elim (ℕ_discrete a id) [
      | yes same ↦ let there : get a m ≡ some handle = rw same mapped in ground (arith, ==_refl a)
      | no other ↦ ground (arith, get-remove_ne a id m other)
    ];
    apart = λ h a there. elim (ℕ_discrete a id) [
      | yes same ↦ let gone : get a (remove id m) ≡ none = rw same (get-remove_self id m) in cc
      | no other ↦ ground (arith, v.apart h a (sym (get-remove_ne a id m other) ∙ there))
    ];
    single = (v.apart handle id mapped, v.single);
  }

  pub settle-IsHidden :
      contains id flights ≡ true → IsHidden m (delete id pending) (land id flights)
  settle-IsHidden flying = record {
    hidden = λ a. contains-delete a id pending ∙ elim (ℕ_discrete a id) [
      | yes same ↦
          let landed : contains a (land id flights) ≡ false =
            rw same (contains-land_self id flights v.single) in
          elim (Option-cases (get a m)) [
            | inl absent ↦ ground arith
            | inr (h, there) ↦
                let grounded : contains id flights ≡ false = rw (← same) (v.apart h a there) in cc
          ]
      | no other ↦ ground (arith, v.hidden a, contains-land_ne a id flights other)
    ];
    apart = λ h a there. elim (ℕ_discrete a id) [
      | yes same ↦ rw same (contains-land_self id flights v.single)
      | no other ↦ contains-land_ne a id flights other ∙ v.apart h a there
    ];
    single = land-AreSingle id flights v.single;
  }
