-- ===== src/Watcher/Notify.antt =====
-- Which messages are notified of, over successive runs of the effect
-- (frontend/src/components/NewMailWatcher.tsx).
use inboxone.Common.{
  ℕ, ◌≡◌, refl, ap, ◌∙◌, ◌⊎◌, inl, inr, String, Bool, true, false, not, ◌&&◌, none, some, List, [],
  ◌∷◌, map, arith, ◌==◌, if◌then◌else◌, contains, any, filter, All, ==_refl, str_eq, str_eq_iff,
}
use inboxone.Common.Split.{numbers}
use inboxone.Types.{Account, MessageSummary}
use inboxone.Watcher.{
  membership, Watcher, Permission, is_granted, notify_new_message, in_inboxes, ids_of, unseen,
  reset, effect,
}
use inboxone.Watcher.Membership.{is_inbox_id, numbers-membership}

reset_same :
    (inboxes : String) (w : Watcher) → w.previous_membership ≡ inboxes → reset inboxes w ≡ w
unfolding reset
reset_same inboxes w e = rw ((str_eq_iff w.previous_membership inboxes).1 e)

reset-previous : (inboxes : String) (w : Watcher) → (reset inboxes w).previous_membership ≡ inboxes
unfolding reset
reset-previous inboxes w = ground (arith, (str_eq_iff w.previous_membership inboxes).0)

reset_other :
    (inboxes : String) (w : Watcher)
    → (w.seen_ids ≡ none) ⊎ (str_eq w.previous_membership inboxes ≡ false)
    → (reset inboxes w).seen_ids ≡ none
unfolding reset
reset_other inboxes w (inl e) = ground arith
reset_other inboxes w (inr e) = rw e

-- The first response of a session, and the first after the set of inbox folders has changed, notifies of
-- nothing and becomes the baseline, whatever the setting and the permission.
pub effect_baseline :
    (items : List MessageSummary) (enabled : Bool) (permission : Permission) (inboxes : String)
    (w : Watcher)
    → (w.seen_ids ≡ none) ⊎ (str_eq w.previous_membership inboxes ≡ false)
    → let (after, shown) = effect (some items) enabled permission inboxes w in
      (shown ≡ [])
      × (after.previous_membership ≡ inboxes)
      × (after.seen_ids ≡ some (map (λ m. m.id) (in_inboxes inboxes items)))
unfolding effect
effect_baseline items enabled permission inboxes w h =
    (rw (reset_other inboxes w h), reset-previous inboxes w, refl)

effect_after :
    (items : List MessageSummary) (enabled : Bool) (permission : Permission) (inboxes : String)
    (w : Watcher)
    → let after = (effect (some items) enabled permission inboxes w).0 in
      after ≡ record {
        previous_membership = inboxes;
        seen_ids = some (ids_of (in_inboxes inboxes items));
      }
unfolding effect
effect_after items enabled permission inboxes w =
    ap
      (λ (p : String). record {
        previous_membership = p;
        seen_ids = some (ids_of (in_inboxes inboxes items));
      })
      (reset-previous inboxes w)

filter-filter_eq :
    (p q r : MessageSummary → Bool) (xs : List MessageSummary)
    → ((m : MessageSummary) → r m ≡ (p m && q m))
    → filter q (filter p xs) ≡ filter r xs
filter-filter_eq p q r [] h = refl
filter-filter_eq p q r (x ∷ xs) h = ground (arith, h x, filter-filter_eq p q r xs h)

contains-ids_of :
    (inbox : MessageSummary → Bool) (id : ℕ) (items : List MessageSummary)
    → contains id (ids_of (filter inbox items)) ≡ any (λ k. k.id == id && inbox k) items
unfolding ids_of
contains-ids_of inbox id [] = refl
contains-ids_of inbox id (k ∷ items) = ground (arith, contains-ids_of inbox id items)

any_congr :
    (p q : MessageSummary → Bool) (xs : List MessageSummary)
    → ((m : MessageSummary) → p m ≡ q m)
    → any p xs ≡ any q xs
any_congr p q [] h = refl
any_congr p q (x ∷ xs) h = ground (arith, h x, any_congr p q xs h)

-- the message is in the response, in a folder that is an inbox
abbrev pub was_there : List Account → List MessageSummary → MessageSummary → Bool
was_there accounts items m = any (λ k. k.id == m.id && is_inbox_id k.folder_id accounts) items

effect_second :
    (items : List MessageSummary) (seen : List ℕ) (enabled : Bool) (permission : Permission)
    (inboxes : String)
    → effect
        (some items)
        enabled
        permission
        inboxes
        (record { previous_membership = inboxes; seen_ids = some seen })
      ≡ (
        record {
          previous_membership = inboxes;
          seen_ids = some (ids_of (in_inboxes inboxes items));
        },
        (if enabled && is_granted permission
            then map notify_new_message (unseen seen (in_inboxes inboxes items))
            else []),
      )
unfolding effect
effect_second items seen enabled permission inboxes =
    rw (reset_same inboxes (record { previous_membership = inboxes; seen_ids = some seen }) refl)

unseen-in_inboxes :
    (accounts : List Account) (first second : List MessageSummary)
    → let inboxes = membership (some accounts) in
      unseen (ids_of (in_inboxes inboxes first)) (in_inboxes inboxes second)
      ≡ filter (λ m. is_inbox_id m.folder_id accounts && not (was_there accounts first m)) second
unfolding unseen in_inboxes
unseen-in_inboxes accounts first second =
    let inbox =
      λ (m : MessageSummary). contains m.folder_id (numbers (membership (some accounts))) in
    let known = λ (m : MessageSummary). (numbers-membership accounts).1 m.folder_id in
    filter-filter_eq inbox _ _ second (λ m.
      let there : contains m.id (ids_of (filter inbox first)) ≡ was_there accounts first m =
        contains-ids_of inbox m.id first
        ∙ any_congr _ _ first (λ k. ap (λ b. k.id == m.id && b) (known k)) in
      ground (arith, known m))

-- Of two successive responses with the same inbox folders, the second notifies of exactly those of its
-- messages, in their order, that lie in a folder that is an inbox and that the first did not have in
-- such a folder; of none if the setting is off or the permission is not granted.
pub effect-effect :
    (accounts : List Account) (first second : List MessageSummary) (enabled enabled' : Bool)
    (permission permission' : Permission) (w : Watcher)
    → let inboxes = membership (some accounts) in
      let after = (effect (some first) enabled permission inboxes w).0 in
      (effect (some second) enabled' permission' inboxes after).1 ≡ (
        if enabled' && is_granted permission'
        then map notify_new_message (
            filter
              (λ m. is_inbox_id m.folder_id accounts && not (was_there accounts first m))
              second)
        else [])
effect-effect accounts first second enabled enabled' permission permission' w =
    let inboxes = membership (some accounts) in
    rw (
      effect_after first enabled permission inboxes w,
      effect_second,
      ← unseen-in_inboxes accounts first second,
    )

contains-ids_of_more :
    (k : MessageSummary) (ks ms : List MessageSummary)
    → All (λ m. contains m.id (ids_of ks) ≡ true) ms
    → All (λ m. contains m.id (ids_of (k ∷ ks)) ≡ true) ms
unfolding ids_of
contains-ids_of_more k ks [] h = tt
contains-ids_of_more k ks (m ∷ ms) h = (ground arith, contains-ids_of_more k ks ms h.1)

contains-ids_of_self : (ms : List MessageSummary) → All (λ m. contains m.id (ids_of ms) ≡ true) ms
contains-ids_of_self [] = tt
contains-ids_of_self (m ∷ ms) = (
  unfold ids_of in ground (arith, ==_refl m.id),
  contains-ids_of_more m ms ms (contains-ids_of_self ms),
)

unseen_none :
    (seen : List ℕ) (ms : List MessageSummary)
    → All (λ m. contains m.id seen ≡ true) ms
    → unseen seen ms ≡ []
unfolding unseen
unseen_none seen [] h = refl
unseen_none seen (m ∷ ms) h = rw h.0 (unseen_none seen ms h.1)

if_same {ℓ} : {A : Type ℓ} (b : Bool) (a : A) → (if b then a else a) ≡ a
if_same true a = refl
if_same false a = refl

-- When the effect runs again for a response that it has seen, because the setting was changed, it
-- notifies of nothing and remembers what it did.
pub effect_again :
    (items : List MessageSummary) (enabled enabled' : Bool) (permission permission' : Permission)
    (inboxes : String) (w : Watcher)
    → let after = (effect (some items) enabled permission inboxes w).0 in
      effect (some items) enabled' permission' inboxes after ≡ (after, [])
effect_again items enabled enabled' permission permission' inboxes w =
    let ids = ids_of (in_inboxes inboxes items) in
    rw (
      effect_after items enabled permission inboxes w,
      effect_second,
      unseen_none ids (in_inboxes inboxes items) (contains-ids_of_self (in_inboxes inboxes items)),
      if_same,
    )
