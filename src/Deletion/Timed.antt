-- ===== src/Deletion/Timed.antt =====
-- The timers of the inbox page (frontend/src/pages/InboxPage.tsx) under each change.
use inboxone.Common.{
  ℕ, ◌≡◌, refl, sym, ◌∙◌, ◌≢◌, inl, inr, none, some, List, [], ◌∷◌, arith, ==_refl, ℕ_discrete,
}
use inboxone.Timers.{Timer, Timers, find_timer, set_timeout, clear_timeout, advance}
use inboxone.Timers.Laws.{
  set_timeout-IsHandled, clear_timeout-IsHandled, find_timer-set_timeout,
  find_timer-set_timeout_old, set_timeout_cases, clear_timeout_inv, find_timer-clear_timeout,
}
use inboxone.Deletion.{Callback, expire, commit, get, remove}
use inboxone.Deletion.Invariant.{IsTimed}
use inboxone.Deletion.Frame.{get-remove_ne, get-remove_self, handles_differ}

commit_inj : (a b : ℕ) → commit a ≡ commit b → a ≡ b
commit_inj a b e = ground arith

-- a timer is set that deletes no message
pub expire-IsTimed :
    (m : List (ℕ × ℕ)) (s : Timers Callback) (k d : ℕ)
    → IsTimed m s
    → IsTimed m (set_timeout (expire k) d s).1
expire-IsTimed m s k d v = record {
  handled = set_timeout-IsHandled (expire k) d s v.handled;
  owned = λ h id t found commits. elim (set_timeout_cases (expire k) d h s t v.handled found) [
    | inl (_, new) ↦ cc
    | inr old ↦ v.owned h id t old commits
  ];
  scheduled = λ h id mapped.
      let (t, found, commits) = v.scheduled h id mapped in
      (t, find_timer-set_timeout_old (expire k) d h s t found, commits);
}

-- a message's timer is set, and the map has it
pub schedule-IsTimed :
    (m : List (ℕ × ℕ)) (s : Timers Callback) (id d : ℕ)
    → get id m ≡ none
    → IsTimed m s
    → IsTimed ((id, s.next_handle) ∷ m) (set_timeout (commit id) d s).1
schedule-IsTimed m s id d absent v = record {
  handled = set_timeout-IsHandled (commit id) d s v.handled;
  owned = λ h j t found commits. elim (set_timeout_cases (commit id) d h s t v.handled found) [
    | inl (new, runs) ↦
        let same : id ≡ j = commit_inj id j (sym runs ∙ commits) in ground (arith, ==_refl id)
    | inr old ↦ let before = v.owned h j t old commits in ground arith
  ];
  scheduled = λ h j mapped. elim (ℕ_discrete id j) [
    | yes same ↦
        let e : h ≡ s.next_handle = ground arith in
        rw (e, ← same) (_, find_timer-set_timeout (commit id) d s v.handled, refl)
    | no other ↦
        let (t, found, commits) = v.scheduled h j (ground arith) in
        (t, find_timer-set_timeout_old (commit id) d h s t found, commits)
  ];
}

-- a message leaves the map, and its timer the set
pub remove-IsTimed :
    (m : List (ℕ × ℕ)) (s : Timers Callback) (id k : ℕ)
    → get id m ≡ some k
    → IsTimed m s
    → IsTimed (remove id m) (clear_timeout k s)
remove-IsTimed m s id k mapped v = record {
  handled = clear_timeout-IsHandled k s v.handled;
  owned = λ h j t found commits.
      let (differ, old) = clear_timeout_inv h k s t found in
      let before = v.owned h j t old commits in
      let other : j ≢ id = λ same. differ (let e : get id m ≡ some h = rw (← same) before in cc) in
      get-remove_ne j id m other ∙ before;
  scheduled = λ h j there. elim (ℕ_discrete j id) [
    | yes same ↦ let gone : get j (remove id m) ≡ none = rw same (get-remove_self id m) in cc
    | no other ↦
        let before : get j m ≡ some h = sym (get-remove_ne j id m other) ∙ there in
        let (t, found, commits) = v.scheduled h j before in
        let (u, found', commits') = v.scheduled k id mapped in
        let differ =
          handles_differ s.active h k t u found found'
            (λ e. other (commit_inj j id (sym commits ∙ e ∙ commits'))) in
        (t, find_timer-clear_timeout h k s differ ∙ found, commits)
  ];
}

-- a timer has run that deletes no message
pub expired-IsTimed :
    (m : List (ℕ × ℕ)) (s : Timers Callback) (t : Timer Callback) (toast_id : ℕ)
    → find_timer t.handle s.active ≡ some t
    → t.callback ≡ expire toast_id
    → IsTimed m s
    → IsTimed m (clear_timeout t.handle s)
expired-IsTimed m s t toast_id taken runs v = record {
  handled = clear_timeout-IsHandled t.handle s v.handled;
  owned = λ h j u found commits. v.owned h j u (clear_timeout_inv h t.handle s u found).1 commits;
  scheduled = λ h j mapped.
      let (u, found, commits) = v.scheduled h j mapped in
      let differ = handles_differ s.active h t.handle u t found taken (λ e. cc) in
      (u, find_timer-clear_timeout h t.handle s differ ∙ found, commits);
}

-- the timer of a message that is not scheduled is none
pub remove_absent : (id : ℕ) (m : List (ℕ × ℕ)) → get id m ≡ none → remove id m ≡ m
remove_absent id [] h = refl
remove_absent id ((j, v) ∷ m) h = ground (arith, remove_absent id m)

pub advance-IsTimed :
    (m : List (ℕ × ℕ)) (s : Timers Callback) (ms : ℕ) → IsTimed m s → IsTimed m (advance ms s)
unfolding advance
advance-IsTimed m s ms v = record { handled = v.handled; owned = v.owned; scheduled = v.scheduled }
