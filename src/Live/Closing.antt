-- ===== src/Live/Closing.antt =====
-- The reconnection timer and the end of the component (frontend/src/components/LiveUpdates.tsx).
use inboxone.Common.{
  ℕ, ◌+◌, ◌≡◌, refl, sym, ap, ◌∙◌, inl, inr, Bool, true, false, Option, none, some, List, [], ◌∷◌,
  ◌++◌, arith, leb, ==_refl, if◌then◌else◌, Bool-cases, if_false, contains, delete,
}
use inboxone.Timers.{Timers, Timer, set_timeout, clear_timeout}
use inboxone.Timers.Due.{next_due-nil, next_due-one, clear_timeout-nil, clear_timeout-one}
use inboxone.Live.{
  Callback, reconnect, Live, connect, close_stream, clear_timer, dispose, run_due, run_timer,
}
use inboxone.Live.Phases.{
  Core, core, IsStreaming, IsWaiting, IsStopped, IsLive, failed, connect-core,
}

delete-one : (k n : ℕ) → contains k (n ∷ []) ≡ true → delete k (n ∷ []) ≡ []
delete-one k n h = ground arith

pub failed-IsWaiting :
    (k : ℕ) (c : Core) → IsStreaming c → contains k c.open_streams ≡ true → IsWaiting (failed k c)
unfolding set_timeout
failed-IsWaiting k c h there = record {
  alive = h.alive;
  offline = refl;
  closed =
      let same : contains k (h.number ∷ []) ≡ true = sym (ap (contains k) h.single) ∙ there in
      ap (delete k) h.single ∙ delete-one k h.number same;
  handle = c.timers.next_handle;
  due = c.timers.now + 3000;
  named = refl;
  set = rw h.unset;
  soon = omega arith;
}

pub run_timer-nil : (s : Live) → s.timers.active ≡ [] → run_timer s ≡ s
unfolding run_timer run_due
run_timer-nil s h = ap (λ o. run_due o s) (next_due-nil s.timers h)

run_timer-early :
    (s : Live) (u : Timer Callback)
    → s.timers.active ≡ u ∷ []
    → leb u.due s.timers.now ≡ false
    → run_timer s ≡ s
unfolding run_timer run_due
run_timer-early s u h early =
    ap (λ o. run_due o s)
      (next_due-one s.timers u h ∙ if_false (leb u.due s.timers.now) (some u) none early)

-- the state once the timer has run
abbrev pub rung : ℕ → Live → Live
rung handle s = connect (record s { timers = clear_timeout handle s.timers })

pub run_timer-due :
    (s : Live) (u : Timer Callback)
    → s.timers.active ≡ u ∷ []
    → leb u.due s.timers.now ≡ true
    → run_timer s ≡ rung u.handle s
unfolding run_timer run_due
run_timer-due s u h due =
    ap (λ o. run_due o s)
      (next_due-one s.timers u h ∙ ap (λ (b : Bool). if b then some u else none) due)

pub rung-IsStreaming : (s : Live) (h : IsWaiting (core s)) → IsStreaming (core (rung h.handle s))
rung-IsStreaming s h =
    rw (connect-core (record s { timers = clear_timeout h.handle s.timers }) h.alive) (record {
      alive = h.alive;
      number = s.next_stream;
      named = refl;
      single = ap (λ ks. ks ++ s.next_stream ∷ []) h.closed;
      unset =
          clear_timeout-one s.timers
            (record { handle = h.handle; due = h.due; callback = reconnect }) h.set;
    })

pub run_timer-IsLive : (s : Live) → IsLive (core s) → IsLive (core (run_timer s))
run_timer-IsLive s (inl h) = rw (run_timer-nil s h.unset) (inl h)
run_timer-IsLive s (inr (inl h)) = elim (Bool-cases (leb h.due s.timers.now)) [
  | inl due ↦ rw (run_timer-due s _ h.set due) (inl (rung-IsStreaming s h))
  | inr early ↦ rw (run_timer-early s _ h.set early) (inr (inl h))
]
run_timer-IsLive s (inr (inr h)) = rw (run_timer-nil s h.unset) (inr (inr h))

close_stream-nil : (o : Option ℕ) → close_stream o [] ≡ []
unfolding close_stream
close_stream-nil none = refl
close_stream-nil (some k) = refl

clear_timer-nil :
    (o : Option ℕ) (t : Timers Callback) → t.active ≡ [] → (clear_timer o t).active ≡ []
unfolding clear_timer
clear_timer-nil none t h = h
clear_timer-nil (some k) t h = clear_timeout-nil k t h

close_stream-one :
    (o : Option ℕ) (k : ℕ) (ks : List ℕ) → o ≡ some k → ks ≡ k ∷ [] → close_stream o ks ≡ []
unfolding close_stream
close_stream-one o k ks e h = rw (e, h) (delete-one k k (ground (arith, ==_refl k)))

clear_timer-one :
    (o : Option ℕ) (t : Timers Callback) (u : Timer Callback)
    → o ≡ some u.handle
    → t.active ≡ u ∷ []
    → (clear_timer o t).active ≡ []
unfolding clear_timer
clear_timer-one o t u e h = ap (λ p. (clear_timer p t).active) e ∙ clear_timeout-one t u h

stopped :
    (s : Live)
    → close_stream s.stream s.open_streams ≡ []
    → (clear_timer s.reconnect_timer s.timers).active ≡ []
    → IsStopped (core (dispose s))
unfolding dispose
stopped s closed unset = record {
  gone = refl;
  offline = refl;
  deaf = refl;
  closed = closed;
  unset = unset;
}

pub dispose-IsStopped : (s : Live) → IsLive (core s) → IsStopped (core (dispose s))
dispose-IsStopped s (inl h) =
    stopped s (close_stream-one s.stream h.number s.open_streams h.named h.single)
      (clear_timer-nil s.reconnect_timer s.timers h.unset)
dispose-IsStopped s (inr (inl h)) =
    stopped s (ap (close_stream s.stream) h.closed ∙ close_stream-nil s.stream)
      (clear_timer-one s.reconnect_timer s.timers _ h.named h.set)
dispose-IsStopped s (inr (inr h)) =
    stopped s (ap (close_stream s.stream) h.closed ∙ close_stream-nil s.stream)
      (clear_timer-nil s.reconnect_timer s.timers h.unset)
