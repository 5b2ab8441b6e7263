-- ===== src/Live/Connection.antt =====
-- The connection to the server's events over all that can happen
-- (frontend/src/components/LiveUpdates.tsx).
use inboxone.Common.{
  ℕ, ◌≡◌, refl, ap, inl, inr, Bool, true, List, [], ◌∷◌, arith, if◌then◌else◌, Bool-cases, if_true,
  if_false, contains,
}
use inboxone.Timers.{no_timers, advance}
use inboxone.Activity.{Activity}
use inboxone.Live.{
  Live, send_presence, connect, fresh_live, start, mounted, dispose, Event, opens, fails, message,
  visibility, page_hide, page_show, lease, fallback, activity_fallback, timer, unmount, wait, step,
  run,
}
use inboxone.Live.Phases.{
  Core, core, IsStreaming, IsWaiting, IsStopped, IsLive, if-core, send_presence-core,
  on_message-core, on_visibility-core, on_page_hide-core, on_page_show-core, tick_lease-core,
  tick_fallback-core, tick_activity-core, on_error-core, on_open-core, connect-core,
}
use inboxone.Live.Closing.{failed-IsWaiting, run_timer-IsLive, dispose-IsStopped}

unmount-IsLive : (s : Live) → IsLive (core s) → IsLive (core (if s.disposed then s else dispose s))
unmount-IsLive s h = elim (Bool-cases s.disposed) [
  | inl gone ↦ rw (if_true s.disposed s (dispose s) gone) h
  | inr alive ↦ rw (if_false s.disposed s (dispose s) alive) (inr (inr (dispose-IsStopped s h)))
]

pub advance-IsWaiting :
    (ms : ℕ) (s : Live)
    → IsWaiting (core s)
    → IsWaiting (core (record s { timers = advance ms s.timers }))
unfolding advance
advance-IsWaiting ms s h = record {
  alive = h.alive;
  offline = h.offline;
  closed = h.closed;
  handle = h.handle;
  due = h.due;
  named = h.named;
  set = h.set;
  soon = let soon = h.soon in omega arith;
}

pub advance-IsStopped :
    (ms : ℕ) (s : Live)
    → IsStopped (core s)
    → IsStopped (core (record s { timers = advance ms s.timers }))
unfolding advance
advance-IsStopped ms s h = record {
  gone = h.gone;
  offline = h.offline;
  deaf = h.deaf;
  closed = h.closed;
  unset = h.unset;
}

pub advance-IsStreaming :
    (ms : ℕ) (s : Live)
    → IsStreaming (core s)
    → IsStreaming (core (record s { timers = advance ms s.timers }))
unfolding advance
advance-IsStreaming ms s h = record {
  alive = h.alive;
  number = h.number;
  named = h.named;
  single = h.single;
  unset = h.unset;
}

advance-IsLive :
    (ms : ℕ) (s : Live)
    → IsLive (core s)
    → IsLive (core (record s { timers = advance ms s.timers }))
unfolding advance
advance-IsLive ms s (inl h) = inl (advance-IsStreaming ms s h)
advance-IsLive ms s (inr (inl h)) = inr (inl (advance-IsWaiting ms s h))
advance-IsLive ms s (inr (inr h)) = inr (inr (advance-IsStopped ms s h))

pub open-IsLive :
    (k : ℕ) (s : Live) → IsLive (core s) → contains k s.open_streams ≡ true → IsStreaming (core s)
open-IsLive k s (inl h) there = h
open-IsLive k s (inr (inl h)) there = absurd (let e = h.closed in ground arith)
open-IsLive k s (inr (inr h)) there = absurd (let e = h.closed in ground arith)

pub IsLive-step : (e : Event) (s : Live) → IsLive (core s) → IsLive (core (step e s))
unfolding step
IsLive-step (message k e) s h = elim (Bool-cases (contains k s.open_streams)) [
  | inl there ↦ rw there (rw (on_message-core e s) h)
  | inr closed ↦ rw closed h
]
IsLive-step (visibility b) s h = rw (on_visibility-core b s) h
IsLive-step page_hide s h = rw (on_page_hide-core s) h
IsLive-step page_show s h = rw (on_page_show-core s) h
IsLive-step lease s h = rw (tick_lease-core s) h
IsLive-step fallback s h = rw (tick_fallback-core s) h
IsLive-step activity_fallback s h = rw (tick_activity-core s) h
IsLive-step (opens k) s h = elim (Bool-cases (contains k s.open_streams)) [
  | inl there ↦
      let streaming = open-IsLive k s h there in
      rw (there, on_open-core s streaming.alive)
        (inl (record {
          alive = streaming.alive;
          number = streaming.number;
          named = streaming.named;
          single = streaming.single;
          unset = streaming.unset;
        }))
  | inr closed ↦ rw closed h
]
IsLive-step (fails k) s h = elim (Bool-cases (contains k s.open_streams)) [
  | inl there ↦
      let streaming = open-IsLive k s h there in
      rw (there, on_error-core k s streaming.alive)
        (inr (inl (failed-IsWaiting k (core s) streaming there)))
  | inr closed ↦ rw closed h
]
IsLive-step timer s h = run_timer-IsLive s h
IsLive-step unmount s h = unmount-IsLive s h
IsLive-step (wait ms) s h = advance-IsLive ms s h

-- Whatever happens, in whatever order: while the component is there, exactly one connection is open and
-- no timer is set, or none is and exactly one timer is set that will open the next, within 3 seconds;
-- once it is gone, no connection, no timer and no interval is left.
pub run-IsLive : (es : List Event) (s : Live) → IsLive (core s) → IsLive (core (run es s))
unfolding run
run-IsLive [] s h = h
run-IsLive (e ∷ es) s h = run-IsLive es (step e s) (IsLive-step e s h)

start-core : (s : Live) → core (start s) ≡ record (core s) { listening = true }
unfolding start
start-core s =
    let told = send_presence true s in
    ap (λ (c : Core). record c { listening = true })
      (if-core s.visible _ told (core s) (send_presence-core true s) (send_presence-core true s))

fresh-IsStreaming :
    (visible : Bool) (activity : Activity)
    → IsStreaming (core (connect (fresh_live visible activity)))
unfolding fresh_live
fresh-IsStreaming visible activity = rw (connect-core (fresh_live visible activity) refl) (record {
  alive = refl;
  number = 1;
  named = refl;
  single = refl;
  unset = unfold no_timers in refl;
})

mounted-start :
    (visible : Bool) (activity : Activity)
    → mounted visible activity ≡ start (connect (fresh_live visible activity))
unfolding mounted
mounted-start visible activity = refl

pub mounted-IsLive :
    (visible : Bool) (activity : Activity) → IsLive (core (mounted visible activity))
mounted-IsLive visible activity =
    let h = fresh-IsStreaming visible activity in
    rw (mounted-start visible activity, start-core (connect (fresh_live visible activity)))
      (inl (record {
        alive = h.alive;
        number = h.number;
        named = h.named;
        single = h.single;
        unset = h.unset;
      }))
