-- ===== src/Live/Reconnection.antt =====
-- The connection is opened again, and an unmounted component is silent
-- (frontend/src/components/LiveUpdates.tsx).
use inboxone.Common.{
  ◌≡◌, refl, ap, ◌∙◌, ◌⊎◌, inl, inr, Bool, true, false, not, ◌&&◌, Option, none, some, List, [],
  ◌∷◌, arith, leb, if◌then◌else◌, if_true, if_false, contains, All, ℕ,
}
use inboxone.Timers.{Timer, advance, clear_timeout}
use inboxone.Live.{
  Live, Callback, connect, on_open, on_error, on_message, on_visibility, on_page_hide, on_page_show,
  tick_lease, tick_fallback, tick_activity, dispose, Event, opens, fails, message, visibility,
  page_hide, page_show, lease, fallback, activity_fallback, timer, unmount, wait, run_due,
  run_timer, step, run,
}
use inboxone.Live.Phases.{
  Core, core, IsStreaming, IsWaiting, IsStopped, IsLive, on_message-core, on_visibility-core,
  on_page_hide-core, on_page_show-core, tick_lease-core, tick_fallback-core, tick_activity-core,
  on_error-core, on_open-core, connect-core,
}
use inboxone.Live.Connection.{
  advance-IsStreaming, advance-IsWaiting, advance-IsStopped, open-IsLive, IsLive-step,
}
use inboxone.Live.Closing.{
  failed-IsWaiting, run_timer-due, rung-IsStreaming, dispose-IsStopped, run_timer-nil,
}

-- the component is not unmounted by the event
abbrev pub IsKept : Event → Type 0
IsKept unmount = ⊥
IsKept _ = Unit

same_alive : (s t : Live) → core t ≡ core s → s.disposed ≡ false → t.disposed ≡ false
same_alive s t e alive = ap (λ (c : Core). c.disposed) e ∙ alive

if_alive :
    (b : Bool) (s t : Live)
    → t.disposed ≡ false
    → s.disposed ≡ false
    → (if b then t else s).disposed ≡ false
if_alive true s t h k = h
if_alive false s t h k = k

connect-alive : (s : Live) → s.disposed ≡ false → (connect s).disposed ≡ false
connect-alive s alive = ap (λ (c : Core). c.disposed) (connect-core s alive) ∙ alive

run_due-alive :
    (o : Option (Timer Callback)) (s : Live) → s.disposed ≡ false → (run_due o s).disposed ≡ false
unfolding run_due
run_due-alive none s alive = alive
run_due-alive (some u) s alive =
    connect-alive (record s { timers = clear_timeout u.handle s.timers }) alive

step-alive : (e : Event) (s : Live) → IsKept e → s.disposed ≡ false → (step e s).disposed ≡ false
unfolding step run_timer
step-alive (opens k) s h alive =
    if_alive (contains k s.open_streams) s (on_open s)
      (ap (λ (c : Core). c.disposed) (on_open-core s alive) ∙ alive) alive
step-alive (fails k) s h alive =
    if_alive (contains k s.open_streams) s (on_error k s)
      (ap (λ (c : Core). c.disposed) (on_error-core k s alive) ∙ alive) alive
step-alive (message k e) s h alive =
    if_alive (contains k s.open_streams) s (on_message e s)
      (same_alive s (on_message e s) (on_message-core e s) alive) alive
step-alive (visibility b) s h alive =
    same_alive s (on_visibility b s) (on_visibility-core b s) alive
step-alive page_hide s h alive = same_alive s (on_page_hide s) (on_page_hide-core s) alive
step-alive page_show s h alive = same_alive s (on_page_show s) (on_page_show-core s) alive
step-alive lease s h alive = same_alive s (tick_lease s) (tick_lease-core s) alive
step-alive fallback s h alive = same_alive s (tick_fallback s) (tick_fallback-core s) alive
step-alive activity_fallback s h alive = same_alive s (tick_activity s) (tick_activity-core s) alive
step-alive timer s h alive = run_due-alive _ s alive
step-alive unmount s h alive = absurd h
step-alive (wait ms) s h alive = alive

-- one connection is open or about to be
abbrev IsConnecting : Live → Type 0
IsConnecting s = IsStreaming (core s) ⊎ IsWaiting (core s)

alive-IsConnecting : (s : Live) → s.disposed ≡ false → IsLive (core s) → IsConnecting s
alive-IsConnecting s alive (inl h) = inl h
alive-IsConnecting s alive (inr (inl h)) = inr h
alive-IsConnecting s alive (inr (inr h)) = absurd (let gone = h.gone in cc)

run-IsConnecting :
    (es : List Event) (s : Live)
    → All IsKept es
    → s.disposed ≡ false
    → IsLive (core s)
    → IsConnecting (run es s)
unfolding run
run-IsConnecting [] s kept alive h = alive-IsConnecting s alive h
run-IsConnecting (e ∷ es) s kept alive h =
    run-IsConnecting es (step e s) kept.1 (step-alive e s kept.0 alive) (IsLive-step e s h)

connecting-IsStreaming :
    (s : Live) → IsConnecting s → IsStreaming (core (run (wait 3000 ∷ timer ∷ []) s))
unfolding run step
connecting-IsStreaming s (inl h) =
    let later = record s { timers = advance 3000 s.timers } in
    rw (run_timer-nil later (unfold advance in h.unset)) (advance-IsStreaming 3000 s h)
connecting-IsStreaming s (inr h) =
    let later = record s { timers = advance 3000 s.timers } in
    let waiting : IsWaiting (core later) = advance-IsWaiting 3000 s h in
    let due : leb waiting.due later.timers.now ≡ true =
      let soon = h.soon in unfold advance in ground arith in
    rw (run_timer-due later _ waiting.set due) (rung-IsStreaming later waiting)

-- After the open connection has failed, no connection is open; whatever happens then, once or more often, as long
-- as the component is not unmounted, one is open again when 3 more seconds have passed and the timer that is due
-- then, if there is one, has run.
pub run-IsStreaming :
    (k : ℕ) (es : List Event) (s : Live)
    → IsLive (core s)
    → contains k s.open_streams ≡ true
    → All IsKept es
    → ((step (fails k) s).open_streams ≡ [])
      × IsStreaming (core (run (wait 3000 ∷ timer ∷ []) (run es (step (fails k) s))))
run-IsStreaming k es s h there kept =
    let streaming = open-IsLive k s h there in
    let waiting : IsWaiting (core (step (fails k) s)) =
      unfold step in
      rw (there, on_error-core k s streaming.alive) (failed-IsWaiting k (core s) streaming there) in
    (
      waiting.closed,
      connecting-IsStreaming (run es (step (fails k) s))
          (run-IsConnecting es (step (fails k) s) kept waiting.alive (inr (inl waiting))),
    )

-- nothing is told of and no connection is opened
abbrev pub IsSilent : Live → Live → Type 0
IsSilent s t = IsStopped (core t) × (t.effects ≡ s.effects) × (t.next_stream ≡ s.next_stream)

IsSilent-same : (s t : Live) → IsStopped (core s) → t ≡ s → IsSilent s t
IsSilent-same s t h e = rw e (h, refl, refl)

deaf : (b : Bool) (s : Live) → IsStopped (core s) → (s.listening && b) ≡ false
deaf b s h = ap (λ c. c && b) h.deaf

on_visibility-IsSilent : (b : Bool) (s : Live) → IsStopped (core s) → IsSilent s (on_visibility b s)
unfolding on_visibility
on_visibility-IsSilent b s h = rw (if_false s.listening _ (record s { visible = b }) h.deaf) (
  record { gone = h.gone; offline = h.offline; deaf = h.deaf; closed = h.closed; unset = h.unset },
  refl,
  refl,
)

step-IsSilent : (e : Event) (s : Live) → IsStopped (core s) → IsSilent s (step e s)
unfolding step on_visibility on_page_hide on_page_show tick_lease tick_fallback tick_activity
step-IsSilent (opens k) s h =
    IsSilent-same s _ h (if_false (contains k s.open_streams) _ s (ap (contains k) h.closed))
step-IsSilent (fails k) s h =
    IsSilent-same s _ h (if_false (contains k s.open_streams) _ s (ap (contains k) h.closed))
step-IsSilent (message k e) s h =
    IsSilent-same s _ h (if_false (contains k s.open_streams) _ s (ap (contains k) h.closed))
step-IsSilent (visibility b) s h = on_visibility-IsSilent b s h
step-IsSilent page_hide s h = IsSilent-same s _ h (if_false s.listening _ s h.deaf)
step-IsSilent page_show s h = IsSilent-same s _ h (if_false s.listening _ s h.deaf)
step-IsSilent lease s h =
    IsSilent-same s _ h (if_false (s.listening && s.visible) _ s (deaf s.visible s h))
step-IsSilent fallback s h =
    IsSilent-same s _ h (if_false (s.listening && not s.connected) _ s (deaf (not s.connected) s h))
step-IsSilent activity_fallback s h = IsSilent-same s _ h (
    if_false (s.listening && not s.connected && s.visible) _ s
      (ap (λ c. c && not s.connected && s.visible) h.deaf))
step-IsSilent timer s h = IsSilent-same s _ h (run_timer-nil s h.unset)
step-IsSilent unmount s h = IsSilent-same s _ h (if_true s.disposed s _ h.gone)
step-IsSilent (wait ms) s h = (advance-IsStopped ms s h, refl, refl)

run-IsSilent : (es : List Event) (s : Live) → IsStopped (core s) → IsSilent s (run es s)
unfolding run
run-IsSilent [] s h = (h, refl, refl)
run-IsSilent (e ∷ es) s h =
    let (stopped, effects, next) = step-IsSilent e s h in
    let (stopped', effects', next') = run-IsSilent es (step e s) stopped in
    (stopped', effects' ∙ effects, next' ∙ next)

-- Once the component has been unmounted, it asks nothing of the program or the server any more and opens
-- no connection, whatever happens; it has no connection and no timer.
pub dispose-IsSilent :
    (es : List Event) (s : Live) → IsLive (core s) → IsSilent (dispose s) (run es (dispose s))
dispose-IsSilent es s h = run-IsSilent es (dispose s) (dispose-IsStopped s h)
