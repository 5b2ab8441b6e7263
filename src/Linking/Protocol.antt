-- ===== src/Linking/Protocol.antt =====
-- The linking of an account as the device-code flow that it stands for
-- (frontend/src/api/useMicrosoftOAuth.ts and frontend/src/components/OAuthMicrosoftLinkFlow.tsx).
use inboxone.Common.{
  ◌||◌, truthy?, ◌≡◌, refl, ap, ℕ, true, false, not, Option, none, some, List, [], ◌∷◌, arith,
  filled, is_some, Bool-cases, inl, inr,
}
use inboxone.Types.{Segment}
use inboxone.Linking.{
  StartResponse, PollStatus, pending, complete, error, PollResponse, StartState, idle, running,
  refused, started, LinkFlow, mounted, is_running, status_is, poll_is, view, flow_view, has_text,
  form_view, mutate, press_in, press_start, start_answered, poll_due, reconnect_due, send_poll,
  receive_poll, Event, set_name, set_color, set_client_id, toggle_advanced, press, poll, reconnects,
  start_ends, poll_ends, step, run,
}
use inboxone.Linking.Phases.{
  waiting, Move, stay, begin, give_up, show_code, link, fail, Moves, here, next, status_phase,
  poll_phase, phase, is_started, is_settled, IsFlow, unstarted, under_way, Follows,
}

-- The phases of the flow as the user knows them.

data Pressed (s : LinkFlow) : LinkFlow → Type 0 where
  nothing : Pressed s s
  starts : is_running s.start ≡ false → Pressed s (mutate s)

press_form : (s : LinkFlow) → Pressed s (press_in (form_view s) s)
unfolding form_view press_in
press_form s = elim (Bool-cases (truthy? s.reconnect_account_id)) [
  | inl again ↦ elim (Bool-cases (is_running s.start)) [
    | inl busy ↦ rw (again, busy) nothing
    | inr idle_ ↦ rw (again, idle_) (starts idle_)
  ]
  | inr new ↦ elim (Bool-cases (not (filled s.name) || is_running s.start)) [
    | inl disabled ↦ rw (new, disabled) nothing
    | inr enabled ↦ rw (new, enabled) (starts (ground arith))
  ]
]

flow_view-form :
    (r : StartState) (s : LinkFlow) → is_started r ≡ false → flow_view r s ≡ form_view s
unfolding flow_view
flow_view-form idle s k = refl
flow_view-form running s k = refl
flow_view-form refused s k = refl
flow_view-form (started r) s k = cc

press_unstarted :
    (s : LinkFlow) → s.poll_data ≡ none → is_started s.start ≡ false → Pressed s (press_start s)
unfolding press_start view
press_unstarted s d k = simp (ap (poll_is complete) d, flow_view-form s.start s k) (press_form s)

pub press_under_way :
    (f : Segment) (r : StartResponse) (s : LinkFlow)
    → s.flow_id ≡ some f
    → filled f.text ≡ true
    → s.start ≡ started r
    → press_start s ≡ s
unfolding press_start view flow_view press_in has_text
press_under_way f r s e h k = rw (e, k, h) (ground arith)

Pressed-Follows :
    {s t : LinkFlow} (r : StartState)
    → s.start ≡ r
    → s.flow_id ≡ none
    → s.poll_data ≡ none
    → s.polling ≡ false
    → is_started r ≡ false
    → Pressed s t
    → Follows s t
unfolding mutate phase
Pressed-Follows r e f d p k nothing = (stay, unstarted f d p (rw e k))
Pressed-Follows idle e f d p k (starts h) = (rw e begin, unstarted f d p refl)
Pressed-Follows refused e f d p k (starts h) = (rw e begin, unstarted f d p refl)
Pressed-Follows running e f d p k (starts h) = cc (ap is_running e)
Pressed-Follows (started r) e f d p k (starts h) = cc

press-Follows : (s : LinkFlow) → IsFlow s → Follows s (press_start s)
press-Follows s (unstarted f d p k) = Pressed-Follows s.start refl f d p k (press_unstarted s d k)
press-Follows s (under_way f r e h k q q') =
    rw (press_under_way f r s e h k) (stay, under_way f r e h k q q')

-- An answer of the server that starts a flow names it, and the browser is not back online after the flow's end.
abbrev pub IsServed : LinkFlow → Event → Type 0
IsServed s (start_ends (some r)) = filled r.flow_id.text ≡ true
IsServed s reconnects = is_settled s.poll_data ≡ false
IsServed s _ = Unit

abbrev pub AreServed : LinkFlow → List Event → Type 0
AreServed s [] = Unit
AreServed s (e ∷ es) = IsServed s e × AreServed (step e s) es

running_start : (r : StartState) → is_running r ≡ true → r ≡ running
running_start running h = refl
running_start idle h = cc
running_start refused h = cc
running_start (started r) h = cc

start_answered-Follows :
    (answer : Option StartResponse) (s : LinkFlow)
    → IsServed s (start_ends answer)
    → s.start ≡ running
    → IsFlow s
    → Follows s (start_answered answer s)
unfolding start_answered phase
start_answered-Follows none s v e (unstarted f d p k) = (rw e give_up, unstarted f d p refl)
start_answered-Follows (some r) s v e (unstarted f d p k) =
    (rw e (show_code r), under_way r.flow_id r refl v refl refl refl)
start_answered-Follows answer s v e (under_way f r e' h k q q') = cc

send_poll-Follows : (s : LinkFlow) → poll_due s ≡ true → IsFlow s → Follows s (send_poll s)
unfolding send_poll poll_due phase
send_poll-Follows s due (unstarted f d p k) = cc (due, ap is_some f)
send_poll-Follows s due (under_way f r e h k q q') = (stay, under_way f r e h k (ground arith) refl)

reconnect-Follows :
    (s : LinkFlow)
    → reconnect_due s ≡ true
    → is_settled s.poll_data ≡ false
    → IsFlow s
    → Follows s (send_poll s)
unfolding send_poll reconnect_due phase
reconnect-Follows s due open_ (unstarted f d p k) = cc (due, ap is_some f)
reconnect-Follows s due open_ (under_way f r e h k q q') =
    (stay, under_way f r e h k (ground arith) refl)

status_phase-waiting :
    (status : PollStatus) (r : StartResponse)
    → (status_is status complete || status_is status error) ≡ false
    → status_phase status r ≡ waiting r
unfolding status_phase
status_phase-waiting pending r h = refl
status_phase-waiting complete r h = cc
status_phase-waiting error r h = cc

poll_phase-waiting :
    (d : Option PollResponse) (r : StartResponse)
    → is_settled d ≡ false
    → poll_phase d r ≡ waiting r
unfolding poll_phase
poll_phase-waiting none r h = refl
poll_phase-waiting (some d) r h = status_phase-waiting d.status r h

waiting-Move : (status : PollStatus) (r : StartResponse) → Move (waiting r) (status_phase status r)
unfolding status_phase
waiting-Move pending r = stay
waiting-Move complete r = link r
waiting-Move error r = fail r

receive_poll-Follows :
    (answer : Option PollResponse) (s : LinkFlow)
    → s.polling ≡ true
    → IsFlow s
    → Follows s (receive_poll answer s)
unfolding receive_poll phase
receive_poll-Follows answer s b (unstarted f d p k) = cc
receive_poll-Follows none s b (under_way f r e h k q q') =
    (stay, under_way f r e h k refl (ground arith))
receive_poll-Follows (some a) s b (under_way f r e h k q q') = (
  rw (k, poll_phase-waiting s.poll_data r (ground arith)) (waiting-Move a.status r),
  under_way f r e h k refl (ground arith),
)

-- Each event makes one move of the flow at most.
pub step-Follows : (e : Event) (s : LinkFlow) → IsServed s e → IsFlow s → Follows s (step e s)
unfolding step phase
step-Follows (set_name name) s v (unstarted f d p k) = (stay, unstarted f d p k)
step-Follows (set_name name) s v (under_way f r e h k q q') = (stay, under_way f r e h k q q')
step-Follows (set_color color) s v (unstarted f d p k) = (stay, unstarted f d p k)
step-Follows (set_color color) s v (under_way f r e h k q q') = (stay, under_way f r e h k q q')
step-Follows (set_client_id id) s v (unstarted f d p k) = (stay, unstarted f d p k)
step-Follows (set_client_id id) s v (under_way f r e h k q q') = (stay, under_way f r e h k q q')
step-Follows toggle_advanced s v (unstarted f d p k) = (stay, unstarted f d p k)
step-Follows toggle_advanced s v (under_way f r e h k q q') = (stay, under_way f r e h k q q')
step-Follows press s v h = unfold phase in press-Follows s h
step-Follows poll s v h = elim (Bool-cases (poll_due s)) [
  | inl due ↦ simp due (send_poll-Follows s due h)
  | inr early ↦ simp early (stay, h)
]
step-Follows reconnects s v h = elim (Bool-cases (reconnect_due s)) [
  | inl due ↦ simp due (reconnect-Follows s due v h)
  | inr early ↦ simp early (stay, h)
]
step-Follows (start_ends answer) s v h = elim (Bool-cases (is_running s.start)) [
  | inl busy ↦ simp busy (start_answered-Follows answer s v (running_start s.start busy) h)
  | inr other ↦ simp other (stay, h)
]
step-Follows (poll_ends answer) s v h = elim (Bool-cases s.polling) [
  | inl busy ↦ simp busy (receive_poll-Follows answer s busy h)
  | inr other ↦ simp other (stay, h)
]

-- Whatever the user does, whatever the server answers and however slow it is, as long as it names the flows
-- that it starts and the browser does not come back online after the flow's last answer: from the moment the
-- component is there, the flow goes through its phases in their order. It is ready, asks for a code, shows it, and
-- ends linked or failed, for good; only a refused start returns to the beginning.
pub run-Moves :
    (es : List Event) (s : LinkFlow)
    → AreServed s es
    → IsFlow s
    → Moves (phase s) (phase (run es s)) × IsFlow (run es s)
unfolding run
run-Moves [] s v h = (here, h)
run-Moves (e ∷ es) s v h =
    let (move, kept) = step-Follows e s v.0 h in
    let (rest, last) = run-Moves es (step e s) v.1 kept in (next move rest, last)

pub mounted-IsFlow : (id : Option ℕ) → IsFlow (mounted id)
mounted-IsFlow id = unstarted refl refl refl refl
