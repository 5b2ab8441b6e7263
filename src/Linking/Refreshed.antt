-- ===== src/Linking/Refreshed.antt =====
-- How often the accounts are loaded anew (frontend/src/components/OAuthMicrosoftLinkFlow.tsx).
use inboxone.Common.{
  ◌≡◌, refl, ap, ◌∙◌, ℕ, Bool, true, false, Option, none, some, List, [], ◌∷◌, arith, Bool-cases,
  inl, inr,
}
use inboxone.Linking.{
  StartResponse, complete, PollResponse, LinkFlow, mounted, is_running, press_in, mutate, LinkView,
  linked, poll_error, reconnect_form, link_form, poll_is, code_to_enter, view, press_start,
  start_answered, send_poll, receive_poll, Event, set_name, set_color, set_client_id,
  toggle_advanced, press, poll, reconnects, start_ends, poll_ends, step, run,
}
use inboxone.Linking.Protocol.{AreServed, step-Follows, mounted-IsFlow}
use inboxone.Linking.Phases.{IsFlow, unstarted, under_way}

-- how often the accounts are to be made stale
abbrev pub once : Bool → ℕ
once true = 1
once false = 0

abbrev IsCounted : LinkFlow → Type 0
IsCounted s = s.refreshed ≡ once (poll_is complete s.poll_data)

receive-IsCounted :
    (answer : Option PollResponse) (s : LinkFlow)
    → s.polling ≡ true
    → IsFlow s
    → IsCounted s
    → IsCounted (receive_poll answer s)
unfolding receive_poll
receive-IsCounted none s b h k = k
receive-IsCounted (some a) s b (unstarted f d p q) k = cc
receive-IsCounted (some a) s b (under_way f r e g q p p') k = ground arith

press_in-IsCounted : (v : LinkView) (s : LinkFlow) → IsCounted s → IsCounted (press_in v s)
unfolding press_in mutate
press_in-IsCounted (linked text) s k = k
press_in-IsCounted (poll_error text) s k = k
press_in-IsCounted (code_to_enter uri code) s k = k
press_in-IsCounted (reconnect_form e b) s k = ground arith
press_in-IsCounted (link_form e b) s k = ground arith

start_answered-IsCounted :
    (answer : Option StartResponse) (s : LinkFlow)
    → is_running s.start ≡ true
    → IsFlow s
    → IsCounted s
    → IsCounted (start_answered answer s)
unfolding start_answered
start_answered-IsCounted none s b h k = k
start_answered-IsCounted (some r) s b (unstarted f d p q) k =
    k ∙ ap (λ o. once (poll_is complete o)) d
start_answered-IsCounted (some r) s b (under_way f r' e g q p p') k = cc (b, ap is_running q)

step-IsCounted : (e : Event) (s : LinkFlow) → IsFlow s → IsCounted s → IsCounted (step e s)
unfolding step press_start send_poll
step-IsCounted (set_name name) s h k = k
step-IsCounted (set_color color) s h k = k
step-IsCounted (set_client_id id) s h k = k
step-IsCounted toggle_advanced s h k = k
step-IsCounted press s h k = press_in-IsCounted (view s) s k
step-IsCounted poll s h k = ground arith
step-IsCounted reconnects s h k = ground arith
step-IsCounted (start_ends answer) s h k = elim (Bool-cases (is_running s.start)) [
  | inl busy ↦ simp busy (start_answered-IsCounted answer s busy h k)
  | inr other ↦ simp other k
]
step-IsCounted (poll_ends answer) s h k = elim (Bool-cases s.polling) [
  | inl busy ↦ simp busy (receive-IsCounted answer s busy h k)
  | inr other ↦ simp other k
]

run-IsCounted :
    (es : List Event) (s : LinkFlow)
    → AreServed s es
    → IsFlow s
    → IsCounted s
    → IsCounted (run es s)
unfolding run
run-IsCounted [] s v h k = k
run-IsCounted (e ∷ es) s v h k =
    run-IsCounted es (step e s) v.1 (step-Follows e s v.0 h).1 (step-IsCounted e s h k)

-- Whatever happens from the moment the component is there, as long as the server names the flows that it
-- starts and the browser does not come back online after the last answer: the accounts are made stale once, when the account has been linked, and not before.
pub run-refreshed :
    (es : List Event) (id : Option ℕ)
    → AreServed (mounted id) es
    → (run es (mounted id)).refreshed ≡ once (poll_is complete (run es (mounted id)).poll_data)
run-refreshed es id v = run-IsCounted es (mounted id) v (mounted-IsFlow id) refl
