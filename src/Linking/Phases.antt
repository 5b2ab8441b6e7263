-- ===== src/Linking/Phases.antt =====
-- The phases of the flow that links a Microsoft account, as an abstract machine (frontend/src/api/useMicrosoftOAuth.ts).
use inboxone.Common.{◌||◌, ◌≡◌, Bool, true, false, not, ◌&&◌, Option, none, some, filled, is_some}
use inboxone.Types.{Segment}
use inboxone.Linking.{
  StartResponse, PollStatus, pending, complete, error, PollResponse, StartState, idle, running,
  refused, started, LinkFlow, poll_is,
}

pub data Phase : Type 0 where
  ready asking done failed : Phase
  waiting : StartResponse → Phase

-- What may follow what.
pub data Move : Phase → Phase → Type 0 where
  stay : {p : Phase} → Move p p
  begin : Move ready asking
  give_up : Move asking ready
  show_code : (r : StartResponse) → Move asking (waiting r)
  link : (r : StartResponse) → Move (waiting r) done
  fail : (r : StartResponse) → Move (waiting r) failed

pub data Moves : Phase → Phase → Type 0 where
  here : {p : Phase} → Moves p p
  next : {p q r : Phase} → Move p q → Moves q r → Moves p r

unfoldable pub status_phase : PollStatus → StartResponse → Phase
status_phase pending r = waiting r
status_phase complete r = done
status_phase error r = failed

unfoldable pub poll_phase : Option PollResponse → StartResponse → Phase
unfolding status_phase
poll_phase none r = waiting r
poll_phase (some d) r = status_phase d.status r

start_phase : StartState → Option PollResponse → Phase
unfolding poll_phase
start_phase idle d = ready
start_phase refused d = ready
start_phase running d = asking
start_phase (started r) d = poll_phase d r

-- the phase that a state stands for
unfoldable pub phase : LinkFlow → Phase
unfolding start_phase
phase s = start_phase s.start s.poll_data

abbrev pub is_started : StartState → Bool
is_started (started _) = true
is_started _ = false

-- the query has had a last answer
abbrev pub is_settled : Option PollResponse → Bool
is_settled data_ = poll_is complete data_ || poll_is error data_

-- A flow has an id once it has been started, and only then; nothing is polled before, nor once there is a last
-- answer.
pub data IsFlow (s : LinkFlow) : Type 0 where
  unstarted :
      s.flow_id ≡ none
      → s.poll_data ≡ none
      → s.polling ≡ false
      → is_started s.start ≡ false
      → IsFlow s
  under_way :
      (f : Segment) (r : StartResponse)
      → s.flow_id ≡ some f
      → filled f.text ≡ true
      → s.start ≡ started r
      → (s.polling && is_settled s.poll_data) ≡ false
      → (not s.polled && (s.polling || is_some s.poll_data)) ≡ false
      → IsFlow s

-- one step of the code is one move of the flow
abbrev pub Follows : LinkFlow → LinkFlow → Type 0
Follows s t = Move (phase s) (phase t) × IsFlow t
