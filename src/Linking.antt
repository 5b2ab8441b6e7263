-- ===== src/Linking.antt =====
-- Linking a Microsoft account by a device code: frontend/src/api/useMicrosoftOAuth.ts and
-- frontend/src/components/OAuthMicrosoftLinkFlow.tsx.
pub mod Protocol
pub mod Phases
pub mod Settled
pub mod Refreshed
mod Tests
use inboxone.Common.{
  ℕ, ◌+◌, String, Bool, true, false, not, ◌&&◌, ◌||◌, Option, none, some, List, [], ◌∷◌, ◌++◌,
  filled, filled?, truthy?, is_some, or_text, if◌then◌else◌,
}
use inboxone.Types.{Segment}
use inboxone.Client.Paths.{Call, oauth_start, oauth_reconnect, oauth_poll}

pub record StartResponse : Type 0 where
  pub flow_id : Segment
  pub user_code : String
  pub verification_uri : String
  pub expires_in : ℕ

pub data PollStatus : Type 0 where
  pending complete error : PollStatus

pub record PollResponse : Type 0 where
  pub status : PollStatus
  pub error_text : Option String
  pub account_id : Option ℕ

-- where the last call of a mutation stands, with its answer
pub data StartState : Type 0 where
  idle running refused : StartState
  started : StartResponse → StartState

-- the body of the request that starts a flow; a field that is left out is `none`
pub record StartPayload : Type 0 where
  pub name : Option String
  pub color : Option String
  pub client_id : Option String
  pub tenant : Option String

-- The form, the request that starts the flow, the flow's id, and the query that polls it: what it has, whether
-- a request of it is under way and whether one has been made. `sent` are the requests made so far, the last
-- one first, and `refreshed` says how often the accounts have been made stale.
pub record LinkFlow : Type 0 where
  pub reconnect_account_id : Option ℕ
  pub name : String
  pub color : String
  pub show_advanced : Bool
  pub client_id : String
  pub start : StartState
  pub flow_id : Option Segment
  pub poll_data : Option PollResponse
  pub polling : Bool
  pub polled : Bool
  pub sent : List Call
  pub refreshed : ℕ

abbrev pub mounted : Option ℕ → LinkFlow
mounted reconnect_account_id = record {
  reconnect_account_id = reconnect_account_id;
  name = "";
  color = "#0F6CBD";
  show_advanced = false;
  client_id = "";
  start = idle;
  flow_id = none;
  poll_data = none;
  polling = false;
  polled = false;
  sent = [];
  refreshed = 0;
}

abbrev is_running : StartState → Bool
is_running running = true
is_running _ = false

abbrev is_refused : StartState → Bool
is_refused refused = true
is_refused _ = false

abbrev pub status_is : PollStatus → PollStatus → Bool
status_is pending pending = true
status_is complete complete = true
status_is error error = true
status_is _ _ = false

-- `poll.data?.status === status`
abbrev pub poll_is : PollStatus → Option PollResponse → Bool
poll_is status none = false
poll_is status (some data_) = status_is data_.status status

-- What the component shows: the account is linked; the code to enter; the error; or a form with a button.
pub data LinkView : Type 0 where
  linked : String → LinkView
  poll_error : Option String → LinkView
  code_to_enter : String → String → LinkView
  reconnect_form link_form : (error_shown button_disabled : Bool) → LinkView

pub linked_text : Option ℕ → String
linked_text reconnect_account_id =
    if truthy? reconnect_account_id
    then "Reconnected successfully."
    else "Account linked successfully."

error_of : Option PollResponse → Option String
error_of none = none
error_of (some data_) = data_.error_text

form_view : LinkFlow → LinkView
form_view s =
    if truthy? s.reconnect_account_id
    then reconnect_form (is_refused s.start) (is_running s.start)
    else link_form (is_refused s.start) (not (filled s.name) || is_running s.start)

has_text : Option Segment → Bool
has_text none = false
has_text (some segment) = filled segment.text

flow_view : StartState → LinkFlow → LinkView
unfolding form_view error_of has_text
flow_view (started response) s =
    if has_text s.flow_id
    then (if poll_is error s.poll_data
        then poll_error (error_of s.poll_data)
        else code_to_enter response.verification_uri response.user_code)
    else form_view s
flow_view _ s = form_view s

unfoldable pub view : LinkFlow → LinkView
unfolding linked_text flow_view
view s =
    if poll_is complete s.poll_data
    then linked (linked_text s.reconnect_account_id)
    else flow_view s.start s

-- `start.mutate`: the call, by whether an account is reconnected
start_call : Option ℕ → Call
start_call none = oauth_start
start_call (some id) = if truthy? (some id) then oauth_reconnect id else oauth_start

mutate : LinkFlow → LinkFlow
unfolding start_call
mutate s = record s { start = running; sent = start_call s.reconnect_account_id ∷ s.sent }

-- a press of the button of a view, where it has one that is not disabled
press_in : LinkView → LinkFlow → LinkFlow
unfolding mutate
press_in (reconnect_form _ button_disabled) s = if button_disabled then s else mutate s
press_in (link_form _ button_disabled) s = if button_disabled then s else mutate s
press_in _ s = s

unfoldable pub press_start : LinkFlow → LinkFlow
unfolding press_in view
press_start s = press_in (view s) s

-- the body that a press of a form's button sends; that which reconnects sends none
unfoldable pub start_payload : LinkFlow → Option StartPayload
start_payload s =
    if truthy? s.reconnect_account_id
    then none
    else some (record {
      name = some s.name;
      color = some s.color;
      client_id = if filled s.client_id then some s.client_id else none;
      tenant = some "common";
    })

-- the answer to the request that starts a flow; `onSuccess` sets the flow's id, and with it the query's key
start_answered : Option StartResponse → LinkFlow → LinkFlow
start_answered none s = record s { start = refused }
start_answered (some response) s = record s {
  start = started response;
  flow_id = some response.flow_id;
  poll_data = none;
  polling = false;
  polled = false;
}

-- `refetchInterval`, in milliseconds
abbrev pub refetch_interval : Option PollResponse → Option ℕ
refetch_interval data_ = if poll_is pending data_ then some 3000 else none

-- The query makes its first request when it is enabled, and a further one when the interval has passed.
unfoldable pub poll_due : LinkFlow → Bool
poll_due s =
    is_some s.flow_id && not s.polling && (not s.polled || is_some (refetch_interval s.poll_data))

-- The query's defaults: what it has is stale at once, and it asks again when the browser is back online.
unfoldable pub reconnect_due : LinkFlow → Bool
reconnect_due s = is_some s.flow_id && not s.polling

poll_call : Option Segment → List Call → List Call
poll_call none sent = sent
poll_call (some flow_id) sent = oauth_poll flow_id ∷ sent

unfoldable pub send_poll : LinkFlow → LinkFlow
unfolding poll_call
send_poll s = record s { polling = true; polled = true; sent = poll_call s.flow_id s.sent }

-- The answer of a poll, `none` if it has failed, and the effect on a changed status. A query keeps what it has
-- when a request fails.
unfoldable pub receive_poll : Option PollResponse → LinkFlow → LinkFlow
receive_poll none s = record s { polling = false }
receive_poll (some data_) s = record s {
  polling = false;
  poll_data = some data_;
  refreshed =
      if status_is data_.status complete && not (poll_is complete s.poll_data)
      then s.refreshed + 1
      else s.refreshed;
}

pub data Event : Type 0 where
  set_name set_color set_client_id : String → Event
  toggle_advanced press poll reconnects : Event
  start_ends : Option StartResponse → Event
  poll_ends : Option PollResponse → Event

unfoldable pub step : Event → LinkFlow → LinkFlow
unfolding start_answered
step (set_name name) s = record s { name = name }
step (set_color color) s = record s { color = color }
step (set_client_id client_id) s = record s { client_id = client_id }
step toggle_advanced s = record s { show_advanced = not s.show_advanced }
step press s = press_start s
step poll s = if poll_due s then send_poll s else s
step reconnects s = if reconnect_due s then send_poll s else s
step (start_ends answer) s = if is_running s.start then start_answered answer s else s
step (poll_ends answer) s = if s.polling then receive_poll answer s else s

unfoldable pub run : List Event → LinkFlow → LinkFlow
run [] s = s
run (e ∷ es) s = run es (step e s)
