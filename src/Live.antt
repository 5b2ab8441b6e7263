-- ===== src/Live.antt =====
-- frontend/src/components/LiveUpdates.tsx with frontend/src/api/liveSync.ts: the stream of the server's
-- events, its reconnection, and what the events make the program do. A browser calls the handlers of a
-- connection only until it is closed.
pub mod Phases
pub mod Connection
pub mod Closing
pub mod Reconnection
mod Tests
use inboxone.Common.{
  ℕ, ◌+◌, String, Bool, true, false, not, ◌&&◌, ◌||◌, Option, none, some, List, [], ◌∷◌, ◌++◌, ◌==◌,
  if◌then◌else◌, or_else, str_eq, contains, delete,
}
use inboxone.Timers.{Timers, Timer, no_timers, set_timeout, clear_timeout, next_due, advance}
use inboxone.Activity.{WorkItem, Activity, receive_activity, Refresh, start_refresh}

-- What the component asks of the rest of the program and of the server.
pub data Effect : Type 0 where
  invalidate : String → Effect
  trigger : Effect
  presence : Bool → Effect
  last_presence : Effect
  refresh_activity : Refresh → Effect

pub data Callback : Type 0 where
  reconnect : Callback

-- The state of the component and of what it holds: the connections that are open, by number, the one that
-- `stream` names, the timer of the reconnection, and whether the intervals and listeners are in place.
pub record Live : Type 0 where
  pub disposed : Bool
  pub connected : Bool
  pub visible : Bool
  pub stream : Option ℕ
  pub open_streams : List ℕ
  pub next_stream : ℕ
  pub reconnect_timer : Option ℕ
  pub timers : Timers Callback
  pub listening : Bool
  pub activity : Activity
  pub effects : List Effect

abbrev emit : List Effect → Live → Live
emit es s = record s { effects = s.effects ++ es }

abbrev pub invalidations : List Effect
invalidations = invalidate "messages" ∷ invalidate "accounts" ∷ invalidate "connections" ∷ []

unfoldable pub do_refresh : Live → Live
unfolding start_refresh
do_refresh s =
    let (r, t) = start_refresh s.activity in
    record s { activity = t; effects = s.effects ++ refresh_activity r ∷ [] }

unfoldable pub send_presence : Bool → Live → Live
unfolding do_refresh
send_presence refresh_status s =
    let told = emit (presence s.visible ∷ []) s in
    if s.visible && refresh_status then do_refresh told else told

unfoldable pub connect : Live → Live
connect s = if s.disposed then s else record s {
  stream = some s.next_stream;
  open_streams = s.open_streams ++ s.next_stream ∷ [];
  next_stream = s.next_stream + 1;
}

unfoldable pub on_open : Live → Live
on_open s = if s.disposed then s else emit invalidations (record s { connected = true })

-- An event of the stream: its type, and its items where it has some.
pub record StreamEvent : Type 0 where
  pub type_ : String
  pub items : Option (List WorkItem)

receive_items : StreamEvent → Live → Live
unfolding receive_activity
receive_items event s =
    if str_eq event.type_ "activity" || str_eq event.type_ "snapshot"
    then record s { activity = receive_activity (or_else event.items []) s.activity }
    else s

receive_settings : StreamEvent → Live → Live
receive_settings event s =
    if str_eq event.type_ "settings" || str_eq event.type_ "snapshot"
    then emit (invalidate "settings" ∷ []) s
    else s

receive_changes : StreamEvent → Live → Live
receive_changes event s =
    if str_eq event.type_ "snapshot" || str_eq event.type_ "folder" || str_eq event.type_ "folders"
    then emit invalidations s
    else if not (str_eq event.type_ "activity")
    then emit (invalidate "connections" ∷ []) s
    else s

unfoldable pub on_message : StreamEvent → Live → Live
unfolding receive_items receive_settings receive_changes
on_message event s =
    if s.disposed then s else receive_changes event (receive_settings event (receive_items event s))

refresh_if_visible : Live → Live
unfolding do_refresh
refresh_if_visible s = if s.visible then do_refresh s else s

schedule : Live → Live
unfolding set_timeout
schedule s =
    let (handle, timers) = set_timeout reconnect 3000 s.timers in
    record s { reconnect_timer = some handle; timers = timers }

drop_connection : ℕ → Live → Live
unfolding receive_activity
drop_connection k s = record s {
  open_streams = delete k s.open_streams;
  connected = false;
  activity = receive_activity [] s.activity;
}

-- the handler of the connection with this number
unfoldable pub on_error : ℕ → Live → Live
unfolding drop_connection refresh_if_visible schedule
on_error k s = if s.disposed then s else schedule (refresh_if_visible (drop_connection k s))

unfoldable pub on_visibility : Bool → Live → Live
unfolding send_presence
on_visibility visible s =
    let seen = record s { visible = visible } in
    if s.listening then send_presence true seen else seen

unfoldable pub on_page_hide : Live → Live
on_page_hide s = if s.listening then emit (last_presence ∷ []) s else s

pub on_page_show : Live → Live
unfolding send_presence
on_page_show s = if s.listening then send_presence true s else s

-- the three intervals
pub tick_lease : Live → Live
unfolding send_presence
tick_lease s = if s.listening && s.visible then send_presence false s else s

pub tick_fallback : Live → Live
tick_fallback s = if s.listening && not s.connected then emit invalidations s else s

pub tick_activity : Live → Live
unfolding do_refresh
tick_activity s = if s.listening && not s.connected && s.visible then do_refresh s else s

fresh_live : Bool → Activity → Live
unfolding no_timers
fresh_live visible activity = record {
  disposed = false;
  connected = false;
  visible = visible;
  stream = none;
  open_streams = [];
  next_stream = 1;
  reconnect_timer = none;
  timers = no_timers;
  listening = false;
  activity = activity;
  effects = [];
}

start : Live → Live
unfolding send_presence
start s =
    let told = send_presence true s in
    record (if s.visible then emit (trigger ∷ []) told else told) { listening = true }

-- the effect when the component is mounted
unfoldable pub mounted : Bool → Activity → Live
unfolding connect fresh_live start
mounted visible activity = start (connect (fresh_live visible activity))

close_stream : Option ℕ → List ℕ → List ℕ
close_stream none open_streams = open_streams
close_stream (some k) open_streams = delete k open_streams

clear_timer : Option ℕ → Timers Callback → Timers Callback
unfolding clear_timeout
clear_timer none timers = timers
clear_timer (some handle) timers = clear_timeout handle timers

-- the cleanup of the effect
unfoldable pub dispose : Live → Live
unfolding close_stream clear_timer receive_activity
dispose s = record s {
  disposed = true;
  open_streams = close_stream s.stream s.open_streams;
  timers = clear_timer s.reconnect_timer s.timers;
  connected = false;
  listening = false;
  activity = receive_activity [] s.activity;
  effects = s.effects ++ last_presence ∷ [];
}

run_due : Option (Timer Callback) → Live → Live
unfolding connect clear_timeout
run_due none s = s
run_due (some t) s = connect (record s { timers = clear_timeout t.handle s.timers })

unfoldable pub run_timer : Live → Live
unfolding run_due next_due
run_timer s = run_due (next_due s.timers) s

pub data Event : Type 0 where
  opens fails : ℕ → Event
  message : ℕ → StreamEvent → Event
  visibility : Bool → Event
  page_hide page_show lease fallback activity_fallback timer unmount : Event
  wait : ℕ → Event

unfoldable pub step : Event → Live → Live
unfolding on_page_show tick_lease tick_fallback tick_activity
step (opens k) s = if contains k s.open_streams then on_open s else s
step (fails k) s = if contains k s.open_streams then on_error k s else s
step (message k event) s = if contains k s.open_streams then on_message event s else s
step (visibility visible) s = on_visibility visible s
step page_hide s = on_page_hide s
step page_show s = on_page_show s
step lease s = tick_lease s
step fallback s = tick_fallback s
step activity_fallback s = tick_activity s
step timer s = run_timer s
step unmount s = if s.disposed then s else dispose s
step (wait ms) s = record s { timers = advance ms s.timers }

unfoldable pub run : List Event → Live → Live
run [] s = s
run (e ∷ es) s = run es (step e s)
