-- ===== src/Live/Phases.antt =====
-- What the connection of frontend/src/components/LiveUpdates.tsx can be, and the handlers that leave it
-- alone.
use inboxone.Common.{
  ℕ, ◌+◌, ◌≤◌, ◌≡◌, refl, ap, ◌∙◌, ◌⊎◌, Bool, true, false, not, ◌&&◌, ◌||◌, Option, some, List, [],
  ◌∷◌, ◌++◌, if◌then◌else◌, if_false, delete, str_eq,
}
use inboxone.Timers.{Timers, set_timeout}
use inboxone.Live.{
  Callback, reconnect, Live, do_refresh, send_presence, connect, on_open, StreamEvent,
  receive_items, receive_settings, receive_changes, on_message, refresh_if_visible, schedule,
  drop_connection, on_error, on_visibility, on_page_hide, on_page_show, tick_lease, tick_fallback,
  tick_activity,
}

-- the part of the state that the connection is
pub record Core : Type 0 where
  pub disposed : Bool
  pub connected : Bool
  pub listening : Bool
  pub stream : Option ℕ
  pub open_streams : List ℕ
  pub reconnect_timer : Option ℕ
  pub timers : Timers Callback

abbrev pub core : Live → Core
core s = record {
  disposed = s.disposed;
  connected = s.connected;
  listening = s.listening;
  stream = s.stream;
  open_streams = s.open_streams;
  reconnect_timer = s.reconnect_timer;
  timers = s.timers;
}

-- one connection is open, and no timer is set
pub record IsStreaming (c : Core) : Type 0 where
  pub alive : c.disposed ≡ false
  pub number : ℕ
  pub named : c.stream ≡ some number
  pub single : c.open_streams ≡ number ∷ []
  pub unset : c.timers.active ≡ []

-- no connection is open, and one timer is set to open the next
pub record IsWaiting (c : Core) : Type 0 where
  pub alive : c.disposed ≡ false
  pub offline : c.connected ≡ false
  pub closed : c.open_streams ≡ []
  pub handle : ℕ
  pub due : ℕ
  pub named : c.reconnect_timer ≡ some handle
  pub set : c.timers.active ≡ record { handle = handle; due = due; callback = reconnect } ∷ []
  pub soon : due ≤ c.timers.now + 3000

-- the component is gone, with its connection and its timer
pub record IsStopped (c : Core) : Type 0 where
  pub gone : c.disposed ≡ true
  pub offline : c.connected ≡ false
  pub deaf : c.listening ≡ false
  pub closed : c.open_streams ≡ []
  pub unset : c.timers.active ≡ []

abbrev pub IsLive : Core → Type 0
IsLive c = IsStreaming c ⊎ IsWaiting c ⊎ IsStopped c

-- what leaves the connection alone
pub if-core :
    (b : Bool) (s t : Live) (c : Core) → core s ≡ c → core t ≡ c → core (if b then s else t) ≡ c
if-core true s t c h k = h
if-core false s t c h k = k

pub send_presence-core : (b : Bool) (s : Live) → core (send_presence b s) ≡ core s
unfolding send_presence do_refresh
send_presence-core b s = if-core (s.visible && b) _ _ (core s) refl refl

receive_items-core : (e : StreamEvent) (s : Live) → core (receive_items e s) ≡ core s
unfolding receive_items
receive_items-core e s =
    if-core (str_eq e.type_ "activity" || str_eq e.type_ "snapshot") _ _ (core s) refl refl

receive_settings-core : (e : StreamEvent) (s : Live) → core (receive_settings e s) ≡ core s
unfolding receive_settings
receive_settings-core e s =
    if-core (str_eq e.type_ "settings" || str_eq e.type_ "snapshot") _ _ (core s) refl refl

receive_changes-core : (e : StreamEvent) (s : Live) → core (receive_changes e s) ≡ core s
unfolding receive_changes
receive_changes-core e s =
    if-core (str_eq e.type_ "snapshot" || str_eq e.type_ "folder" || str_eq e.type_ "folders") _ _
      (core s) refl (if-core (not (str_eq e.type_ "activity")) _ _ (core s) refl refl)

pub on_message-core : (e : StreamEvent) (s : Live) → core (on_message e s) ≡ core s
unfolding on_message
on_message-core e s =
    let first = receive_items e s in
    let second = receive_settings e first in
    if-core s.disposed s (receive_changes e second) (core s) refl
      (receive_changes-core e second ∙ receive_settings-core e first ∙ receive_items-core e s)

pub on_visibility-core : (b : Bool) (s : Live) → core (on_visibility b s) ≡ core s
unfolding on_visibility
on_visibility-core b s =
    let seen = record s { visible = b } in
    if-core s.listening (send_presence true seen) seen (core s) (send_presence-core true seen) refl

pub on_page_hide-core : (s : Live) → core (on_page_hide s) ≡ core s
unfolding on_page_hide
on_page_hide-core s = if-core s.listening _ _ (core s) refl refl

pub on_page_show-core : (s : Live) → core (on_page_show s) ≡ core s
unfolding on_page_show
on_page_show-core s =
    if-core s.listening (send_presence true s) s (core s) (send_presence-core true s) refl

pub tick_lease-core : (s : Live) → core (tick_lease s) ≡ core s
unfolding tick_lease
tick_lease-core s =
    if-core (s.listening && s.visible) (send_presence false s) s (core s)
      (send_presence-core false s) refl

pub tick_fallback-core : (s : Live) → core (tick_fallback s) ≡ core s
unfolding tick_fallback
tick_fallback-core s = if-core (s.listening && not s.connected) _ _ (core s) refl refl

pub tick_activity-core : (s : Live) → core (tick_activity s) ≡ core s
unfolding tick_activity do_refresh
tick_activity-core s = if-core (s.listening && not s.connected && s.visible) _ _ (core s) refl refl

-- the state after the connection with this number has failed
abbrev pub failed : ℕ → Core → Core
failed k c = record c {
  connected = false;
  open_streams = delete k c.open_streams;
  reconnect_timer = some c.timers.next_handle;
  timers = (set_timeout reconnect 3000 c.timers).1;
}

refresh_if_visible-core : (s : Live) → core (refresh_if_visible s) ≡ core s
unfolding refresh_if_visible do_refresh
refresh_if_visible-core s = if-core s.visible _ _ (core s) refl refl

schedule-core :
    (s : Live)
    → core (schedule s) ≡ record (core s) {
      reconnect_timer = some s.timers.next_handle;
      timers = (set_timeout reconnect 3000 s.timers).1;
    }
unfolding schedule set_timeout
schedule-core s = refl

pub on_error-core :
    (k : ℕ) (s : Live) → s.disposed ≡ false → core (on_error k s) ≡ failed k (core s)
unfolding on_error
on_error-core k s alive =
    let dropped = drop_connection k s in
    ap core (if_false s.disposed s (schedule (refresh_if_visible dropped)) alive)
    ∙ schedule-core (refresh_if_visible dropped)
    ∙ ap
        (λ (c : Core). record c {
          reconnect_timer = some c.timers.next_handle;
          timers = (set_timeout reconnect 3000 c.timers).1;
        })
        (refresh_if_visible-core dropped ∙ unfold drop_connection in refl)

pub on_open-core :
    (s : Live) → s.disposed ≡ false → core (on_open s) ≡ record (core s) { connected = true }
unfolding on_open
on_open-core s alive = ap core (if_false s.disposed s _ alive)

pub connect-core :
    (s : Live)
    → s.disposed ≡ false
    → core (connect s) ≡ record (core s) {
      stream = some s.next_stream;
      open_streams = s.open_streams ++ s.next_stream ∷ [];
    }
unfolding connect
connect-core s alive = ap core (if_false s.disposed s _ alive)
