-- ===== src/Client/Request.antt =====
-- `request` and `performRequest` of frontend/src/api/client.ts. What the server sends is a `C`.
pub mod Lifetime
use inboxone.Common.{
  ℕ, String, Bool, true, false, not, ◌&&◌, Option, none, some, ◌==◌, if◌then◌else◌, or_else, str_eq,
}
use inboxone.Activity.{
  WorkDescription, Activity, begin_work, finish_work, Refresh, start_refresh, Reply, finish_refresh,
}
use inboxone.Client.{Url, Method, describe}

-- `options.activity`: left out, `false`, or given
pub data ActivityOption : Type 0 where
  unspecified off : ActivityOption
  given : WorkDescription → ActivityOption

unfoldable pub work_for : ActivityOption → Url → Method → Option WorkDescription
work_for unspecified url method = describe url method
work_for off url method = none
work_for (given work) url method = some work

-- What `fetch` comes to: it fails, or there is a response. `body` is the field `detail` of a JSON body, and
-- `none` where the body is no JSON; `content` is the body as the caller wants it, if it can be read.
pub record Response (C : Type 0) : Type 0 where
  pub ok : Bool
  pub status : ℕ
  pub status_text : String
  pub body : Option (Option String)
  pub content : Option C

pub data Fetched (C : Type 0) : Type 0 where
  network_error : Fetched C
  response : Response C → Fetched C

-- How `performRequest` ends.
pub data Result (C : Type 0) : Type 0 where
  value : C → Result C
  undefined : Result C
  api_error : ℕ → String → Result C
  other_error : Result C

detail_of : Option (Option String) → String → String
detail_of none status_text = status_text
detail_of (some detail) status_text = or_else detail status_text

module _ {C : Type 0} where
  content_of : Option C → Result C
  content_of none = other_error
  content_of (some content) = value content

  unfoldable pub perform_request : Fetched C → Result C
  unfolding detail_of content_of
  perform_request network_error = other_error
  perform_request (response res) =
      if not res.ok
      then api_error res.status (detail_of res.body res.status_text)
      else if res.status == 204
      then undefined
      else content_of res.content

  unfoldable pub succeeds : Result C → Bool
  succeeds (value _) = true
  succeeds undefined = true
  succeeds (api_error _ _) = false
  succeeds other_error = false

-- The request's work, and the id that it is listed under.
pub record Pending : Type 0 where
  pub work : WorkDescription
  pub id : String

-- `request` up to its first `await`
unfoldable pub begin_for : Option WorkDescription → Activity → Option Pending × Activity
begin_for none s = (none, s)
begin_for (some work) s =
    let (id, t) = begin_work work s in (some (record { work = work; id = id }), t)

unfoldable pub begin_request : ActivityOption → Url → Method → Activity → Option Pending × Activity
unfolding begin_for
begin_request activity url method s = begin_for (work_for activity url method) s

finish_for : Option Pending → Activity → Activity
finish_for none s = s
finish_for (some pending) s = finish_work pending.id s

is_sync : Option Pending → Bool
is_sync none = false
is_sync (some pending) = str_eq pending.work.kind "sync"

-- `request` once `performRequest` has ended: it is over, or the activity is refreshed first
unfoldable pub receive_result :
    {C : Type 0} → Option Pending → Result C → Activity → Option Refresh × Activity
unfolding is_sync finish_for succeeds
receive_result pending result s =
    if succeeds result && is_sync pending
    then (let (r, t) = start_refresh s in (some r, t))
    else (none, finish_for pending s)

-- `request` once the refresh has ended
unfoldable pub end_request : Option Pending → Refresh → Reply → Activity → Activity
unfolding finish_for
end_request pending r reply s = finish_for pending (finish_refresh r reply s)
