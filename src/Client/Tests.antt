-- ===== src/Client/Tests.antt =====
-- The client on concrete requests (frontend/src/api/client.ts).
use inboxone.Common.{ℕ, ◌≡◌, refl, Bool, true, false, none, some, List, [], ◌∷◌, str_eq}
use inboxone.Activity.{WorkDescription, WorkItem, initial, local_id, start_refresh, not_ok}
use inboxone.Activity.Local.{receive, shown, run, IsFresh}
use inboxone.Client.{Url, method_post, work_of}
use inboxone.Client.Cache.{KeyPart, word}
use inboxone.Client.Paths.{MessageFilters}
use inboxone.Client.Request.{
  given, Response, Fetched, response, network_error, Result, value, api_error, other_error,
  undefined, perform_request, work_for, succeeds, begin_request, receive_result, end_request,
}
use inboxone.Client.Request.Lifetime.{request-shown_sync}

abbrev refused : Response ℕ
refused = record {
  ok = false;
  status = 404;
  status_text = "Not Found";
  body = some (some "Message not found");
  content = none;
}

abbrev no_response : Fetched ℕ
no_response = network_error

errors :
    (perform_request (response refused) ≡ api_error 404 "Message not found")
    × (perform_request (response (record refused { body = some none })) ≡ api_error 404 "Not Found")
    × (perform_request (response (record refused { body = none })) ≡ api_error 404 "Not Found")
    × (perform_request (response (record refused { ok = true; status = 204 })) ≡ undefined)
    × (perform_request (response (record refused { ok = true; status = 200; content = some 5 }))
        ≡ value 5)
    × (perform_request no_response ≡ other_error)
unfolding perform_request
errors = (refl, refl, refl, refl, refl, refl)

abbrev link : Url
link = record { pathname = "/api/messages/7"; search_params = [] }

abbrev sync : WorkDescription
sync = work_of "Refreshing accounts…" "sync"

initial-IsFresh : IsFresh initial
unfolding initial
initial-IsFresh k h = refl

abbrev denied : Result ℕ
denied = api_error 404 "Not Found"

abbrev done : Result ℕ
done = value 1

request-shown_sync_example :
    let (pending, t) = begin_request (given sync) link method_post initial in
    let (r, u) = start_refresh (run (receive [] ∷ []) t) in
    (receive_result pending done (run (receive [] ∷ []) t) ≡ (some r, u))
    × (shown (local_id 1) (run (receive [] ∷ []) u).local
        ≡ record { id = local_id 1; work = sync } ∷ [])
    × (shown (local_id 1) (run [] (end_request pending r not_ok (run (receive [] ∷ []) u))).local
        ≡ [])
unfolding initial
request-shown_sync_example =
    request-shown_sync (given sync) link method_post sync initial initial-IsFresh
      (unfold work_for in refl) done (receive [] ∷ []) (receive [] ∷ []) [] not_ok (tt, tt) (tt, tt)
      (unfold succeeds in refl)

abbrev job : WorkItem
job = record { id = "s1"; work = sync }

abbrev all_mail : MessageFilters
all_mail = record { account_id = none; folder_id = none; unread_only = false; search = none }

abbrev matches_first : List KeyPart → List KeyPart → Bool
matches_first (word w ∷ []) (word v ∷ rest) = str_eq w v
matches_first _ _ = false
