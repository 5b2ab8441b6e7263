-- ===== src/Linking/Settled.antt =====
-- When the polling of a flow ends, and what is shown and asked then
-- (frontend/src/api/useMicrosoftOAuth.ts and frontend/src/components/OAuthMicrosoftLinkFlow.tsx).
use inboxone.Common.{
  ◌≡◌, refl, ap, ◌∙◌, String, true, false, Option, none, some, List, [], ◌∷◌, arith, filled,
  is_some, All,
}
use inboxone.Client.Paths.{oauth_poll}
use inboxone.Types.{Segment}
use inboxone.Linking.{
  StartResponse, pending, complete, error, linked, linked_text, poll_error, error_of, reconnect_due,
  send_poll, poll_call, PollResponse, started, LinkFlow, poll_is, code_to_enter, flow_view,
  has_text, view, poll_due, receive_poll, Event, set_name, set_color, set_client_id,
  toggle_advanced, press, poll, reconnects, start_ends, poll_ends, step, run,
}
use inboxone.Linking.Protocol.{press_under_way}
use inboxone.Linking.Phases.{is_settled, IsFlow, unstarted, under_way}

-- A code has been asked for, no poll is under way, and there is no interval for a next one.
pub record IsStopped (f : Segment) (r : StartResponse) (s : LinkFlow) : Type 0 where
  pub has_id : s.flow_id ≡ some f
  pub id_filled : filled f.text ≡ true
  pub has_started : s.start ≡ started r
  pub is_quiet : s.polling ≡ false
  pub was_polled : s.polled ≡ true
  pub not_pending : poll_is pending s.poll_data ≡ false

-- what a later state has of an earlier one
pub record IsSame (s t : LinkFlow) : Type 0 where
  pub same_view : view t ≡ view s
  pub same_sent : t.sent ≡ s.sent
  pub same_data : t.poll_data ≡ s.poll_data
  pub same_refreshed : t.refreshed ≡ s.refreshed

IsSame-refl : (s : LinkFlow) → IsSame s s
IsSame-refl s = record {
  same_view = refl;
  same_sent = refl;
  same_data = refl;
  same_refreshed = refl;
}

IsSame-trans : {s t u : LinkFlow} → IsSame s t → IsSame t u → IsSame s u
IsSame-trans h k = record {
  same_view = k.same_view ∙ h.same_view;
  same_sent = k.same_sent ∙ h.same_sent;
  same_data = k.same_data ∙ h.same_data;
  same_refreshed = k.same_refreshed ∙ h.same_refreshed;
}

view_under_way :
    {f : Segment} {r : StartResponse} (s t : LinkFlow)
    → IsStopped f r s
    → t.flow_id ≡ s.flow_id
    → t.start ≡ s.start
    → t.poll_data ≡ s.poll_data
    → t.reconnect_account_id ≡ s.reconnect_account_id
    → view t ≡ view s
unfolding view flow_view has_text
view_under_way s t h a b c d = simp (b, c, d, h.has_started, a, h.has_id, h.id_filled)

edited :
    {f : Segment} {r : StartResponse} (s t : LinkFlow)
    → IsStopped f r s
    → t.flow_id ≡ s.flow_id
    → t.start ≡ s.start
    → t.poll_data ≡ s.poll_data
    → t.reconnect_account_id ≡ s.reconnect_account_id
    → t.polling ≡ s.polling
    → t.polled ≡ s.polled
    → t.sent ≡ s.sent
    → t.refreshed ≡ s.refreshed
    → IsSame s t × IsStopped f r t
edited s t h id start data_ again polling polled sent refreshed = (
  record {
    same_view = view_under_way s t h id start data_ again;
    same_sent = sent;
    same_data = data_;
    same_refreshed = refreshed;
  },
  record {
    has_id = id ∙ h.has_id;
    id_filled = h.id_filled;
    has_started = start ∙ h.has_started;
    is_quiet = polling ∙ h.is_quiet;
    was_polled = polled ∙ h.was_polled;
    not_pending = ap (poll_is pending) data_ ∙ h.not_pending;
  },
)

-- the browser is not back online after having been offline
abbrev pub IsSteady : Event → Type 0
IsSteady reconnects = ⊥
IsSteady _ = Unit

module _ (f : Segment) (r : StartResponse) where
  step-IsStopped :
      (e : Event) (s : LinkFlow)
      → IsSteady e
      → IsStopped f r s
      → IsSame s (step e s) × IsStopped f r (step e s)
  unfolding step poll_due
  step-IsStopped (set_name name) s v h = edited s _ h refl refl refl refl refl refl refl refl
  step-IsStopped (set_color color) s v h = edited s _ h refl refl refl refl refl refl refl refl
  step-IsStopped (set_client_id id) s v h = edited s _ h refl refl refl refl refl refl refl refl
  step-IsStopped toggle_advanced s v h = edited s _ h refl refl refl refl refl refl refl refl
  step-IsStopped press s v h =
      rw (press_under_way f r s h.has_id h.id_filled h.has_started) (IsSame-refl s, h)
  step-IsStopped poll s v h =
      simp (h.has_id, h.was_polled, h.is_quiet, h.not_pending) (IsSame-refl s, h)
  step-IsStopped reconnects s v h = absurd v
  step-IsStopped (start_ends answer) s v h = simp h.has_started (IsSame-refl s, h)
  step-IsStopped (poll_ends answer) s v h = simp h.is_quiet (IsSame-refl s, h)

  run-IsStopped :
      (es : List Event) (s : LinkFlow) → All IsSteady es → IsStopped f r s → IsSame s (run es s)
  unfolding run
  run-IsStopped [] s v h = IsSame-refl s
  run-IsStopped (e ∷ es) s v h =
      let (same, kept) = step-IsStopped e s v.0 h in
      IsSame-trans same (run-IsStopped es (step e s) v.1 kept)

settled_not_pending :
    (d : Option PollResponse)
    → is_settled d ≡ true
    → (poll_is pending d ≡ false) × (is_some d ≡ true)
settled_not_pending none h = cc
settled_not_pending (some d) h = (ground arith, refl)

settled-IsStopped :
    (s : LinkFlow)
    → is_settled s.poll_data ≡ true
    → IsFlow s
    → (f : Segment) × (r : StartResponse) × IsStopped f r s
settled-IsStopped s h (unstarted f d p k) = cc (ap is_settled d)
settled-IsStopped s h (under_way f r e g k q q') =
    let (quiet, data_) = settled_not_pending s.poll_data h in
    (
      f,
      r,
      record {
        has_id = e;
        id_filled = g;
        has_started = k;
        is_quiet = ground arith;
        was_polled = ground arith;
        not_pending = quiet;
      },
    )

-- Once the server has said that an account is linked, or that it is not, whatever happens then, as long as the
-- browser does not come back online: no request is made any more, the accounts are not made stale again, and what is shown stays.
pub run-settled :
    (es : List Event) (s : LinkFlow)
    → All IsSteady es
    → IsFlow s
    → is_settled s.poll_data ≡ true
    → IsSame s (run es s)
run-settled es s v h settled =
    let (f, r, stopped) = settled-IsStopped s settled h in run-IsStopped f r es s v stopped

polled_again :
    (f : Segment) (s : LinkFlow)
    → s.flow_id ≡ some f
    → s.polling ≡ false
    → (step reconnects s).sent ≡ oauth_poll f ∷ s.sent
unfolding step reconnect_due send_poll poll_call
polled_again f s id quiet = simp (id, quiet)

poll_fails :
    (s : LinkFlow) → s.polling ≡ true → step (poll_ends none) s ≡ record s { polling = false }
unfolding step receive_poll
poll_fails s busy = simp busy

code_shown :
    (s : LinkFlow) (r : StartResponse)
    → s.start ≡ started r
    → s.flow_id ≡ some r.flow_id
    → filled r.flow_id.text ≡ true
    → s.poll_data ≡ none
    → view (record s { polling = false }) ≡ code_to_enter r.verification_uri r.user_code
unfolding view flow_view has_text
code_shown s r started_ id full d = simp (d, started_, id, full)

-- A flow that has just been started, and whose first poll fails, is not polled again, whatever happens, as long as
-- the browser does not come back online after having been offline: the code stays shown as if the server were still
-- asked. If the browser does, the flow is polled once more.
pub run-first_poll_failed :
    (es : List Event) (s : LinkFlow) (r : StartResponse)
    → All IsSteady es
    → s.start ≡ started r
    → s.flow_id ≡ some r.flow_id
    → filled r.flow_id.text ≡ true
    → s.poll_data ≡ none
    → s.polling ≡ true
    → s.polled ≡ true
    → (view (run es (step (poll_ends none) s)) ≡ code_to_enter r.verification_uri r.user_code)
      × ((run es (step (poll_ends none) s)).sent ≡ s.sent)
      × ((step reconnects (step (poll_ends none) s)).sent ≡ oauth_poll r.flow_id ∷ s.sent)
run-first_poll_failed es s r v started_ id full d busy polled =
    let t = record s { polling = false } in
    let stopped : IsStopped r.flow_id r t = record {
      has_id = id;
      id_filled = full;
      has_started = started_;
      is_quiet = refl;
      was_polled = polled;
      not_pending = ap (poll_is pending) d;
    } in
    let same = run-IsStopped r.flow_id r es t v stopped in
    rw (poll_fails s busy) (
      same.same_view ∙ code_shown s r started_ id full d,
      same.same_sent,
      polled_again r.flow_id t id refl,
    )

-- An account has been linked, and the dialog says so. When the browser comes back online after having been offline,
-- the flow is polled again, and if the server answers with an error, as it does for a flow that it has given the
-- last answer of, the dialog says that linking has failed.
pub reconnects-linked :
    (f : Segment) (r : StartResponse) (text : Option String) (s : LinkFlow)
    → s.flow_id ≡ some f
    → filled f.text ≡ true
    → s.start ≡ started r
    → s.polling ≡ false
    → poll_is complete s.poll_data ≡ true
    → let t = step reconnects s in
      let answer : PollResponse = record { status = error; error_text = text; account_id = none } in
      (view s ≡ linked (linked_text s.reconnect_account_id))
      × (t.sent ≡ oauth_poll f ∷ s.sent)
      × (view t ≡ view s)
      × (view (step (poll_ends (some answer)) t) ≡ poll_error text)
unfolding view flow_view has_text step reconnect_due send_poll poll_call receive_poll error_of
reconnects-linked f r text s id full started_ quiet complete_ = (
  simp complete_,
  simp (id, quiet),
  simp (id, quiet, complete_),
  simp (id, quiet, started_, full),
)
