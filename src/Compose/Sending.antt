-- ===== src/Compose/Sending.antt =====
-- Sending a reply or a forward (`handleSend` of frontend/src/components/ComposeModal.tsx).
use inboxone.Common.{
  ℕ, zero, suc, ◌≡◌, refl, sym, ap, ◌∙◌, inl, inr, String, Bool, true, false, ◌||◌, Option, none,
  some, arith, Bool-cases, filled?,
}
use inboxone.Ui.{ComposeMode, reply_mode, forward_mode}
use inboxone.Compose.{
  parse_addrs, ComposeModal, pending, set_pending, is_pending, request_for, has_recipient,
  send_from, send_with, start_send, api_error, finish_send,
}

pub pending-set_pending :
    (m : ComposeMode) (b : Bool) (s : ComposeModal) → pending m (set_pending m b s) ≡ b
unfolding pending set_pending
pending-set_pending reply_mode b s = refl
pending-set_pending forward_mode b s = refl

-- what `set_pending` leaves alone
set_pending_kept :
    (m : ComposeMode) (b : Bool) (s : ComposeModal)
    → let t = set_pending m b s in
      (t.ui ≡ s.ui)
      × (t.editor ≡ s.editor)
      × (t.send_warning ≡ s.send_warning)
      × (t.to ≡ s.to)
      × (t.cc ≡ s.cc)
      × (t.subject ≡ s.subject)
      × (t.account_id ≡ s.account_id)
unfolding set_pending
set_pending_kept reply_mode b s = (refl, refl, refl, refl, refl, refl, refl)
set_pending_kept forward_mode b s = (refl, refl, refl, refl, refl, refl, refl)

pending-record :
    (m : ComposeMode) (e : Option String) (s : ComposeModal)
    → pending m (record s { send_error = e }) ≡ pending m s
unfolding pending
pending-record reply_mode e s = refl
pending-record forward_mode e s = refl

-- the dialog is not able to send: it shows a warning, or a request is under way
abbrev is_blocked : ComposeModal → Bool
is_blocked s = filled? s.send_warning || is_pending s

send_from_blocked :
    (id : ℕ) (html : String) (s : ComposeModal)
    → is_blocked s ≡ true
    → send_from id html s ≡ (none, s)
unfolding send_from
send_from_blocked id html s h = rw h

send_from_alone :
    (id : ℕ) (html : String) (s : ComposeModal)
    → is_blocked s ≡ false
    → has_recipient (parse_addrs s.to) ≡ false
    → send_from id html s ≡ (none, record s { send_error = some "Add at least one recipient." })
unfolding send_from
send_from_alone id html s h k = rw (h, k)

abbrev pub asked : ComposeModal → ComposeModal
asked s = set_pending s.ui.compose.mode true (record s { send_error = none })

send_from_sent :
    (id : ℕ) (html : String) (s : ComposeModal)
    → is_blocked s ≡ false
    → has_recipient (parse_addrs s.to) ≡ true
    → send_from id html s ≡ (some (request_for id html s), asked s)
unfolding send_from
send_from_sent id html s h k = rw (h, k)

||_true : (b : Bool) → (b || true) ≡ true
||_true true = refl
||_true false = refl

asked_blocked : (s : ComposeModal) → is_blocked (asked s) ≡ true
unfolding set_pending
asked_blocked s =
    let t = record s { send_error = none } in
    let (same, _, _, _, _, _, _) = set_pending_kept s.ui.compose.mode true t in
    let busy = pending-set_pending s.ui.compose.mode true t in rw (same, busy) (||_true _)

send_from_twice :
    (id : ℕ) (html : String) (s : ComposeModal)
    → (send_from id html (send_from id html s).1).0 ≡ none
send_from_twice id html s = elim (Bool-cases (is_blocked s)) [
  | inl blocked ↦ rw (send_from_blocked id html s blocked, send_from_blocked id html s blocked)
  | inr able ↦ elim (Bool-cases (has_recipient (parse_addrs s.to))) [
    | inl some_to ↦ rw (
      send_from_sent id html s able some_to,
      send_from_blocked id html (asked s) (asked_blocked s),
    )
    | inr no_to ↦
        let t = record s { send_error = some "Add at least one recipient." } in
        let still : is_blocked t ≡ false =
          rw (pending-record s.ui.compose.mode (some "Add at least one recipient.") s) able in
        rw (send_from_alone id html s able no_to)
          (ap (λ r. r.0) (send_from_alone id html t still no_to))
  ]
]

send_from_kept :
    (id : ℕ) (html : String) (s : ComposeModal)
    → let t = (send_from id html s).1 in (t.ui ≡ s.ui) × (t.editor ≡ s.editor)
send_from_kept id html s = elim (Bool-cases (is_blocked s)) [
  | inl blocked ↦ rw (send_from_blocked id html s blocked) (refl, refl)
  | inr able ↦ elim (Bool-cases (has_recipient (parse_addrs s.to))) [
    | inl some_to ↦ rw (send_from_sent id html s able some_to) (
        let kept = set_pending_kept s.ui.compose.mode true (record s { send_error = none }) in
        (kept.0, kept.1))
    | inr no_to ↦ rw (send_from_alone id html s able no_to) (refl, refl)
  ]
]

send_with_kept :
    (id : Option ℕ) (editor : Option String) (s : ComposeModal)
    → let t = (send_with id editor s).1 in (t.ui ≡ s.ui) × (t.editor ≡ s.editor)
unfolding send_with
send_with_kept (some (suc n)) (some html) s = send_from_kept (suc n) html s
send_with_kept (some (suc n)) none s = (refl, refl)
send_with_kept (some zero) editor s = (refl, refl)
send_with_kept none editor s = (refl, refl)

send_with_twice :
    (id : Option ℕ) (editor : Option String) (s : ComposeModal)
    → (send_with id editor (send_with id editor s).1).0 ≡ none
unfolding send_with
send_with_twice (some (suc n)) (some html) s = send_from_twice (suc n) html s
send_with_twice (some (suc n)) none s = refl
send_with_twice (some zero) editor s = refl
send_with_twice none editor s = refl

-- A second press of Send before the first request has ended makes no request.
pub start_send-start_send : (s : ComposeModal) → (start_send (start_send s).1).0 ≡ none
unfolding start_send
start_send-start_send s =
    let (ui, editor) = send_with_kept s.ui.compose.source_message_id s.editor s in
    rw (ui, editor) (send_with_twice s.ui.compose.source_message_id s.editor s)

finish-asked :
    (m : ComposeMode) (message : String) (s : ComposeModal)
    → pending m s ≡ false
    → finish_send m (api_error message) (set_pending m true (record s { send_error = none }))
      ≡ record s { send_error = some message }
unfolding finish_send set_pending pending
finish-asked reply_mode message s h =
    ap (λ b. record s { send_error = some message; reply_pending = b }) (sym h)
finish-asked forward_mode message s h =
    ap (λ b. record s { send_error = some message; forward_pending = b }) (sym h)

||_false : (a b : Bool) → (a || b) ≡ false → b ≡ false
||_false a b h = ground arith

-- the dialog can send
pub record IsReady (id : ℕ) (html : String) (s : ComposeModal) : Type 0 where
  pub source : s.ui.compose.source_message_id ≡ some (suc id)
  pub written : s.editor ≡ some html
  pub able : is_blocked s ≡ false
  pub addressed : has_recipient (parse_addrs s.to) ≡ true

pub start_send_ready :
    (id : ℕ) (html : String) (s : ComposeModal)
    → IsReady id html s
    → start_send s ≡ (some (request_for (suc id) html s), asked s)
unfolding start_send send_with
start_send_ready id html s h =
    ap (λ o. send_with o s.editor s) h.source
    ∙ ap (λ e. send_with (some (suc id)) e s) h.written
    ∙ send_from_sent (suc id) html s h.able h.addressed

request_for-record :
    (id : ℕ) (html : String) (e : Option String) (s : ComposeModal)
    → request_for id html (record s { send_error = e }) ≡ request_for id html s
unfolding request_for
request_for-record id html e s = refl

-- When the server refuses to send, the dialog is as it was before Send was pressed, with the server's
-- message, and the next press makes the same request.
pub start_send_again :
    (id : ℕ) (html message : String) (s : ComposeModal)
    → IsReady id html s
    → let (request, t) = start_send s in
      let failed = finish_send s.ui.compose.mode (api_error message) t in
      (request ≡ some (request_for (suc id) html s))
      × (failed ≡ record s { send_error = some message })
      × ((start_send failed).0 ≡ request)
start_send_again id html message s h =
    let t = record s { send_error = some message } in
    let again : IsReady id html t = record {
      source = h.source;
      written = h.written;
      able = rw (pending-record s.ui.compose.mode (some message) s) h.able;
      addressed = h.addressed;
    } in
    rw
      (
        start_send_ready id html s h,
        finish-asked s.ui.compose.mode message s (||_false (filled? s.send_warning) _ h.able),
      )
      (
        refl,
        refl,
        ap (λ r. r.0) (start_send_ready id html t again)
            ∙ ap some (request_for-record (suc id) html (some message) s),
      )
