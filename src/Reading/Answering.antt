-- ===== src/Reading/Answering.antt =====
-- A reply and a forward of the open message (frontend/src/components/MessageReadingPane.tsx), up to the
-- request that sends them (frontend/src/components/ComposeModal.tsx).
use text.Mathlib.TextLemmas.{cons-append, append_assoc}
use inboxone.Common.{
  ℕ, suc, ◌≡◌, refl, sym, ap, ◌∙◌, inl, inr, String, true, false, Option, none, some, List, [], ◌∷◌,
  ==_refl, Bool-cases, is_some, or_else, filled, All, ◌^^◌,
}
use inboxone.Types.{MessageDetail}
use inboxone.Client.{strip}
use inboxone.Client.Prefixes.{strip-append}
use inboxone.Client.Paths.{reply, forward}
use inboxone.Compose.{
  ComposeModal, SendRequest, open_draft, start_send, has_recipient, edit_to, edit,
}
use inboxone.Compose.Addresses.{IsAddress}
use inboxone.Compose.Drafts.{start_send-open_reply, start_send-open_forward}
use inboxone.Reading.{
  starts_like, reply_subject, forward_subject, reply_to, build_quoted_html, reply_params,
  press_reply, forward_params, press_forward, build_forwarded_html,
}

strip-reply : (s : String) → is_some (strip "Re:" ("Re: " ^^ s)) ≡ true
strip-reply s =
    ap (λ t. is_some (strip "Re:" t)) (append_assoc "Re:" " " s)
    ∙ ap is_some (strip-append "Re:" (" " ^^ s))

reply_subject-marked : (s : String) → is_some (strip "Re:" s) ≡ true → reply_subject (some s) ≡ s
unfolding reply_subject
reply_subject-marked s h = rw h

-- The subject of a reply to a reply is that of the reply: the mark is not put twice.
pub reply_subject-reply_subject :
    (subject : Option String) → reply_subject (some (reply_subject subject)) ≡ reply_subject subject
reply_subject-reply_subject none = unfold reply_subject strip in refl
reply_subject-reply_subject (some s) = elim (Bool-cases (is_some (strip "Re:" s))) [
  | inl marked ↦ ap (λ t. reply_subject (some t)) (reply_subject-marked s marked)
  | inr plain ↦
      let e : reply_subject (some s) ≡ "Re: " ^^ s = unfold reply_subject in rw plain in
      ap (λ t. reply_subject (some t)) e
      ∙ reply_subject-marked ("Re: " ^^ s) (strip-reply s)
      ∙ sym e
]

starts_like-append : (p s : String) → starts_like p (p ^^ s) ≡ true
unfolding starts_like
starts_like-append String.[] s = refl
starts_like-append (String.◌∷◌ c p) s = rw (cons-append, ==_refl, starts_like-append p s)

starts_like-forward : (s : String) → starts_like "Fwd:" ("Fwd: " ^^ s) ≡ true
starts_like-forward s =
    ap (starts_like "Fwd:") (append_assoc "Fwd:" " " s) ∙ starts_like-append "Fwd:" (" " ^^ s)

forward_subject-marked : (s : String) → starts_like "Fwd:" s ≡ true → forward_subject (some s) ≡ s
unfolding forward_subject
forward_subject-marked s h = rw h

forward_subject-plain :
    (subject : Option String)
    → starts_like "Fwd:" (or_else subject "") ≡ false
    → forward_subject subject ≡ "Fwd: " ^^ or_else subject ""
unfolding forward_subject
forward_subject-plain subject h = rw h

forward_subject-kept :
    (subject : Option String)
    → starts_like "Fwd:" (or_else subject "") ≡ true
    → forward_subject subject ≡ or_else subject ""
unfolding forward_subject
forward_subject-kept subject h = rw h

-- The same for a forward of a forward, in whatever case the mark is written.
pub forward_subject-forward_subject :
    (subject : Option String)
    → forward_subject (some (forward_subject subject)) ≡ forward_subject subject
forward_subject-forward_subject subject =
    elim (Bool-cases (starts_like "Fwd:" (or_else subject ""))) [
      | inl marked ↦
          let e = forward_subject-kept subject marked in
          ap (λ t. forward_subject (some t)) e
          ∙ forward_subject-marked (or_else subject "") marked
          ∙ sym e
      | inr plain ↦
          let e = forward_subject-plain subject plain in
          ap (λ t. forward_subject (some t)) e
          ∙ forward_subject-marked ("Fwd: " ^^ or_else subject "")
              (starts_like-forward (or_else subject ""))
          ∙ sym e
    ]

reply_to-filled : (a : String) → filled a ≡ true → reply_to (some a) ≡ a ∷ []
unfolding reply_to
reply_to-filled String.[] h = cc
reply_to-filled (String.◌∷◌ c s) h = refl

-- the reply of a message
abbrev pub reply_request :
    (String → String) → (String → String) → ℕ → String → MessageDetail → SendRequest
reply_request locale parsed id address detail = record {
  call = reply id;
  account_id = some detail.account_id;
  to = address ∷ [];
  cc = [];
  bcc = [];
  subject = reply_subject detail.subject;
  body_html = parsed ("<p></p>" ^^ build_quoted_html locale detail);
}

-- A reply that is opened from the reading pane and sent as it is goes to the sender of the message, from
-- the account that the message came to, as a reply to that message.
pub start_send-press_reply :
    (locale parsed : String → String) (detail : MessageDetail) (address old : String) (n : ℕ)
    (s : ComposeModal)
    → detail.id ≡ suc n
    → detail.from_addr ≡ some address
    → IsAddress address
    → s.editor ≡ some old
    → s.reply_pending ≡ false
    → s.forward_pending ≡ false
    → (start_send (open_draft parsed (record s { ui = press_reply locale detail s.ui }))).0
      ≡ some (reply_request locale parsed (suc n) address detail)
unfolding press_reply
start_send-press_reply locale parsed detail address old n s id from valid editor replied forwarded =
    let params = reply_params locale detail in
    let to : params.default_to ≡ address ∷ [] =
      unfold reply_params in ap reply_to from ∙ reply_to-filled address valid.stands in
    let addresses : All IsAddress params.default_to = rw to (valid, tt) in
    let some_to : has_recipient params.default_to ≡ true = rw to in
    let request =
      start_send-open_reply parsed params n old s (unfold reply_params in id) editor replied
        addresses some_to in
    request
    ∙ unfold reply_params in
      ap
        (λ (xs : List String).
          some (record (reply_request locale parsed (suc n) address detail) { to = xs }))
        to

-- the forward of a message to an address
abbrev pub forward_request :
    (String → String) → (String → String) → ℕ → String → MessageDetail → SendRequest
forward_request locale parsed id address detail = record {
  call = forward id;
  account_id = some detail.account_id;
  to = address ∷ [];
  cc = [];
  bcc = [];
  subject = forward_subject detail.subject;
  body_html = parsed ("<p></p>" ^^ build_forwarded_html locale detail);
}

-- A forward that is opened from the reading pane is not sent as it is: no request is made, and the dialog asks for a
-- recipient. Once an address is typed, the next press sends it to that address alone, from the account that the
-- message came to, with the message quoted and marked as forwarded.
pub start_send-press_forward :
    (locale parsed : String → String) (detail : MessageDetail) (address old : String) (n : ℕ)
    (s : ComposeModal)
    → detail.id ≡ suc n
    → IsAddress address
    → s.editor ≡ some old
    → s.forward_pending ≡ false
    → let d = open_draft parsed (record s { ui = press_forward locale detail s.ui }) in
      (start_send d ≡ (none, record d { send_error = some "Add at least one recipient." }))
      × ((start_send (edit (edit_to address) (start_send d).1)).0
          ≡ some (forward_request locale parsed (suc n) address detail))
unfolding press_forward forward_params
start_send-press_forward locale parsed detail address old n s id valid editor forwarded =
    start_send-open_forward parsed (forward_params locale detail) n old address s id editor
      forwarded refl valid
