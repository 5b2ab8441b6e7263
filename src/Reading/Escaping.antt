-- ===== src/Reading/Escaping.antt =====
-- `escapeHtml` of frontend/src/components/MessageReadingPane.tsx, and where its use matters.
use Prim.Native.Char.{Char, code}
use text.Mathlib.TextLemmas.{
  cons-append, nil-append, append_assoc, append_cancel_left, append_cancel_right,
}
use inboxone.Common.{
  ℕ, ◌≡◌, refl, sym, ap, ◌∙◌, ◌≢◌, inl, inr, String, none, some, arith, ◌==◌, if◌then◌else◌,
  Bool-cases, ◌^^◌,
}
use inboxone.Common.Split.{IsFree, IsFree-append}
use inboxone.Types.{MessageDetail}
use inboxone.Reading.{replace, escape_html, shown_body, src_doc, quoted_body, forwarded_body}

-- what a character is shown as
abbrev pub escaped : Char → String
escaped c =
    if code c == b'&'
    then "&amp;"
    else if code c == b'<'
    then "&lt;"
    else if code c == b'>'
    then "&gt;"
    else String.◌∷◌ c ""

-- one pass, a character at a time
abbrev pub escape_each : String → String
escape_each String.[] = ""
escape_each (String.◌∷◌ c s) = escaped c ^^ escape_each s

replace-append :
    (c : ℕ) (by_ s t : String) → replace c by_ (s ^^ t) ≡ replace c by_ s ^^ replace c by_ t
unfolding replace
replace-append c by_ String.[] t = rw (nil-append, nil-append)
replace-append c by_ (String.◌∷◌ d s) t = elim (Bool-cases (code d == c)) [
  | inl same ↦ rw (cons-append, same, replace-append c by_ s t, append_assoc)
  | inr other ↦ rw (cons-append, other, replace-append c by_ s t, cons-append)
]

escape_html-append : (s t : String) → escape_html (s ^^ t) ≡ escape_html s ^^ escape_html t
unfolding escape_html
escape_html-append s t = rw (replace-append, replace-append, replace-append)

escape_html-char : (c : Char) → escape_html (String.◌∷◌ c "") ≡ escaped c
unfolding escape_html replace
escape_html-char c = elim (Bool-cases (code c == b'&')) [
  | inl amp ↦ rw amp
  | inr not_amp ↦ elim (Bool-cases (code c == b'<')) [
    | inl less ↦ rw (not_amp, less)
    | inr not_less ↦ elim (Bool-cases (code c == b'>')) [
      | inl more ↦ rw (not_amp, not_less, more)
      | inr not_more ↦ rw (not_amp, not_less, not_more)
    ]
  ]
]

-- To replace the three characters one after the other, the ampersand first, is to escape every character
-- once, on its own.
pub escape_html-eq : (s : String) → escape_html s ≡ escape_each s
escape_html-eq String.[] = unfold escape_html replace in refl
escape_html-eq (String.◌∷◌ c s) =
    ap escape_html (sym (cons-append c "" s ∙ ap (String.◌∷◌ c) (nil-append s)))
    ∙ escape_html-append (String.◌∷◌ c "") s
    ∙ rw (escape_html-char c, escape_html-eq s)

escaped-IsFree : (c : Char) → IsFree b'<' (escaped c) × IsFree b'>' (escaped c)
escaped-IsFree c = elim (Bool-cases (code c == b'&')) [
  | inl amp ↦ rw amp (ground arith, ground arith)
  | inr not_amp ↦ elim (Bool-cases (code c == b'<')) [
    | inl less ↦ rw (not_amp, less) (ground arith, ground arith)
    | inr not_less ↦ elim (Bool-cases (code c == b'>')) [
      | inl more ↦ rw (not_amp, not_less, more) (ground arith, ground arith)
      | inr not_more ↦ rw (not_amp, not_less, not_more) (ground arith, ground arith)
    ]
  ]
]

escape_each-IsFree : (s : String) → IsFree b'<' (escape_each s) × IsFree b'>' (escape_each s)
escape_each-IsFree String.[] = (tt, tt)
escape_each-IsFree (String.◌∷◌ c s) =
    let (less, more) = escape_each-IsFree s in
    let (less', more') = escaped-IsFree c in
    (
      IsFree-append b'<' (escaped c) (escape_each s) less' less,
      IsFree-append b'>' (escaped c) (escape_each s) more' more,
    )

-- An escaped text opens and closes no tag.
pub escape_html-IsFree : (s : String) → IsFree b'<' (escape_html s) × IsFree b'>' (escape_html s)
escape_html-IsFree s = rw (escape_html-eq s) (escape_each-IsFree s)

-- the document around a body in the frame of the pane
abbrev pub framed : String → String
framed body =
    "<html><head><meta name=\"color-scheme\" content=\"light\"><base target=\"_blank\"></head><body style=\"margin:0;padding:12px;background:#fff;color:#111;font-family:system-ui,sans-serif;font-size:14px;\">"
    ^^ body ^^ "</body></html>"

-- A message that has only a text is quoted in a reply as it is, while the document that the pane shows and a
-- forward have every character of the text escaped: with a `<` in it the quote differs from what a forward has.
pub quoted_body-raw :
    (detail : MessageDetail) (text : String)
    → detail.html_body ≡ none
    → detail.text_body ≡ some text
    → ¬ IsFree b'<' text
    → (src_doc (some detail)
        ≡ framed (
            "<pre style=\"white-space:pre-wrap;font-family:inherit;\">"
            ^^ escape_each text
            ^^ "</pre>"))
      × (forwarded_body detail ≡ "<pre>" ^^ escape_each text ^^ "</pre>")
      × (quoted_body detail ≡ "<pre>" ^^ text ^^ "</pre>")
      × (quoted_body detail ≢ forwarded_body detail)
unfolding quoted_body forwarded_body src_doc shown_body
quoted_body-raw detail text no_html only_text tag =
    rw (no_html, only_text)
      (
        rw (escape_html-eq text),
        rw (escape_html-eq text),
        refl,
        λ same.
            let inner : text ^^ "</pre>" ≡ escape_html text ^^ "</pre>" =
              append_cancel_left "<pre>" _ _ same in
            let equal : text ≡ escape_html text =
              append_cancel_right text (escape_html text) "</pre>" inner in
            let free = escape_html-IsFree text in tag (rw equal free.0),
      )
