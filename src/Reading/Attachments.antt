-- ===== src/Reading/Attachments.antt =====
-- The attachments of the open message: the clicks on their links, the downloads, and the object URLs that stand
-- for what has been downloaded (frontend/src/components/MessageReadingPane.tsx).
pub mod Released
use inboxone.Common.{
  ℕ, ◌+◌, String, Bool, true, false, not, Option, none, some, List, [], ◌∷◌, ◌++◌, ◌==◌, filter,
  find?, or_else, or_text, if◌then◌else◌,
}
use inboxone.Types.{AttachmentMeta}
use inboxone.Client.Paths.{Call, download}
use inboxone.Timers.{Timer, Timers, no_timers, set_timeout, clear_timeout, next_due, advance}

-- a click whose request is under way, under a number of its own
pub record Download : Type 0 where
  pub key : ℕ
  pub attachment : AttachmentMeta

-- The requests that have been made, the downloads under way, the files that have been handed to the browser with
-- their names and URLs, the object URLs that have not been revoked, the timers that will revoke them, and the
-- toasts that have been shown.
pub record Attachments : Type 0 where
  pub requests : List Call
  pub downloads : List Download
  pub next_key : ℕ
  pub saved : List (String × ℕ)
  pub object_urls : List ℕ
  pub next_url : ℕ
  pub timers : Timers ℕ
  pub toasts : List String

unfoldable pub no_attachments : Attachments
unfolding no_timers
no_attachments = record {
  requests = [];
  downloads = [];
  next_key = 1;
  saved = [];
  object_urls = [];
  next_url = 1;
  timers = no_timers;
  toasts = [];
}

-- the click on the link of an attachment of a message, up to its `await`
unfoldable pub click_attachment : ℕ → AttachmentMeta → Attachments → Attachments
click_attachment id attachment s = record s {
  requests = s.requests ++ download id attachment.part_index ∷ [];
  downloads = s.downloads ++ record { key = s.next_key; attachment = attachment } ∷ [];
  next_key = s.next_key + 1;
}

-- how the download ends: with the file, or with an exception, with its message if it is an `Error`
pub data DownloadEnd : Type 0 where
  arrives : DownloadEnd
  throws : Option String → DownloadEnd

-- `URL.createObjectURL` and `URL.revokeObjectURL`
create_object_url : Attachments → ℕ × Attachments
create_object_url s = (
  s.next_url,
  record s { object_urls = s.object_urls ++ s.next_url ∷ []; next_url = s.next_url + 1 },
)

revoke_object_url : ℕ → Attachments → Attachments
revoke_object_url url s = record s { object_urls = filter (λ u. not (u == url)) s.object_urls }

unfoldable pub end_download : DownloadEnd → AttachmentMeta → Attachments → Attachments
unfolding create_object_url set_timeout
end_download arrives attachment s =
    let (url, t) = create_object_url s in
    record t {
      saved = t.saved ++ (or_text attachment.filename "attachment", url) ∷ [];
      timers = (set_timeout url 1000 t.timers).1;
    }
end_download (throws text) attachment s = record s {
  toasts = s.toasts ++ or_else text "Could not download attachment" ∷ [];
}

end_found : Option Download → DownloadEnd → Attachments → Attachments
unfolding end_download
end_found none end_ s = s
end_found (some d) end_ s =
    end_download end_ d.attachment
      (record s { downloads = filter (λ e. not (e.key == d.key)) s.downloads })

run_due : Option (Timer ℕ) → Attachments → Attachments
unfolding clear_timeout revoke_object_url
run_due none s = s
run_due (some t) s =
    revoke_object_url t.callback (record s { timers = clear_timeout t.handle s.timers })

-- the next timer that is due runs
unfoldable pub run_timer : Attachments → Attachments
unfolding run_due next_due
run_timer s = run_due (next_due s.timers) s

pub data Event : Type 0 where
  clicks : ℕ → AttachmentMeta → Event
  ends : ℕ → DownloadEnd → Event
  waits : ℕ → Event
  timer : Event

unfoldable pub step : Event → Attachments → Attachments
unfolding end_found
step (clicks id attachment) s = click_attachment id attachment s
step (ends key end_) s = end_found (find? (λ d. d.key == key) s.downloads) end_ s
step (waits ms) s = record s { timers = advance ms s.timers }
step timer s = run_timer s

unfoldable pub run : List Event → Attachments → Attachments
run [] s = s
run (e ∷ es) s = run es (step e s)
