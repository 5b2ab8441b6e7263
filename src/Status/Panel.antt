-- ===== src/Status/Panel.antt =====
-- The dialog of the connections as a whole, beside the footer (frontend/src/components/ConnectionStatus.tsx and
-- frontend/src/components/StatusBar.tsx).
use mathlib.Core.Option.{some_inj}
use inboxone.Common.{
  ℕ, suc, ◌≡◌, refl, ap, arith, String, Bool, ◌||◌, Option, none, some, List, [], ◌∷◌, map, length,
  head?, or_else, ◌^^◌, if◌then◌else◌,
}
use inboxone.Activity.{WorkItem, visible_work}
use inboxone.Client.Paths.{Call}
use inboxone.Status.{
  AccountConnection, Connections, health, label, interval_label, FolderLines, folder_lines,
  account_error, names_of, ongoing, is_queued, Footer, footer_of, footer, press_retry,
  press_refresh_all,
}

-- a mutation of the dialog: whether its request is under way, and whether its last one has failed
pub record Mutation : Type 0 where
  pub is_pending : Bool
  pub is_error : Bool

pub record AccountLines : Type 0 where
  pub title : String
  pub retry : Option Call
  pub error : Option String
  pub folders : List FolderLines

account_lines : (String → String) → String → Mutation → AccountConnection → AccountLines
unfolding folder_lines account_error press_retry
account_lines to_locale interval retry account = record {
  title = account.name ^^ " · " ^^ account.health;
  retry = press_retry retry.is_pending account.account_id;
  error = account_error to_locale account;
  folders = map (folder_lines to_locale interval) account.folders;
}

accounts_of : Option Connections → List AccountConnection
accounts_of none = []
accounts_of (some data_) = data_.accounts

-- What the dialog and the button that opens it show.
pub record Panel : Type 0 where
  pub trigger : String
  pub description : String
  pub disconnected : Option String
  pub work : List String
  pub load_error : Option String
  pub accounts : List AccountLines
  pub request_error : Option String
  pub refresh_all : Option Call

-- the stores and hooks that the dialog reads
pub record PanelState : Type 0 where
  pub local : List WorkItem
  pub server : List WorkItem
  pub connected : Bool
  pub connections : Option Connections
  pub load_failed : Bool
  pub retry : Mutation
  pub refresh : Mutation

unfoldable pub panel : (String → String) → (ℕ → String) → PanelState → Panel
unfolding health label interval_label accounts_of account_lines ongoing press_refresh_all
panel to_locale show_fraction s =
    let text = label (health s.connected s.connections) in
    let interval = interval_label show_fraction s.connections in
    record {
      trigger = "Connection status: " ^^ text;
      description = text ^^ ". Scheduled refreshes run every " ^^ interval ^^ ".";
      disconnected =
          if s.connected
          then none
          else some (
              "Live updates disconnected. Cached mail checks every 60 seconds; activity checks every 2 seconds while visible. Server refreshes run every "
              ^^ interval ^^ ".");
      work = ongoing (visible_work s.local s.server) s.connections;
      load_error = if s.load_failed then some "Could not load connection details." else none;
      accounts = map (account_lines to_locale interval s.retry) (accounts_of s.connections);
      request_error =
          if s.retry.is_error || s.refresh.is_error
          then some "Could not request refresh. Please try again."
          else none;
      refresh_all = press_refresh_all s.refresh.is_pending;
    }

-- how many works the footer speaks of
abbrev pub counted : Footer → ℕ
counted f = elim f.work_label [ none ↦ 0 | some _ ↦ suc (or_else f.more 0) ]

length-map : {A B : Type 0} (f : A → B) (xs : List A) → length (map f xs) ≡ length xs
length-map f [] = refl
length-map f (x ∷ xs) = ap suc (length-map f xs)

footer_of-counted :
    (work : List WorkItem) (data_ : Option Connections)
    → length (ongoing work data_) ≡ counted (footer_of work (names_of data_))
unfolding ongoing footer_of
footer_of-counted [] data_ = refl
footer_of-counted (a ∷ []) data_ = refl
footer_of-counted (a ∷ b ∷ work) data_ =
    let rest : length (ongoing work data_) ≡ length work = length-map _ work in omega (arith, rest)

-- what the dialog adds to the label of work
abbrev pub mark : Bool → String
mark is_queued = if is_queued then " (queued)" else ""

footer_of-first :
    (work : List WorkItem) (data_ : Option Connections) (text : String)
    → (footer_of work (names_of data_)).work_label ≡ some text
    → (queued : Bool) × (head? (ongoing work data_) ≡ some (text ^^ mark queued))
unfolding ongoing footer_of
footer_of-first [] data_ text e = cc
footer_of-first (a ∷ []) data_ text e =
    (is_queued a.work.state, ap (λ t. some (t ^^ mark (is_queued a.work.state))) (some_inj.0 e))
footer_of-first (a ∷ b ∷ work) data_ text e =
    (is_queued a.work.state, ap (λ t. some (t ^^ mark (is_queued a.work.state))) (some_inj.0 e))

-- The dialog lists as many works as the footer counts, and the one that the footer names comes first in it,
-- with or without the mark of queued work.
pub panel-footer :
    (to_locale : String → String) (show_fraction : ℕ → String) (s : PanelState) (text : String)
    → (footer s.local s.server s.connections).work_label ≡ some text
    → let listed = (panel to_locale show_fraction s).work in
      (length listed ≡ counted (footer s.local s.server s.connections))
      × ((queued : Bool) × (head? listed ≡ some (text ^^ mark queued)))
unfolding panel footer
panel-footer to_locale show_fraction s text e =
    let work = visible_work s.local s.server in
    (footer_of-counted work s.connections, footer_of-first work s.connections text e)
