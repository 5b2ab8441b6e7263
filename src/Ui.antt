-- ===== src/Ui.antt =====
-- frontend/src/store/uiStore.ts: what is selected, and the message that is being written.
use inboxone.Common.{ℕ, String, Bool, true, false, Option, none, some, List, []}

pub data ComposeMode : Type 0 where
  reply_mode forward_mode : ComposeMode

pub record ComposeState : Type 0 where
  pub open_ : Bool
  pub mode : ComposeMode
  pub source_message_id : Option ℕ
  pub default_account_id : Option ℕ
  pub default_to : List String
  pub default_subject : String
  pub quoted_html : String

-- the argument of `openReply` and `openForward`
pub record ComposeParams : Type 0 where
  pub source_message_id : ℕ
  pub default_account_id : ℕ
  pub default_to : List String
  pub default_subject : String
  pub quoted_html : String

abbrev pub initial_compose : ComposeState
initial_compose = record {
  open_ = false;
  mode = reply_mode;
  source_message_id = none;
  default_account_id = none;
  default_to = [];
  default_subject = "";
  quoted_html = "";
}

pub record Ui : Type 0 where
  pub selected_account_id : Option ℕ
  pub selected_folder_id : Option ℕ
  pub selected_message_id : Option ℕ
  pub compose : ComposeState

abbrev pub initial_ui : Ui
initial_ui = record {
  selected_account_id = none;
  selected_folder_id = none;
  selected_message_id = none;
  compose = initial_compose;
}

unfoldable pub set_selected_account_id : Option ℕ → Ui → Ui
set_selected_account_id id ui = record ui { selected_account_id = id }

unfoldable pub set_selected_folder_id : Option ℕ → Ui → Ui
set_selected_folder_id id ui = record ui { selected_folder_id = id }

unfoldable pub set_selected_message_id : Option ℕ → Ui → Ui
set_selected_message_id id ui = record ui { selected_message_id = id }

abbrev compose_with : ComposeMode → ComposeParams → ComposeState
compose_with mode params = record {
  open_ = true;
  mode = mode;
  source_message_id = some params.source_message_id;
  default_account_id = some params.default_account_id;
  default_to = params.default_to;
  default_subject = params.default_subject;
  quoted_html = params.quoted_html;
}

unfoldable pub open_reply : ComposeParams → Ui → Ui
open_reply params ui = record ui { compose = compose_with reply_mode params }

unfoldable pub open_forward : ComposeParams → Ui → Ui
open_forward params ui = record ui { compose = compose_with forward_mode params }

unfoldable pub close_compose : Ui → Ui
close_compose ui = record ui { compose = initial_compose }
