-- ===== src/Lib.antt =====
-- The web client of inboxone, a mail program: the TypeScript files of frontend/src. The client keeps
-- stores of its own, asks the server over HTTP, and follows the server's stream of events.
--
-- The parts, and the file that models each; the names of the definitions are those of the source,
-- with an underscore where the source changes case:
--
--   Activity    store/activityStore.ts: the work that this tab has under way and the work that the
--               server reports. `beginWork` is `begin_work` with `finish_work` for the function that
--               it returns; `refreshActivity` is cut at its await into `start_refresh` and
--               `finish_refresh`.
--   Client      api/client.ts: `describe` says which work a request counts as; `request` is cut at
--               its awaits into `begin_request`, `receive_result` and `end_request`, and tells
--               Activity. Client/Paths has the requests of api/useMessages.ts, api/useAccounts.ts,
--               api/useSync.ts, api/useAuth.ts and api/useMicrosoftOAuth.ts with `buildQuery`;
--               Client/Cache has which cached queries a request makes stale, and Client/Hooks what the
--               hooks for messages say of their requests.
--   Live        components/LiveUpdates.tsx and api/liveSync.ts: the stream of events, which feeds
--               Activity, with its reconnection, as a step function on events.
--   Ui          store/uiStore.ts: the selection and the message that is being written.
--   Mailbox     the selection, search and filters of pages/InboxPage.tsx, which ask through Client;
--               the choices of components/AccountFilterRail.tsx; the click on a notification.
--   Deletion    the deletion of pages/InboxPage.tsx with its grace period, and the clicks of
--               components/Toaster.tsx, on the toasts of Toasts (store/toastStore.ts). The page is left
--               for the settings and opened anew (App.tsx): its state is then a new one, `return_`,
--               while the toasts and the timers of earlier visits stay, and work on what those had.
--   Reading     components/MessageReadingPane.tsx: what is shown, quoted and forwarded; it opens the
--               dialog of Compose through Ui. Reading/Attachments is the saving of attachments.
--   Compose     components/ComposeModal.tsx with components/ConfirmDialog.tsx: `handleSend` is cut
--               at its await into `start_send` and `finish_send`.
--   Rows        components/MessageList.tsx and components/MessageListItem.tsx: the keyboard, the tab
--               stop and what the rows show.
--   Editor      components/AccountEditorModal.tsx and pages/SettingsAccountsPage.tsx: the account
--               form, what is saved, and which folders are inboxes. Editor/Dialog is the dialog over time.
--   Inboxes     api/inboxes.ts, the badges of components/AccountFilterRail.tsx, and the title and
--               icon of components/TabUnreadIndicator.tsx.
--   Watcher     components/NewMailWatcher.tsx: which messages are notified of. Watcher/Inventory takes
--               the membership text as a view of the accounts that forgets their order.
--   Preferences store/themeStore.ts, store/notificationStore.ts with the button of
--               components/NotificationToggle.tsx, and store/pwaStore.ts: the theme, whether to
--               notify, and the installation, each with its button.
--   Linking     api/useMicrosoftOAuth.ts and components/OAuthMicrosoftLinkFlow.tsx: the device-code
--               flow that links a Microsoft account, from the form to its end.
--   Session     App.tsx, api/useAuth.ts and pages/LoginPage.tsx: the routes, who may see them, and the
--               login, cut at its awaits into `submit`, `finish_login` and `receive_me`.
--   Accounts    pages/SettingsAccountsPage.tsx: the rows of the accounts with their test, removal and
--               folder picker; the page's dialog is in Editor.
--   Settings    components/RefreshSettings.tsx: the interval of the automatic refresh.
--   Status      components/ConnectionStatus.tsx and components/StatusBar.tsx, with the types of
--               api/liveSync.ts: the health, the timestamps and the footer, on the work of Activity.
--               Status/Named follows a request of Client through Activity to the footer, and
--               Status/Shown has what each request is shown as, by its path or by its caller.
--   Rail        components/AccountFilterRail.tsx: what is unfolded, shown and highlighted, for the
--               selection of Mailbox and the counts of Inboxes.
--   Types       api/types.ts: the records of the server's JSON.
--   Timers      setTimeout and clearTimeout of the browser, which several parts share.
--   Common      Boolean tests, lists, texts and decimal numerals.
--
-- How the source is read: a state of a component or a store is a record, an operation a function on
-- it; `null` and a missing value are `none`. What happens outside the program comes as an event or
-- an argument, in any order, so that a theorem about all lists of events is about all interleavings
-- of clicks, answers and timers. Numbers are natural numbers, as ids and counts are. A text is a
-- sequence of code points. A request's query is the list of its decoded parameters; that a query is
-- decoded as it was encoded is the URL standard's. Timers are taken to run no earlier than they are
-- due and in the order of their due times. A connection's handlers are called only until it is
-- closed. The browser's rendering of a date, its text of a fraction, the editor's reading of HTML
-- and the cache's matching of keys are parameters. A query is taken to keep its data when a request
-- fails, and to be asked again after its refetch interval and, where it is enabled, when the
-- browser is back online after having been offline, as the library documents; that the window's
-- focus does so too is turned off in main.tsx. What the server names for a path, the part number of
-- an attachment and the id of a flow, is taken to be made of characters that a URL leaves alone and
-- not to be a step in a path (`Segment`): the server numbers the parts, and its ids are UUIDs. The
-- number field of a form is read exactly, where a floating-point number would round at many digits.
--
-- Bounds: the only fuel is that of the decimal digits of a number, `show`, which has one round more
-- than the number and needs one round a digit; that it is enough is what `number-show` in
-- Common/Decimal says. All else is by structural recursion.
--
-- Not modelled: the server in Python (backend), the markup and styles of the components, the cache
-- of react-query and the routes of react-router, which are third-party code, the logout, which nothing
-- calls, and the browser test of frontend/scripts with its fake server.
pub mod Common
pub mod Activity
pub mod Timers
pub mod Toasts
pub mod Deletion
pub mod Types
pub mod Inboxes
pub mod Watcher
pub mod Client
pub mod Ui
pub mod Mailbox
pub mod Compose
pub mod Reading
pub mod Live
pub mod Rows
pub mod Editor
pub mod Preferences
pub mod Linking
pub mod Session
pub mod Accounts
pub mod Rail
pub mod Settings
pub mod Status
