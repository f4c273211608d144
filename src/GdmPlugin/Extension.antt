-- ===== src/GdmPlugin/Extension.antt =====
-- gdm-plugin/gdm-ovirtcred-extension.c: the state of the extension and its operations. What GLib, GTK,
-- D-Bus and the greeter answer is an argument of the operation; what the extension asks of them is
-- recorded in `calls`, latest first. Objects of those libraries are numbers, NULL is `none`.
pub mod Messages
pub mod Timers
pub mod Drain
pub mod Token
pub mod Listening
pub mod Display
pub mod Answering
pub mod Iface
mod Tests
use ovirt_guest_agent.Prelude.{
  ℕ, zero, suc, ◌*◌, ◌/◌, Bool, true, false, not, ◌&&◌, ◌||◌, Option, none, some, List, [], ◌∷◌,
  ◌++◌, Bytes, codes, str_eq, length, ltb, ◌==◌, if◌then◌else◌,
}

-- GdmServiceMessageType
pub data MessageType : Type 0 where
  info problem : MessageType

-- The text is a list of characters.
pub record QueuedMessage : Type 0 where
  pub text : Bytes
  pub type : MessageType

-- What the extension asks of the libraries and of the greeter.
pub data Call : Type 0 where
  choose_user : Bytes → Call
  cancel : Call
  answer : Option Bytes → Call
  message_queue_empty : Call
  set_enabled : Bool → Call
  show_text : Option ℕ → Bytes → Call
  beep : Call
  timeout_add : ℕ → ℕ → Call
  source_remove : ℕ → Call
  source_destroyed : ℕ → Call
  add_signal : Option ℕ → Bytes → Call
  connect_signal : Option ℕ → Bytes → Call
  unref : ℕ → Call
  grab_focus : Option ℕ → Call

-- struct _GdmOVirtCredExtensionPrivate, and the calls made.
pub record Extension : Type 0 where
  pub icon : ℕ
  pub page : Option ℕ
  pub actions : ℕ
  pub message_label : Option ℕ
  pub message_queue : List QueuedMessage
  pub message_timeout_id : ℕ
  pub select_when_ready : Bool
  pub cred_proxy : Option ℕ
  pub connection : Option ℕ
  pub token : Option Bytes
  pub calls : List Call

abbrev pub service_name : Bytes
service_name = codes "gdm-ovirtcred"

abbrev pub call : Call → Extension → Extension
call c e = record e { calls = c ∷ e.calls }

-- `saved` is whether g_strdup() made a copy, `chosen` what the greeter answers.
pub on_user_authenticated : Extension → Option Bytes → Bool → Bool → Extension
on_user_authenticated e none saved chosen = e
on_user_authenticated e (some token) false chosen = record e { token = none }
on_user_authenticated e (some token) true chosen =
    let asked = call (choose_user service_name) (record e { token = some token }) in
    if chosen then asked else record (call cancel asked) { select_when_ready = true }

-- `bus` and `proxy` are what the two constructors return.
pub ovirtcred_server_start : Extension → Option ℕ → Option ℕ → Extension
ovirtcred_server_start e bus proxy = call (connect_signal proxy (codes "UserAuthenticated")) (
    call (add_signal proxy (codes "UserAuthenticated"))
      (record e { connection = bus; cred_proxy = proxy }))

drop_proxy : Option ℕ → Extension → Extension
drop_proxy none e = e
drop_proxy (some p) e = record (call (unref p) e) { cred_proxy = none }

drop_connection : Option ℕ → Extension → Extension
drop_connection none e = e
drop_connection (some c) e = record (call (unref c) e) { connection = none }

pub ovirtcred_server_stop : Extension → Extension
ovirtcred_server_stop e = drop_connection e.connection (drop_proxy e.cred_proxy e)

pub set_message : Extension → Bytes → Extension
set_message e message = call (show_text e.message_label message) e

pub purge_message_queue : Extension → Extension
purge_message_queue e =
    let stopped =
      if e.message_timeout_id == 0
      then e
      else record (call (source_remove e.message_timeout_id) e) { message_timeout_id = 0 } in
    record stopped { message_queue = [] }

-- CLAMP (x, low, high)
clamp : ℕ → ℕ → ℕ → ℕ
clamp x low high = if ltb high x then high else if ltb x low then low else x

-- (int) (g_utf8_strlen (text) / 66.0) * 1000, clamped: the cast comes before the product.
pub duration : Bytes → ℕ
unfolding clamp
duration text = clamp (length text / 66 * 1000) 400 3000

abbrev pub needs_beep : MessageType → Bool
needs_beep info = false
needs_beep problem = true

-- The main loop's callback, too: it returns FALSE, which destroys the timer that called it. `id` is
-- the timer that g_timeout_add() makes.
dequeue : Extension → List QueuedMessage → ℕ → Extension
dequeue e [] id = call message_queue_empty (record e { message_timeout_id = 0 })
dequeue e (m ∷ rest) id =
    let shown = set_message (record e { message_queue = rest }) m.text in
    let timed = record (call (timeout_add (duration m.text) id) shown) {
      message_timeout_id = id;
    } in
    if needs_beep m.type then call beep timed else timed

pub dequeue_message : Extension → ℕ → Extension
dequeue_message e id = dequeue e e.message_queue id

-- The main loop calls `dequeue_message` for the timer `fired`, and destroys it at the FALSE returned.
pub expire : Extension → ℕ → ℕ → Extension
expire e fired id = call (source_destroyed fired) (dequeue_message e id)

pub queue_message : Extension → MessageType → Bytes → ℕ → Extension
queue_message e type text id =
    let pushed = record e {
      message_queue = e.message_queue ++ record { text = text; type = type } ∷ [];
    } in
    if pushed.message_timeout_id == 0 then dequeue_message pushed id else pushed

pub ask_question : Extension → Bytes → Extension
ask_question e message =
    if not (str_eq (codes "Token?") message) then e else call (answer e.token) e

pub ask_secret : Extension → Bytes → Extension
ask_secret e message = if not (str_eq (codes "Token?") message) then e else call (answer e.token) e

pub reset : Extension → Extension
reset e =
    call (set_enabled false) (purge_message_queue (set_message (record e { token = none }) []))

abbrev start_if : Option ℕ → Extension → Option ℕ → Option ℕ → Extension
start_if none e bus proxy = ovirtcred_server_start e bus proxy
start_if (some _) e bus proxy = e

pub set_ready : Extension → Option ℕ → Option ℕ → Bool → Extension
set_ready e bus proxy chosen =
    let enabled = call (set_enabled true) e in
    let started = start_if enabled.cred_proxy enabled bus proxy in
    if started.select_when_ready
    then (let asked = call (choose_user service_name) started in
        if chosen then record asked { select_when_ready = false } else asked)
    else started

pub get_service_name : Extension → Bytes
get_service_name e = service_name

pub get_page : Extension → Option ℕ
get_page e = e.page

pub get_actions : Extension → ℕ
get_actions e = e.actions

pub focus : Extension → Extension × Bool
focus e = (call (grab_focus e.message_label) e, true)

abbrev is_empty : List QueuedMessage → Bool
is_empty [] = true
is_empty (_ ∷ _) = false

pub has_queued_messages : Extension → Bool
has_queued_messages e =
    if not (e.message_timeout_id == 0)
    then true
    else if not (is_empty e.message_queue)
    then true
    else false

pub get_icon : Extension → ℕ
get_icon e = e.icon

pub get_name : Extension → Bytes
get_name e = codes "OVirtCred Authentication"

pub get_description : Extension → Bytes
get_description e = codes "oVirt single-sign-on login"

pub is_choosable : Extension → Bool
is_choosable e = true

pub finalize : Extension → Extension
finalize e = ovirtcred_server_stop (record (purge_message_queue e) { token = none })

-- `ui` is the page and the label that the UI file gives, where it loads.
abbrev create_page : Option (ℕ × ℕ) → Extension → Extension
create_page none e = e
create_page (some (page, label)) e = record e { page = some page; message_label = some label }

-- The private part starts out zeroed.
pub init : ℕ → Option (ℕ × ℕ) → ℕ → Extension
init icon ui actions = reset (
    create_page ui (record {
      icon = icon;
      page = none;
      actions = actions;
      message_label = none;
      message_queue = [];
      message_timeout_id = 0;
      select_when_ready = false;
      cred_proxy = none;
      connection = none;
      token = none;
      calls = [];
    }))
