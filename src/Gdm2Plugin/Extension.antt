-- ===== src/Gdm2Plugin/Extension.antt =====
-- gdm2-plugin/gdm-ovirtcred-extension.c, modelled as gdm-plugin's extension is: answers of the libraries
-- are arguments, requests to them are recorded in `calls`, latest first.
pub mod OneTime
pub mod Iface
pub mod Answering
pub mod Timers
mod Tests
use ovirt_guest_agent.Prelude.{
  ℕ, zero, suc, Bool, true, false, not, Option, none, some, List, [], ◌∷◌, Bytes, codes, str_eq,
  ◌==◌, if◌then◌else◌,
}

pub data Call : Type 0 where
  choose_user : Bytes → Call
  cancel : Call
  answer : Option Bytes → Call
  message_set : Call
  set_enabled : Bool → Call
  show_text : Option ℕ → Bytes → Call
  timeout_add_seconds : ℕ → ℕ → Call
  source_remove : ℕ → Call
  source_destroyed : ℕ → Call
  add_signal : Option ℕ → Bytes → Call
  connect_signal : Option ℕ → Bytes → Call
  unref : ℕ → Call
  grab_focus : Option ℕ → Call

-- struct _GdmOVirtCredExtensionPrivate, and the calls made.
pub record Extension : Type 0 where
  pub icon : ℕ
  pub page : Option ℕ
  pub actions : ℕ
  pub message_label : Option ℕ
  pub message_timeout_id : ℕ
  pub select_when_ready : Bool
  pub cred_proxy : Option ℕ
  pub connection : Option ℕ
  pub token : Option Bytes
  pub calls : List Call

-- PAMSERVICENAME comes from the build.
abbrev pub pam_service_name : Bytes
pam_service_name = codes "gdm-ovirtcred"

abbrev pub call : Call → Extension → Extension
call c e = record e { calls = c ∷ e.calls }

pub on_user_authenticated : Extension → Option Bytes → Bool → Bool → Extension
on_user_authenticated e none saved chosen = e
on_user_authenticated e (some token) false chosen = record e { token = none }
on_user_authenticated e (some token) true chosen =
    let asked = call (choose_user pam_service_name) (record e { token = some token }) in
    if chosen then asked else record (call cancel asked) { select_when_ready = true }

pub ovirtcred_server_start : Extension → Option ℕ → Option ℕ → Extension
ovirtcred_server_start e bus proxy = call (connect_signal proxy (codes "UserAuthenticated")) (
    call (add_signal proxy (codes "UserAuthenticated"))
      (record e { connection = bus; cred_proxy = proxy }))

drop_proxy : Option ℕ → Extension → Extension
drop_proxy none e = e
drop_proxy (some p) e = record (call (unref p) e) { cred_proxy = none }

drop_connection : Option ℕ → Extension → Extension
drop_connection none e = e
drop_connection (some c) e = record (call (unref c) e) { connection = none }

pub ovirtcred_server_stop : Extension → Extension
ovirtcred_server_stop e = drop_connection e.connection (drop_proxy e.cred_proxy e)

pub on_message_expired : Extension → Extension
on_message_expired e = call message_set (record e { message_timeout_id = 0 })

-- The main loop calls `on_message_expired` for the timer `fired`, and destroys it at the FALSE
-- returned.
pub expire : Extension → ℕ → Extension
expire e fired = call (source_destroyed fired) (on_message_expired e)

-- `id` is the timer that g_timeout_add_seconds() makes.
pub set_message : Extension → Bytes → ℕ → Extension
set_message e message id =
    let shown = call (show_text e.message_label message) e in
    let stopped =
      if shown.message_timeout_id == 0
      then shown
      else call (source_remove shown.message_timeout_id) shown in
    record (call (timeout_add_seconds 2 id) stopped) { message_timeout_id = id }

answer_token : Option Bytes → Extension → Extension
answer_token none e = call (answer none) e
answer_token (some token) e = record (call (answer (some token)) e) { token = none }

pub request_answer : Extension → Extension
request_answer e = answer_token e.token e

abbrev is_set : Option Bytes → Bool
is_set none = false
is_set (some _) = true

pub ask_question : Extension → Bytes → Extension
ask_question e message =
    if not (str_eq (codes "Token?") message)
    then e
    else if is_set e.token
    then request_answer e
    else e

pub ask_secret : Extension → Bytes → Extension
ask_secret e message =
    if not (str_eq (codes "Token?") message)
    then e
    else if is_set e.token
    then request_answer e
    else e

pub reset : Extension → Extension
reset e = call (set_enabled false) (record e { token = none })

abbrev start_if : Option ℕ → Extension → Option ℕ → Option ℕ → Extension
start_if none e bus proxy = ovirtcred_server_start e bus proxy
start_if (some _) e bus proxy = e

pub set_ready : Extension → Option ℕ → Option ℕ → Bool → Extension
set_ready e bus proxy chosen =
    let enabled = call (set_enabled true) e in
    let started = start_if enabled.cred_proxy enabled bus proxy in
    if started.select_when_ready
    then (let asked = call (choose_user pam_service_name) started in
        if chosen then record asked { select_when_ready = false } else asked)
    else started

pub get_service_name : Extension → Bytes
get_service_name e = pam_service_name

pub get_page : Extension → Option ℕ
get_page e = e.page

pub get_actions : Extension → ℕ
get_actions e = e.actions

pub focus : Extension → Extension × Bool
focus e = (call (grab_focus e.message_label) e, true)

pub get_icon : Extension → ℕ
get_icon e = e.icon

pub get_name : Extension → Bytes
get_name e = codes "OVIRT-M Authentication"

pub get_description : Extension → Bytes
get_description e = codes "OVIRT-M Single-Sign-On Login"

pub is_choosable : Extension → Bool
is_choosable e = true

-- The timer is removed whether or not there is one.
pub finalize : Extension → Extension
finalize e =
    let stopped = ovirtcred_server_stop (record e { token = none }) in
    call (source_remove stopped.message_timeout_id) stopped

abbrev create_page : Option (ℕ × ℕ) → Extension → Extension
create_page none e = e
create_page (some (page, label)) e = record e { page = some page; message_label = some label }

pub init : ℕ → Option (ℕ × ℕ) → ℕ → Extension
init icon ui actions = reset (
    create_page ui (record {
      icon = icon;
      page = none;
      actions = actions;
      message_label = none;
      message_timeout_id = 0;
      select_when_ready = false;
      cred_proxy = none;
      connection = none;
      token = none;
      calls = [];
    }))
