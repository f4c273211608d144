-- ===== src/Gina/Dialogs.antt =====
-- The dialogs of GinaSSO/GinaDlg.cpp. Windows, threads, pipes and dialog procedures of the original GINA
-- are numbers, NULL is `none`; what the code asks of Windows is recorded in
-- `calls`, latest first. `new` has the memory here.
pub mod Forwarding
pub mod Threads
pub mod Fields
use ovirt_guest_agent.Prelude.{
  ℕ, Bool, true, false, not, ◌&&◌, Option, none, some, List, [], ◌∷◌, ◌++◌, replicate, ◌==◌,
  if◌then◌else◌,
}
use ovirt_guest_agent.CredProv.Channel.{Wide}
use ovirt_guest_agent.Gina.Config.{GlobalConfig, Registry, unset, read_config_values}

-- WLX_VERSION_1_0 to WLX_VERSION_1_4 of winwlx.h
abbrev pub version_1_0 : ℕ
version_1_0 = 0x10000

abbrev pub version_1_1 : ℕ
version_1_1 = 0x10001

abbrev pub version_1_2 : ℕ
version_1_2 = 0x10002

abbrev pub version_1_3 : ℕ
version_1_3 = 0x10003

abbrev pub version_1_4 : ℕ
version_1_4 = 0x10004

-- A window message: WM_INITDIALOG, WM_USER + 5 with its two strings, WM_COMMAND with LOWORD(wParam), or
-- another one.
pub data Message : Type 0 where
  init_dialog : Message
  credentials : Wide → Wide → Message
  command : ℕ → Message
  other : ℕ → Message

abbrev pub idok : ℕ
idok = 1

pub data Call : Type 0 where
  forward : ℕ → Message → Call
  sas_notify : Call
  post : ℕ → Message → Call
  set_dlg_item_text : ℕ → Wide → Call
  create_thread : ℕ → Option ℕ → Call
  terminate_thread : ℕ → Call
  close_handle flush_file_buffers disconnect_named_pipe : Option ℕ → Call
  sleep : ℕ → Call

-- The dialog procedures that take the place of the original's.
pub data Proc : Type 0 where
  original : ℕ → Proc
  my_display_sas_notice my_logged_out_sas my_display_locked_notice : Proc
  my_logged_on_sas my_user_message : Proc

-- What stands for WlxDialogBoxParam() in Winlogon's table, whatever the table's version.
pub data DialogBoxParam : Type 0 where
  winlogon_dialog_box_param my_dialog_box_param : DialogBoxParam

-- The file's variables, and the entry of Winlogon's table. Its `g_dwVersion` is another variable than that of GinaSSO.cpp, which is static
-- there, and nothing assigns it.
pub record Gina : Type 0 where
  pub config : GlobalConfig
  pub table : DialogBoxParam
  pub dialog_box_param : Option DialogBoxParam
  pub dlg_version : ℕ
  pub pipe : Option ℕ
  pub thread : Option ℕ
  pub attempted_to_login : Bool
  pub logged_out_sas_proc : Option ℕ
  pub logged_on_sas_proc : Option ℕ
  pub display_sas_notice_proc : Option ℕ
  pub display_locked_notice_proc : Option ℕ
  pub user_message_proc : Option ℕ
  pub calls : List Call

abbrev pub loaded : Gina
loaded = record {
  config = unset;
  table = winlogon_dialog_box_param;
  dialog_box_param = none;
  dlg_version = version_1_4;
  pipe = none;
  thread = none;
  attempted_to_login = false;
  logged_out_sas_proc = none;
  logged_on_sas_proc = none;
  display_sas_notice_proc = none;
  display_locked_notice_proc = none;
  user_message_proc = none;
  calls = [];
}

abbrev pub call : Call → Gina → Gina
call c g = record g { calls = c ∷ g.calls }

-- The entry is saved and replaced, in the four versions of the table alike.
pub hook_wlx_dialog_box_param : Registry → Gina → Gina
hook_wlx_dialog_box_param r g = record g {
  config = read_config_values r g.config;
  dialog_box_param = some g.table;
  table = my_dialog_box_param;
}

-- The cases of the switch have no `break`: each goes on into those below it.
pub sas_notifications : ℕ → List Call
sas_notifications version =
    if version == version_1_0
    then replicate 5 sas_notify
    else if version == version_1_1
    then replicate 4 sas_notify
    else if version == version_1_2
    then replicate 3 sas_notify
    else if version == version_1_3
    then replicate 2 sas_notify
    else replicate 1 sas_notify

pub send_alt_ctrl_del : Gina → Gina
send_alt_ctrl_del g = record g { calls = sas_notifications g.dlg_version ++ g.calls }

kill : Option ℕ → Gina → Gina
kill none g = g
kill (some t) g = record (call (close_handle g.pipe) (call (terminate_thread t) g)) {
  pipe = none;
  thread = none;
}

pub kill_listener_thread : Gina → Gina
kill_listener_thread g = kill g.thread g

-- `made` is what CreateThread() returns.
start_listener : ℕ → Option ℕ → Gina → Gina
start_listener window made g = record (call (create_thread window made) g) { thread = made }

pub restart_listener_thread : ℕ → Option ℕ → Gina → Gina
restart_listener_thread window made g = start_listener window made (kill_listener_thread g)

-- A call through a saved procedure; through NULL there is none.
pass_on : Option ℕ → Message → Gina → Option Gina
pass_on none m g = none
pass_on (some p) m g = some (call (forward p m) g)

-- What Windows and the original GINA answer while a message is handled: the two threads that may be
-- made, and the result of the original procedure.
pub record Answers : Type 0 where
  pub restarted : Option ℕ
  pub started : Option ℕ
  pub result : ℕ

restart_if_attempted : ℕ → Answers → Gina → Gina
restart_if_attempted window a g =
    if g.attempted_to_login && not (g.config.restart_credentials_listener == 0)
    then restart_listener_thread window a.restarted (record g { attempted_to_login = false })
    else g

on_message : ℕ → Answers → ℕ → ℕ → Message → Gina → Gina
on_message window a username_id password_id init_dialog g =
    restart_listener_thread window a.started g
on_message window a username_id password_id (credentials user pass) g =
    call (set_dlg_item_text password_id pass) (call (set_dlg_item_text username_id user) g)
on_message window a username_id password_id (command id) g =
    if id == idok then record g { attempted_to_login = true } else g
on_message window a username_id password_id (other id) g = g

handled : ℕ → Answers → ℕ → ℕ → Message → Option Gina → Option (Gina × ℕ)
handled window a username_id password_id m none = none
handled window a username_id password_id m (some g) =
    some (on_message window a username_id password_id m (restart_if_attempted window a g), a.result)

pub logon_dlg_proc : ℕ → Answers → Option ℕ → ℕ → ℕ → Message → Gina → Option (Gina × ℕ)
logon_dlg_proc window a proc username_id password_id m g =
    handled window a username_id password_id m (pass_on proc m g)

abbrev pub is_init : Message → Bool
is_init init_dialog = true
is_init _ = false

notified : Answers → Message → Option Gina → Option (Gina × ℕ)
notified a m none = none
notified a m (some g) = some (if is_init m then send_alt_ctrl_del g else g, a.result)

dismissed : ℕ → Answers → Message → Option Gina → Option (Gina × ℕ)
dismissed window a m none = none
dismissed window a m (some g) =
    some (if is_init m then call (post window (command idok)) g else g, a.result)

-- A window's procedure gets a message.
pub dlg_proc : ℕ → Answers → Proc → Message → Gina → Option (Gina × ℕ)
dlg_proc window a (original p) m g = some (call (forward p m) g, a.result)
dlg_proc window a my_display_sas_notice m g = notified a m (pass_on g.display_sas_notice_proc m g)
dlg_proc window a my_display_locked_notice m g =
    notified a m (pass_on g.display_locked_notice_proc m g)
dlg_proc window a my_user_message m g = dismissed window a m (pass_on g.user_message_proc m g)
dlg_proc window a my_logged_out_sas m g =
    logon_dlg_proc window a g.logged_out_sas_proc g.config.logged_out_sas_username
      g.config.logged_out_sas_password m g
dlg_proc window a my_logged_on_sas m g =
    logon_dlg_proc window a g.logged_on_sas_proc g.config.logged_on_sas_username
      g.config.logged_on_sas_password m g

-- A dialog template: a name, or an identifier where the high word is zero.
pub record Template : Type 0 where
  pub high : ℕ
  pub low : ℕ

-- What the original WlxDialogBoxParam() is called with in place of `dlgprc`.
pub my_wlx_dialog_box_param : Template → ℕ → Gina → Gina × Proc
my_wlx_dialog_box_param t dlgprc g =
    if not (t.high == 0)
    then (g, original dlgprc)
    else if t.low == g.config.logged_out_sas_dialog
    then (record g { logged_out_sas_proc = some dlgprc }, my_logged_out_sas)
    else if t.low == g.config.display_sas_notice_dialog
    then (record g { display_sas_notice_proc = some dlgprc }, my_display_sas_notice)
    else if t.low == g.config.display_locked_notice_dialog
    then (record g { display_locked_notice_proc = some dlgprc }, my_display_locked_notice)
    else if t.low == g.config.logged_on_sas_dialog
    then (record g { logged_on_sas_proc = some dlgprc }, my_logged_on_sas)
    else if (t.low == g.config.user_message_dialog) && (g.config.present_logon_message == 0)
    then (record g { user_message_proc = some dlgprc }, my_user_message)
    else (g, original dlgprc)
