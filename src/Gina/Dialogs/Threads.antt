-- ===== src/Gina/Dialogs/Threads.antt =====
-- The listener threads that the dialogs make and terminate.
use ovirt_guest_agent.Prelude.{
  ap, sym, if_both, not, ◌&&◌, true, false, ℕ, ◌≡◌, refl, ◌∙◌, Option, none, some, List, [], ◌∷◌,
  ◌++◌, arith, ◌==◌, if◌then◌else◌,
}
use mathlib.Core.Path.{subst}
use ovirt_guest_agent.Gina.Config.{Registry}
use ovirt_guest_agent.Gina.Dialogs.{
  Message, init_dialog, credentials, command, other, idok, Call, create_thread, terminate_thread,
  Proc, original, my_display_sas_notice, my_logged_out_sas, my_display_locked_notice,
  my_logged_on_sas, my_user_message, Gina, hook_wlx_dialog_box_param, sas_notifications,
  send_alt_ctrl_del, kill, kill_listener_thread, start_listener, restart_listener_thread, pass_on,
  Answers, restart_if_attempted, on_message, handled, logon_dlg_proc, notified, dismissed, dlg_proc,
  Template, my_wlx_dialog_box_param, call, forward,
}

abbrev remove : ℕ → List ℕ → List ℕ
remove t [] = []
remove t (x ∷ xs) = let rest = remove t xs in if x == t then xs else x ∷ rest

-- The threads made and not terminated, latest first.
abbrev pub running : List Call → List ℕ
running [] = []
running (create_thread w (some t) ∷ cs) = t ∷ running cs
running (create_thread w none ∷ cs) = running cs
running (terminate_thread t ∷ cs) = remove t (running cs)
running (_ ∷ cs) = running cs

abbrev pub listed : Option ℕ → List ℕ
listed none = []
listed (some t) = t ∷ []

-- No thread but that of the variable is running.
abbrev pub OneListener : Gina → Type 0
OneListener g = running g.calls ≡ listed g.thread

-- After the kill no thread is running, and the variable names none.
kill-stops :
    (t : Option ℕ) (g : Gina)
    → g.thread ≡ t
    → running g.calls ≡ listed t
    → (running (kill t g).calls ≡ []) × ((kill t g).thread ≡ none)
unfolding kill
kill-stops none g e h = (h, e)
kill-stops (some t) g e h = ground (arith, h)

pub kill-OneListener : (g : Gina) → OneListener g → OneListener (kill_listener_thread g)
unfolding kill_listener_thread
kill-OneListener g h =
    let (stopped, none_left) = kill-stops g.thread g refl h in stopped ∙ ap listed (sym none_left)

start-OneListener :
    (window : ℕ) (made : Option ℕ) (g : Gina)
    → running g.calls ≡ []
    → OneListener (start_listener window made g)
unfolding start_listener
start-OneListener window none g h = h
start-OneListener window (some t) g h = ap (◌∷◌ t) h

restart-OneListener :
    (window : ℕ) (made : Option ℕ) (g : Gina)
    → OneListener g
    → OneListener (restart_listener_thread window made g)
unfolding restart_listener_thread kill_listener_thread
restart-OneListener window made g h =
    start-OneListener window made (kill g.thread g) (kill-stops g.thread g refl h).0

restart_if_attempted-OneListener :
    (window : ℕ) (a : Answers) (g : Gina)
    → OneListener g
    → OneListener (restart_if_attempted window a g)
unfolding restart_if_attempted
restart_if_attempted-OneListener window a g h =
    if_both OneListener (g.attempted_to_login && not (g.config.restart_credentials_listener == 0)) _
      _ (restart-OneListener window a.restarted (record g { attempted_to_login = false }) h) h

on_message-OneListener :
    (window : ℕ) (a : Answers) (u p : ℕ) (m : Message) (g : Gina)
    → OneListener g
    → OneListener (on_message window a u p m g)
unfolding on_message
on_message-OneListener window a u p init_dialog g h = restart-OneListener window a.started g h
on_message-OneListener window a u p (credentials user pass) g h = h
on_message-OneListener window a u p (command id) g h =
    if_both OneListener (id == idok) (record g { attempted_to_login = true }) g h h
on_message-OneListener window a u p (other id) g h = h

running-notifications :
    (version : ℕ) (cs : List Call) → running (sas_notifications version ++ cs) ≡ running cs
unfolding sas_notifications
running-notifications version cs = ground arith

-- Where there is a state, it has one listener at most.
abbrev OneListenerAfter : Option (Gina × ℕ) → Type 0
OneListenerAfter none = Unit
OneListenerAfter (some (g, r)) = OneListener g

logon-OneListener :
    (window : ℕ) (a : Answers) (proc : Option ℕ) (u p : ℕ) (m : Message) (g : Gina)
    → OneListener g
    → OneListenerAfter (logon_dlg_proc window a proc u p m g)
unfolding logon_dlg_proc handled pass_on
logon-OneListener window a none u p m g h = tt
logon-OneListener window a (some d) u p m g h =
    on_message-OneListener window a u p m (restart_if_attempted window a (call (forward d m) g))
      (restart_if_attempted-OneListener window a (call (forward d m) g) h)

notified-OneListener :
    (a : Answers) (proc : Option ℕ) (m : Message) (g : Gina)
    → OneListener g
    → OneListenerAfter (notified a m (pass_on proc m g))
unfolding notified pass_on send_alt_ctrl_del
notified-OneListener a none m g h = tt
notified-OneListener a (some d) init_dialog g h =
    running-notifications g.dlg_version (forward d init_dialog ∷ g.calls) ∙ h
notified-OneListener a (some d) (credentials user pass) g h = h
notified-OneListener a (some d) (command id) g h = h
notified-OneListener a (some d) (other id) g h = h

dismissed-OneListener :
    (window : ℕ) (a : Answers) (proc : Option ℕ) (m : Message) (g : Gina)
    → OneListener g
    → OneListenerAfter (dismissed window a m (pass_on proc m g))
unfolding dismissed pass_on
dismissed-OneListener window a none m g h = tt
dismissed-OneListener window a (some d) init_dialog g h = h
dismissed-OneListener window a (some d) (credentials user pass) g h = h
dismissed-OneListener window a (some d) (command id) g h = h
dismissed-OneListener window a (some d) (other id) g h = h

dlg_proc-OneListenerAfter :
    (window : ℕ) (a : Answers) (proc : Proc) (m : Message) (g : Gina)
    → OneListener g
    → OneListenerAfter (dlg_proc window a proc m g)
unfolding dlg_proc
dlg_proc-OneListenerAfter window a (original d) m g h = h
dlg_proc-OneListenerAfter window a my_display_sas_notice m g h =
    notified-OneListener a g.display_sas_notice_proc m g h
dlg_proc-OneListenerAfter window a my_display_locked_notice m g h =
    notified-OneListener a g.display_locked_notice_proc m g h
dlg_proc-OneListenerAfter window a my_user_message m g h =
    dismissed-OneListener window a g.user_message_proc m g h
dlg_proc-OneListenerAfter window a my_logged_out_sas m g h =
    logon-OneListener window a g.logged_out_sas_proc _ _ m g h
dlg_proc-OneListenerAfter window a my_logged_on_sas m g h =
    logon-OneListener window a g.logged_on_sas_proc _ _ m g h

pub dlg_proc-OneListener :
    (window : ℕ) (a : Answers) (proc : Proc) (m : Message) (g g' : Gina) (r : ℕ)
    → dlg_proc window a proc m g ≡ some (g', r)
    → OneListener g
    → OneListener g'
dlg_proc-OneListener window a proc m g g' r e h =
    subst OneListenerAfter e (dlg_proc-OneListenerAfter window a proc m g h)

-- Opening a dialog and reading the configuration leave the threads.
pub dialog_box-OneListener :
    (t : Template) (dlgprc : ℕ) (g : Gina)
    → OneListener g
    → OneListener (my_wlx_dialog_box_param t dlgprc g).0
unfolding my_wlx_dialog_box_param
dialog_box-OneListener t dlgprc g h = ground (arith, h)

pub hook-OneListener :
    (r : Registry) (g : Gina) → OneListener g → OneListener (hook_wlx_dialog_box_param r g)
unfolding hook_wlx_dialog_box_param
hook-OneListener r g h = h
