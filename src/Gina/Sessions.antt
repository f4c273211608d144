-- ===== src/Gina/Sessions.antt =====
-- The dialogs and the listener thread of GinaSSO/GinaDlg.cpp together.
use ovirt_guest_agent.Prelude.{
  ap, sym, ℕ, ◌≤◌, ◌≡◌, refl, ◌∙◌, ◌≢◌, Bool, true, false, Option, some, ◌∷◌, ◌++◌, Bytes, NonZero,
  All, length, Run, Run-keeps,
}
use ovirt_guest_agent.PamOvirtCred.CredChannel.{ok}
use ovirt_guest_agent.PamOvirtCred.CredChannel.Parse.{pack}
use ovirt_guest_agent.Gina.Config.{Registry}
use ovirt_guest_agent.Gina.Dialogs.{
  Message, credentials, command, idok, Proc, Gina, loaded, hook_wlx_dialog_box_param,
  kill_listener_thread, Answers, logon_dlg_proc, dlg_proc, Template, my_wlx_dialog_box_param,
}
use ovirt_guest_agent.Gina.Dialogs.Threads.{
  running, listed, OneListener, kill-OneListener, dlg_proc-OneListener, dialog_box-OneListener,
  hook-OneListener,
}
use ovirt_guest_agent.Gina.Dialogs.Fields.{field_text, logon-credentials, logon-idok}
use ovirt_guest_agent.Gina.Listener.{pipe_bufsize, Host, Peer, open_pipe, serve, thread_func}
use ovirt_guest_agent.Gina.Listener.Overrun.{News, sends}
use ovirt_guest_agent.Gina.Listener.Delivery.{
  posts, open_pipe-threads, serve-Returned, thread_delivers,
}

-- What happens between the start of Winlogon and its end: the hook is set, the original GINA opens a
-- dialog, a window of it gets a message, a listener thread opens the pipe, has read from it and returns,
-- a session is disconnected.
pub data Step (g : Gina) : Gina → Type 0 where
  hooks : (r : Registry) → Step g (hook_wlx_dialog_box_param r g)
  opens : (t : Template) (dlgprc : ℕ) → Step g (my_wlx_dialog_box_param t dlgprc g).0
  handles :
      (window : ℕ) (a : Answers) (proc : Proc) (m : Message) (g' : Gina) (r : ℕ)
      → dlg_proc window a proc m g ≡ some (g', r)
      → Step g g'
  listens : (made : Option ℕ) → Step g (open_pipe made g)
  serves :
      (host : Host) (window : ℕ) (peer : Peer) (g' : Gina) (r : Bool)
      → serve host window peer g ≡ ok (g', r)
      → Step g g'
  disconnects : Step g (kill_listener_thread g)

abbrev pub Reach : Gina → Gina → Type 0
Reach = Run Step

step-OneListener : (x y : Gina) → Step x y → OneListener x → OneListener y
step-OneListener x _ (hooks r) h = hook-OneListener r x h
step-OneListener x _ (opens t dlgprc) h = dialog_box-OneListener t dlgprc x h
step-OneListener x y (handles window a proc m _ r e) h =
    dlg_proc-OneListener window a proc m x y r e h
step-OneListener x _ (listens made) h =
    let (thread, calls) = open_pipe-threads made x in ap running calls ∙ h ∙ ap listed (sym thread)
step-OneListener x y (serves host window peer _ r e) h =
    let (_, thread, threads, _, _) = serve-Returned host window peer x (y, r) e in
    threads ∙ h ∙ ap listed (sym thread)
step-OneListener x _ disconnects h = kill-OneListener x h

-- Whatever dialogs are opened, whatever messages they get and however the listener threads end: of the
-- threads made and not terminated there is never more than one, the one that the variable names.
pub one_listener : (g : Gina) → Reach loaded g → running g.calls ≡ listed g.thread
one_listener g run = Run-keeps Step OneListener step-OneListener loaded g run refl

-- From the pipe to the dialog: a message that the agent packs, of at most 1021 bytes and with no NUL in
-- its strings, is read and posted, and when the dialog's procedure has handled the two messages, in the
-- order in which they were posted, the user name and the password stand in their controls, and the click
-- is noted. The controls differ, no attempt was noted before, and `new` has the memory.
pub credentials_fill_dialog :
    (host : Host) (user password : Bytes) (b : ℕ) (rest : Bytes)
    → News host
    → length (pack user password ++ b ∷ rest) ≡ pipe_bufsize
    → length (pack user password) ≤ 1021
    → All NonZero user
    → All NonZero password
    → (window pipe dlgprc username_id password_id : ℕ) (first second : Answers) (g : Gina)
    → g.attempted_to_login ≡ false
    → username_id ≢ password_id
    → (g1 g2 g3 : Gina) × (thread_func host window
          (some pipe)
          (sends (pack user password ++ b ∷ rest) (length (pack user password)))
          g
        ≡ ok (g1, true))
      × (posts g1.calls
          ≡ (window, command idok)
            ∷ (window, credentials (host.to_wide user) (host.to_wide password))
            ∷ posts g.calls)
      × (logon_dlg_proc window first
            (some dlgprc)
            username_id
            password_id
            (credentials (host.to_wide user) (host.to_wide password))
            g1
          ≡ some (g2, first.result))
      × (logon_dlg_proc window second (some dlgprc) username_id password_id (command idok) g2
          ≡ some (g3, second.result))
      × (field_text username_id g3.calls ≡ some (host.to_wide user))
      × (field_text password_id g3.calls ≡ some (host.to_wide password))
      × (g3.attempted_to_login ≡ true)
credentials_fill_dialog host user password b rest mem len room nu np window pipe dlgprc u p first
      second g fresh differ =
    let delivered = thread_delivers host user password b rest mem len room nu np window pipe g in
    let (g2, filled, still, user_shown, password_shown) =
      logon-credentials window first dlgprc u p _ (host.to_wide user) (host.to_wide password) fresh
        differ in
    let (g3, clicked, noted, kept) = logon-idok window second dlgprc u p g2 still in
    (
      _,
      g2,
      g3,
      delivered,
      refl,
      filled,
      clicked,
      kept u ∙ user_shown,
      kept p ∙ password_shown,
      noted,
    )
