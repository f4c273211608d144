-- ===== src/Gina/Dialogs/Forwarding.antt =====
-- What the original GINA's dialog procedures see.
use mathlib.Core.Path.{subst}
use ovirt_guest_agent.Prelude.{
  ℕ, ◌≡◌, refl, ◌∙◌, false, not, ◌&&◌, Option, some, List, [], ◌∷◌, ◌==◌, arith, if_both, ap, sym,
}
use ovirt_guest_agent.Gina.Dialogs.{
  Message, init_dialog, credentials, command, other, Call, forward, Proc, original, my_user_message,
  my_logged_out_sas, my_logged_on_sas, my_display_sas_notice, my_display_locked_notice, Gina, call,
  sas_notifications, send_alt_ctrl_del, kill, kill_listener_thread, start_listener,
  restart_listener_thread, pass_on, Answers, restart_if_attempted, on_message, handled,
  logon_dlg_proc, notified, dismissed, dlg_proc, Template, my_wlx_dialog_box_param,
}

-- The messages passed on, latest first, each with the procedure that got it.
abbrev pub forwards : List Call → List (ℕ × Message)
forwards [] = []
forwards (forward p m ∷ cs) = (p, m) ∷ forwards cs
forwards (_ ∷ cs) = forwards cs

-- The procedures of the original GINA that are saved, and the one that a procedure in its place calls.
abbrev Slots : Type 0
Slots = Option ℕ × Option ℕ × Option ℕ × Option ℕ × Option ℕ

abbrev slots : Gina → Slots
slots g = (
  g.logged_out_sas_proc, g.logged_on_sas_proc, g.display_sas_notice_proc,
  g.display_locked_notice_proc, g.user_message_proc,
)

abbrev pick : Proc → Slots → Option ℕ
pick (original p) s = some p
pick my_logged_out_sas (out, on, sas, locked, user) = out
pick my_logged_on_sas (out, on, sas, locked, user) = on
pick my_display_sas_notice (out, on, sas, locked, user) = sas
pick my_display_locked_notice (out, on, sas, locked, user) = locked
pick my_user_message (out, on, sas, locked, user) = user

-- What a handler does besides: nothing is passed on, and the procedures stay saved.
abbrev Aside : Gina → Gina → Type 0
Aside g g' = (forwards g'.calls ≡ forwards g.calls) × (slots g' ≡ slots g)

Aside-trans : (g g' g'' : Gina) → Aside g g' → Aside g' g'' → Aside g g''
Aside-trans g g' g'' (x, y) (x', y') = (x' ∙ x, y' ∙ y)

send_alt_ctrl_del-Aside : (g : Gina) → Aside g (send_alt_ctrl_del g)
unfolding send_alt_ctrl_del sas_notifications
send_alt_ctrl_del-Aside g = (ground arith, refl)

restart-Aside :
    (window : ℕ) (made : Option ℕ) (g : Gina) → Aside g (restart_listener_thread window made g)
unfolding restart_listener_thread start_listener kill_listener_thread kill
restart-Aside window made g = (ground arith, ground arith)

on_message-Aside :
    (window : ℕ) (a : Answers) (username_id password_id : ℕ) (m : Message) (g : Gina)
    → Aside g (on_message window a username_id password_id m g)
unfolding on_message
on_message-Aside window a u p init_dialog g = restart-Aside window a.started g
on_message-Aside window a u p (credentials user pass) g = (refl, refl)
on_message-Aside window a u p (command id) g = (ground arith, ground arith)
on_message-Aside window a u p (other id) g = (refl, refl)

restart_if_attempted-Aside :
    (window : ℕ) (a : Answers) (g : Gina) → Aside g (restart_if_attempted window a g)
unfolding restart_if_attempted
restart_if_attempted-Aside window a g =
    if_both (Aside g) (g.attempted_to_login && not (g.config.restart_credentials_listener == 0)) _ g
      (restart-Aside window a.restarted (record g { attempted_to_login = false })) (refl, refl)

-- The procedure `dlgprc` gets the message, its answer is the answer, and the procedures stay saved.
abbrev Passes : Option (Gina × ℕ) → ℕ → ℕ → Message → Gina → Type 0
Passes o dlgprc result m g =
    (g' : Gina) × (o ≡ some (g', result))
    × (forwards g'.calls ≡ (dlgprc, m) ∷ forwards g.calls)
    × (slots g' ≡ slots g)

logon-Passes :
    (window : ℕ) (a : Answers) (dlgprc username_id password_id : ℕ) (m : Message) (g : Gina)
    → Passes (logon_dlg_proc window a (some dlgprc) username_id password_id m g) dlgprc a.result m g
unfolding logon_dlg_proc handled pass_on
logon-Passes window a dlgprc u p m g =
    let passed : Gina = call (forward dlgprc m) g in
    let again : Gina = restart_if_attempted window a passed in
    let (unpassed, kept) =
      Aside-trans passed again (on_message window a u p m again)
        (restart_if_attempted-Aside window a passed) (on_message-Aside window a u p m again) in
    (on_message window a u p m again, refl, unpassed, kept)

notified-Passes :
    (a : Answers) (dlgprc : ℕ) (m : Message) (g : Gina)
    → Passes (notified a m (pass_on (some dlgprc) m g)) dlgprc a.result m g
unfolding notified pass_on
notified-Passes a dlgprc init_dialog g =
    let passed : Gina = call (forward dlgprc init_dialog) g in
    let (unpassed, kept) = send_alt_ctrl_del-Aside passed in
    (send_alt_ctrl_del passed, refl, unpassed, kept)
notified-Passes a dlgprc (credentials user pass) g =
    (call (forward dlgprc (credentials user pass)) g, refl, refl, refl)
notified-Passes a dlgprc (command id) g = (call (forward dlgprc (command id)) g, refl, refl, refl)
notified-Passes a dlgprc (other id) g = (call (forward dlgprc (other id)) g, refl, refl, refl)

dismissed-Passes :
    (window : ℕ) (a : Answers) (dlgprc : ℕ) (m : Message) (g : Gina)
    → Passes (dismissed window a m (pass_on (some dlgprc) m g)) dlgprc a.result m g
unfolding dismissed pass_on
dismissed-Passes window a dlgprc m g = (_, refl, ground arith, ground arith)

-- One message, where `dlgprc` is what the window's procedure has saved.
dlg_proc-Passes :
    (window dlgprc : ℕ) (a : Answers) (proc : Proc) (m : Message) (g : Gina)
    → pick proc (slots g) ≡ some dlgprc
    → Passes (dlg_proc window a proc m g) dlgprc a.result m g
unfolding dlg_proc
dlg_proc-Passes window dlgprc a (original p) m g saved =
    let same : p ≡ dlgprc = ground (arith, saved) in
    (call (forward p m) g, refl, rw same refl, refl)
dlg_proc-Passes window dlgprc a my_display_sas_notice m g saved =
    subst (λ o. Passes (notified a m (pass_on o m g)) dlgprc a.result m g) (sym saved)
      (notified-Passes a dlgprc m g)
dlg_proc-Passes window dlgprc a my_display_locked_notice m g saved =
    subst (λ o. Passes (notified a m (pass_on o m g)) dlgprc a.result m g) (sym saved)
      (notified-Passes a dlgprc m g)
dlg_proc-Passes window dlgprc a my_user_message m g saved =
    subst (λ o. Passes (dismissed window a m (pass_on o m g)) dlgprc a.result m g) (sym saved)
      (dismissed-Passes window a dlgprc m g)
dlg_proc-Passes window dlgprc a my_logged_out_sas m g saved =
    let user = g.config.logged_out_sas_username in
    let password = g.config.logged_out_sas_password in
    subst (λ o. Passes (logon_dlg_proc window a o user password m g) dlgprc a.result m g)
      (sym saved) (logon-Passes window a dlgprc user password m g)
dlg_proc-Passes window dlgprc a my_logged_on_sas m g saved =
    let user = g.config.logged_on_sas_username in
    let password = g.config.logged_on_sas_password in
    subst (λ o. Passes (logon_dlg_proc window a o user password m g) dlgprc a.result m g)
      (sym saved) (logon-Passes window a dlgprc user password m g)

-- Message after message, each with what Windows and the original answer to it: `dlgprc` gets the message,
-- it alone and once, and the window gets the answer of `dlgprc`.
abbrev pub Transparent : ℕ → Proc → ℕ → List (Answers × Message) → Gina → Type 0
Transparent window proc dlgprc [] g = Unit
Transparent window proc dlgprc ((a, m) ∷ ms) g =
    (g' : Gina) × (dlg_proc window a proc m g ≡ some (g', a.result))
    × (forwards g'.calls ≡ (dlgprc, m) ∷ forwards g.calls)
    × Transparent window proc dlgprc ms g'

saved-Transparent :
    (window dlgprc : ℕ) (proc : Proc) (ms : List (Answers × Message)) (g : Gina)
    → pick proc (slots g) ≡ some dlgprc
    → Transparent window proc dlgprc ms g
saved-Transparent window dlgprc proc [] g saved = tt
saved-Transparent window dlgprc proc ((a, m) ∷ ms) g saved =
    let (g', answered, passed, kept) = dlg_proc-Passes window dlgprc a proc m g saved in
    (g', answered, passed, saved-Transparent window dlgprc proc ms g' (ap (pick proc) kept ∙ saved))

-- Whichever dialog the original GINA opens, and whether or not its procedure is replaced: nothing is passed on
-- before the first message, and of the messages of the window that follow one another, however many, each
-- reaches that procedure, once, and the window gets its answer. No other dialog is opened in between.
pub dialog_box-Transparent :
    (t : Template) (dlgprc window : ℕ) (ms : List (Answers × Message)) (g : Gina)
    → let (opened, proc) = my_wlx_dialog_box_param t dlgprc g in
      Transparent window proc dlgprc ms opened × (forwards opened.calls ≡ forwards g.calls)
unfolding my_wlx_dialog_box_param
dialog_box-Transparent t dlgprc window ms g =
    let (opened, proc) = my_wlx_dialog_box_param t dlgprc g in
    (saved-Transparent window dlgprc proc ms opened (ground arith), ground arith)
