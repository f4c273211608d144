-- ===== src/Gina/Dialogs/Fields.antt =====
-- What the log-in dialogs show, and how an attempt ends.
use ovirt_guest_agent.Prelude.{
  ℕ, ◌≡◌, refl, sym, ◌∙◌, ap, ◌≢◌, Bool, true, false, Option, none, some, List, [], ◌∷◌, arith,
  ◌==◌, ==_refl, ne→==, if◌then◌else◌,
}
use ovirt_guest_agent.CredProv.Channel.{Wide}
use ovirt_guest_agent.Gina.Dialogs.{
  other, is_init, Message, init_dialog, credentials, command, idok, Call, set_dlg_item_text, Gina,
  pass_on, Answers, restart_if_attempted, on_message, handled, logon_dlg_proc, call, forward,
  restart_listener_thread, start_listener, kill_listener_thread, kill,
}

-- The text last given to a control.
abbrev pub field_text : ℕ → List Call → Option Wide
field_text id [] = none
field_text id (set_dlg_item_text i text ∷ cs) =
    let rest = field_text id cs in if i == id then some text else rest
field_text id (_ ∷ cs) = field_text id cs

module _ (window : ℕ) (a : Answers) (dlgprc username_id password_id : ℕ) (g : Gina) where
  -- The credentials stand in their two controls, the click is noted, and an attempt that was not noted
  -- before does not restart the listener.
  pub logon-credentials :
      (user pass : Wide)
      → g.attempted_to_login ≡ false
      → username_id ≢ password_id
      → (g' : Gina) × (logon_dlg_proc window a
            (some dlgprc)
            username_id
            password_id
            (credentials user pass)
            g
          ≡ some (g', a.result))
        × (g'.attempted_to_login ≡ false)
        × (field_text username_id g'.calls ≡ some user)
        × (field_text password_id g'.calls ≡ some pass)
  unfolding logon_dlg_proc handled pass_on restart_if_attempted on_message
  logon-credentials user pass fresh differ = (
    call (set_dlg_item_text password_id pass) (
        call (set_dlg_item_text username_id user)
          (call (forward dlgprc (credentials user pass)) g)),
    rw fresh,
    fresh,
    rw (ne→== password_id username_id (λ e. differ (sym e)), ==_refl username_id),
    rw (==_refl password_id),
  )

  pub logon-idok :
      g.attempted_to_login ≡ false
      → (g' : Gina) × (logon_dlg_proc window a
            (some dlgprc)
            username_id
            password_id
            (command idok)
            g
          ≡ some (g', a.result))
        × (g'.attempted_to_login ≡ true)
        × ((id : ℕ) → field_text id g'.calls ≡ field_text id g.calls)
  unfolding logon_dlg_proc handled pass_on restart_if_attempted on_message
  logon-idok fresh = (
    record (call (forward dlgprc (command idok)) g) { attempted_to_login = true },
    rw fresh,
    refl,
    λ id. refl,
  )

abbrev pub is_idok : Message → Bool
is_idok (command id) = id == idok
is_idok _ = false

restarted-thread :
    (window : ℕ) (a : Answers) (g : Gina)
    → g.attempted_to_login ≡ true
    → (g.config.restart_credentials_listener == 0) ≡ false
    → ((restart_if_attempted window a g).thread ≡ a.restarted)
      × ((restart_if_attempted window a g).attempted_to_login ≡ false)
unfolding restart_if_attempted restart_listener_thread start_listener kill_listener_thread kill
restarted-thread window a g tried configured = ground (arith, tried, configured)

on_message-thread :
    (window : ℕ) (a : Answers) (u p : ℕ) (m : Message) (g : Gina)
    → ((on_message window a u p m g).thread ≡ (if is_init m then a.started else g.thread))
      × (g.attempted_to_login ≡ false
          → (on_message window a u p m g).attempted_to_login ≡ is_idok m)
unfolding on_message restart_listener_thread start_listener kill_listener_thread kill
on_message-thread window a u p init_dialog g = ground arith
on_message-thread window a u p (credentials user pass) g = (refl, λ h. h)
on_message-thread window a u p (command id) g = ground arith
on_message-thread window a u p (other id) g = (refl, λ h. h)

-- A log-in that was tried and did not close the dialog: whatever message comes next, the listener is
-- started anew and the attempt forgotten, unless that message is another click, where the configuration says so.
pub logon-restarts :
    (window : ℕ) (a : Answers) (dlgprc username_id password_id : ℕ) (m : Message) (g : Gina)
    → g.attempted_to_login ≡ true
    → (g.config.restart_credentials_listener == 0) ≡ false
    → (g' : Gina) × (logon_dlg_proc window a (some dlgprc) username_id password_id m g
        ≡ some (g', a.result))
      × (g'.thread ≡ (if is_init m then a.started else a.restarted))
      × (g'.attempted_to_login ≡ is_idok m)
unfolding logon_dlg_proc handled pass_on
logon-restarts window a dlgprc u p m g tried configured =
    let passed : Gina = call (forward dlgprc m) g in
    let again : Gina = restart_if_attempted window a passed in
    let (thread, forgotten) = restarted-thread window a passed tried configured in
    let (result, noted) = on_message-thread window a u p m again in
    (
      on_message window a u p m again,
      refl,
      result ∙ ap (λ t. if is_init m then a.started else t) thread,
      noted forgotten,
    )
