-- ===== src/Login.antt =====
-- The two ends of a log-in under GDM together: the greeter's extension that gets the token on D-Bus, and
-- the PAM module that asks for it and fetches the credentials.
pub mod Greeter
pub mod Greeters
pub mod Served
mod Tests
use ovirt_guest_agent.Prelude.{
  ◌≤◌, ◌≡◌, ◌∙◌, ap, Bool, true, false, some, List, ◌∷◌, Bytes, codes, NonZero, All, length,
}
use ovirt_guest_agent.PamOvirtCred.CredChannel.{ok, Sys, Host, parsed, creds_size, strip_domain}
use ovirt_guest_agent.PamOvirtCred.CredChannel.Parse.{pack}
use ovirt_guest_agent.PamOvirtCred.CredChannel.Acquire.{Answers}
use ovirt_guest_agent.PamOvirtCred.Authenticate.{
  pam_success, pam_user, pam_authtok, Pam, Handle, drop_all, conflicts, free_token,
  pam_sm_authenticate,
}
use ovirt_guest_agent.PamOvirtCred.Authenticate.Accepts.{authenticate_accepts}
use ovirt_guest_agent.GdmPlugin.Extension.{Extension, on_user_authenticated, ask_question}
use ovirt_guest_agent.GdmPlugin.Extension.Display.{Event, handle_all}
use ovirt_guest_agent.GdmPlugin.Extension.Answering.{last_answer, GoesOn, signal-answered}

-- The extension after a signal with a token, some events, and the prompt of the PAM module.
abbrev pub prompted : Extension → Bytes → Bool → List Event → Extension
prompted e token chosen evs =
    ask_question (handle_all (on_user_authenticated e (some token) true chosen) evs)
      (codes "Token?")

-- From the D-Bus signal to the items of PAM: where the signal brings a token, whatever messages the
-- greeter shows before PAM's prompt, and the PAM module gets the extension's answer to that prompt, it
-- returns PAM_SUCCESS with the user name (its domain cut off where the host knows the local part) and
-- the password that the agent packed. The extension has memory for the token, every system call
-- succeeds, the agent answers to this token with credentials without NUL bytes in a message no longer
-- than the buffer, both allocations succeed, no different user is preset and the library takes both
-- items.
pub signal_logs_in :
    (e : Extension) (chosen : Bool) (evs : List Event) (pam : Pam) (sys : Sys) (host : Host)
    (stack : Bytes) (h : Handle) (token username password : Bytes)
    (a : Answers sys token (pack username password))
    → All GoesOn evs
    → pam.prompt ≡ (pam_success, last_answer (prompted e token chosen evs).calls)
    → All NonZero username
    → All NonZero password
    → length (pack username password) ≤ length stack
    → length stack ≡ creds_size
    → host.alloc_username ≡ true
    → host.alloc_password ≡ true
    → conflicts pam.get_user (strip_domain host.getpwnam username) ≡ false
    → pam.set_item pam_user (strip_domain host.getpwnam username) ≡ pam_success
    → pam.set_item pam_authtok password ≡ pam_success
    → pam_sm_authenticate pam sys host stack h
      ≡ ok (record {
        retval = pam_success;
        handle = record {
          user = some (strip_domain host.getpwnam username);
          authtok = some password;
        };
        cleanup =
            free_token token ∷ drop_all (parsed (strip_domain host.getpwnam username) password);
      })
signal_logs_in e chosen evs pam sys host stack h token username password a on answered =
    authenticate_accepts pam sys host stack h token username password a
      (answered ∙ ap (λ o. (pam_success, o)) (signal-answered e token chosen evs on))
