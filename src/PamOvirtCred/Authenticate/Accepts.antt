-- ===== src/PamOvirtCred/Authenticate/Accepts.antt =====
-- A log-in from the prompt to the items of PAM, with an agent that answers.
use ovirt_guest_agent.Prelude.{
  ◌≤◌, ◌≡◌, refl, ◌∙◌, ap, true, false, some, [], ◌∷◌, Bytes, NonZero, All, length,
}
use ovirt_guest_agent.PamOvirtCred.CredChannel.{ok, Sys, Host, parsed, creds_size, strip_domain}
use ovirt_guest_agent.PamOvirtCred.CredChannel.Parse.{pack}
use ovirt_guest_agent.PamOvirtCred.CredChannel.Acquire.{
  Answers, acquire_delivers, acquire_unanswered,
}
use ovirt_guest_agent.PamOvirtCred.Authenticate.{
  pam_success, pam_user, pam_user_unknown, pam_authtok, Pam, Handle, drop_all, conflicts, hand_over,
  check_and_set, after_acquire, retrieve, prompted, pam_sm_authenticate, free_token,
}

-- From end to end: where the prompt gives a token, every system call succeeds, the agent answers
-- with credentials that it packed without NUL bytes in a message no longer than the buffer, both
-- allocations succeed, no different user is preset and the library takes both items, PAM_SUCCESS is
-- returned with both items set, the domain cut off the name where the host knows the local part,
-- and the strings are released.
pub authenticate_accepts :
    (pam : Pam) (sys : Sys) (host : Host) (stack : Bytes) (h : Handle)
    (token username password : Bytes) (a : Answers sys token (pack username password))
    → pam.prompt ≡ (pam_success, some token)
    → All NonZero username
    → All NonZero password
    → length (pack username password) ≤ length stack
    → length stack ≡ creds_size
    → host.alloc_username ≡ true
    → host.alloc_password ≡ true
    → conflicts pam.get_user (strip_domain host.getpwnam username) ≡ false
    → pam.set_item pam_user (strip_domain host.getpwnam username) ≡ pam_success
    → pam.set_item pam_authtok password ≡ pam_success
    → pam_sm_authenticate pam sys host stack h
      ≡ ok (record {
        retval = pam_success;
        handle = record {
          user = some (strip_domain host.getpwnam username);
          authtok = some password;
        };
        cleanup =
            free_token token ∷ drop_all (parsed (strip_domain host.getpwnam username) password);
      })
unfolding pam_sm_authenticate prompted retrieve after_acquire check_and_set hand_over
authenticate_accepts pam sys host stack h token username password a p nu np fits size au ap' c s t =
    ap (prompted pam sys host stack h) p
    ∙ (rw
        (acquire_delivers sys host stack token username password a nu np fits size au ap', c, s, t))

-- Where the prompt gives a token and every system call succeeds, but the agent ends the stream without an
-- answer, the user is unknown, no item is set, and the token is freed.
pub authenticate_unanswered :
    (pam : Pam) (sys : Sys) (host : Host) (stack : Bytes) (h : Handle) (token : Bytes)
    (a : Answers sys token [])
    → pam.prompt ≡ (pam_success, some token)
    → pam_sm_authenticate pam sys host stack h
      ≡ ok (record { retval = pam_user_unknown; handle = h; cleanup = free_token token ∷ [] })
unfolding pam_sm_authenticate prompted retrieve after_acquire check_and_set
authenticate_unanswered pam sys host stack h token a p =
    ap (prompted pam sys host stack h) p ∙ (rw (acquire_unanswered sys host stack token a) refl)
