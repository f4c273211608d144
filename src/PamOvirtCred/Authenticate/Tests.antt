-- ===== src/PamOvirtCred/Authenticate/Tests.antt =====
-- A log-in that succeeds, and one without a token.
use ovirt_guest_agent.Prelude.{◌≡◌, refl, ◌∙◌, ◌⊎◌, none, some, [], ◌∷◌, arith, Bytes, codes}
use ovirt_guest_agent.PamOvirtCred.CredChannel.{ok, parsed, strip_domain}
use ovirt_guest_agent.PamOvirtCred.CredChannel.Examples.{
  username, password, ticket, host, stack, sys, answers, strips, username-NonZero, password-NonZero,
}
use ovirt_guest_agent.PamOvirtCred.Authenticate.{
  Pam, pam_success, pam_user_unknown, pam_other, pam_authtok, Handle, Done, free_token, drop_all,
  prompted, give_up, pam_sm_authenticate,
}
use ovirt_guest_agent.PamOvirtCred.Authenticate.Accepts.{authenticate_accepts}
use ovirt_guest_agent.PamOvirtCred.Authenticate.Access.{
  Granted, authenticate_grants, authenticate_preset, authenticate_refusal_keeps,
}
use ovirt_guest_agent.PamOvirtCred.Authenticate.Releases.{Released, authenticate_releases}

-- The name that is left of `eve@lab`.
abbrev local_user : Bytes
local_user = strip_domain host.getpwnam username

abbrev pam : Pam
pam = record {
  prompt = (pam_success, some ticket);
  get_user = (pam_other 8, none);
  set_item = λ item value. pam_success;
}

abbrev blank : Handle
blank = record { user = none; authtok = none }

abbrev granted : Done
granted = record {
  retval = pam_success;
  handle = record { user = some local_user; authtok = some password };
  cleanup = free_token ticket ∷ drop_all (parsed local_user password);
}

authenticate_accepts_example : pam_sm_authenticate pam sys host stack blank ≡ ok granted
authenticate_accepts_example =
    authenticate_accepts pam sys host stack blank ticket username password answers refl
      username-NonZero password-NonZero (omega arith) refl refl refl refl refl refl

log_in : pam_sm_authenticate pam sys host stack blank ≡ ok granted
log_in =
    authenticate_accepts pam sys host stack blank ticket username password answers refl
      username-NonZero password-NonZero (omega arith) refl refl refl refl refl refl

authenticate_grants_example : Granted pam sys host stack granted
authenticate_grants_example = authenticate_grants pam sys host stack blank granted log_in refl

-- The same user is preset.
abbrev preset_pam : Pam
preset_pam = record pam { get_user = (pam_success, some (codes "eve")) }

abbrev eve : Done
eve = record {
  retval = pam_success;
  handle = record { user = some (codes "eve"); authtok = some password };
  cleanup = free_token ticket ∷ drop_all (parsed (codes "eve") password);
}

preset_log_in :
    local_user ≡ codes "eve" → pam_sm_authenticate preset_pam sys host stack blank ≡ ok eve
preset_log_in same =
    authenticate_accepts preset_pam sys host stack blank ticket username password answers refl
      username-NonZero password-NonZero (omega arith) refl refl refl (rw same refl) refl refl
    ∙ rw same

authenticate_preset_example : eve.handle.user ≡ some (codes "eve")
authenticate_preset_example =
    authenticate_preset preset_pam sys host stack blank eve (codes "eve") refl
      (preset_log_in strips) refl

-- No token is entered.
abbrev silent_pam : Pam
silent_pam = record pam { prompt = (pam_success, none) }

abbrev refused_log_in : Done
refused_log_in = record { retval = pam_user_unknown; handle = blank; cleanup = [] }

refusal : pam_sm_authenticate silent_pam sys host stack blank ≡ ok refused_log_in
unfolding pam_sm_authenticate prompted give_up
refusal = refl

authenticate_refusal_keeps_example :
    (refused_log_in.handle.authtok ≡ none)
    × ((refused_log_in.handle.user ≡ none)
        ⊎ ((secret : Bytes) × (silent_pam.set_item pam_authtok secret ≡ pam_user_unknown)))
authenticate_refusal_keeps_example =
    authenticate_refusal_keeps silent_pam sys host stack blank refused_log_in refusal (λ e. cc)

authenticate_releases_example : Released pam sys host stack granted.cleanup
authenticate_releases_example = authenticate_releases pam sys host stack blank granted log_in
