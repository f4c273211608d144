-- ===== src/PamOvirtCred/Authenticate/Releases.antt =====
-- What pam_sm_authenticate() releases in the end.
use ovirt_guest_agent.Prelude.{
  ◌≡◌, refl, sym, ◌∙◌, ap, ◌≢◌, ◌⊎◌, inl, inr, Option, none, some, List, [], ◌∷◌, arith, Bytes,
  Bool-cases,
}
use ovirt_guest_agent.PamOvirtCred.CredChannel.{
  ok, Sys, Host, Parsed, parsed, unparsed, Acquired, acquire_user_credentials,
}
use ovirt_guest_agent.PamOvirtCred.Authenticate.{
  PamRet, pam_success, Pam, Handle, Done, is_success, drop_all, Cleanup, overwrite_password,
  drop_password, drop_username, after_acquire, retrieve, give_up, prompted, pam_sm_authenticate,
  free_token,
}
use ovirt_guest_agent.PamOvirtCred.Authenticate.Access.{
  >>=-returns, is_success→eq, after_acquire_eq,
}

-- The prompt fails, or the exchange with the agent gives no strings.
abbrev pub NoCredentials : Pam → Sys → Host → Bytes → Bytes → Type 0
NoCredentials pam sys host stack token =
    (pam.prompt.0 ≢ pam_success)
    ⊎ ((a : Acquired) × (acquire_user_credentials sys host stack token ≡ ok a)
        × (a.result ≡ unparsed))

-- What is to be done in the end with the strings that the prompt and the exchange with the agent gave.
pub data Released (pam : Pam) (sys : Sys) (host : Host) (stack : Bytes)
    : List Cleanup → Type 0 where
  nothing : pam.prompt.1 ≡ none → Released pam sys host stack []
  token_alone :
      (token : Bytes)
      → pam.prompt.1 ≡ some token
      → NoCredentials pam sys host stack token
      → Released pam sys host stack (free_token token ∷ [])
  all_strings :
      (token : Bytes) (a : Acquired) {username password : Bytes}
      → pam.prompt ≡ (pam_success, some token)
      → acquire_user_credentials sys host stack token ≡ ok a
      → a.result ≡ parsed username password
      → Released pam sys host stack (
          free_token token
          ∷ overwrite_password password
          ∷ drop_password password
          ∷ drop_username username
          ∷ [])

done_eq : {d e : Done} → ok d ≡ ok e → e.cleanup ≡ d.cleanup
done_eq same = ground (arith, same)

module _ (pam : Pam) (sys : Sys) (host : Host) (stack : Bytes) (h : Handle) (d : Done) where
  acquired-Released :
      (token : Bytes) (a : Acquired)
      → pam.prompt ≡ (pam_success, some token)
      → acquire_user_credentials sys host stack token ≡ ok a
      → (result : Parsed) → a.result ≡ result
      → Released pam sys host stack (free_token token ∷ drop_all result)
  acquired-Released token a p acq unparsed r = token_alone token (ap (λ x. x.1) p) (inr (a, acq, r))
  acquired-Released token a p acq (parsed username password) r = all_strings token a p acq r

  asked-Released :
      (r : PamRet) (o : Option Bytes)
      → pam.prompt ≡ (r, o)
      → prompted pam sys host stack h (r, o) ≡ ok d
      → Released pam sys host stack d.cleanup
  unfolding prompted give_up retrieve
  asked-Released r none p run = rw (done_eq run) (nothing (ap (λ x. x.1) p))
  asked-Released r (some token) p run = elim (Bool-cases (is_success r)) [
    | inl s ↦
        let (a, rest, acq) =
          >>=-returns (acquire_user_credentials sys host stack token) (after_acquire pam h token) d
            (sym (rw s at run)) in
        let (x, y, dropped) = after_acquire_eq pam sys host stack h d token a rest in
        rw dropped (
          acquired-Released token a (p ∙ ap (λ q. (q, some token)) (is_success→eq r s)) (sym acq)
            a.result refl)
    | inr s ↦ rw (done_eq (rw s at run)) (
        token_alone token (ap (λ x. x.1) p)
          (inl (λ e. absurd (ground (arith, s, sym (ap (λ x. x.0) p) ∙ e)))))
  ]

  -- A run that returns, with whatever code: of the strings that the module was given, token, password and user name, each is
  -- released, once, and nothing else is; and the password is overwritten before.
  pub authenticate_releases :
      pam_sm_authenticate pam sys host stack h ≡ ok d → Released pam sys host stack d.cleanup
  unfolding pam_sm_authenticate
  authenticate_releases run = asked-Released pam.prompt.0 pam.prompt.1 refl run
