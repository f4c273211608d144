-- ===== src/PamOvirtCred/Authenticate/Access.antt =====
-- Who is let in by pam_sm_authenticate(), as whom, and what a refusal leaves behind.
use ovirt_guest_agent.Prelude.{
  ◌≡◌, refl, sym, ◌∙◌, ap, ◌≢◌, ◌⊎◌, inl, inr, true, false, Option, none, some, ◌∷◌, arith, Bytes,
  str_eq→eq, Bool-cases,
}
use ovirt_guest_agent.PamOvirtCred.CredChannel.{
  Outcome, ok, fault, blocked, ◌>>=◌, Sys, Host, Parsed, parsed, unparsed, Acquired,
  acquire_user_credentials,
}
use ovirt_guest_agent.PamOvirtCred.Authenticate.{
  PamRet, pam_success, pam_user_unknown, pam_user, pam_authtok, Pam, Handle, Done, is_success,
  free_all, drop_all, conflicts, hand_over, check_and_set, after_acquire, retrieve, give_up,
  prompted, pam_sm_authenticate, free_token,
}

-- What a run has gone through when it lets the user in.
pub record Granted (pam : Pam) (sys : Sys) (host : Host) (stack : Bytes) (d : Done) : Type 0 where
  pub token : Bytes
  pub username : Bytes
  pub password : Bytes
  pub acquired : Acquired
  pub prompt_ok : pam.prompt ≡ (pam_success, some token)
  pub acquire_ok : acquire_user_credentials sys host stack token ≡ ok acquired
  pub parse_ok : acquired.result ≡ parsed username password
  pub no_conflict : conflicts pam.get_user username ≡ false
  pub handed_over : d.handle ≡ record { user = some username; authtok = some password }

check_and_set_success :
    (pam : Pam) (h : Handle) (p : Parsed)
    → (check_and_set pam h p).0 ≡ pam_success
    → (username password : Bytes) × (p ≡ parsed username password)
      × (conflicts pam.get_user username ≡ false)
      × ((check_and_set pam h p).1 ≡ record { user = some username; authtok = some password })
unfolding check_and_set hand_over
check_and_set_success pam h unparsed e = cc
check_and_set_success pam h (parsed username password) e =
    (username, password, refl, ground arith, ground arith)

check_and_set_refusal :
    (pam : Pam) (h : Handle) (p : Parsed)
    → (check_and_set pam h p).0 ≢ pam_success
    → ((check_and_set pam h p).1.authtok ≡ h.authtok)
      × (((check_and_set pam h p).1.user ≡ h.user)
          ⊎ ((password : Bytes) × (pam.set_item pam_authtok password ≡ (check_and_set pam h p).0)))
unfolding check_and_set hand_over
check_and_set_refusal pam h unparsed n = (refl, inl refl)
check_and_set_refusal pam h (parsed username password) n =
    elim (Bool-cases (conflicts pam.get_user username)) [
      | inl c ↦ rw c (refl, inl refl)
      | inr c ↦ rw c (elim (Bool-cases (is_success (pam.set_item pam_user username))) [
        | inl u ↦ rw u (ground arith, inr (password, ground arith))
        | inr u ↦ rw u (refl, inl refl)
      ])
    ]

pub >>=-returns {ℓ} :
    {A B : Type ℓ} (first : Outcome A) (then_run : A → Outcome B) (result : B)
    → ok result ≡ (first >>= then_run)
    → (a : A) × (then_run a ≡ ok result) × (ok a ≡ first)
>>=-returns fault then_run result e = cc
>>=-returns blocked then_run result e = cc
>>=-returns (ok a) then_run result e = (a, sym e, refl)

-- A run asks for a token in vain, or takes one to the agent.
record Asked (pam : Pam) (h : Handle) (d : Done) : Type 0 where
  answer : PamRet × Option Bytes
  prompt_eq : pam.prompt ≡ answer
  done_eq : d ≡ record { retval = pam_user_unknown; handle = h; cleanup = free_all answer.1 }

record Tried (pam : Pam) (sys : Sys) (host : Host) (stack : Bytes) (h : Handle) (d : Done)
    : Type 0 where
  token : Bytes
  acquired : Acquired
  prompt_ok : pam.prompt ≡ (pam_success, some token)
  acquire_ok : acquire_user_credentials sys host stack token ≡ ok acquired
  retval_eq : d.retval ≡ (check_and_set pam h acquired.result).0
  handle_eq : d.handle ≡ (check_and_set pam h acquired.result).1
  cleanup_eq : d.cleanup ≡ free_token token ∷ drop_all acquired.result

Asked-refused : (pam : Pam) (h : Handle) (d : Done) → Asked pam h d → d.retval ≢ pam_success
Asked-refused pam h d a = ground arith

pub is_success→eq : (r : PamRet) → is_success r ≡ true → r ≡ pam_success
is_success→eq r h = ground arith

module _ (pam : Pam) (sys : Sys) (host : Host) (stack : Bytes) (h : Handle) (d : Done) where
  pub after_acquire_eq :
      (token : Bytes) (a : Acquired)
      → after_acquire pam h token a ≡ ok d
      → (d.retval ≡ (check_and_set pam h a.result).0)
        × (d.handle ≡ (check_and_set pam h a.result).1)
        × (d.cleanup ≡ free_token token ∷ drop_all a.result)
  unfolding after_acquire
  after_acquire_eq token a e = (ground arith, ground arith, ground arith)

  retrieve_cases :
      (token : Bytes)
      → pam.prompt ≡ (pam_success, some token)
      → retrieve pam sys host stack h token ≡ ok d
      → Tried pam sys host stack h d
  unfolding retrieve
  retrieve_cases token p q =
      let (a, rest, acq) =
        >>=-returns (acquire_user_credentials sys host stack token) (after_acquire pam h token) d
          (sym q) in
      let (r, s, t) = after_acquire_eq token a rest in
      record {
        token = token;
        acquired = a;
        prompt_ok = p;
        acquire_ok = sym acq;
        retval_eq = r;
        handle_eq = s;
        cleanup_eq = t;
      }

  prompted_cases :
      (p : PamRet × Option Bytes)
      → pam.prompt ≡ p
      → prompted pam sys host stack h p ≡ ok d
      → Asked pam h d ⊎ Tried pam sys host stack h d
  unfolding prompted give_up
  prompted_cases (r, none) e q =
      inl (record { answer = (r, none); prompt_eq = e; done_eq = ground arith })
  prompted_cases (r, some token) e q = elim (Bool-cases (is_success r)) [
    | inl s ↦
        inr (retrieve_cases token (e ∙ ap (λ x. (x, some token)) (is_success→eq r s)) (rw s at q))
    | inr s ↦ inl (record { answer = (r, some token); prompt_eq = e; done_eq = ground arith })
  ]

  authenticate_cases :
      pam_sm_authenticate pam sys host stack h ≡ ok d → Asked pam h d ⊎ Tried pam sys host stack h d
  unfolding pam_sm_authenticate
  authenticate_cases q = prompted_cases pam.prompt refl q

  -- A run that ends with PAM_SUCCESS had a prompt that gave a token, an exchange with the agent
  -- that gave both strings, and no preset user that differs; the handle then holds these strings.
  pub authenticate_grants :
      pam_sm_authenticate pam sys host stack h ≡ ok d
      → d.retval ≡ pam_success
      → Granted pam sys host stack d
  authenticate_grants run success = elim (authenticate_cases run) [
    | inl a ↦ absurd (Asked-refused pam h d a success)
    | inr t ↦
        let (u, p, e, c, f) =
          check_and_set_success pam h t.acquired.result (sym t.retval_eq ∙ success) in
        record {
          token = t.token;
          username = u;
          password = p;
          acquired = t.acquired;
          prompt_ok = t.prompt_ok;
          acquire_ok = t.acquire_ok;
          parse_ok = e;
          no_conflict = c;
          handed_over = t.handle_eq ∙ f;
        }
  ]

  -- Where a user is preset, a run that ends with PAM_SUCCESS leaves that user in the handle: nobody
  -- else is let in.
  pub authenticate_preset :
      (preset : Bytes)
      → pam.get_user ≡ (pam_success, some preset)
      → pam_sm_authenticate pam sys host stack h ≡ ok d
      → d.retval ≡ pam_success
      → d.handle.user ≡ some preset
  authenticate_preset preset g run success =
      let w = authenticate_grants run success in
      ground (arith, w.no_conflict, w.handed_over, str_eq→eq w.username preset)

  -- A run that ends with another code than PAM_SUCCESS leaves the password item as it was, and the
  -- user item too unless the code is what the library answered to a password.
  pub authenticate_refusal_keeps :
      pam_sm_authenticate pam sys host stack h ≡ ok d
      → d.retval ≢ pam_success
      → (d.handle.authtok ≡ h.authtok)
        × ((d.handle.user ≡ h.user)
            ⊎ ((password : Bytes) × (pam.set_item pam_authtok password ≡ d.retval)))
  authenticate_refusal_keeps run refusal = elim (authenticate_cases run) [
    | inl a ↦ (ground arith, inl (ground arith))
    | inr t ↦
        let (x, y) =
          check_and_set_refusal pam h t.acquired.result (λ e. refusal (t.retval_eq ∙ e)) in
        (
          ap (λ k. k.authtok) t.handle_eq ∙ x,
          elim y [
            | inl k ↦ inl (ap (λ k. k.user) t.handle_eq ∙ k)
            | inr (q, k) ↦ inr (q, k ∙ sym t.retval_eq)
          ],
        )
  ]
