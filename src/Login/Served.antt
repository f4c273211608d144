-- ===== src/Login/Served.antt =====
-- The whole of a log-in: the agent that announces a token and gives the credentials out, the greeter's
-- plugin that passes the token on, and the PAM module that fetches the credentials with it.
use mathlib.Core.Path.{subst}
use ovirt_guest_agent.Prelude.{
  ℕ, suc, ◌≤◌, ◌≡◌, ◌≢◌, ◌∙◌, ap, ◌⊎◌, true, false, Option, none, some, List, [], ◌∷◌, Bytes,
  NonZero, All, length, take, take_whole, str_eq, arith,
}
use ovirt_guest_agent.PamOvirtCred.CredChannel.{
  ok, Sys, Host, ret, retry, channel_address, set_sock_non_blocking, parsed, creds_size,
  strip_domain,
}
use ovirt_guest_agent.PamOvirtCred.CredChannel.Parse.{pack}
use ovirt_guest_agent.PamOvirtCred.CredChannel.Acquire.{Answers, retry_ret}
use ovirt_guest_agent.PamOvirtCred.Authenticate.{
  pam_success, pam_user, pam_authtok, pam_user_unknown, Pam, Handle, Done, drop_all, conflicts,
  free_token, pam_sm_authenticate,
}
use ovirt_guest_agent.PamOvirtCred.Authenticate.Accepts.{
  authenticate_accepts, authenticate_unanswered,
}
use ovirt_guest_agent.GuestAgent.CredServer.{
  Ucred, Ended, delivered, contains, run, Server, user_authenticated,
}
use ovirt_guest_agent.GuestAgent.CredServer.Serving.{
  process, replies, run_delivers, run_refuses, user_authenticated-run,
}
use ovirt_guest_agent.Login.Greeter.{Greeter, AllGoOn, asked, asked-answered}

-- The system calls of a PAM module whose socket leads to the agent's channel: none fails, and what it reads
-- is what the channel sends to the process that it is.
pub record Linked (allowed : List ℕ) (credentials : Bytes × Bytes) (cred : Ucred) (ticket : Bytes)
    (sys : Sys) : Type 0 where
  pub fd : ℕ
  pub flags : ℕ
  pub ready : ℕ
  pub socket_ok : sys.socket ≡ ret fd
  pub connect_ok : sys.connect channel_address ≡ ret tt
  pub nonblock_ok : set_sock_non_blocking sys ≡ true
  pub send_ok : sys.sends ticket ≡ ret (length ticket) ∷ []
  pub select_ok : retry sys.selects ≡ some (ret (suc ready, true))
  pub recv_ok : sys.recvs ≡ replies (run allowed credentials (process cred ticket))

module _ (allowed : List ℕ) (token credentials : Bytes) (cred : Ucred) (ticket : Bytes) (sys : Sys)
    (link : Linked allowed (token, credentials) cred ticket sys) where
  -- What the channel sends is what the module receives.
  linked-Answers :
      (e : Ended)
      → run allowed (token, credentials) (process cred ticket) ≡ ok e
      → length e.sent ≤ creds_size
      → Answers sys ticket e.sent
  linked-Answers e ran fits = record {
    fd = link.fd;
    flags = link.flags;
    sent = length ticket;
    ready = link.ready;
    socket_ok = link.socket_ok;
    connect_ok = link.connect_ok;
    nonblock_ok = link.nonblock_ok;
    send_ok = rw link.send_ok (retry_ret (length ticket) []);
    select_ok = link.select_ok;
    recv_ok = rw (link.recv_ok, ran, take_whole creds_size e.sent fits) (retry_ret e.sent []);
  }

-- What PAM is left with where the log-in succeeds.
abbrev pub accepted : Host → Bytes → Bytes → Bytes → Done
accepted host token username password = record {
  retval = pam_success;
  handle = record { user = some (strip_domain host.getpwnam username); authtok = some password };
  cleanup = free_token token ∷ drop_all (parsed (strip_domain host.getpwnam username) password);
}

-- From the host's credentials to the items of PAM, with any of the greeters: where the agent, with no
-- channel open, announces the token, the plugin gets it and keeps it through what happens before the
-- prompt, PAM gets the plugin's answer, and the module, a process of root, reaches the agent's channel,
-- the agent is left with no channel open and with the credentials sent, once, and the module returns
-- PAM_SUCCESS with the user name (its domain cut off where the host knows the local part) and the password
-- that the agent packed. The token has 1 to 1024 bytes, the credentials have no NUL bytes and a message no
-- longer than the buffer, no system call fails, both allocations succeed, no different user is preset and
-- the library takes both items.
pub token_logs_in :
    (g : Greeter) (s : g.State) (evs : List g.Event) (pam : Pam) (sys : Sys) (host : Host)
    (stack : Bytes) (h : Handle) (cred : Ucred) (token username password : Bytes)
    (getpwnam : Bytes → Option ℕ) (server : Server)
    → server.cred_channel ≡ none
    → Linked (0 ∷ []) (token, pack username password) cred token sys
    → cred.uid ≡ 0
    → token ≢ []
    → length token ≤ 1024
    → g.Carries token
    → AllGoOn g (g.authenticated s token) evs
    → pam.prompt ≡ (pam_success, g.answered (asked g s token evs))
    → All NonZero username
    → All NonZero password
    → length (pack username password) ≤ length stack
    → length stack ≡ creds_size
    → host.alloc_username ≡ true
    → host.alloc_password ≡ true
    → conflicts pam.get_user (strip_domain host.getpwnam username) ≡ false
    → pam.set_item pam_user (strip_domain host.getpwnam username) ≡ pam_success
    → pam.set_item pam_authtok password ≡ pam_success
    → (user_authenticated getpwnam server token (pack username password) (process cred token)
        ≡ ok (record server {
          cred_channel = none;
          announced = token ∷ server.announced;
          sent = pack username password ∷ server.sent;
        }))
      × (pam_sm_authenticate pam sys host stack h ≡ ok (accepted host token username password))
token_logs_in g s evs pam sys host stack h cred token username password getpwnam server idle link
      root some_token short carries on answered nu np fits size au ap' c s1 s2 =
    let served : Ended = record {
      ending = delivered;
      sent = pack username password;
      conn_closed = true;
      channel_closed = false;
    } in
    let ran =
      run_delivers (0 ∷ []) token (pack username password) cred some_token short
        (ground (arith, root)) in
    (
      user_authenticated-run getpwnam server token (pack username password) (process cred token)
          served idle ran,
      authenticate_accepts pam sys host stack h token username password
          (linked-Answers (0 ∷ []) token (pack username password) cred token sys link served ran
            (omega (arith, fits, size)))
          (answered ∙ ap (λ o. (pam_success, o)) (asked-answered g s token evs carries on)) nu np
          fits size au ap' c s1 s2,
    )

-- Whoever is not root, or has another token than the one announced, is not let in: where the PAM module gets
-- that as its answer to the prompt, reaches the agent's channel with it, and no system call fails, it
-- returns PAM_USER_UNKNOWN, sets no item and frees the token.
pub stranger_refused :
    (pam : Pam) (sys : Sys) (host : Host) (stack : Bytes) (h : Handle) (cred : Ucred)
    (token credentials ticket : Bytes)
    → Linked (0 ∷ []) (token, credentials) cred ticket sys
    → ticket ≢ []
    → (contains (0 ∷ []) cred.uid ≡ false) ⊎ (str_eq (take 1024 ticket) token ≡ false)
    → pam.prompt ≡ (pam_success, some ticket)
    → pam_sm_authenticate pam sys host stack h
      ≡ ok (record { retval = pam_user_unknown; handle = h; cleanup = free_token ticket ∷ [] })
stranger_refused pam sys host stack h cred token credentials ticket link some_ticket why answered =
    let (e, ran, nothing) = run_refuses (0 ∷ []) token credentials cred ticket some_ticket why in
    authenticate_unanswered pam sys host stack h ticket
      (subst (Answers sys ticket) nothing (
        linked-Answers (0 ∷ []) token credentials cred ticket sys link e ran
          (rw nothing (omega arith))))
      answered
