-- ===== src/GuestAgent/CredServer/Serving.antt =====
-- A process that connects to the channel and sends a token.
use ovirt_guest_agent.Prelude.{
  ℕ, suc, ◌≤◌, ◌≡◌, ◌≢◌, refl, sym, ap, ◌∙◌, ◌⊎◌, inl, inr, true, false, Option, none, some, List,
  [], ◌∷◌, Bytes, str_eq, str_eq_refl, take, take_whole, length, arith, Bool-cases,
}
use ovirt_guest_agent.PamOvirtCred.CredChannel.{Outcome, ok, fault, blocked, SysRet, ret}
use ovirt_guest_agent.PamOvirtCred.CredChannel.Acquire.{retry_ret}
use ovirt_guest_agent.GuestAgent.CredServer.{
  Ucred, Cmsg, Peer, cred_of_header, cred_of, read_cred, contains, Ended, delivered, send_all,
  answer_token, after_cred, run, sol_socket, scm_credentials, ended, not_allowed, Server,
  user_authenticated, open_channel, join_channel, join_if, set_allowed, add_allowed,
}

abbrev said : Ucred → Option Cmsg
said cred = some (record { level = sol_socket; type = scm_credentials; data_contents = cred })

-- What recvmsg() tells of a process that sent these bytes: nothing as long as there are none.
abbrev peeked : Ucred → Bytes → List (SysRet (ℕ × Option Cmsg))
peeked cred [] = []
peeked cred (c ∷ t) = ret (suc (length (take 1 t)), said cred) ∷ []

-- It connects in time, sends the bytes at once, and takes all that it is sent.
abbrev pub process : Ucred → Bytes → Peer
process cred ticket = record {
  listens = true;
  accepts = true;
  passes_cred = true;
  recvmsgs = peeked cred ticket;
  recv = some (ret (take 1024 ticket));
  send = λ message. ret (length message);
}

-- What the process can read of its socket when the channel ran to its end; nothing is the end of the
-- stream.
abbrev pub replies : Outcome Ended → ℕ → List (SysRet Bytes)
replies (ok e) room = ret (take room e.sent) ∷ []
replies fault room = []
replies blocked room = []

-- The answer to the right token, and to another one.
answer_right :
    (credentials : Bytes × Bytes) (peer : Peer) (t : Bytes)
    → t ≢ []
    → t ≡ credentials.0
    → peer.send credentials.1 ≡ ret (length credentials.1)
    → answer_token credentials peer (ret t) ≡ record {
      ending = delivered;
      sent = credentials.1;
      conn_closed = true;
      channel_closed = false;
    }
unfolding answer_token send_all
answer_right credentials peer [] n e s = absurd (n refl)
answer_right credentials peer (c ∷ t) n e s =
    rw (← e, str_eq_refl (c ∷ t), s, take_whole (length credentials.1) credentials.1 (omega arith))
      refl

answer_wrong :
    (credentials : Bytes × Bytes) (peer : Peer) (t : Bytes)
    → str_eq t credentials.0 ≡ false
    → (answer_token credentials peer (ret t)).sent ≡ []
unfolding answer_token
answer_wrong credentials peer [] e = refl
answer_wrong credentials peer (c ∷ t) e = rw e refl

module _ (allowed : List ℕ) (token credentials : Bytes) (cred : Ucred) where
  -- The channel from the moment that the credentials of the process are known.
  read : (ticket : Bytes) → ticket ≢ [] → read_cred (process cred ticket) ≡ ok (some cred)
  unfolding read_cred cred_of cred_of_header
  read [] n = absurd (n refl)
  read (c ∷ t) n = rw (retry_ret {A = ℕ × Option Cmsg} (suc (length (take 1 t)), said cred) []) refl

  pub run_delivers :
      token ≢ []
      → length token ≤ 1024
      → contains allowed cred.uid ≡ true
      → run allowed (token, credentials) (process cred token)
        ≡ ok (record {
          ending = delivered;
          sent = credentials;
          conn_closed = true;
          channel_closed = false;
        })
  unfolding run after_cred
  run_delivers n short known =
      rw (read token n, known)
        (ap ok (
          answer_right (token, credentials) (process cred token) (take 1024 token)
            (λ z. n (sym (take_whole 1024 token short) ∙ z)) (take_whole 1024 token short) refl))

  pub run_refuses :
      (ticket : Bytes)
      → ticket ≢ []
      → (contains allowed cred.uid ≡ false) ⊎ (str_eq (take 1024 ticket) token ≡ false)
      → (e : Ended) × (run allowed (token, credentials) (process cred ticket) ≡ ok e)
        × (e.sent ≡ [])
  unfolding run after_cred
  run_refuses ticket n why = elim (Bool-cases (contains allowed cred.uid)) [
    | inr denied ↦ rw (read ticket n, denied) (ended (not_allowed cred.uid), refl, refl)
    | inl known ↦ elim why [
      | inl denied ↦ absurd (ground (arith, known, denied))
      | inr wrong ↦
          rw (read ticket n, known)
            (
              answer_token (token, credentials) (process cred ticket) (ret (take 1024 ticket)),
              refl,
              answer_wrong (token, credentials) (process cred ticket) (take 1024 ticket) wrong,
            )
    ]
  ]

-- A server without an open channel announces the token, and keeps what the channel sent.
pub user_authenticated-run :
    (getpwnam : Bytes → Option ℕ) (s : Server) (token credentials : Bytes) (peer : Peer) (e : Ended)
    → s.cred_channel ≡ none
    → run (0 ∷ []) (token, credentials) peer ≡ ok e
    → user_authenticated getpwnam s token credentials peer
      ≡ ok (record s {
        cred_channel = none;
        announced = token ∷ s.announced;
        sent = e.sent ∷ s.sent;
      })
unfolding user_authenticated open_channel join_channel join_if set_allowed add_allowed
user_authenticated-run getpwnam s token credentials peer e idle ran = rw (idle, ran) refl
