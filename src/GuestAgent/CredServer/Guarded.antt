-- ===== src/GuestAgent/CredServer/Guarded.antt =====
-- To whom the credentials are given.
use ovirt_guest_agent.Prelude.{
  ℕ, zero, suc, ◌≡◌, refl, ap, ◌∙◌, ◌⊎◌, inl, inr, true, not, ◌&&◌, Option, none, some, List, [],
  ◌∷◌, Bytes, arith, str_eq, str_eq→eq, take, Bool-cases, if_both, ◌==◌,
}
use ovirt_guest_agent.PamOvirtCred.CredChannel.{ok, ◌>>=◌, or_blocked, SysRet, ret, failed, retry}
use ovirt_guest_agent.PamOvirtCred.CredChannel.Acquire.{Ensures, >>=-Ensures}
use ovirt_guest_agent.GuestAgent.CredServer.{
  Cmsg, Peer, cred_of_header, cred_of, read_cred, contains, Ended, send_all, answer_token,
  after_cred, run, add_allowed, set_allowed, Channel, Server, open_channel, join_channel, join_if,
  user_authenticated, ended, raised, timed_out, sol_socket, scm_credentials,
}

-- Nothing was sent, or the front of the credentials to a peer that sent the token.
abbrev ForToken : Bytes × Bytes → SysRet Bytes → Bytes → Type 0
ForToken credentials r sent =
    (sent ≡ []) ⊎ ((r ≡ ret credentials.0) × (n : ℕ) × (sent ≡ take n credentials.1))

send_all-ForToken :
    (credentials : Bytes × Bytes) (r : SysRet ℕ)
    → ForToken credentials (ret credentials.0) (send_all credentials.1 r).sent
unfolding send_all
send_all-ForToken credentials (failed e) = inl refl
send_all-ForToken credentials (ret n) = inr (refl, n, refl)

answer_token-ForToken :
    (credentials : Bytes × Bytes) (peer : Peer) (r : SysRet Bytes)
    → ForToken credentials r (answer_token credentials peer r).sent
unfolding answer_token
answer_token-ForToken credentials peer (failed e) = inl refl
answer_token-ForToken credentials peer (ret []) = inl refl
answer_token-ForToken credentials peer (ret (c ∷ t)) =
    elim (Bool-cases (str_eq (c ∷ t) credentials.0)) [
      | inl e ↦
          rw (e, str_eq→eq (c ∷ t) credentials.0 e)
            (send_all-ForToken credentials (peer.send credentials.1))
      | inr e ↦ rw e (inl refl)
    ]

-- The peer whose first control message is one of the socket level (SOL_SOCKET, 1) with credentials
-- (SCM_CREDENTIALS, 2) and says that it is one of the users allowed, and that sent the token.
abbrev pub Entitled : List ℕ → Bytes → Peer → Type 0
Entitled allowed token peer =
    (n : ℕ) × (c : Cmsg) × (retry peer.recvmsgs ≡ some (ret (suc n, some c)))
    × (c.level ≡ 1)
    × (c.type ≡ 2)
    × (contains allowed c.data_contents.uid ≡ true)
    × (peer.recv ≡ some (ret token))

-- What was sent is nothing, or the front of the credentials to such a peer.
abbrev pub Guarded : List ℕ → Bytes × Bytes → Peer → Bytes → Type 0
Guarded allowed credentials peer sent =
    (sent ≡ []) ⊎ (Entitled allowed credentials.0 peer × (n : ℕ) × (sent ≡ take n credentials.1))

module _ (allowed : List ℕ) (credentials : Bytes × Bytes) (peer : Peer) where
  abbrev Good : Ended → Type 0
  Good e = Guarded allowed credentials peer e.sent

  after_token :
      (n : ℕ) (c : Cmsg)
      → retry peer.recvmsgs ≡ some (ret (suc n, some c))
      → c.level ≡ 1
      → c.type ≡ 2
      → contains allowed c.data_contents.uid ≡ true
      → (o : Option (SysRet Bytes)) → peer.recv ≡ o
      → Ensures Good (or_blocked o >>= (λ r. ok (answer_token credentials peer r)))
  after_token n c q l t y none e = tt
  after_token n c q l t y (some r) e = elim (answer_token-ForToken credentials peer r) [
    | inl nothing ↦ inl nothing
    | inr (token, m, front) ↦ inr ((n, c, q, l, t, y, e ∙ ap some token), m, front)
  ]

  cred-Good :
      (n : ℕ) (c : Cmsg)
      → retry peer.recvmsgs ≡ some (ret (suc n, some c))
      → c.level ≡ 1
      → c.type ≡ 2
      → Ensures Good (after_cred allowed credentials peer (some c.data_contents))
  unfolding after_cred
  cred-Good n c q l t = elim (Bool-cases (contains allowed c.data_contents.uid)) [
    | inl y ↦ rw y (after_token n c q l t y peer.recv refl)
    | inr denied ↦ rw denied (inl refl)
  ]

  header-Good :
      (n : ℕ) (header : Option Cmsg)
      → retry peer.recvmsgs ≡ some (ret (suc n, header))
      → Ensures Good (after_cred allowed credentials peer (cred_of_header header))
  unfolding after_cred cred_of_header
  header-Good n none q = inl refl
  header-Good n (some c) q =
      elim (Bool-cases (c.level == sol_socket && c.type == scm_credentials)) [
        | inl y ↦ rw y (cred-Good n c q (ground (arith, y)) (ground (arith, y)))
        | inr unfit ↦ rw unfit (inl refl)
      ]

  message-Good :
      (o : Option (SysRet (ℕ × Option Cmsg)))
      → retry peer.recvmsgs ≡ o
      → Ensures Good
          ((or_blocked o >>= (λ r. ok (cred_of r))) >>= after_cred allowed credentials peer)
  unfolding after_cred cred_of
  message-Good none q = tt
  message-Good (some (failed e)) q = inl refl
  message-Good (some (ret (zero, header))) q = inl refl
  message-Good (some (ret (suc n, header))) q = header-Good n header q

  run-Good : Ensures Good (run allowed credentials peer)
  unfolding run read_cred
  run-Good = if_both (Ensures Good) (not peer.listens) (ok (ended raised)) _ (inl refl) (
      if_both (Ensures Good) (not peer.accepts)
        (ok (record (ended timed_out) { channel_closed = true })) _ (inl refl)
        (if_both (Ensures Good) (not peer.passes_cred) (ok (ended raised)) _ (inl refl)
          (message-Good (retry peer.recvmsgs) refl)))

-- What one call of a server that has no channel open leaves behind.
abbrev pub Answered : Server → Bytes → Bytes → Peer → Server → Type 0
Answered s token credentials peer s' =
    (s'.cred_channel ≡ none)
    × (s'.announced ≡ token ∷ s.announced)
    × (sent : Bytes) × (s'.sent ≡ sent ∷ s.sent)
    × Guarded (0 ∷ []) (token, credentials) peer sent

-- A server without an open channel that gets credentials announces their token, once, and has no channel
-- open afterwards, where the channel ends; whatever the peer does, if it is sent anything, then no more
-- than the credentials, and its first control message has its credentials (level 1, SOL_SOCKET, and type 2,
-- SCM_CREDENTIALS) with the user number 0, that of root, and it sent that token.
pub user_authenticated-Answered :
    (getpwnam : Bytes → Option ℕ) (s : Server) (token credentials : Bytes) (peer : Peer)
    → s.cred_channel ≡ none
    → Ensures
        (Answered s token credentials peer)
        (user_authenticated getpwnam s token credentials peer)
unfolding user_authenticated open_channel join_channel join_if set_allowed add_allowed
user_authenticated-Answered getpwnam s token credentials peer idle = rw idle (
    >>=-Ensures (Good (0 ∷ []) (token, credentials) peer) (Answered s token credentials peer)
      (run (0 ∷ []) (token, credentials) peer) _ (run-Good (0 ∷ []) (token, credentials) peer)
      (λ e g. (refl, refl, e.sent, refl, g)))

-- A server with an open channel ignores the credentials.
pub user_authenticated_busy :
    (getpwnam : Bytes → Option ℕ) (s : Server) (token credentials : Bytes) (peer : Peer)
    (c : Channel)
    → s.cred_channel ≡ some c
    → user_authenticated getpwnam s token credentials peer ≡ ok s
unfolding user_authenticated
user_authenticated_busy getpwnam s token credentials peer c busy = rw busy refl
