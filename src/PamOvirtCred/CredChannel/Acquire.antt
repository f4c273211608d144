-- ===== src/PamOvirtCred/CredChannel/Acquire.antt =====
-- The exchange with the agent: the retry loops, what reaches the caller, and what stays on the stack.
use Prim.Native.Nat.{bit_or}
use ovirt_guest_agent.Prelude.{
  ℕ, zero, suc, ◌≤◌, ◌≡◌, refl, ap, ◌≢◌, inl, inr, Bool, true, false, some, List, [], ◌∷◌, ◌++◌,
  arith, Bytes, NonZero, length, drop, All, replicate, length-drop, length-append, drop-append,
  le→leb, leb, Bool-cases, ◌==◌, ==_iff,
}
use ovirt_guest_agent.PamOvirtCred.CredChannel.{
  Outcome, ok, fault, blocked, ◌>>=◌, Host, parsed, unparsed, strip_domain,
  parse_credentials_buffer, SysRet, or_blocked, recv_reply, after_send, after_exchange,
  after_connect, after_socket, overwrite, Parsed, ret, failed, eintr, retry, Sys, channel_address,
  set_sock_non_blocking, Exchange, received, refused, recv_creds, after_select, send_ticket,
  do_acquire_user_credentials, Acquired, finish, acquire_user_credentials, creds_size, o_nonblock,
}
use ovirt_guest_agent.PamOvirtCred.CredChannel.Parse.{pack, parse-pack}

-- However often a call is interrupted, the loop ends with its first answer that is not EINTR.
pub retry_first {ℓ} :
    {A : Type ℓ} (k : ℕ) (r : SysRet A) (rs : List (SysRet A))
    → r ≢ failed eintr
    → retry (replicate k (failed eintr) ++ r ∷ rs) ≡ some r
unfolding retry
retry_first zero (ret a) rs h = refl
retry_first zero (failed e) rs h = elim (Bool-cases (e == eintr)) [
  | inl i ↦ absurd (h (ap failed ((==_iff e eintr).0 i)))
  | inr o ↦ rw o
]
retry_first (suc k) r rs h = retry_first k r rs h

pub retry_ret {ℓ} : {A : Type ℓ} (a : A) (rs : List (SysRet A)) → retry (ret a ∷ rs) ≡ some (ret a)
unfolding retry
retry_ret a rs = refl

-- A property of the value, where there is one.
abbrev pub Ensures {ℓ κ} : {A : Type ℓ} → (A → Type κ) → Outcome A → Type κ
Ensures P (ok a) = P a
Ensures P fault = Unit
Ensures P blocked = Unit

pub >>=-Ensures {ℓ κ} :
    {A B : Type ℓ} (P : A → Type κ) (Q : B → Type κ) (m : Outcome A) (f : A → Outcome B)
    → Ensures P m
    → ((a : A) → P a → Ensures Q (f a))
    → Ensures Q (m >>= f)
>>=-Ensures P Q (ok a) f p next = next a p
>>=-Ensures P Q fault f p next = tt
>>=-Ensures P Q blocked f p next = tt

pub >>=-Ensures_any {ℓ κ} :
    {A B : Type ℓ} (Q : B → Type κ) (m : Outcome A) (f : A → Outcome B)
    → ((a : A) → Ensures Q (f a))
    → Ensures Q (m >>= f)
>>=-Ensures_any Q (ok a) f next = next a
>>=-Ensures_any Q fault f next = tt
>>=-Ensures_any Q blocked f next = tt

-- Behind the bytes received the buffer is as it was.
abbrev Keeps : Bytes → Exchange → Type 0
Keeps creds (received creds' n) = drop n creds' ≡ drop n creds
Keeps creds refused = Unit

recv_reply-Keeps : (creds : Bytes) (r : SysRet Bytes) → Ensures (Keeps creds) (recv_reply creds r)
unfolding recv_reply
recv_reply-Keeps creds (failed _) = tt
recv_reply-Keeps creds (ret msg) = elim (Bool-cases (leb (length msg) (length creds))) [
  | inl e ↦ rw e (drop-append msg (drop (length msg) creds))
  | inr e ↦ rw e tt
]

after_select-Keeps :
    (sys : Sys) (creds : Bytes) (r : SysRet (ℕ × Bool))
    → Ensures (Keeps creds) (after_select sys creds r)
unfolding after_select recv_creds
after_select-Keeps sys creds (failed _) = tt
after_select-Keeps sys creds (ret (zero, is_set)) = tt
after_select-Keeps sys creds (ret (suc n, false)) = refl
after_select-Keeps sys creds (ret (suc n, true)) =
    >>=-Ensures_any (Keeps creds) (or_blocked (retry (sys.recvs creds_size))) (recv_reply creds)
      (recv_reply-Keeps creds)

after_send-Keeps :
    (sys : Sys) (creds : Bytes) (r : SysRet ℕ) → Ensures (Keeps creds) (after_send sys creds r)
unfolding after_send
after_send-Keeps sys creds (failed _) = tt
after_send-Keeps sys creds (ret _) =
    >>=-Ensures_any (Keeps creds) (or_blocked (retry sys.selects)) (after_select sys creds)
      (after_select-Keeps sys creds)

after_connect-Keeps :
    (sys : Sys) (ticket creds : Bytes) (r : SysRet (Unit {0}))
    → Ensures (Keeps creds) (after_connect sys ticket creds r)
unfolding after_connect send_ticket
after_connect-Keeps sys ticket creds (failed _) = tt
after_connect-Keeps sys ticket creds (ret _) = elim (Bool-cases (set_sock_non_blocking sys)) [
  | inl e ↦ rw e (
      >>=-Ensures_any (Keeps creds) (or_blocked (retry (sys.sends ticket))) (after_send sys creds)
        (after_send-Keeps sys creds))
  | inr e ↦ rw e tt
]

-- The descriptor is closed, and the buffer holds zeros in front of what was there before the call.
abbrev pub Erased : ℕ → Bytes → Acquired → Type 0
Erased fd creds a = (n : ℕ) × (a.creds ≡ replicate n 0 ++ drop n creds) × (a.closed ≡ fd ∷ [])

finish-Erased :
    (fd : ℕ) (creds creds' : Bytes) (n : ℕ) (p : Parsed)
    → drop n creds' ≡ drop n creds
    → Ensures (Erased fd creds) (finish fd creds' n p)
unfolding finish overwrite
finish-Erased fd creds creds' n p keeps = elim (Bool-cases (leb n (length creds'))) [
  | inl e ↦ rw e (n, ap (λ bs. replicate n 0 ++ bs) keeps, refl)
  | inr e ↦ rw e tt
]

after_exchange-Erased :
    (host : Host) (fd : ℕ) (creds : Bytes) (e : Exchange)
    → Keeps creds e
    → Ensures (Erased fd creds) (after_exchange host fd creds e)
unfolding after_exchange
after_exchange-Erased host fd creds refused k =
    finish-Erased fd creds creds creds_size unparsed refl
after_exchange-Erased host fd creds (received creds' n) k =
    >>=-Ensures_any (Erased fd creds) (parse_credentials_buffer host creds' n) (finish fd creds' n)
      (λ p. finish-Erased fd creds creds' n p k)

-- Where a socket is made, whatever the peer sends and however the parser ends: a call that returns
-- has closed its descriptor, and its buffer on the stack holds zeros, and behind them what it held
-- before the call: nothing that was received is left.
pub acquire_erases :
    (sys : Sys) (host : Host) (creds ticket : Bytes) (fd : ℕ)
    → sys.socket ≡ ret fd
    → Ensures (Erased fd creds) (acquire_user_credentials sys host creds ticket)
unfolding acquire_user_credentials after_socket do_acquire_user_credentials
acquire_erases sys host creds ticket fd e =
    rw (e, after_socket)
      (>>=-Ensures (Keeps creds) (Erased fd creds) (do_acquire_user_credentials sys ticket creds)
        (after_exchange host fd creds)
        (after_connect-Keeps sys ticket creds (sys.connect channel_address))
        (after_exchange-Erased host fd creds))

-- The calls of a run in which nothing fails, and the message that is received.
pub record Answers (sys : Sys) (ticket msg : Bytes) : Type 0 where
  pub fd : ℕ
  pub flags : ℕ
  pub sent : ℕ
  pub ready : ℕ
  pub socket_ok : sys.socket ≡ ret fd
  pub connect_ok : sys.connect channel_address ≡ ret tt
  pub nonblock_ok : set_sock_non_blocking sys ≡ true
  pub send_ok : retry (sys.sends ticket) ≡ some (ret sent)
  pub select_ok : retry sys.selects ≡ some (ret (suc ready, true))
  pub recv_ok : retry (sys.recvs creds_size) ≡ some (ret msg)

pub set_sock_non_blocking_lem :
    (sys : Sys) (flags : ℕ)
    → sys.getfl ≡ ret flags
    → ((f : ℕ) → sys.setfl f ≡ ret tt)
    → set_sock_non_blocking sys ≡ true
unfolding set_sock_non_blocking
set_sock_non_blocking_lem sys flags got set = rw (got, set (bit_or flags o_nonblock)) refl

do_acquire_lem :
    (sys : Sys) (ticket creds msg : Bytes) (a : Answers sys ticket msg)
    → length msg ≤ length creds
    → do_acquire_user_credentials sys ticket creds
      ≡ ok (received (msg ++ drop (length msg) creds) (length msg))
unfolding do_acquire_user_credentials after_connect send_ticket after_send after_select recv_creds
    recv_reply
do_acquire_lem sys ticket creds msg a h = rw (
  a.connect_ok,
  after_connect,
  a.nonblock_ok,
  a.send_ok,
  a.select_ok,
  a.recv_ok,
  le→leb (length msg) (length creds) h,
)

-- Where every system call succeeds, the agent answers with credentials that it packed without NUL
-- bytes in a message no longer than the buffer, and both allocations succeed, the call returns both
-- strings, the domain cut off the name where the host knows the local part, with the message wiped
-- from the buffer and the socket closed.
pub acquire_delivers :
    (sys : Sys) (host : Host) (creds ticket username password : Bytes)
    (a : Answers sys ticket (pack username password))
    → All NonZero username
    → All NonZero password
    → length (pack username password) ≤ length creds
    → length creds ≡ creds_size
    → host.alloc_username ≡ true
    → host.alloc_password ≡ true
    → acquire_user_credentials sys host creds ticket
      ≡ ok (record {
        result = parsed (strip_domain host.getpwnam username) password;
        creds =
            replicate (length (pack username password)) 0
            ++ drop (length (pack username password)) creds;
        closed = a.fd ∷ [];
      })
unfolding acquire_user_credentials after_socket after_exchange finish overwrite
acquire_delivers sys host creds ticket username password a nu np fits size au ap' = rw (
  a.socket_ok,
  after_socket,
  do_acquire_lem sys ticket creds msg a fits,
  parse-pack host username password (drop (length msg) creds) nu np (omega (arith, filled)) au ap',
  le→leb (length msg) (length (msg ++ drop (length msg) creds)) (omega (arith, filled)),
  drop-append msg (drop (length msg) creds),
)
  where
    msg : Bytes
    msg = pack username password

    filled : length (msg ++ drop (length msg) creds) ≡ length creds
    filled =
        omega
          (arith, fits, length-append msg (drop (length msg) creds), length-drop (length msg) creds)

-- Where the peer ends the stream without a message, there are no strings, and the socket is closed.
pub acquire_unanswered :
    (sys : Sys) (host : Host) (creds ticket : Bytes) (a : Answers sys ticket [])
    → acquire_user_credentials sys host creds ticket
      ≡ ok (record { result = unparsed; creds = creds; closed = a.fd ∷ [] })
unfolding acquire_user_credentials after_socket after_exchange finish overwrite
    parse_credentials_buffer
acquire_unanswered sys host creds ticket a =
    rw
      (
        a.socket_ok,
        after_socket,
        do_acquire_lem sys ticket creds [] a (omega arith),
        le→leb 0 (length creds) (omega arith),
      )
      refl
