-- ===== src/PamOvirtCred/CredChannel/Examples.antt =====
-- A host, an agent that answers, and one that announces more than it sends.
use ovirt_guest_agent.Prelude.{
  ◌≡◌, refl, true, some, [], ◌∷◌, arith, Bytes, codes, str_eq, replicate, All, NonZero,
}
use ovirt_guest_agent.PamOvirtCred.CredChannel.{
  Host, Sys, ret, failed, strip_domain, retry, set_sock_non_blocking, creds_size, eintr,
}
use ovirt_guest_agent.PamOvirtCred.CredChannel.Acquire.{Answers}
use ovirt_guest_agent.PamOvirtCred.CredChannel.Parse.{pack}

abbrev pub username : Bytes
username = codes "eve@lab"

abbrev pub password : Bytes
password = codes "secret"

abbrev pub ticket : Bytes
ticket = codes "42"

-- The local user is `eve`.
abbrev pub host : Host
host = record { alloc_username = true; alloc_password = true; getpwnam = str_eq (codes "eve") }

abbrev pub stack : Bytes
stack = replicate creds_size 7

-- The wait for the answer is interrupted once.
abbrev pub sys : Sys
sys = record {
  socket = ret 3;
  connect = λ address. ret tt;
  getfl = ret 2;
  setfl = λ flags. ret tt;
  sends = λ sent. ret 2 ∷ [];
  selects = failed eintr ∷ ret (1, true) ∷ [];
  recvs = λ room. ret (pack username password) ∷ [];
}

pub nonblocking : set_sock_non_blocking sys ≡ true
unfolding set_sock_non_blocking
nonblocking = refl

pub send_done : retry (sys.sends ticket) ≡ some (ret 2)
unfolding retry
send_done = refl

pub select_done : retry sys.selects ≡ some (ret (1, true))
unfolding retry
select_done = refl

pub recv_done : retry (sys.recvs creds_size) ≡ some (ret (pack username password))
unfolding retry
recv_done = refl

abbrev pub answers : Answers sys ticket (pack username password)
answers = record {
  fd = 3;
  flags = 2;
  sent = 2;
  ready = 0;
  socket_ok = refl;
  connect_ok = refl;
  nonblock_ok = nonblocking;
  send_ok = send_done;
  select_ok = select_done;
  recv_ok = recv_done;
}

-- The host knows `eve`, so `@lab` goes.
pub strips : strip_domain host.getpwnam username ≡ codes "eve"
unfolding strip_domain
strips = refl

pub username-NonZero : All NonZero username
username-NonZero = ground arith

pub password-NonZero : All NonZero password
password-NonZero = ground arith
