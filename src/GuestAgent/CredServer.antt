-- ===== src/GuestAgent/CredServer.antt =====
-- ovirt-guest-agent/CredServer.py: the channel on which the agent gives the credentials out, once, and the
-- server that announces its token on D-Bus. Strings are their bytes in UTF-8. What the system and the peer
-- answer is an argument; an exception other than a timeout ends the thread of the channel.
pub mod Guarded
pub mod Serving
mod Tests
use ovirt_guest_agent.Prelude.{
  ℕ, zero, suc, ◌<◌, ◌^◌, Bool, true, false, ◌&&◌, ◌||◌, not, Option, none, some, List, [], ◌∷◌,
  ◌++◌, Bytes, codes, str_eq, length, take, ltb, ◌==◌, if◌then◌else◌,
}
use ovirt_guest_agent.PamOvirtCred.CredChannel.{
  Outcome, ok, ◌>>=◌, or_blocked, SysRet, ret, failed, retry,
}
use ovirt_guest_agent.PamOvirtCred.CredChannel.Parse.{store_int}

abbrev is_empty : Bytes → Bool
is_empty [] = true
is_empty (_ ∷ _) = false

abbrev qualified : Bytes → Bytes → Bytes
qualified user domain = if not (is_empty domain) then user ++ b'@' ∷ domain else user

-- struct.pack('>6sI%ds%ds', 'login', ...): an error where the length does not fit into 32 bits.
pub packcreds : Bytes → Bytes → Bytes → Option Bytes
packcreds user password domain =
    let username = qualified user domain in
    if ltb (length username) (2 ^ 32)
    then some (
        (codes "login" ++ 0 ∷ [])
        ++ (store_int (length username) ++ (username ++ (password ++ 0 ∷ []))))
    else none

pub record Ucred : Type 0 where
  pub pid : ℕ
  pub uid : ℕ
  pub gid : ℕ

-- The header of a control message, and what stands behind it.
pub record Cmsg : Type 0 where
  pub level : ℕ
  pub type : ℕ
  pub data_contents : Ucred

-- What the system answers on the channel: whether it can be opened, whether a peer connects in time,
-- whether SO_PASSCRED is set, the answers of recvmsg() with the first control header, the answer of recv()
-- if there is one, and how much send() takes.
pub record Peer : Type 0 where
  pub listens : Bool
  pub accepts : Bool
  pub passes_cred : Bool
  pub recvmsgs : List (SysRet (ℕ × Option Cmsg))
  pub recv : Option (SysRet Bytes)
  pub send : Bytes → SysRet ℕ

abbrev sol_socket : ℕ
sol_socket = 1

abbrev scm_credentials : ℕ
scm_credentials = 2

-- The walk over the headers ends after the first: CMSG_NXTHDR() gives None.
cred_of_header : Option Cmsg → Option Ucred
cred_of_header none = none
cred_of_header (some c) =
    if c.level == sol_socket && c.type == scm_credentials then some c.data_contents else none

cred_of : SysRet (ℕ × Option Cmsg) → Option Ucred
cred_of (failed _) = none
cred_of (ret (zero, header)) = none
cred_of (ret (suc n, header)) = cred_of_header header

pub read_cred : Peer → Outcome (Option Ucred)
read_cred peer = do r ← or_blocked (retry peer.recvmsgs); ok (cred_of r)

abbrev pub contains : List ℕ → ℕ → Bool
contains [] uid = false
contains (x ∷ xs) uid = x == uid || contains xs uid

-- How a run of the channel ends.
pub data Ending : Type 0 where
  timed_out raised no_cred no_token unexpected delivered : Ending
  not_allowed : ℕ → Ending

-- With the bytes that the peer was sent, and whether the connection and the channel were closed by hand.
pub record Ended : Type 0 where
  pub ending : Ending
  pub sent : Bytes
  pub conn_closed : Bool
  pub channel_closed : Bool

abbrev ended : Ending → Ended
ended ending = record { ending = ending; sent = []; conn_closed = false; channel_closed = false }

send_all : Bytes → SysRet ℕ → Ended
send_all credentials (failed _) = ended raised
send_all credentials (ret n) = record (ended delivered) {
  sent = take n credentials;
  conn_closed = true;
}

answer_token : Bytes × Bytes → Peer → SysRet Bytes → Ended
answer_token credentials peer (failed _) = ended raised
answer_token credentials peer (ret token) =
    if is_empty token
    then ended no_token
    else if str_eq token credentials.0
    then send_all credentials.1 (peer.send credentials.1)
    else record (ended unexpected) { conn_closed = true }

after_cred : List ℕ → Bytes × Bytes → Peer → Option Ucred → Outcome Ended
after_cred allowed credentials peer none = ok (ended no_cred)
after_cred allowed credentials peer (some cred) =
    if not (contains allowed cred.uid)
    then ok (ended (not_allowed cred.uid))
    else do token ← or_blocked peer.recv; ok (answer_token credentials peer token)

pub run : List ℕ → Bytes × Bytes → Peer → Outcome Ended
run allowed credentials peer =
    if not peer.listens
    then ok (ended raised)
    else if not peer.accepts
    then ok (record (ended timed_out) { channel_closed = true })
    else if not peer.passes_cred
    then ok (ended raised)
    else do cred ← read_cred peer; after_cred allowed credentials peer cred

-- A user by number or by name.
pub data User : Type 0 where
  number : ℕ → User
  name : Bytes → User

add_allowed : (Bytes → Option ℕ) → List ℕ → User → List ℕ
add_allowed getpwnam allowed (number uid) = allowed ++ uid ∷ []
add_allowed getpwnam allowed (name user) = elim (getpwnam user) [
  | none ↦ allowed
  | some uid ↦ allowed ++ uid ∷ []
]

pub set_allowed : (Bytes → Option ℕ) → List ℕ → List User → List ℕ
set_allowed getpwnam allowed [] = allowed
set_allowed getpwnam allowed (u ∷ us) = set_allowed getpwnam (add_allowed getpwnam allowed u) us

-- The channel with its token and credentials, and whom it allows.
pub record Channel : Type 0 where
  pub allowed : List ℕ
  pub credentials : Bytes × Bytes

-- The server, the tokens announced and what was sent, latest first.
pub record Server : Type 0 where
  pub cred_channel : Option Channel
  pub announced : List Bytes
  pub sent : List Bytes

-- Up to join(): the channel is made and started, its token announced.
open_channel : (Bytes → Option ℕ) → Server → Bytes → Bytes → Server
open_channel getpwnam s token credentials = record s {
  cred_channel = some (record {
    allowed = set_allowed getpwnam [] (number 0 ∷ []);
    credentials = (token, credentials);
  });
  announced = token ∷ s.announced;
}

-- The thread runs to its end.
join_channel : Server → Channel → Peer → Outcome Server
join_channel s c peer = do
  e ← run c.allowed c.credentials peer
  ok (record s { cred_channel = none; sent = e.sent ∷ s.sent })

join_if : Server → Option Channel → Peer → Outcome Server
join_if s none peer = ok s
join_if s (some c) peer = join_channel s c peer

-- `token` is what str(random.randint(100000, 999999)) gives.
pub user_authenticated : (Bytes → Option ℕ) → Server → Bytes → Bytes → Peer → Outcome Server
user_authenticated getpwnam s token credentials peer = elim s.cred_channel [
  | some _ ↦ ok s
  | none ↦
      let opened = open_channel getpwnam s token credentials in
      join_if opened opened.cred_channel peer
]
