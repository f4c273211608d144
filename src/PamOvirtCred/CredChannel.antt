-- ===== src/PamOvirtCred/CredChannel.antt =====
-- pam-ovirt-cred/cred_channel.c. The stack buffer `creds` is a list of its 0x100 bytes, a pointer
-- into it an offset. `int` has 32 bits and `size_t` 64. System calls are arguments: what each call
-- answers, one entry for each time that a loop makes it.
pub mod Parse
pub mod Overread
pub mod Acquire
pub mod Examples
mod Tests
use Prim.Native.Nat.{bit_or}
use ovirt_guest_agent.Prelude.{
  ℕ, zero, suc, ◌+◌, ◌-◌, ◌*◌, ◌%◌, ◌^◌, Bool, true, false, not, ◌&&◌, Option, none, some, List, [],
  ◌∷◌, ◌++◌, Bytes, codes, length, take, drop, replicate, read_str, strchr, leb, ltb, ◌==◌,
  if◌then◌else◌,
}

-- What a run of the code comes to: a value, a read outside an object, or a call that never answers.
pub data Outcome {ℓ} (A : Type ℓ) : Type ℓ where
  ok : A → Outcome A
  fault : Outcome A
  blocked : Outcome A

infixl 5 ◌>>=◌
abbrev pub ◌>>=◌ {ℓ κ} : {A : Type ℓ} {B : Type κ} → Outcome A → (A → Outcome B) → Outcome B
ok a >>= f = f a
fault >>= f = fault
blocked >>= f = blocked

abbrev or_fault {ℓ} : {A : Type ℓ} → Option A → Outcome A
or_fault none = fault
or_fault (some a) = ok a

abbrev pub or_blocked {ℓ} : {A : Type ℓ} → Option A → Outcome A
or_blocked none = blocked
or_blocked (some a) = ok a

-- sizeof(creds)
abbrev pub creds_size : ℕ
creds_size = 0x100

-- What the parser asks of the C library: whether each of its two allocations succeeds, and whether
-- getpwnam() knows a name.
pub record Host : Type 0 where
  pub alloc_username : Bool
  pub alloc_password : Bool
  pub getpwnam : Bytes → Bool

-- ntohl() of the first `int` of an object, as its 32 bits.
pub load_int : Bytes → Option ℕ
load_int (a ∷ b ∷ c ∷ d ∷ _) = some (a * 2 ^ 24 + b * 2 ^ 16 + c * 2 ^ 8 + d)
load_int _ = none

-- An `int` of these 32 bits, converted to `size_t`.
pub to_size : ℕ → ℕ
to_size w = if ltb w (2 ^ 31) then w else w + (2 ^ 64 - 2 ^ 32)

-- `pass_len = len - sizeof(int) - user_len`: computed in `size_t`, stored in an `int`.
pub pass_len : ℕ → ℕ → ℕ
unfolding to_size
pass_len len user_len = (len + (2 ^ 64 - 4) + (2 ^ 64 - to_size user_len)) % 2 ^ 64 % 2 ^ 32

-- strndup(creds + off, n), where an offset past the end of the object is a fault, too.
pub strndup : Bytes → ℕ → ℕ → Option Bytes
strndup creds off n = if leb off (length creds) then read_str (drop off creds) n else none

-- The last part of the parser: the domain is cut off if what stands before it is a local user.
pub strip_domain : (Bytes → Bool) → Bytes → Bytes
strip_domain getpwnam username = elim (strchr username b'@') [
  | none ↦ username
  | some i ↦ if getpwnam (take i username) then take i username else username
]

-- What the parser leaves behind: 0 and the two strings, or -1 and no string at all.
pub data Parsed : Type 0 where
  parsed : Bytes → Bytes → Parsed
  unparsed : Parsed

pub parse_credentials_buffer : Host → Bytes → ℕ → Outcome Parsed
parse_credentials_buffer host creds len = if ltb len 4 then ok unparsed else do
  user_len ← or_fault (load_int creds)
  username ← or_fault (strndup creds 4 (to_size user_len))
  if not host.alloc_username then ok unparsed else do
    password ←
        or_fault (strndup creds ((4 + to_size user_len) % 2 ^ 64) (to_size (pass_len len user_len)))
    if not host.alloc_password
        then ok unparsed
        else ok (parsed (strip_domain host.getpwnam username) password)

-- What a system call returns: a value that is no error, or -1 with its `errno`.
pub data SysRet {ℓ} (A : Type ℓ) : Type ℓ where
  ret : A → SysRet A
  failed : ℕ → SysRet A

abbrev pub eintr : ℕ
eintr = 4

-- do { ret = call; } while ((ret == -1) && (errno == EINTR));
pub retry {ℓ} : {A : Type ℓ} → List (SysRet A) → Option (SysRet A)
retry [] = none
retry (ret a ∷ rs) = some (ret a)
retry (failed e ∷ rs) = let rest = retry rs in if e == eintr then rest else some (failed e)

-- The answers of the system calls. recv() is told how many bytes fit; select() answers how many
-- descriptors are ready and whether the socket is one of them.
pub record Sys : Type 0 where
  pub socket : SysRet ℕ
  pub connect : Bytes → SysRet (Unit {0})
  pub getfl : SysRet ℕ
  pub setfl : ℕ → SysRet (Unit {0})
  pub sends : Bytes → List (SysRet ℕ)
  pub selects : List (SysRet (ℕ × Bool))
  pub recvs : ℕ → List (SysRet Bytes)

-- CREDENTIAL_CHANNEL behind its NUL: `sun_path[0]` is cleared after SUN_LEN() was taken.
abbrev pub channel_address : Bytes
channel_address = 0 ∷ drop 1 (codes "x/tmp/ovirt-cred-channel")

abbrev o_nonblock : ℕ
o_nonblock = 0x800

-- true for 0, false for -1
pub set_sock_non_blocking : Sys → Bool
set_sock_non_blocking sys = elim sys.getfl [
  | failed _ ↦ false
  | ret flags ↦ elim (sys.setfl (bit_or flags o_nonblock)) [ failed _ ↦ false | ret _ ↦ true ]
]

-- 0 with the buffer and `*creds_len`, or -1 with both as they were.
pub data Exchange : Type 0 where
  received : Bytes → ℕ → Exchange
  refused : Exchange

-- recv() writes to the front of the buffer; more than fits would be a write outside it.
recv_reply : Bytes → SysRet Bytes → Outcome Exchange
recv_reply creds (failed _) = ok refused
recv_reply creds (ret msg) =
    if leb (length msg) (length creds)
    then ok (received (msg ++ drop (length msg) creds) (length msg))
    else fault

recv_creds : Sys → Bytes → Outcome Exchange
recv_creds sys creds = do r ← or_blocked (retry (sys.recvs creds_size)); recv_reply creds r

-- Where the socket is not in the set, `ret` still holds the count that select() gave.
after_select : Sys → Bytes → SysRet (ℕ × Bool) → Outcome Exchange
after_select sys creds (failed _) = ok refused
after_select sys creds (ret (zero, is_set)) = ok refused
after_select sys creds (ret (suc n, true)) = recv_creds sys creds
after_select sys creds (ret (suc n, false)) = ok (received creds (suc n))

after_send : Sys → Bytes → SysRet ℕ → Outcome Exchange
after_send sys creds (failed _) = ok refused
after_send sys creds (ret _) = do s ← or_blocked (retry sys.selects); after_select sys creds s

send_ticket : Sys → Bytes → Bytes → Outcome Exchange
send_ticket sys ticket creds = do r ← or_blocked (retry (sys.sends ticket)); after_send sys creds r

after_connect : Sys → Bytes → Bytes → SysRet (Unit {0}) → Outcome Exchange
after_connect sys ticket creds (failed _) = ok refused
after_connect sys ticket creds (ret _) =
    if set_sock_non_blocking sys then send_ticket sys ticket creds else ok refused

pub do_acquire_user_credentials : Sys → Bytes → Bytes → Outcome Exchange
do_acquire_user_credentials sys ticket creds =
    after_connect sys ticket creds (sys.connect channel_address)

-- _pam_overwrite_n(creds, n)
overwrite : Bytes → ℕ → Option Bytes
overwrite creds n = if leb n (length creds) then some (replicate n 0 ++ drop n creds) else none

-- The strings handed out, the buffer as it is left on the stack, and the descriptors closed.
pub record Acquired : Type 0 where
  pub result : Parsed
  pub creds : Bytes
  pub closed : List ℕ

finish : ℕ → Bytes → ℕ → Parsed → Outcome Acquired
finish fd creds len p = do
  wiped ← or_fault (overwrite creds len)
  ok (record { result = p; creds = wiped; closed = fd ∷ [] })

after_exchange : Host → ℕ → Bytes → Exchange → Outcome Acquired
after_exchange host fd creds refused = finish fd creds creds_size unparsed
after_exchange host fd creds (received creds' n) = do
  p ← parse_credentials_buffer host creds' n
  finish fd creds' n p

after_socket : Sys → Host → Bytes → Bytes → SysRet ℕ → Outcome Acquired
after_socket sys host creds ticket (failed _) =
    ok (record { result = unparsed; creds = creds; closed = [] })
after_socket sys host creds ticket (ret fd) = do
  e ← do_acquire_user_credentials sys ticket creds
  after_exchange host fd creds e

-- `creds` is the buffer as the call finds it on the stack.
pub acquire_user_credentials : Sys → Host → Bytes → Bytes → Outcome Acquired
acquire_user_credentials sys host creds ticket = after_socket sys host creds ticket sys.socket
