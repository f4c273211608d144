-- ===== src/CredProv/Channel.antt =====
-- windows-credprov/CredentialsChannel.cpp: the pipe on which the agent sends credentials. A buffer is
-- the list of its bytes, a wide string the list of its UTF-16 units, `int` and DWORD have 32 bits and
-- `size_t` 64. What Windows answers is an argument.
pub mod Message
pub mod Lifecycle
pub mod Examples
mod Tests
use ovirt_guest_agent.Prelude.{
  ℕ, zero, suc, ◌+◌, ◌-◌, ◌*◌, ◌/◌, ◌%◌, ◌^◌, Bool, true, false, not, ◌&&◌, ◌||◌, Option, none,
  some, List, [], ◌∷◌, ◌++◌, Bytes, length, take, drop, c_str, strchr, leb, ltb, ◌==◌,
  if◌then◌else◌,
}
use ovirt_guest_agent.PamOvirtCred.CredChannel.{Outcome, ok, fault, blocked, ◌>>=◌}

abbrev pub Wide : Type 0
Wide = List ℕ

-- dwPipeBuffer
abbrev pub pipe_buffer : ℕ
pipe_buffer = 1024

-- The `int` at the front of the buffer, as an x86 reads it.
unfoldable pub load_little : Bytes → Option ℕ
load_little (a ∷ b ∷ c ∷ d ∷ _) = some (a + b * 2 ^ 8 + c * 2 ^ 16 + d * 2 ^ 24)
load_little _ = none

-- The four masks select one byte each, so the bitwise or of the shifted bytes is their sum.
pub ntohl : ℕ → ℕ
ntohl n =
    n % 2 ^ 8 * 2 ^ 24
    + n / 2 ^ 8 % 2 ^ 8 * 2 ^ 16
    + n / 2 ^ 16 % 2 ^ 8 * 2 ^ 8
    + n / 2 ^ 24 % 2 ^ 8

-- (n + 1) * sizeof(WCHAR) for an `int` of these 32 bits
pub alloc_size : ℕ → ℕ
alloc_size n =
    let m = (n + 1) % 2 ^ 32 in
    (if ltb m (2 ^ 31) then m * 2 else (m + (2 ^ 64 - 2 ^ 32)) * 2) % 2 ^ 64

-- nSize - 4 - nUserLen, in DWORD
pub password_len : ℕ → ℕ → ℕ
password_len size user_len = (size + (2 ^ 32 - 4) + (2 ^ 32 - user_len)) % 2 ^ 32

-- The answers of LocalAlloc() by size, and the units that MultiByteToWideChar() writes for the bytes
-- from its pointer to the end of their object, given the two lengths; `none` is an access outside.
pub record Host : Type 0 where
  pub local_alloc : ℕ → Bool
  pub to_wide : Bytes → ℕ → ℕ → Option Wide

abbrev pub or_fault {ℓ} : {A : Type ℓ} → Option A → Outcome A
or_fault none = fault
or_fault (some a) = ok a

-- A wide string of a zeroed block, converted from the bytes at an offset.
pub convert : Host → Bytes → ℕ → ℕ → Option Wide
convert host creds off n =
    if leb off (length creds) then host.to_wide (drop off creds) n ((n + 1) % 2 ^ 32) else none

-- SecureZeroMemory(sz, n): `n` bytes, two of which make a unit, the low one first.
pub zero_bytes : ℕ → Wide → Wide
zero_bytes zero s = s
zero_bytes (suc n) [] = []
zero_bytes (suc zero) (u ∷ s) = u / 2 ^ 8 * 2 ^ 8 ∷ s
zero_bytes (suc (suc n)) (u ∷ s) = 0 ∷ zero_bytes n s

-- The contents of the block that SafeLocalFreeString() gives back.
pub safe_local_free_string : Wide → Wide
safe_local_free_string s = zero_bytes (length (c_str s)) s

-- OnCredentialsArrivial(): user name, password, and the domain where there is one.
pub record Arrival : Type 0 where
  pub username : Wide
  pub password : Wide
  pub domain : Option Wide

-- What the listener is told, and the blocks given back to the heap, first to last.
pub record Parsing : Type 0 where
  pub arrival : Option Arrival
  pub freed : List Wide

-- The name after the `@` was overwritten with NUL.
abbrev pub cut_domain : Wide → ℕ → Wide
cut_domain name i = take i name ++ 0 ∷ drop (suc i) name

abbrev listening : Bool → Arrival → Option Arrival
listening heard a = if heard then some a else none

announce : Bool → Wide → Wide → Option ℕ → Parsing
announce heard name password none = record {
  arrival =
      listening heard (record { username = c_str name; password = c_str password; domain = none });
  freed = safe_local_free_string name ∷ safe_local_free_string password ∷ [];
}
announce heard name password (some i) = record {
  arrival = listening heard (record {
    username = c_str (cut_domain name i);
    password = c_str password;
    domain = some (c_str (drop (suc i) name));
  });
  freed = safe_local_free_string (cut_domain name i) ∷ safe_local_free_string password ∷ [];
}

arrive : Bool → Wide → Wide → Parsing
arrive heard name password =
    if ltb 0 (length (c_str name)) && ltb 0 (length (c_str password))
    then announce heard name password (strchr (c_str name) b'@')
    else record {
      arrival = none;
      freed = safe_local_free_string name ∷ safe_local_free_string password ∷ [];
    }

-- From the length of the user name on.
parse_parts : Host → Bool → Bytes → ℕ → ℕ → Outcome Parsing
parse_parts host heard creds size user_len =
    if not (host.local_alloc (alloc_size user_len))
    then ok (record { arrival = none; freed = [] })
    else if not (host.local_alloc (alloc_size (password_len size user_len)))
    then ok (record { arrival = none; freed = safe_local_free_string [] ∷ [] })
    else do
      name ← or_fault (convert host creds 4 user_len)
      password ←
          or_fault (convert host creds ((4 + user_len) % 2 ^ 32) (password_len size user_len))
      ok (arrive heard name password)

-- `heard` is whether there is a listener.
pub parse_credentials_buffer : Host → Bool → Bytes → ℕ → Outcome Parsing
parse_credentials_buffer host heard creds size = do
  n ← or_fault (load_little creds)
  parse_parts host heard creds size (ntohl n)

-- INVALID_HANDLE_VALUE, NULL, and the handles that Windows gives out.
pub data Handle : Type 0 where
  invalid null : Handle
  handle : ℕ → Handle

pub data Call : Type 0 where
  close_handle terminate_thread disconnect_named_pipe write_nothing : Handle → Call

-- The object, and the calls made, latest first.
pub record Channel : Type 0 where
  pub creds_pipe : Handle
  pub creds_thread : Handle
  pub listener : Option ℕ
  pub calls : List Call

abbrev pub init : Channel
init = record { creds_pipe = invalid; creds_thread = invalid; listener = none; calls = [] }

abbrev pub is_invalid : Handle → Bool
is_invalid invalid = true
is_invalid null = false
is_invalid (handle h) = false

abbrev pub is_null : Handle → Bool
is_null invalid = false
is_null null = true
is_null (handle h) = false

abbrev call : Call → Channel → Channel
call c ch = record ch { calls = c ∷ ch.calls }

close_pipe : Channel → Channel
close_pipe ch =
    if is_invalid ch.creds_pipe
    then ch
    else record (call (close_handle ch.creds_pipe) ch) { creds_pipe = invalid }

close_thread : Channel → Channel
close_thread ch =
    if is_invalid ch.creds_thread
    then ch
    else record (call (close_handle ch.creds_thread) ch) { creds_thread = invalid }

-- `pipe` and `thread` are what CreateNamedPipe() and CreateThread() return.
pub create_channel : Channel → ℕ → Handle → Handle → Channel × Bool
create_channel ch listener pipe thread =
    let piped = record ch { creds_pipe = pipe } in
    let threaded = record piped { creds_thread = thread } in
    let done =
      if is_invalid pipe
      then piped
      else if is_null thread
      then threaded
      else record threaded { listener = some listener } in
    (done, not (is_invalid done.creds_thread))

stop_thread : Channel → Channel
stop_thread ch =
    if is_invalid ch.creds_thread
    then ch
    else close_thread (call (terminate_thread ch.creds_thread) ch)

stop_pipe : Channel → Channel
stop_pipe ch =
    if is_null ch.creds_pipe then ch else close_pipe (call (disconnect_named_pipe ch.creds_pipe) ch)

pub destroy_channel : Channel → Channel
destroy_channel ch = record (stop_pipe (stop_thread ch)) { listener = none }

-- What the thread sees: ConnectNamedPipe() succeeds or finds a client, ReadFile() succeeds with the
-- buffer as it leaves it and the number of bytes read.
pub record Client : Type 0 where
  pub connected : Bool
  pub read : Option (Bytes × ℕ)

wait_read : Host → Bool → Option (Bytes × ℕ) → Outcome (Option Parsing)
wait_read host heard none = ok none
wait_read host heard (some (creds, zero)) = ok none
wait_read host heard (some (creds, suc n)) = do
  p ← parse_credentials_buffer host heard creds (suc n)
  ok (some p)

abbrev pub is_heard : Option ℕ → Bool
is_heard none = false
is_heard (some _) = true

wait_end : Channel → Channel
wait_end ch =
    let replied =
      call (disconnect_named_pipe ch.creds_pipe) (call (write_nothing ch.creds_pipe) ch) in
    record (close_pipe replied) { creds_thread = null }

pub credentials_channel_wait : Host → Client → Channel → Outcome (Channel × Option Parsing)
credentials_channel_wait host client ch = do
  p ← if client.connected then wait_read host (is_heard ch.listener) client.read else ok none
  ok (wait_end ch, p)
