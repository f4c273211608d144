-- ===== src/Gina/Listener.antt =====
-- ThreadFunc() of GinaSSO/GinaDlg.cpp: the thread that waits for the agent. The buffer is the list of its
-- 1024 bytes; `int`, DWORD and `size_t` have 32 bits, as on Windows XP. What Windows answers is an
-- argument.
pub mod Delivery
pub mod Overrun
use ovirt_guest_agent.Prelude.{
  ℕ, suc, ◌+◌, ◌-◌, ◌%◌, ◌^◌, Bool, true, false, not, Option, none, some, List, [], ◌∷◌, ◌++◌,
  Bytes, length, take, drop, c_str, ltb, leb, if◌then◌else◌,
}
use ovirt_guest_agent.PamOvirtCred.CredChannel.{Outcome, ok, fault, blocked, ◌>>=◌}
use ovirt_guest_agent.CredProv.Channel.{Wide, load_little, ntohl, or_fault}
use ovirt_guest_agent.Gina.Dialogs.{
  Message, credentials, command, idok, Call, post, close_handle, flush_file_buffers,
  disconnect_named_pipe, sleep, Gina, call,
}

-- PIPE_BUFSIZE
abbrev pub pipe_bufsize : ℕ
pipe_bufsize = 1024

-- Whether `new` has that many bytes (an exception of it ends Winlogon, a fault here), and the units
-- that MultiByteToWideChar(CP_UTF8) makes of a text.
pub record Host : Type 0 where
  pub news : ℕ → Bool
  pub to_wide : Bytes → Wide

-- What the thread sees: ConnectNamedPipe() succeeds or finds a client, ReadFile() succeeds with the
-- buffer as it leaves it and the number of bytes read.
pub record Peer : Type 0 where
  pub connected : Bool
  pub read : Option (Bytes × ℕ)

-- chRecBuf[n] = 0
pub terminate : Bytes → ℕ → Option Bytes
terminate buf n = if ltb n (length buf) then some (take n buf ++ 0 ∷ drop (suc n) buf) else none

-- A new string with a copy of the `n` bytes at an offset, and a NUL behind them.
pub copy_string : Host → Bytes → ℕ → ℕ → Option Bytes
copy_string host buf off n =
    if not (host.news ((n + 1) % 2 ^ 32))
    then none
    else if leb (off + n) (length buf)
    then some (take n (drop off buf) ++ 0 ∷ [])
    else none

-- cbBytesRead - l_nUsernameLength - 1
pub password_length : ℕ → ℕ → ℕ
password_length size user_len = (size + (2 ^ 32 - 1) + (2 ^ 32 - user_len)) % 2 ^ 32

pub convert_to_wide : Host → Bytes → Wide
convert_to_wide host s = host.to_wide (c_str s)

-- The strings of the message.
pub read_message : Host → Bytes → ℕ → ℕ → Outcome (Wide × Wide)
read_message host buf size user_len = do
  user ← or_fault (copy_string host buf 4 user_len)
  password ← or_fault (copy_string host buf (4 + user_len) (password_length size user_len))
  ok (convert_to_wide host user, convert_to_wide host password)

pub close_pipe : Gina → Gina
close_pipe g = record (call (close_handle g.pipe) g) { pipe = none }

hang_up : Gina → Gina
hang_up g = close_pipe (call (disconnect_named_pipe g.pipe) (call (flush_file_buffers g.pipe) g))

-- The credentials, and a click on the button one second later.
pub post_both : ℕ → Wide × Wide → Gina → Gina
post_both window (user, password) g =
    call (post window (command idok))
      (call (sleep 1000) (call (post window (credentials user password)) g))

-- The user name's length is read from the terminated buffer.
deliver : Host → ℕ → Bytes → ℕ → Gina → Outcome (Gina × Bool)
deliver host window buf size g = do
  n ← or_fault (load_little buf)
  strings ← read_message host buf size (ntohl n)
  ok (post_both window strings (hang_up g), true)

serve_read : Host → ℕ → Option (Bytes × ℕ) → Gina → Outcome (Gina × Bool)
serve_read host window none g = ok (close_pipe g, false)
serve_read host window (some (buf, size)) g = do
  terminated ← or_fault (terminate buf size)
  deliver host window terminated size g

-- From ConnectNamedPipe() on; true for 0, false for -1.
pub serve : Host → ℕ → Peer → Gina → Outcome (Gina × Bool)
serve host window peer g =
    if peer.connected then serve_read host window peer.read g else ok (close_pipe g, false)

-- `made` is what CreateNamedPipe() returns, `none` for INVALID_HANDLE_VALUE.
pub open_pipe : Option ℕ → Gina → Gina
open_pipe made g = record g { pipe = made }

pub thread_func : Host → ℕ → Option ℕ → Peer → Gina → Outcome (Gina × Bool)
thread_func host window none peer g = ok (open_pipe none g, false)
thread_func host window (some h) peer g = serve host window peer (open_pipe (some h) g)
