-- ===== src/CredProv/Channel/Lifecycle.antt =====
-- The pipe, its thread and their handles.
use ovirt_guest_agent.Prelude.{
  ℕ, ◌≡◌, refl, true, not, Option, none, List, [], ◌∷◌, arith, if◌then◌else◌,
}
use ovirt_guest_agent.PamOvirtCred.CredChannel.{Outcome, ok, fault, blocked, ◌>>=◌}
use ovirt_guest_agent.CredProv.Channel.{
  Host, Parsing, Handle, invalid, null, handle, Call, close_handle, terminate_thread,
  disconnect_named_pipe, Channel, init, is_invalid, close_pipe, close_thread, create_channel,
  stop_thread, stop_pipe, destroy_channel, Client, wait_read, credentials_channel_wait, wait_end,
}

-- The handles closed by the calls, latest first.
abbrev pub closed : List Call → List Handle
closed [] = []
closed (close_handle h ∷ cs) = h ∷ closed cs
closed (_ ∷ cs) = closed cs

-- A new channel whose pipe and thread were made and that is destroyed before the thread ends has
-- closed both handles, each once, and holds no handle and no listener.
pub create-destroy :
    (listener p t : ℕ)
    → let ch = (create_channel init listener (handle p) (handle t)).0 in
      (closed (destroy_channel ch).calls ≡ handle p ∷ handle t ∷ [])
      × ((destroy_channel ch).creds_pipe ≡ invalid)
      × ((destroy_channel ch).creds_thread ≡ invalid)
      × ((destroy_channel ch).listener ≡ none)
unfolding create_channel destroy_channel stop_thread stop_pipe close_pipe close_thread
create-destroy listener p t = (refl, refl, refl, refl)

-- What is reported is whether the thread's handle differs from INVALID_HANDLE_VALUE.
pub create_channel_success :
    (ch : Channel) (listener : ℕ) (pipe thread : Handle)
    → (create_channel ch listener pipe thread).1
      ≡ not (is_invalid (if is_invalid pipe then ch.creds_thread else thread))
unfolding create_channel
create_channel_success ch listener invalid thread = refl
create_channel_success ch listener null thread = ground arith
create_channel_success ch listener (handle p) thread = ground arith

-- Where the thread cannot be made, the channel still reports success, without a listener.
pub create_channel_unthreaded :
    (ch : Channel) (listener p : ℕ)
    → ((create_channel ch listener (handle p) null).1 ≡ true)
      × ((create_channel ch listener (handle p) null).0.listener ≡ ch.listener)
unfolding create_channel
create_channel_unthreaded ch listener p = (refl, refl)

wait_ended :
    (m : Outcome (Option Parsing)) (from : Channel) {to : Channel} {r : Option Parsing}
    → (◌>>=◌ {B = Channel × Option Parsing} m λ p. ok (wait_end from, p)) ≡ ok (to, r)
    → to ≡ wait_end from
wait_ended (ok p) from h = cc
wait_ended fault from h = cc
wait_ended blocked from h = cc

-- A wait of a new channel that ends, whatever the client sent, has closed the pipe and nothing
-- else; destroying the channel then disconnects an invalid pipe, calls TerminateThread() and
-- CloseHandle() with NULL, and so never closes the handle of the thread.
pub wait-destroy :
    (host : Host) (client : Client) (listener p t : ℕ) (ch : Channel) (r : Option Parsing)
    → credentials_channel_wait host client (create_channel init listener (handle p) (handle t)).0
      ≡ ok (ch, r)
    → (closed ch.calls ≡ handle p ∷ [])
      × ((destroy_channel ch).calls
          ≡ disconnect_named_pipe invalid ∷ close_handle null ∷ terminate_thread null ∷ ch.calls)
unfolding credentials_channel_wait wait_end create_channel destroy_channel stop_thread stop_pipe
    close_pipe close_thread
wait-destroy host client listener p t ch r h =
    let made = (create_channel init listener (handle p) (handle t)).0 in
    rw (wait_ended (if client.connected then wait_read host true client.read else ok none) made h)
      (refl, refl)
