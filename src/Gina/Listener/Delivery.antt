-- ===== src/Gina/Listener/Delivery.antt =====
-- What the listener thread gives to the dialog, and what it leaves behind.
use ovirt_guest_agent.Prelude.{
  List, if_both, if◌then◌else◌, Bool, ap, ℕ, zero, suc, ◌+◌, ◌-◌, ◌≤◌, ◌≡◌, refl, true, some, none,
  [], ◌∷◌, ◌++◌, arith, Bytes, length, take, drop, lt→ltb, length-append, NonZero, All, c_str,
  c_str-append_zero, Option, drop-add, take-append, drop-append,
}
use mathlib.Core.List.{append_assoc}
use mathlib.Core.Path.{subst}
use ovirt_guest_agent.PamOvirtCred.CredChannel.{ok}
use ovirt_guest_agent.PamOvirtCred.CredChannel.Acquire.{Ensures, >>=-Ensures_any}
use ovirt_guest_agent.PamOvirtCred.CredChannel.Parse.{pack, pack_cut, pack_sizes}
use ovirt_guest_agent.CredProv.Channel.{Wide, load_little, ntohl, or_fault}
use ovirt_guest_agent.CredProv.Channel.Message.{ntohl-store_int}
use ovirt_guest_agent.Gina.Dialogs.{
  Gina, Message, Call, post, sleep, close_handle, flush_file_buffers, disconnect_named_pipe,
  credentials, command, idok,
}
use ovirt_guest_agent.Gina.Dialogs.Threads.{running}
use ovirt_guest_agent.Gina.Listener.{
  pipe_bufsize, Host, Peer, terminate, convert_to_wide, read_message, close_pipe, open_pipe,
  hang_up, post_both, deliver, serve_read, serve, thread_func,
}
use ovirt_guest_agent.Gina.Listener.Overrun.{News, sends, read_message_inside}

-- The byte that the NUL replaces is the first one behind the message.
terminate-append :
    (msg : Bytes) (b : ℕ) (rest : Bytes)
    → terminate (msg ++ b ∷ rest) (length msg) ≡ some (msg ++ 0 ∷ rest)
unfolding terminate
terminate-append msg b rest = rw (
  lt→ltb (length msg) (length (msg ++ b ∷ rest)) (omega (arith, length-append msg (b ∷ rest))),
  take-append msg (b ∷ rest),
  behind msg,
)
  where
    behind : (xs : Bytes) → drop (suc (length xs)) (xs ++ b ∷ rest) ≡ rest
    behind [] = refl
    behind (x ∷ xs) = behind xs

-- A copy that goes on behind the NUL of a text is the same text.
c_str-take_past :
    (s rest : Bytes) (n : ℕ)
    → All NonZero s
    → length s ≤ n
    → c_str (take n (s ++ 0 ∷ rest) ++ 0 ∷ []) ≡ s
c_str-take_past [] rest zero nz h = refl
c_str-take_past [] rest (suc n) nz h = refl
c_str-take_past (x ∷ s) rest zero nz h = absurd (omega arith)
c_str-take_past (x ∷ s) rest (suc n) nz h = ground (arith, c_str-take_past s rest n nz.1)

module _ (host : Host) (s : Bytes) (nz : All NonZero s) where
  convert_to_wide_text : convert_to_wide host (s ++ 0 ∷ []) ≡ host.to_wide s
  unfolding convert_to_wide
  convert_to_wide_text = ap host.to_wide (c_str-append_zero s [] nz)

  convert_to_wide_past :
      (rest : Bytes) (n : ℕ)
      → length s ≤ n
      → convert_to_wide host (take n (s ++ 0 ∷ rest) ++ 0 ∷ []) ≡ host.to_wide s
  unfolding convert_to_wide
  convert_to_wide_past rest n h = ap host.to_wide (c_str-take_past s rest n nz h)

module _ (host : Host) (user password : Bytes) (b : ℕ) (rest : Bytes) (mem : News host)
    (len : length (pack user password ++ b ∷ rest) ≡ pipe_bufsize)
    (room : length (pack user password) ≤ 1021) (nu : All NonZero user)
    (np : All NonZero password) where
  abbrev msg : Bytes
  msg = pack user password

  abbrev terminated : Bytes
  terminated = msg ++ 0 ∷ rest

  sizes : length msg ≡ 4 + length user + length password + 1
  sizes = (pack_sizes user password []).0

  behind_user : drop (4 + length user) terminated ≡ password ++ 0 ∷ 0 ∷ rest
  behind_user = rw drop-add (simp (append_assoc, drop-append))

  parts :
      read_message host terminated (length msg) (length user)
      ≡ ok (host.to_wide user, host.to_wide password)
  parts = rw (
    read_message_inside host terminated (length msg) (length user) mem
        (omega (arith, len, length-append msg (b ∷ rest), length-append msg (0 ∷ rest)))
        (omega (arith, sizes)) room,
    (pack_cut user password (0 ∷ rest)).0,
    convert_to_wide_text host user nu,
    behind_user,
    convert_to_wide_past host password np (0 ∷ rest) (length msg - length user - 1)
        (omega (arith, sizes)),
  )

  -- A message that the agent packs, of at most 1021 bytes and with no NUL in its strings, is posted to the
  -- dialog as the conversions of these two strings, then a click on its button, with the pipe closed
  -- before; `new` has the memory.
  pub thread_delivers :
      (window pipe : ℕ) (g : Gina)
      → thread_func host window (some pipe) (sends (msg ++ b ∷ rest) (length msg)) g
        ≡ ok (
          record g {
            pipe = none;
            calls =
                post window (command idok)
                ∷ sleep 1000
                ∷ post window (credentials (host.to_wide user) (host.to_wide password))
                ∷ close_handle (some pipe)
                ∷ disconnect_named_pipe (some pipe)
                ∷ flush_file_buffers (some pipe)
                ∷ g.calls;
          },
          true,
        )
  unfolding thread_func serve serve_read deliver open_pipe post_both hang_up close_pipe
  thread_delivers window pipe g =
      let (n, stored, swapped) =
        ntohl-store_int (length user) ((user ++ (password ++ 0 ∷ [])) ++ 0 ∷ rest)
          (omega (arith, sizes)) in
      rw (terminate-append msg b rest, stored, swapped, parts)

-- The messages posted, latest first, each with its window.
abbrev pub posts : List Call → List (ℕ × Message)
posts [] = []
posts (post w m ∷ cs) = (w, m) ∷ posts cs
posts (_ ∷ cs) = posts cs

-- What the thread has done where it returns: the pipe closed, no thread made or terminated, and both
-- messages posted or none.
abbrev pub Returned : ℕ → Gina → Gina × Bool → Type 0
Returned window g (g', r) =
    (g'.pipe ≡ none)
    × (g'.thread ≡ g.thread)
    × (running g'.calls ≡ running g.calls)
    × (s : Wide × Wide) × (posts g'.calls ≡ (
        if r
        then (window, command idok) ∷ (window, credentials s.0 s.1) ∷ posts g.calls
        else posts g.calls))

serve-Ensures :
    (host : Host) (window : ℕ) (peer : Peer) (g : Gina)
    → Ensures (Returned window g) (serve host window peer g)
unfolding serve serve_read deliver post_both hang_up close_pipe
serve-Ensures host window peer g =
    if_both (Ensures (Returned window g)) peer.connected _ _ (by_read peer.read)
      (refl, refl, refl, ([], []), refl)
  where
    by_deliver : (t : Bytes) (size : ℕ) → Ensures (Returned window g) (deliver host window t size g)
    by_deliver t size = >>=-Ensures_any (Returned window g) (or_fault (load_little t)) _ (λ n.
        >>=-Ensures_any (Returned window g) (read_message host t size (ntohl n))
          (λ s. ok (post_both window s (hang_up g), true)) (λ s. (refl, refl, refl, s, refl)))

    by_read :
        (read : Option (Bytes × ℕ)) → Ensures (Returned window g) (serve_read host window read g)
    by_read none = (refl, refl, refl, ([], []), refl)
    by_read (some (buf, size)) =
        >>=-Ensures_any (Returned window g) (or_fault (terminate buf size))
          (λ t. deliver host window t size g) (λ t. by_deliver t size)

thread-Ensures :
    (host : Host) (window : ℕ) (made : Option ℕ) (peer : Peer) (g : Gina)
    → Ensures (Returned window g) (thread_func host window made peer g)
unfolding thread_func open_pipe
thread-Ensures host window none peer g = (refl, refl, refl, ([], []), refl)
thread-Ensures host window (some h) peer g =
    serve-Ensures host window peer (record g { pipe = some h })

-- However the thread returns, the pipe is closed, no thread was made or terminated, and the dialog is
-- posted the credentials and then the click if the thread returns 0, and nothing otherwise.
pub thread-Returned :
    (host : Host) (window : ℕ) (made : Option ℕ) (peer : Peer) (g : Gina) (r : Gina × Bool)
    → thread_func host window made peer g ≡ ok r
    → Returned window g r
thread-Returned host window made peer g r e =
    subst (Ensures (Returned window g)) e (thread-Ensures host window made peer g)

-- The two parts of the thread, between which the dialogs go on.
pub open_pipe-threads :
    (made : Option ℕ) (g : Gina)
    → ((open_pipe made g).thread ≡ g.thread) × ((open_pipe made g).calls ≡ g.calls)
unfolding open_pipe
open_pipe-threads made g = (refl, refl)

pub serve-Returned :
    (host : Host) (window : ℕ) (peer : Peer) (g : Gina) (r : Gina × Bool)
    → serve host window peer g ≡ ok r
    → Returned window g r
serve-Returned host window peer g r e =
    subst (Ensures (Returned window g)) e (serve-Ensures host window peer g)
