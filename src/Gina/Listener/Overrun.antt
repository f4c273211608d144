-- ===== src/Gina/Listener/Overrun.antt =====
-- When the listener stays inside its buffer.
use ovirt_guest_agent.Prelude.{
  Bool, ◌∙◌, ℕ, suc, ◌+◌, ◌-◌, ◌%◌, ◌^◌, ◌≤◌, ◌<◌, ◌≡◌, ◌↔◌, ◌⊎◌, inl, inr, true, some, none, [],
  ◌∷◌, ◌++◌, arith, Bytes, length, take, drop, leb, ltb, le→leb, lt→leb, lt→ltb, ltb→lt,
  length-append, length-take, length-drop, Bool-cases, leb→le,
}
use ovirt_guest_agent.PamOvirtCred.CredChannel.{Outcome, ok, fault}
use ovirt_guest_agent.CredProv.Channel.{Wide, load_little, ntohl}
use ovirt_guest_agent.CredProv.Channel.Message.{ntohl_bound, load_little-replaced}
use ovirt_guest_agent.Gina.Dialogs.{Gina}
use ovirt_guest_agent.Gina.Listener.{
  pipe_bufsize, Host, Peer, terminate, copy_string, password_length, convert_to_wide, read_message,
  open_pipe, hang_up, post_both, deliver, serve_read, serve, thread_func,
}

-- `new` has the memory.
abbrev pub News : Host → Type 0
News host = (n : ℕ) → host.news n ≡ true

pub copy_inside :
    (host : Host) (buf : Bytes) (off n : ℕ)
    → News host
    → off + n ≤ length buf
    → copy_string host buf off n ≡ some (take n (drop off buf) ++ 0 ∷ [])
unfolding copy_string
copy_inside host buf off n mem h = rw (mem ((n + 1) % 2 ^ 32), le→leb (off + n) (length buf) h)

copy_outside :
    (host : Host) (buf : Bytes) (off n : ℕ)
    → News host
    → length buf < off + n
    → copy_string host buf off n ≡ none
unfolding copy_string
copy_outside host buf off n mem h = rw (mem ((n + 1) % 2 ^ 32), lt→leb (off + n) (length buf) h)

-- The parts are taken where the announced name is shorter than the message and the message leaves
-- three bytes of the buffer free.
pub read_message_inside :
    (host : Host) (buf : Bytes) (size user_len : ℕ)
    → News host
    → length buf ≡ pipe_bufsize
    → user_len < size
    → size ≤ 1021
    → read_message host buf size user_len
      ≡ ok (
        convert_to_wide host (take user_len (drop 4 buf) ++ 0 ∷ []),
        convert_to_wide host (take (size - user_len - 1) (drop (4 + user_len) buf) ++ 0 ∷ []),
      )
unfolding read_message password_length
read_message_inside host buf size user_len mem len fits room = rw (
  copy_inside host buf 4 user_len mem (omega arith),
  rest,
  copy_inside host buf (4 + user_len) (size - user_len - 1) mem (omega arith),
)
  where
    rest : password_length size user_len ≡ size - user_len - 1
    rest = omega arith

read_message_outside :
    (host : Host) (buf : Bytes) (size user_len : ℕ)
    → News host
    → length buf ≡ pipe_bufsize
    → size ≤ pipe_bufsize
    → user_len < 2 ^ 32
    → (1021 < size) ⊎ (size ≤ user_len)
    → read_message host buf size user_len ≡ fault
unfolding read_message password_length
read_message_outside host buf size user_len mem len bound word bad =
    elim (Bool-cases (leb (4 + user_len) (length buf))) [
      | inl e ↦ rw (
        copy_inside host buf 4 user_len mem (leb→le (4 + user_len) (length buf) e),
        copy_outside host buf (4 + user_len) (password_length size user_len) mem
            (long (leb→le (4 + user_len) (length buf) e)),
      )
      | inr e ↦ rw (copy_outside host buf 4 user_len mem (ground arith))
    ]
  where
    long : 4 + user_len ≤ length buf → length buf < 4 + user_len + password_length size user_len
    long h = elim bad [ inl b ↦ omega arith | inr b ↦ omega arith ]

length-terminated :
    (buf : Bytes) (size : ℕ)
    → size < length buf
    → length (take size buf ++ 0 ∷ drop (suc size) buf) ≡ length buf
length-terminated buf size h = omega (
  arith,
  length-append (take size buf) (0 ∷ drop (suc size) buf),
  length-take size buf,
  length-drop (suc size) buf,
)

-- A client that connects, and a message of it.
abbrev pub sends : Bytes → ℕ → Peer
sends buf size = record { connected = true; read = some (buf, size) }

module _ (host : Host) (window pipe : ℕ) (buf : Bytes) (size n : ℕ) (g : Gina) (mem : News host)
    (len : length buf ≡ pipe_bufsize) (head : 4 ≤ size) (bound : size ≤ pipe_bufsize)
    (announced : load_little buf ≡ some n) where
  abbrev terminated : Bytes
  terminated = take size buf ++ 0 ∷ drop (suc size) buf

  faults :
      (1021 < size) ⊎ (size ≤ ntohl n)
      → thread_func host window (some pipe) (sends buf size) g ≡ fault
  unfolding thread_func serve serve_read deliver terminate
  faults bad = elim (Bool-cases (ltb size (length buf))) [
    | inr e ↦ rw e
    | inl e ↦
        let inside : size < length buf = ltb→lt size (length buf) e in
        rw (
          e,
          load_little-replaced buf size head (omega arith),
          announced,
          read_message_outside host terminated size (ntohl n) mem
              (length-terminated buf size inside ∙ len) bound (ntohl_bound n) bad,
        )
  ]

  returns :
      ntohl n < size
      → size ≤ 1021
      → (r : Gina × Bool) × (thread_func host window (some pipe) (sends buf size) g ≡ ok r)
  unfolding thread_func serve serve_read deliver terminate
  returns fits room =
      let strings : Wide × Wide = (
        convert_to_wide host (take (ntohl n) (drop 4 terminated) ++ 0 ∷ []),
        convert_to_wide host (take (size - ntohl n - 1) (drop (4 + ntohl n) terminated) ++ 0 ∷ []),
      ) in
      (
        (post_both window strings (hang_up (open_pipe (some pipe) g)), true),
        rw (
          lt→ltb size (length buf) (omega arith),
          load_little-replaced buf size head (omega arith),
          announced,
          read_message_inside host terminated size (ntohl n) mem
              (length-terminated buf size (omega arith) ∙ len) fits room,
        ),
      )

  -- A message of at least four bytes makes the thread leave its buffers, if `new` has the memory, exactly
  -- where the message has more than 1021 bytes or its announced length is not less than its size.
  pub thread_faults_iff :
      (thread_func host window (some pipe) (sends buf size) g ≡ fault)
      ↔ ((1021 < size) ⊎ (size ≤ ntohl n))
  thread_faults_iff = (
    λ e. elim (Bool-cases (leb size 1021)) [
      | inr big ↦ inl (ground arith)
      | inl room ↦ elim (Bool-cases (leb size (ntohl n))) [
        | inl far ↦ inr (leb→le size (ntohl n) far)
        | inr fits ↦ absurd (not_fault e (returns (ground arith) (leb→le size 1021 room)))
      ]
    ],
    faults,
  )
    where
      not_fault : {o : Outcome (Gina × Bool)} → o ≡ fault → (r : Gina × Bool) × (o ≡ ok r) → ⊥
      not_fault e (r, h) = ground arith
