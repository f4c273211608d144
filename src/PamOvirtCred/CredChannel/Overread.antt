-- ===== src/PamOvirtCred/CredChannel/Overread.antt =====
-- A length from the peer that parse_credentials_buffer() does not check against the message.
use ovirt_guest_agent.Prelude.{
  ℕ, zero, suc, ◌+◌, ◌%◌, ◌^◌, ◌≤◌, ◌<◌, ◌≡◌, true, none, some, [], ◌∷◌, arith, Bytes, NonZero,
  length, drop, All, read_str_past, length-drop, le→ltb, drop-add, Bool-cases, leb, inl, inr,
  leb→le,
}
use ovirt_guest_agent.PamOvirtCred.CredChannel.{
  fault, Host, load_int, to_size, pass_len, strndup, parse_credentials_buffer,
}
use ovirt_guest_agent.PamOvirtCred.CredChannel.Parse.{to_size_small, strndup_inside}

to_size-ge : (w : ℕ) → w ≤ to_size w
unfolding to_size
to_size-ge w = ground arith

-- An announced length past the end of the message makes the password's length negative, and so a
-- huge `size_t`.
to_size-pass_len_past :
    (len user_len : ℕ)
    → 4 ≤ len
    → len < 4 + user_len
    → 4 + user_len < 2 ^ 31
    → 2 ^ 31 ≤ to_size (pass_len len user_len)
unfolding to_size pass_len
to_size-pass_len_past len user_len lo past small = ground arith

strndup_past :
    (creds : Bytes) (off n : ℕ)
    → All NonZero (drop off creds)
    → length creds < off + n
    → strndup creds off n ≡ none
unfolding strndup
strndup_past creds off n nz h = elim (Bool-cases (leb off (length creds))) [
  | inl e ↦ rw e (
      read_str_past (drop off creds) n nz
        (omega (arith, leb→le off (length creds) e, length-drop off creds)))
  | inr e ↦ rw e
]

All-drop : (n : ℕ) (bs : Bytes) → All NonZero bs → All NonZero (drop n bs)
All-drop zero bs a = a
All-drop (suc n) [] a = a
All-drop (suc n) (b ∷ bs) a = All-drop n bs a.1

-- A message of at least four bytes whose announced length reaches past it makes the parser read
-- outside of the buffer, if no byte of the buffer behind the length is NUL, the buffer is shorter
-- than 2 ^ 31 and the first allocation succeeds.
pub parse_overreads :
    (host : Host) (a b c d : ℕ) (body : Bytes) (len user_len : ℕ)
    → load_int (a ∷ b ∷ c ∷ d ∷ body) ≡ some user_len
    → user_len < 2 ^ 32
    → 4 ≤ len
    → len < 4 + user_len
    → 4 + length body < 2 ^ 31
    → All NonZero body
    → host.alloc_username ≡ true
    → parse_credentials_buffer host (a ∷ b ∷ c ∷ d ∷ body) len ≡ fault
unfolding parse_credentials_buffer
parse_overreads host a b c d body len user_len h w lo past small nz au =
    elim (Bool-cases (leb user_len (length body))) [
      | inr far ↦ rw (
        le→ltb len 4 lo,
        h,
        strndup_past creds 4 (to_size user_len) nz (ground (arith, to_size-ge user_len)),
      )
      | inl near ↦
          let inside : user_len ≤ length body = leb→le user_len (length body) near in
          rw (
            le→ltb len 4 lo,
            h,
            small_size inside,
            strndup_inside creds 4 user_len (omega arith),
            au,
            offset inside,
            strndup_past creds (4 + user_len) (to_size (pass_len len user_len))
                (rw drop-add (All-drop user_len body nz)) (huge inside),
          )
    ]
  where
    creds : Bytes
    creds = a ∷ b ∷ c ∷ d ∷ body

    small_size : user_len ≤ length body → to_size user_len ≡ user_len
    small_size i = to_size_small (4 + user_len) user_len (omega arith) (omega arith)

    offset : user_len ≤ length body → (4 + user_len) % 2 ^ 64 ≡ 4 + user_len
    offset i = omega arith

    huge : user_len ≤ length body → length creds < 4 + user_len + to_size (pass_len len user_len)
    huge i = omega (arith, to_size-pass_len_past len user_len lo past (omega arith))
