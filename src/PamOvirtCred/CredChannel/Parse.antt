-- ===== src/PamOvirtCred/CredChannel/Parse.antt =====
-- What parse_credentials_buffer() makes of a message, and when it stays inside the buffer.
use ovirt_guest_agent.Prelude.{
  ℕ, suc, ◌+◌, ◌-◌, ◌/◌, ◌%◌, ◌^◌, ◌≤◌, ◌<◌, ◌≡◌, refl, sym, ◌∙◌, ap, true, some, [], ◌∷◌, ◌++◌,
  arith, Bytes, NonZero, length, take, drop, All, c_str, read_str-take, c_str-NonZero,
  c_str-append_zero, length-drop, length-append, take-append, drop-append, lt→ltb, le→ltb, le→leb,
  drop-add, take-drop-take,
}
use mathlib.Core.List.{append_assoc}
use ovirt_guest_agent.PamOvirtCred.CredChannel.{
  ok, Host, load_int, to_size, pass_len, strndup, strip_domain, parsed, parse_credentials_buffer,
}

-- struct.pack('>I%ds%ds' % (len(username), len(password) + 1), len(username), username, password)
abbrev pub store_int : ℕ → Bytes
store_int n = n / 2 ^ 24 % 2 ^ 8 ∷ n / 2 ^ 16 % 2 ^ 8 ∷ n / 2 ^ 8 % 2 ^ 8 ∷ n % 2 ^ 8 ∷ []

abbrev pub pack : Bytes → Bytes → Bytes
pack username password = store_int (length username) ++ (username ++ (password ++ 0 ∷ []))

pub load-store_int : (n : ℕ) (rest : Bytes) → n < 2 ^ 32 → load_int (store_int n ++ rest) ≡ some n
unfolding load_int
load-store_int n rest h = ap some (omega arith)

-- Where the announced user name lies inside the message, both lengths come out as they are meant.
module _ (len user_len : ℕ) (fits : 4 + user_len ≤ len) (small : len < 2 ^ 31) where
  pub to_size_small : to_size user_len ≡ user_len
  unfolding to_size
  to_size_small = rw (lt→ltb user_len (2 ^ 31) (omega arith))

  pass_len_small : pass_len len user_len ≡ len - 4 - user_len
  unfolding pass_len
  pass_len_small = rw to_size_small (omega arith)

  to_size-pass_len : to_size (pass_len len user_len) ≡ len - 4 - user_len
  unfolding to_size
  to_size-pass_len = rw (pass_len_small, lt→ltb (len - 4 - user_len) (2 ^ 31) (omega arith))

pub strndup_inside :
    (creds : Bytes) (off n : ℕ)
    → off + n ≤ length creds
    → strndup creds off n ≡ some (c_str (take n (drop off creds)))
unfolding strndup
strndup_inside creds off n h =
    rw (le→leb off (length creds) (omega arith))
      (read_str-take (drop off creds) n (omega (arith, length-drop off creds)))

-- A message whose announced user name lies inside it is taken apart as announced, each part up to
-- its first NUL.
pub parse_inside :
    (host : Host) (creds : Bytes) (len user_len : ℕ)
    → load_int creds ≡ some user_len
    → 4 + user_len ≤ len
    → len ≤ length creds
    → length creds < 2 ^ 31
    → host.alloc_username ≡ true
    → host.alloc_password ≡ true
    → parse_credentials_buffer host creds len
      ≡ ok (
          parsed
            (strip_domain host.getpwnam (c_str (take user_len (drop 4 creds))))
            (c_str (take (len - 4 - user_len) (drop (4 + user_len) creds))))
unfolding parse_credentials_buffer
parse_inside host creds len user_len head fits inside small au ap' = rw (
  le→ltb len 4 (omega arith),
  head,
  to_size_small len user_len fits (omega arith),
  strndup_inside creds 4 user_len (omega arith),
  au,
  to_size-pass_len len user_len fits (omega arith),
  offset,
  strndup_inside creds (4 + user_len) (len - 4 - user_len) (omega arith),
  ap',
)
  where
    offset : (4 + user_len) % 2 ^ 64 ≡ 4 + user_len
    offset = omega arith

module _ (username password rest : Bytes) where
  -- The three parts of a packed message, where it stands at the front of a buffer.
  pub pack_cut :
      (take (length username) (drop 4 (pack username password ++ rest)) ≡ username)
      × (take (length password + 1) (drop (4 + length username) (pack username password ++ rest))
          ≡ password ++ 0 ∷ [])
  pack_cut = (cut_username, cut_password)
    where
      tail : Bytes
      tail = password ++ 0 ∷ rest

      bodies : drop 4 (pack username password ++ rest) ≡ username ++ tail
      bodies = simp append_assoc

      cut_username : take (length username) (drop 4 (pack username password ++ rest)) ≡ username
      cut_username = simp append_assoc (take-append username tail)

      cut_length : length (password ++ 0 ∷ []) ≡ length password + 1
      cut_length = length-append password (0 ∷ [])

      cut_password :
          take (length password + 1) (drop (4 + length username) (pack username password ++ rest))
          ≡ password ++ 0 ∷ []
      cut_password = rw drop-add (
          simp (append_assoc, drop-append)
            (rw (← cut_length) (simp (← append_assoc) (take-append (password ++ 0 ∷ []) rest))))

  pub pack_sizes :
      (length (pack username password) ≡ 4 + length username + length password + 1)
      × (length (pack username password ++ rest) ≡ length (pack username password) + length rest)
  pack_sizes = (
    omega (arith, length-append username (password ++ 0 ∷ []), length-append password (0 ∷ [])),
    length-append (pack username password) rest,
  )

module _ (host : Host) (username password rest : Bytes) where
  -- What the agent packs comes out again, if the strings have no NUL bytes, the buffer is shorter
  -- than 2 ^ 31 and both allocations succeed: the user name as announced, its domain cut off where
  -- the host knows the local part, and the password without the NUL that the agent appends.
  pub parse-pack :
      All NonZero username
      → All NonZero password
      → length (pack username password ++ rest) < 2 ^ 31
      → host.alloc_username ≡ true
      → host.alloc_password ≡ true
      → parse_credentials_buffer host
          (pack username password ++ rest)
          (length (pack username password))
        ≡ ok (parsed (strip_domain host.getpwnam username) password)
  parse-pack nu np small au ap' =
      parse_inside host creds (length msg) (length username)
        (load-store_int (length username) _ (omega (arith, sizes))) (omega (arith, sizes))
        (omega (arith, sizes)) small au ap'
      ∙ rw (
        rest_length,
        (pack_cut username password rest).0,
        (pack_cut username password rest).1,
        c_str-NonZero username nu,
        c_str-append_zero password [] np,
      )
    where
      msg : Bytes
      msg = pack username password

      creds : Bytes
      creds = msg ++ rest

      sizes :
          (length msg ≡ 4 + length username + length password + 1)
          × (length creds ≡ length msg + length rest)
      sizes = pack_sizes username password rest

      rest_length : length msg - 4 - length username ≡ length password + 1
      rest_length = omega (arith, sizes)

load_int-take : (n : ℕ) (bs : Bytes) → load_int (take (suc (suc (suc (suc n)))) bs) ≡ load_int bs
unfolding load_int
load_int-take n [] = refl
load_int-take n (a ∷ []) = refl
load_int-take n (a ∷ b ∷ []) = refl
load_int-take n (a ∷ b ∷ c ∷ []) = refl
load_int-take n (a ∷ b ∷ c ∷ d ∷ bs) = refl

-- Where the announced user name lies inside the message and both allocations succeed, two buffers of
-- one size below 2 ^ 31 that agree on the message give the same result: what lies behind it in the
-- buffer is never handed out.
pub parse_confined :
    (host : Host) (creds creds' : Bytes) (len user_len : ℕ)
    → load_int creds ≡ some user_len
    → 4 + user_len ≤ len
    → take len creds ≡ take len creds'
    → len ≤ length creds
    → length creds' ≡ length creds
    → length creds < 2 ^ 31
    → host.alloc_username ≡ true
    → host.alloc_password ≡ true
    → parse_credentials_buffer host creds len ≡ parse_credentials_buffer host creds' len
parse_confined host creds creds' len user_len head fits same inside same_size small au ap' =
    parse_inside host creds len user_len head fits inside small au ap'
    ∙ (rw (slice 4 user_len fits, slice (4 + user_len) (len - 4 - user_len) (omega arith)))
    ∙ sym (parse_inside host creds' len user_len head' fits (omega arith) (omega arith) au ap')
  where
    slice : (m n : ℕ) → m + n ≤ len → take n (drop m creds) ≡ take n (drop m creds')
    slice m n h =
        sym (take-drop-take m n len creds h)
        ∙ ap (λ bs. take n (drop m bs)) same
        ∙ take-drop-take m n len creds' h

    four : len ≡ suc (suc (suc (suc (len - 4))))
    four = omega arith

    head' : load_int creds' ≡ some user_len
    head' =
        sym (load_int-take (len - 4) creds')
        ∙ ap load_int (ap (λ n. take n creds') (sym four) ∙ sym same ∙ ap (λ n. take n creds) four)
        ∙ load_int-take (len - 4) creds
        ∙ head
