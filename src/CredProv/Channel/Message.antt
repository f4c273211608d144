-- ===== src/CredProv/Channel/Message.antt =====
-- What the credential provider makes of a message of the agent, and what it leaves on the heap.
use ovirt_guest_agent.Prelude.{
  ℕ, zero, suc, ◌+◌, ◌-◌, ◌*◌, ◌/◌, ◌%◌, ◌^◌, ◌≤◌, ◌<◌, ◌≡◌, refl, ◌∙◌, ◌≢◌, Bool, true, some, [],
  ◌∷◌, ◌++◌, arith, Bytes, NonZero, length, take, replicate, drop, All, All-append, c_str, strchr,
  length-append, take-append, length-drop, c_str-NonZero, c_str-append_zero, le→leb, lt→ltb, ne→==,
}
use ovirt_guest_agent.PamOvirtCred.CredChannel.{ok}
use ovirt_guest_agent.PamOvirtCred.CredChannel.Parse.{store_int, pack, pack_sizes, pack_cut}
use ovirt_guest_agent.CredProv.Channel.{
  Wide, pipe_buffer, load_little, ntohl, alloc_size, password_len, Host, convert, zero_bytes,
  safe_local_free_string, Parsing, announce, arrive, parse_credentials_buffer, parse_parts,
}

-- The agent's length survives the two byte orders.
pub ntohl-store_int :
    (n : ℕ) (rest : Bytes)
    → n < 2 ^ 32
    → (m : ℕ) × (load_little (store_int n ++ rest) ≡ some m) × (ntohl m ≡ n)
unfolding load_little ntohl
ntohl-store_int n rest h = (_, refl, omega arith)

pub ntohl_bound : (n : ℕ) → ntohl n < 2 ^ 32
unfolding ntohl
ntohl_bound n = omega arith

-- A byte replaced behind the first four leaves the length.
pub load_little-replaced :
    (buf : Bytes) (i : ℕ)
    → 4 ≤ i
    → i ≤ length buf
    → load_little (take i buf ++ 0 ∷ drop (suc i) buf) ≡ load_little buf
unfolding load_little
load_little-replaced (a ∷ b ∷ c ∷ d ∷ buf) (suc (suc (suc (suc i)))) four h = refl
load_little-replaced [] i four h = absurd (omega arith)
load_little-replaced (a ∷ []) i four h = absurd (omega arith)
load_little-replaced (a ∷ b ∷ []) i four h = absurd (omega arith)
load_little-replaced (a ∷ b ∷ c ∷ []) i four h = absurd (omega arith)
load_little-replaced (a ∷ b ∷ c ∷ d ∷ buf) zero four h = absurd (omega arith)
load_little-replaced (a ∷ b ∷ c ∷ d ∷ buf) (suc zero) four h = absurd (omega arith)
load_little-replaced (a ∷ b ∷ c ∷ d ∷ buf) (suc (suc zero)) four h = absurd (omega arith)
load_little-replaced (a ∷ b ∷ c ∷ d ∷ buf) (suc (suc (suc zero))) four h = absurd (omega arith)

-- What the documentation of MultiByteToWideChar() says where the bytes are there and the buffer has
-- a unit for each byte and one more.
abbrev pub Converts : Host → (Bytes → Wide) → Type 0
Converts host decode =
    (bs : Bytes) (n cch : ℕ)
    → n ≤ length bs
    → n < cch
    → host.to_wide bs n cch ≡ some (decode (take n bs))

-- LocalAlloc() has the memory.
abbrev pub Allocates : Host → Type 0
Allocates host = (n : ℕ) → host.local_alloc n ≡ true

convert_inside :
    (host : Host) (decode : Bytes → Wide) (creds : Bytes) (off n : ℕ)
    → Converts host decode
    → off + n ≤ length creds
    → length creds < 2 ^ 31
    → convert host creds off n ≡ some (decode (take n (drop off creds)))
unfolding convert
convert_inside host decode creds off n c h small =
    rw (le→leb off (length creds) (omega arith))
      (c (drop off creds) n ((n + 1) % 2 ^ 32) (omega (arith, length-drop off creds)) (omega arith))

-- The bytes zeroed are half of those of the string.
drop-zero_bytes : (n : ℕ) (s : Wide) → drop ((n + 1) / 2) (zero_bytes n s) ≡ drop ((n + 1) / 2) s
unfolding zero_bytes
drop-zero_bytes zero s = refl
drop-zero_bytes (suc zero) [] = refl
drop-zero_bytes (suc zero) (u ∷ s) = refl
drop-zero_bytes (suc (suc n)) [] = refl
drop-zero_bytes (suc (suc n)) (u ∷ s) =
    let half : (suc (suc n) + 1) / 2 ≡ suc ((n + 1) / 2) = omega arith in
    rw half (drop-zero_bytes n s)

-- Two bytes for each unit are all of them.
pub zero_bytes_all : (s : Wide) → zero_bytes (length s * 2) s ≡ replicate (length s) 0
unfolding zero_bytes
zero_bytes_all [] = refl
zero_bytes_all (u ∷ s) =
    let two : length (u ∷ s) * 2 ≡ suc (suc (length s * 2)) = omega arith in
    rw (two, zero_bytes_all s)

-- A string without NUL that is given back to the heap still holds its second half.
pub safe_local_free_string_residue :
    (s : Wide)
    → All NonZero s
    → drop ((length s + 1) / 2) (safe_local_free_string s) ≡ drop ((length s + 1) / 2) s
unfolding safe_local_free_string
safe_local_free_string_residue s nz = rw (c_str-NonZero s nz) (drop-zero_bytes (length s) s)

parse_inside :
    (host : Host) (decode : Bytes → Wide) (heard : Bool) (creds : Bytes) (size user_len n : ℕ)
    → Converts host decode
    → Allocates host
    → load_little creds ≡ some n
    → ntohl n ≡ user_len
    → 4 + user_len ≤ size
    → size ≤ length creds
    → length creds < 2 ^ 31
    → parse_credentials_buffer host heard creds size
      ≡ ok (
          arrive heard
            (decode (take user_len (drop 4 creds)))
            (decode (take (size - 4 - user_len) (drop (4 + user_len) creds))))
unfolding parse_credentials_buffer parse_parts password_len
parse_inside host decode heard creds size user_len n conv mem head swapped fits inside small = rw (
  head,
  swapped,
  mem (alloc_size user_len),
  mem (alloc_size (password_len size user_len)),
  convert_inside host decode creds 4 user_len conv (omega arith) small,
  offset,
  rest_len,
  convert_inside host decode creds (4 + user_len) (size - 4 - user_len) conv (omega arith) small,
)
  where
    offset : (4 + user_len) % 2 ^ 32 ≡ 4 + user_len
    offset = omega arith

    rest_len : password_len size user_len ≡ size - 4 - user_len
    rest_len = omega arith

-- The strings that the provider takes from a packed message are the conversions of those that the
-- agent put in.
parse-pack_wide :
    (host : Host) (decode : Bytes → Wide) (heard : Bool) (username password rest : Bytes)
    → Converts host decode
    → Allocates host
    → length (pack username password ++ rest) < 2 ^ 31
    → parse_credentials_buffer host heard
        (pack username password ++ rest)
        (length (pack username password))
      ≡ ok (arrive heard (decode username) (decode (password ++ 0 ∷ [])))
parse-pack_wide host decode heard username password rest conv mem small =
    let sizes = pack_sizes username password rest in
    let (n, head, swapped) =
      ntohl-store_int (length username) ((username ++ (password ++ 0 ∷ [])) ++ rest)
        (omega (arith, sizes)) in
    let rest_length : length (pack username password) - 4 - length username ≡ length password + 1 =
      omega (arith, sizes) in
    let (cut_username, cut_password) = pack_cut username password rest in
    parse_inside host decode heard (pack username password ++ rest)
      (length (pack username password)) (length username) n conv mem head swapped
      (omega (arith, sizes)) (omega (arith, sizes)) small
    ∙ rw (rest_length, cut_username, cut_password)

strchr_at :
    (user domain : Wide)
    → All (λ u. u ≢ b'@') user
    → strchr (user ++ b'@' ∷ domain) b'@' ≡ some (length user)
strchr_at [] domain a = refl
strchr_at (u ∷ user) domain a = rw (ne→== u b'@' a.0, strchr_at user domain a.1)

drop_after : (user domain : Wide) → drop (suc (length user)) (user ++ b'@' ∷ domain) ≡ domain
drop_after [] domain = refl
drop_after (u ∷ user) domain = drop_after user domain

arrive_domain :
    (user domain password : Wide)
    → All NonZero user
    → All NonZero domain
    → All NonZero password
    → All (λ u. u ≢ b'@') user
    → 0 < length password
    → (arrive true (user ++ b'@' ∷ domain) (password ++ 0 ∷ [])).arrival
      ≡ some (record { username = user; password = password; domain = some domain })
unfolding arrive announce
arrive_domain user domain password nu nd np no_at full =
    let whole : c_str (user ++ b'@' ∷ domain) ≡ user ++ b'@' ∷ domain =
      c_str-NonZero (user ++ b'@' ∷ domain)
        (All-append NonZero user (b'@' ∷ domain) nu (λ e. omega arith, nd)) in
    let behind : drop (suc (length user)) (user ++ b'@' ∷ domain) ≡ domain =
      drop_after user domain in
    rw (
      whole,
      c_str-append_zero password [] np,
      lt→ltb 0 (length (user ++ b'@' ∷ domain)) (omega (arith, length-append user (b'@' ∷ domain))),
      lt→ltb 0 (length password) full,
      strchr_at user domain no_at,
      take-append user (b'@' ∷ domain),
      behind,
      c_str-append_zero user domain nu,
      c_str-NonZero domain nd,
      c_str-append_zero password [] np,
    )

-- A message with a user name, `@`, a domain and a password that is not empty, as the agent packs
-- them, at the front of the pipe's buffer, reaches the listener as the agent meant it: the user
-- name up to the first `@`, the domain behind it and the password, if Windows has the memory for
-- the strings and converts them to text without NUL.
pub message_arrives :
    (host : Host) (decode : Bytes → Wide) (username password rest : Bytes)
    (user domain secret : Wide)
    → Converts host decode
    → Allocates host
    → length (pack username password ++ rest) ≡ pipe_buffer
    → decode username ≡ user ++ b'@' ∷ domain
    → decode (password ++ 0 ∷ []) ≡ secret ++ 0 ∷ []
    → All NonZero user
    → All NonZero domain
    → All NonZero secret
    → All (λ u. u ≢ b'@') user
    → 0 < length secret
    → (p : Parsing) × (parse_credentials_buffer host true
          (pack username password ++ rest)
          (length (pack username password))
        ≡ ok p)
      × (p.arrival ≡ some (record { username = user; password = secret; domain = some domain }))
message_arrives host decode username password rest user domain secret conv mem size eu ep nu nd np
      no_at full =
    (
      arrive true (decode username) (decode (password ++ 0 ∷ [])),
      parse-pack_wide host decode true username password rest conv mem (omega (arith, size)),
      rw (eu, ep) (arrive_domain user domain secret nu nd np no_at full),
    )
