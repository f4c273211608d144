-- ===== src/CredProv/Serialization/Layout.antt =====
-- The block that is submitted gives the three strings back.
use ovirt_guest_agent.Prelude.{
  ℕ, suc, ◌+◌, ◌-◌, ◌*◌, ◌%◌, ◌^◌, ◌≤◌, ◌<◌, ◌≡◌, refl, ◌∙◌, ap, true, Option, none, some, [], ◌∷◌,
  ◌++◌, arith, Bytes, length, take, drop, leb, if◌then◌else◌, take-append, drop-append, drop-add,
  le→leb,
}
use ovirt_guest_agent.CredProv.Channel.{Wide}
use ovirt_guest_agent.CredProv.Credentials.{Credentials}
use ovirt_guest_agent.CredProv.Serialization.{
  Windows, success, unicode_string_init, to_bytes, Packed, Block, packed_copy, copied, logon_pack,
  Serialization, message_type_of, get_serialization, lsa_init_string, negotiate_name,
  retrieve_negotiate_auth_package,
}

-- What intsafe.h documents of its conversions where nothing overflows, and an allocator and a package
-- that are there.
pub record Works (w : Windows) : Type 0 where
  pub converts : (n : ℕ) → n < 2 ^ 16 → w.size_t_to_ushort n ≡ some n
  pub multiplies : (a b : ℕ) → a * b < 2 ^ 16 → w.ushort_mult a b ≡ some (a * b)
  pub allocates : (n : ℕ) → w.co_task_mem_alloc n ≡ true
  pub auth_package : ℕ
  pub connects : w.lsa_connects ≡ true
  pub finds :
      w.lsa_lookup
        (some (record { length_bytes = 9; maximum_length = 10; buffer = negotiate_name }))
      ≡ some auth_package

-- The package is looked up under its name.
retrieve_works :
    (w : Windows) (works : Works w)
    → (retrieve_negotiate_auth_package w).0 ≡ success works.auth_package
unfolding retrieve_negotiate_auth_package lsa_init_string
retrieve_works w works = rw (works.connects, works.converts 9 (omega arith), works.finds)

length-to_bytes : (s : Wide) → length (to_bytes s) ≡ length s * 2
length-to_bytes [] = refl
length-to_bytes (u ∷ s) = omega (arith, length-to_bytes s)

unicode_string_init_fits :
    (w : Windows) (s : Wide)
    → Works w
    → length s * 2 < 2 ^ 16
    → unicode_string_init w (some s)
      ≡ success (record { length_bytes = length s * 2; maximum_length = length s * 2; buffer = s })
unfolding unicode_string_init
unicode_string_init_fits w s works fits = rw (
  works.converts (length s) (omega arith),
  works.converts 2 (omega arith),
  works.multiplies (length s) 2 fits,
)

-- A packed string as its reader finds it: the bytes at its offset, where these lie in the block.
abbrev pub read_packed : ℕ → Block → Packed → Option Bytes
read_packed struct_size b s =
    if leb (s.offset + s.maximum_length) b.size
    then some (take s.length_bytes (drop (s.offset - struct_size) b.strings))
    else none

abbrev pub block_of : Windows → Credentials → Wide → Wide → Wide → Block
block_of w c domain username password = record {
  message_type = message_type_of c.cpus;
  domain = record {
    length_bytes = length domain * 2;
    maximum_length = length domain * 2;
    offset = w.struct_size;
  };
  username = record {
    length_bytes = length username * 2;
    maximum_length = length username * 2;
    offset = w.struct_size + length domain * 2;
  };
  password = record {
    length_bytes = length password * 2;
    maximum_length = length password * 2;
    offset = w.struct_size + length domain * 2 + length username * 2;
  };
  strings = to_bytes domain ++ (to_bytes username ++ to_bytes password);
  size = w.struct_size + length domain * 2 + length username * 2 + length password * 2;
}

take_all : (s : Wide) → take (length s * 2) (to_bytes s) ≡ to_bytes s
take_all [] = refl
take_all (u ∷ s) =
    let two : length (u ∷ s) * 2 ≡ suc (suc (length s * 2)) = omega arith in rw (two, take_all s)

take_first : (s : Wide) (rest : Bytes) → take (length s * 2) (to_bytes s ++ rest) ≡ to_bytes s
take_first s rest = rw (← length-to_bytes s) (take-append (to_bytes s) rest)

drop_first : (s : Wide) (rest : Bytes) → drop (length s * 2) (to_bytes s ++ rest) ≡ rest
drop_first s rest = rw (← length-to_bytes s) (drop-append (to_bytes s) rest)

read_at :
    (z k n o : ℕ) (b : Block)
    → o ≡ z + k
    → o + n ≤ b.size
    → read_packed z b (record { length_bytes = n; maximum_length = n; offset = o })
      ≡ some (take n (drop k b.strings))
read_at z k n o b at inside =
    let behind : o - z ≡ k = omega arith in rw (le→leb (o + n) b.size inside, behind)

module _ (w : Windows) (works : Works w) (c : Credentials) (domain username password : Wide)
    (small : w.struct_size < 2 ^ 16) (fits_domain : length domain * 2 < 2 ^ 16)
    (fits_username : length username * 2 < 2 ^ 16)
    (fits_password : length password * 2 < 2 ^ 16) where
  pub cut :
      (read_packed w.struct_size
          (block_of w c domain username password)
          (block_of w c domain username password).domain
        ≡ some (to_bytes domain))
      × (read_packed w.struct_size
            (block_of w c domain username password)
            (block_of w c domain username password).username
          ≡ some (to_bytes username))
      × (read_packed w.struct_size
            (block_of w c domain username password)
            (block_of w c domain username password).password
          ≡ some (to_bytes password))
  cut =
      let d = length domain * 2 in
      let u = length username * 2 in
      let p = length password * 2 in
      let z = w.struct_size in
      let b = block_of w c domain username password in
      (
        read_at z 0 d z b (omega arith) (omega arith) ∙ ap some (take_first domain _),
        read_at z d u (z + d) b refl (omega arith)
            ∙ ap some (
                ap (take u) (drop_first domain (to_bytes username ++ to_bytes password))
                ∙ take_first username _),
        read_at z (d + u) p (z + d + u) b (omega arith) (omega arith)
            ∙ ap some (
                ap (take p) (
                  drop-add d u b.strings
                  ∙ ap (drop u) (drop_first domain (to_bytes username ++ to_bytes password))
                  ∙ drop_first username (to_bytes password))
                ∙ take_all password),
      )

  pub serialized :
      c.domain ≡ some domain
      → c.username ≡ some username
      → c.password ≡ some password
      → get_serialization w c
        ≡ success (record {
          block = block_of w c domain username password;
          auth_package = works.auth_package;
        })
  unfolding get_serialization logon_pack packed_copy copied
  serialized d u p =
      let whole : (w.struct_size + length domain * 2 + length username * 2 + length password * 2)
            % 2 ^ 32
          ≡ w.struct_size + length domain * 2 + length username * 2 + length password * 2 =
        omega arith in
      rw (
        d,
        u,
        p,
        unicode_string_init_fits w domain works fits_domain,
        unicode_string_init_fits w username works fits_username,
        unicode_string_init_fits w password works fits_password,
        works.allocates _,
        retrieve_works w works,
        take_all domain,
        take_all username,
        take_all password,
        whole,
      )

  -- Where the three strings are stored, each has less than 2 ^ 16 bytes, and Windows converts,
  -- allocates and finds the package, the serialization succeeds, and each string of the block, read at
  -- its offset, lies inside the block and is the string that is stored.
  pub get_serialization-read :
      c.domain ≡ some domain
      → c.username ≡ some username
      → c.password ≡ some password
      → (s : Serialization) × (get_serialization w c ≡ success s)
        × (read_packed w.struct_size s.block s.block.domain ≡ some (to_bytes domain))
        × (read_packed w.struct_size s.block s.block.username ≡ some (to_bytes username))
        × (read_packed w.struct_size s.block s.block.password ≡ some (to_bytes password))
  get_serialization-read d u p =
      let (x, y, z) = cut in
      (
        record { block = block_of w c domain username password; auth_package = works.auth_package },
        serialized d u p,
        x,
        y,
        z,
      )
