-- ===== src/CredProv/Serialization/Unpacking.antt =====
-- The block that is submitted, unpacked where it lies.
use ovirt_guest_agent.Prelude.{
  ℕ, ◌+◌, ◌-◌, ◌*◌, ◌^◌, ◌<◌, ◌≡◌, Option, none, some, arith, Bytes, length, take, drop, leb,
  if◌then◌else◌,
}
use ovirt_guest_agent.CredProv.Channel.{Wide}
use ovirt_guest_agent.CredProv.Credentials.{Credentials}
use ovirt_guest_agent.CredProv.Serialization.{
  Windows, success, to_bytes, Block, Serialization, get_serialization, Place, as_packed,
  byte_of_block, null, unpack_in_place,
}
use ovirt_guest_agent.CredProv.Serialization.Layout.{Works, block_of, cut, serialized}

-- The bytes behind a pointer into the block.
abbrev pub text_at : ℕ → Block → Place → ℕ → Option Bytes
text_at struct_size b (byte_of_block n) count =
    if leb (n + count) b.size then some (take count (drop (n - struct_size) b.strings)) else none
text_at struct_size b (as_packed n) count = none
text_at struct_size b null count = none

module _ (w : Windows) (works : Works w) (c : Credentials) (domain username password : Wide)
    (some_size : 0 < w.struct_size) (small : w.struct_size < 2 ^ 16)
    (fits_domain : length domain * 2 < 2 ^ 16) (fits_username : length username * 2 < 2 ^ 16)
    (fits_password : length password * 2 < 2 ^ 16) where
  abbrev b : Block
  b = block_of w c domain username password

  unpacked : unpack_in_place w b b.size ≡ record {
    domain = byte_of_block w.struct_size;
    username = byte_of_block (w.struct_size + length domain * 2);
    password = byte_of_block (w.struct_size + length domain * 2 + length username * 2);
  }
  unfolding unpack_in_place
  unpacked = ground arith

  -- The three strings that are stored come back where the block is unpacked: each pointer then is that of
  -- a byte of the block, and the bytes there, as many as the block's own `Length` of that string counts, are
  -- those of the string. Each has less than 2 ^ 16 bytes, and Windows
  -- converts, allocates and finds the package.
  pub get_serialization-unpack :
      c.domain ≡ some domain
      → c.username ≡ some username
      → c.password ≡ some password
      → (s : Serialization) × (get_serialization w c ≡ success s)
        × (text_at w.struct_size s.block
              (unpack_in_place w s.block s.block.size).domain
              s.block.domain.length_bytes
            ≡ some (to_bytes domain))
        × (text_at w.struct_size s.block
              (unpack_in_place w s.block s.block.size).username
              s.block.username.length_bytes
            ≡ some (to_bytes username))
        × (text_at w.struct_size s.block
              (unpack_in_place w s.block s.block.size).password
              s.block.password.length_bytes
            ≡ some (to_bytes password))
  get_serialization-unpack d u p =
      let (x, y, z) =
        cut w works c domain username password small fits_domain fits_username fits_password in
      (
        record { block = b; auth_package = works.auth_package },
        serialized w works c domain username password small fits_domain fits_username fits_password
            d u p,
        rw unpacked x,
        rw unpacked y,
        rw unpacked z,
      )
