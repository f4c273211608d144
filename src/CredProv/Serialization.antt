-- ===== src/CredProv/Serialization.antt =====
-- GetSerialization() of windows-credprov/OVirtCredentials.cpp, with the helpers of
-- windows-credprov/Helpers.cpp that lay the strings out in one block, find them there and look the
-- package up. The conversions of intsafe.h, the size of the Windows structure, the allocator and the LSA
-- are arguments.
pub mod Layout
pub mod Unpacking
mod LogonInit
pub mod Examples
mod Tests
use ovirt_guest_agent.Prelude.{
  ℕ, ◌+◌, ◌-◌, ◌*◌, ◌/◌, ◌%◌, ◌^◌, Bool, true, false, not, ◌&&◌, Option, none, some, List, [], ◌∷◌,
  ◌++◌, Bytes, codes, length, take, drop, leb, ◌==◌, if◌then◌else◌,
}
use ovirt_guest_agent.CredProv.Channel.{Wide}
use ovirt_guest_agent.CredProv.Credentials.{Scenario, unlock_workstation, Credentials}

pub data Failure : Type 0 where
  invalid_argument too_large arithmetic_overflow out_of_memory no_package unspecified : Failure

pub data Answer {ℓ} (A : Type ℓ) : Type ℓ where
  success : A → Answer A
  failure : Failure → Answer A

infixl 5 ◌>>=◌
abbrev pub ◌>>=◌ {ℓ κ} : {A : Type ℓ} {B : Type κ} → Answer A → (A → Answer B) → Answer B
failure why >>= more = failure why
success value >>= more = more value

-- LSA_STRING
pub record LsaString : Type 0 where
  pub length_bytes : ℕ
  pub maximum_length : ℕ
  pub buffer : Bytes

-- LsaLookupAuthenticationPackage() may get a string that was never filled in, `none`.
pub record Windows : Type 0 where
  pub struct_size : ℕ
  pub size_t_to_ushort : ℕ → Option ℕ
  pub ushort_mult : ℕ → ℕ → Option ℕ
  pub co_task_mem_alloc : ℕ → Bool
  pub lsa_connects : Bool
  pub lsa_lookup : Option LsaString → Option ℕ

-- UNICODE_STRING: lengths in bytes, and the units behind the pointer.
pub record UnicodeString : Type 0 where
  pub length_bytes : ℕ
  pub maximum_length : ℕ
  pub buffer : Wide

abbrev or_fail {ℓ} : {A : Type ℓ} → Failure → Option A → Answer A
or_fail why none = failure why
or_fail why (some a) = success a

pub unicode_string_init : Windows → Option Wide → Answer UnicodeString
unicode_string_init w none = failure invalid_argument
unicode_string_init w (some text) = do
  count ← or_fail too_large (w.size_t_to_ushort (length text))
  unit ← or_fail too_large (w.size_t_to_ushort 2)
  bytes ← or_fail arithmetic_overflow (w.ushort_mult count unit)
  success (record { length_bytes = bytes; maximum_length = bytes; buffer = text })

-- The bytes of the units, the low one first.
abbrev pub to_bytes : Wide → Bytes
to_bytes [] = []
to_bytes (u ∷ s) = u % 2 ^ 8 ∷ u / 2 ^ 8 ∷ to_bytes s

-- A string whose pointer was replaced by its offset in the block.
pub record Packed : Type 0 where
  pub length_bytes : ℕ
  pub maximum_length : ℕ
  pub offset : ℕ

pub data MessageType : Type 0 where
  interactive_logon workstation_unlock_logon : MessageType

-- The block: the fields of its structure, the bytes behind that, and the size of all.
pub record Block : Type 0 where
  pub message_type : MessageType
  pub domain : Packed
  pub username : Packed
  pub password : Packed
  pub strings : Bytes
  pub size : ℕ

packed_copy : UnicodeString → ℕ → Packed
packed_copy s offset = record {
  length_bytes = s.length_bytes;
  maximum_length = s.length_bytes;
  offset = offset;
}

copied : UnicodeString → Bytes
copied s = take s.length_bytes (to_bytes s.buffer)

pub logon_pack :
    Windows → MessageType → UnicodeString → UnicodeString → UnicodeString → Answer Block
logon_pack w type domain username password =
    let cb =
      (w.struct_size + domain.length_bytes + username.length_bytes + password.length_bytes)
      % 2 ^ 32 in
    if w.co_task_mem_alloc cb
    then success (record {
      message_type = type;
      domain = packed_copy domain w.struct_size;
      username = packed_copy username (w.struct_size + domain.length_bytes);
      password = packed_copy password (w.struct_size + domain.length_bytes + username.length_bytes);
      strings = copied domain ++ (copied username ++ copied password);
      size = cb;
    })
    else failure out_of_memory

pub lsa_init_string : Windows → Bytes → Option LsaString
lsa_init_string w text = elim (w.size_t_to_ushort (length text)) [
  | none ↦ none
  | some n ↦ some (record { length_bytes = n; maximum_length = (n + 1) % 2 ^ 16; buffer = text })
]

-- NEGOSSP_NAME_A
abbrev pub negotiate_name : Bytes
negotiate_name = codes "Negotiate"

-- The package, and whether the connection was opened and given back.
pub retrieve_negotiate_auth_package : Windows → Answer ℕ × Bool
retrieve_negotiate_auth_package w =
    if w.lsa_connects
    then (or_fail no_package (w.lsa_lookup (lsa_init_string w negotiate_name)), true)
    else (failure no_package, false)

-- What LogonUI is given.
pub record Serialization : Type 0 where
  pub block : Block
  pub auth_package : ℕ

abbrev pub message_type_of : Scenario → MessageType
message_type_of unlock_workstation = workstation_unlock_logon
message_type_of _ = interactive_logon

pub get_serialization : Windows → Credentials → Answer Serialization
get_serialization w c = do
  domain ← unicode_string_init w c.domain
  username ← unicode_string_init w c.username
  password ← unicode_string_init w c.password
  block ← logon_pack w (message_type_of c.cpus) domain username password
  auth_package ← (retrieve_negotiate_auth_package w).0
  success (record { block = block; auth_package = auth_package })

-- The pointer of a string in a block: as it was packed, or the address of a byte of the block.
pub data Place : Type 0 where
  as_packed byte_of_block : ℕ → Place
  null : Place

pub record Places : Type 0 where
  pub domain : Place
  pub username : Place
  pub password : Place

abbrev inside : Packed → ℕ → Bool
inside s size = leb ((s.offset + s.maximum_length) % 2 ^ 64) size

abbrev resolved : Packed → Place
resolved s = if s.offset == 0 then null else byte_of_block s.offset

pub unpack_in_place : Windows → Block → ℕ → Places
unpack_in_place w b size =
    if leb w.struct_size size
      && (inside b.domain size && (inside b.username size && inside b.password size))
    then record {
      domain = resolved b.domain;
      username = resolved b.username;
      password = resolved b.password;
    }
    else record {
      domain = as_packed b.domain.offset;
      username = as_packed b.username.offset;
      password = as_packed b.password.offset;
    }
