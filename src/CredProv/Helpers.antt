-- ===== src/CredProv/Helpers.antt =====
-- windows-credprov/Helpers.cpp, the part that works on the heap: what its functions have in common. A
-- block of the heap is a number, an HRESULT and an error code the 32 bits of it.
mod Blocks
mod Fields
mod Protect
mod Repack
mod Names
mod Examples
use ovirt_guest_agent.Prelude.{
  ℕ, suc, ◌^◌, Bool, true, false, Option, none, some, List, [], ◌∷◌, ltb, ◌==◌, if◌then◌else◌,
}
use ovirt_guest_agent.CredProv.Channel.{Wide}

-- S_OK, E_OUTOFMEMORY, E_UNEXPECTED, ERROR_INSUFFICIENT_BUFFER
abbrev pub s_ok : ℕ
s_ok = 0

abbrev pub e_outofmemory : ℕ
e_outofmemory = 0x8007000E

abbrev pub e_unexpected : ℕ
e_unexpected = 0x8000FFFF

abbrev pub error_insufficient_buffer : ℕ
error_insufficient_buffer = 122

-- SUCCEEDED(hr): not negative.
pub succeeded : ℕ → Bool
succeeded hr = ltb hr (2 ^ 31)

-- The number of the next block, the blocks not given back, latest first, and whether one was given back
-- that was not there.
pub record Heap : Type 0 where
  pub next : ℕ
  pub live : List ℕ
  pub corrupt : Bool

pub taken : Heap → Heap
taken h = record h { next = suc h.next; live = h.next ∷ h.live }

pub without : List ℕ → ℕ → Option (List ℕ)
without [] b = none
without (x ∷ xs) b =
    let rest = without xs b in
    if x == b then some xs else elim rest [ none ↦ none | some ys ↦ some (x ∷ ys) ]

pub free : Heap → ℕ → Heap
free h b = elim (without h.live b) [
  | none ↦ record h { corrupt = true }
  | some l ↦ record h { live = l }
]

-- A string and its block.
pub record Text : Type 0 where
  pub block : ℕ
  pub text : Wide

-- What a function returns, what its output parameter holds, and the heap behind it.
pub record Done {ℓ} (A : Type ℓ) : Type ℓ where
  pub hr : ℕ
  pub out : Option A
  pub heap : Heap

-- What the heap, the credential manager and the printing functions answer. An allocation is told the
-- number of its block and its size, SHStrDupW() the string.
pub record Api : Type 0 where
  pub allocates : ℕ → ℕ → Bool
  pub str_dup : ℕ → Wide → ℕ
  pub hresult_from_win32 : ℕ → ℕ

-- SHStrDupW(): a copy, or NULL.
pub sh_str_dup : Api → Heap → Wide → Done Text
sh_str_dup api h text =
    let hr = api.str_dup h.next text in
    if succeeded hr
    then record { hr = hr; out = some (record { block = h.next; text = text }); heap = taken h }
    else record { hr = hr; out = none; heap = h }
