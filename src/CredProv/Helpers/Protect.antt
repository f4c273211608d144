-- ===== src/CredProv/Helpers/Protect.antt =====
-- ProtectIfNecessaryAndCopyPassword() of windows-credprov/Helpers.cpp and the function below it.
mod Once
mod Tests
use ovirt_guest_agent.Prelude.{
  ℕ, suc, ◌*◌, ◌≤◌, ◌≢◌, ◌≡◌, refl, sym, inl, inr, Bool, true, false, not, ◌&&◌, ◌||◌, Option, none,
  some, List, [], ◌∷◌, ◌++◌, arith, if◌then◌else◌, Bool-cases, Option-cases, ltb, ◌==◌, ne→==,
  ==_refl,
}
use ovirt_guest_agent.CredProv.Channel.{Wide}
use ovirt_guest_agent.CredProv.Credentials.{Scenario, credui}
use ovirt_guest_agent.CredProv.Helpers.{
  s_ok, e_outofmemory, e_unexpected, error_insufficient_buffer, succeeded, Heap, taken, without,
  free, Text, Done, Api, sh_str_dup,
}
use ovirt_guest_agent.CredProv.Helpers.Blocks.{
  Settles, Given, block_of_text, s_ok-succeeded, sh_str_dup-cases, fails, free-taken,
}

-- CredProtectW() into a buffer: the encrypted string, or the error.
pub data Encryption : Type 0 where
  encrypted : Wide → Encryption
  refused : ℕ → Encryption

-- CredProtectW() without a buffer: whether it succeeds, the error, and the number of units it asks for.
pub record Needed : Type 0 where
  pub done : Bool
  pub error : ℕ
  pub count : ℕ

-- CredIsProtectedW() answers the kind of protection, or fails.
pub record Credman : Type 0 where
  pub cred_is_protected : Wide → Option ℕ
  pub cred_protect_size : Wide → Needed
  pub cred_protect : Wide → ℕ → Encryption

-- CredUnprotected
abbrev cred_unprotected : ℕ
cred_unprotected = 0

-- A copy is made, worked on, and given back.
release : ℕ → Done Text → Done Text
release b d = record d { heap = free d.heap b }

pub with_copy : Api → Heap → Wide → (Heap → Wide → Done Text) → Done Text
with_copy api h s work =
    let copy = sh_str_dup api h s in
    elim copy.out [ none ↦ copy | some c ↦ release c.block (work copy.heap c.text) ]

-- The second call to CredProtectW(), into a block of `count` units.
encrypt : Api → Credman → ℕ → Heap → Wide → Done Text
encrypt api cred count h s =
    if api.allocates h.next (count * 2)
    then elim (cred.cred_protect s count) [
      | encrypted t ↦ record {
        hr = s_ok;
        out = some (record { block = h.next; text = t });
        heap = taken h;
      }
      | refused e ↦ record {
        hr = api.hresult_from_win32 e;
        out = none;
        heap = free (taken h) h.next;
      }
    ]
    else record { hr = e_outofmemory; out = none; heap = h }

protect_copy : Api → Credman → Heap → Wide → Done Text
protect_copy api cred h s =
    let needed = cred.cred_protect_size s in
    if not needed.done
    then (if needed.error == error_insufficient_buffer && ltb 0 needed.count
        then encrypt api cred needed.count h s
        else record { hr = api.hresult_from_win32 needed.error; out = none; heap = h })
    else record { hr = e_unexpected; out = none; heap = h }

pub protect_and_copy_string : Api → Credman → Heap → Wide → Done Text
protect_and_copy_string api cred h s = with_copy api h s (protect_copy api cred)

pub already_encrypted : Credman → Wide → Bool
already_encrypted cred s = elim (cred.cred_is_protected s) [
  | none ↦ false
  | some type ↦ not (type == cred_unprotected)
]

abbrev is_credui : Scenario → Bool
is_credui credui = true
is_credui _ = false

copy_or_protect : Api → Credman → Scenario → Heap → Wide → Done Text
copy_or_protect api cred cpus h s =
    if is_credui cpus || already_encrypted cred s
    then sh_str_dup api h s
    else protect_and_copy_string api cred h s

pub protect_if_necessary_and_copy_password :
    Api → Credman → Heap → Option Wide → Scenario → Done Text
protect_if_necessary_and_copy_password api cred h none cpus = sh_str_dup api h []
protect_if_necessary_and_copy_password api cred h (some []) cpus = sh_str_dup api h []
protect_if_necessary_and_copy_password api cred h (some (u ∷ s)) cpus =
    with_copy api h (u ∷ s) (copy_or_protect api cred cpus)
