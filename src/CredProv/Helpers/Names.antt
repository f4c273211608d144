-- ===== src/CredProv/Helpers/Names.antt =====
-- DomainUsernameStringAlloc() of windows-credprov/Helpers.cpp: `domain\username` in a block of its own.
use ovirt_guest_agent.Prelude.{
  ℕ, ◌+◌, ◌*◌, ◌%◌, ◌^◌, ◌≤◌, ◌<◌, ◌≡◌, refl, none, some, ◌∷◌, ◌++◌, length, length-append,
  if◌then◌else◌, arith,
}
use ovirt_guest_agent.CredProv.Channel.{Wide}
use ovirt_guest_agent.CredProv.Helpers.{
  s_ok, e_outofmemory, succeeded, Heap, taken, free, Text, Done, Api,
}

-- StringCbPrintfW(): what it returns for a text and a number of bytes to write to.
pub record Printing : Type 0 where
  pub string_cb_printf : ℕ → Wide → ℕ

-- sizeof(wchar_t) * (cchDomain + 1 + cchUsername + 1)
pub cb_len : Wide → Wide → ℕ
cb_len domain username = 2 * (length domain + 1 + length username + 1) % 2 ^ 64

abbrev pub qualified : Wide → Wide → Wide
qualified domain username = domain ++ b'\\' ∷ username

print_into : Heap → ℕ → Wide → Done Text
print_into h hr text =
    if succeeded hr
    then record { hr = hr; out = some (record { block = h.next; text = text }); heap = taken h }
    else record { hr = hr; out = none; heap = free (taken h) h.next }

pub domain_username_string_alloc : Api → Printing → Heap → Wide → Wide → Done Text
domain_username_string_alloc api p h domain username =
    let size = cb_len domain username in
    if api.allocates h.next size
    then print_into h (p.string_cb_printf size (qualified domain username))
        (qualified domain username)
    else record { hr = e_outofmemory; out = none; heap = h }

-- StringCbPrintfW() returns S_OK where the text and its NUL fit, and has room for less than 2 ^ 31 units.
abbrev pub Prints : Printing → Type 0
Prints p =
    (size : ℕ) (text : Wide)
    → 2 * (length text + 1) ≤ size
    → size < 2 ^ 32
    → p.string_cb_printf size text ≡ s_ok

-- As much as is needed is allocated.
cb_len_exact :
    (domain username : Wide)
    → 2 * (length domain + 1 + length username + 1) < 2 ^ 64
    → cb_len domain username ≡ 2 * (length (qualified domain username) + 1)
unfolding cb_len
cb_len_exact domain username small = omega (arith, length-append domain (b'\\' ∷ username))

-- Where the names are short enough for StringCbPrintfW() and the block is there: the block has just the size of the
-- text with its NUL, the function succeeds, hands out `domain\username`, whole, and keeps no other block;
-- without the block it fails and keeps nothing.
pub domain_username_whole :
    (api : Api) (p : Printing) (h : Heap) (domain username : Wide)
    → Prints p
    → 2 * (length domain + 1 + length username + 1) < 2 ^ 32
    → (cb_len domain username ≡ 2 * (length (qualified domain username) + 1))
      × (domain_username_string_alloc api p h domain username ≡ (
          if api.allocates h.next (cb_len domain username)
          then record {
            hr = s_ok;
            out = some (record { block = h.next; text = qualified domain username });
            heap = taken h;
          }
          else record { hr = e_outofmemory; out = none; heap = h }))
unfolding domain_username_string_alloc print_into succeeded
domain_username_whole api p h domain username prints small =
    let exact = cb_len_exact domain username (omega (arith, small)) in
    (
      exact,
      rw
          (prints (cb_len domain username) (qualified domain username) (omega (arith, exact))
            (omega (arith, exact, length-append domain (b'\\' ∷ username), small)))
          refl,
    )
