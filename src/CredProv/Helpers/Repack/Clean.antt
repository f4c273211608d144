-- ===== src/CredProv/Helpers/Repack/Clean.antt =====
-- What the function leaves on the heap, and what it packs.
use ovirt_guest_agent.Prelude.{
  ℕ, suc, ◌*◌, ◌==◌, Option, none, some, Bytes, if◌then◌else◌, ◌≤◌, ◌≡◌, refl, Bool-cases, arith,
  true, false, List, [], ◌∷◌, inl, inr, if_both,
}
use ovirt_guest_agent.CredProv.Channel.{Wide}
use ovirt_guest_agent.CredProv.Helpers.{
  e_outofmemory, error_insufficient_buffer, succeeded, Heap, taken, free, Done, Api,
}
use ovirt_guest_agent.CredProv.Helpers.Blocks.{
  Settles, Given, s_ok-succeeded, fails, free-taken, free_first, free_second, free_third,
}
use ovirt_guest_agent.CredProv.Helpers.Repack.{
  Unpack, unpacked, refused, UnpackSize, PackSize, Wow, Strings, unpack_into, without_strings,
  unpack_wow, Native, Repacked, pack_into, unpackable, repack, local_free, clean_up,
  kerb_interactive_unlock_logon_repack_native,
}

abbrev pub block_of_native : Native → List ℕ
block_of_native n = n.block ∷ []

-- A block that was taken since and holds what is said of it, or nothing.
abbrev Packs : (Bytes → Type 0) → Heap → Done Native → Type 0
Packs P h d = Settles block_of_native h d × Given (λ n. (h.next ≤ n.block) × P n.bytes) d.out

-- The same, where it does not matter when the block was taken.
abbrev pub Hands : (Bytes → Type 0) → Heap → Done Native → Type 0
Hands P h d = Settles block_of_native h d × Given (λ n. P n.bytes) d.out

-- Both buffers are given back, whether the native block stands above them or not.
clean_up_both :
    (P : Bytes → Type 0) (h : Heap) (s : Strings) (r : Repacked)
    → s.username ≡ some h.next
    → s.password ≡ some (suc h.next)
    → Packs P (taken (taken h)) r.done
    → Hands P h (clean_up s r).done
unfolding taken clean_up local_free
clean_up_both P h s r u p packs = rw (u, p) (go r.done.hr r.done.out r.done.heap packs)
  where
    go :
        (hr : ℕ) (o : Option Native) (left : Heap)
        → Packs P (taken (taken h)) (record { hr = hr; out = o; heap = left })
        → Hands P h (record { hr = hr; out = o; heap = free (free left h.next) (suc h.next) })
    go hr none left ((y, live, c), g) =
        rw
          (
            free_second left (suc h.next) h.next h.live live (λ e. omega (arith, e)),
            free_first (record left { live = suc h.next ∷ h.live }) (suc h.next) h.live refl,
          )
          ((y, refl, c), tt)
    go hr (some n) left ((y, live, c), (above, q)) =
        rw
          (
            free_third left n.block (suc h.next) h.next h.live live (λ e. omega (arith, e, above))
                (λ e. omega (arith, e)),
            free_second (record left { live = n.block ∷ suc h.next ∷ h.live }) n.block (suc h.next)
                h.live refl (λ e. omega (arith, e, above)),
          )
          ((y, refl, c), q)

-- What is packed.
abbrev PackedFrom : Wow → Option (Wide × Wide) → Bytes → Type 0
PackedFrom wow contents bytes = wow.pack contents ≡ some bytes

pack_into-Packs :
    (P : Bytes → Type 0) (h : Heap) (size : ℕ) (b : Option Bytes)
    → Given P b
    → Packs P h (pack_into h size b).done
unfolding pack_into taken
pack_into-Packs P h size (some b) p = ((s_ok-succeeded, refl, refl), (omega arith, p))
pack_into-Packs P h size none p = rw (free-taken h) ((fails, refl, refl), tt)

unpackable-Packs :
    (P : Bytes → Type 0) (hr size : ℕ) (h : Heap)
    → succeeded hr ≡ false
    → Packs P h (unpackable hr size h).done
unfolding unpackable
unpackable-Packs P hr size h e = ((e, refl, refl), tt)

repack-Packs :
    (P : Bytes → Type 0) (api : Api) (wow : Wow) (s : Strings)
    → ((b : Bytes) → succeeded s.hr ≡ true → PackedFrom wow s.contents b → P b)
    → Packs P s.heap (repack api wow s).done
unfolding repack
repack-Packs P api wow s from = elim (Bool-cases (succeeded s.hr)) [
  | inl y ↦ rw y (
      if_both (λ r. Packs P s.heap r.done) (needed.error == error_insufficient_buffer)
        (if api.allocates s.heap.next needed.size
          then pack_into s.heap needed.size (wow.pack s.contents)
          else no_memory)
        no_memory
        (if_both (λ r. Packs P s.heap r.done) (api.allocates s.heap.next needed.size)
          (pack_into s.heap needed.size (wow.pack s.contents)) no_memory
          (pack_into-Packs P s.heap needed.size (wow.pack s.contents)
            (go (wow.pack s.contents) refl y))
          (unpackable-Packs P e_outofmemory needed.size s.heap fails))
        (unpackable-Packs P e_outofmemory needed.size s.heap fails))
  | inr n ↦ rw n (unpackable-Packs P s.hr 0 s.heap n)
]
  where
    needed : PackSize
    needed = wow.pack_size s.contents

    no_memory : Repacked
    no_memory = unpackable e_outofmemory needed.size s.heap

    go : (b : Option Bytes) → wow.pack s.contents ≡ b → succeeded s.hr ≡ true → Given P b
    go none e y = tt
    go (some b) e y = from b y e

-- Where the bytes of the native block come from: the strings unpacked, or buffers that nothing was written
-- to, after an error whose code is no negative HRESULT.
pub data Origin (wow : Wow) (rgb_wow : Bytes) : Bytes → Type 0 where
  converted :
      {u p : Wide} {n : ℕ} {b : Bytes}
      → wow.unpack rgb_wow ≡ unpacked u p n
      → wow.pack (some (u, p)) ≡ some b
      → Origin wow rgb_wow b
  unwritten :
      {e n : ℕ} {b : Bytes}
      → wow.unpack rgb_wow ≡ refused e n
      → succeeded e ≡ true
      → wow.pack none ≡ some b
      → Origin wow rgb_wow b

-- All after the unpacking.
abbrev rest : Api → Wow → Strings → Done Native
rest api wow s = (clean_up s (repack api wow s)).done

unpack_into-Hands :
    (api : Api) (wow : Wow) (h : Heap) (blob : Bytes) (u : Unpack)
    → wow.unpack blob ≡ u
    → Hands (Origin wow blob) h (rest api wow (unpack_into h u))
unfolding unpack_into
unpack_into-Hands api wow h blob (unpacked u p n) e =
    let s = unpack_into h (unpacked u p n) in
    clean_up_both (Origin wow blob) h s (repack api wow s) refl refl
      (repack-Packs (Origin wow blob) api wow s (λ b y f. converted e f))
unpack_into-Hands api wow h blob (refused err n) e =
    let s = unpack_into h (refused err n) in
    clean_up_both (Origin wow blob) h s (repack api wow s) refl refl
      (repack-Packs (Origin wow blob) api wow s (λ b y f. unwritten e y f))

without_strings-Hands :
    (P : Bytes → Type 0) (api : Api) (wow : Wow) (h : Heap) (needed : UnpackSize)
    → Hands P h (rest api wow (without_strings h none needed))
      × Hands P h (rest api wow (without_strings (taken h) (some h.next) needed))
unfolding without_strings repack clean_up local_free unpackable succeeded
without_strings-Hands P api wow h needed =
    rw (free-taken h) (((fails, refl, refl), tt), ((fails, refl, refl), tt))

-- Whatever the calls answer: the function succeeds if and only if it hands out a native block; that block
-- is all that stays on the heap, both buffers are given back, each once; and its bytes were packed from the
-- strings unpacked, or, where the second unpacking fails with a code below 2 ^ 31, from buffers that
-- nothing was written to.
pub repack_native_clean :
    (api : Api) (wow : Wow) (h : Heap) (rgb_wow : Bytes)
    → Hands
        (Origin wow rgb_wow)
        h
        (kerb_interactive_unlock_logon_repack_native api wow h rgb_wow).done
unfolding kerb_interactive_unlock_logon_repack_native unpack_wow
repack_native_clean api wow h rgb_wow =
    let needed = wow.unpack_size rgb_wow in
    let P : Strings → Type 0 = λ s. Hands (Origin wow rgb_wow) h (rest api wow s) in
    let (no_buffer, no_second) = without_strings-Hands (Origin wow rgb_wow) api wow h needed in
    let both = unpack_into h (wow.unpack rgb_wow) in
    let none_got = without_strings h none needed in
    let one_got = without_strings (taken h) (some h.next) needed in
    let inner = if api.allocates (suc h.next) (needed.password_count * 2) then both else one_got in
    let outer = if api.allocates h.next (needed.username_count * 2) then inner else none_got in
    if_both P (needed.error == error_insufficient_buffer) outer none_got
      (if_both P (api.allocates h.next (needed.username_count * 2)) inner none_got
        (if_both P (api.allocates (suc h.next) (needed.password_count * 2)) both one_got
          (unpack_into-Hands api wow h rgb_wow (wow.unpack rgb_wow) refl) no_second)
        no_buffer)
      no_buffer
