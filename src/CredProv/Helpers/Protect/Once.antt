-- ===== src/CredProv/Helpers/Protect/Once.antt =====
-- The password that is handed out, and the copies made on the way.
use mathlib.Core.Path.{subst}
use ovirt_guest_agent.Prelude.{
  ℕ, ◌*◌, ◌≤◌, ◌≢◌, ◌≡◌, refl, ◌⊎◌, inl, inr, true, false, ◌&&◌, ◌||◌, Option, none, some, [], ◌∷◌,
  arith, Bool-cases, if_both, ltb, ◌==◌,
}
use ovirt_guest_agent.CredProv.Channel.{Wide}
use ovirt_guest_agent.CredProv.Credentials.{Scenario}
use ovirt_guest_agent.CredProv.Helpers.{
  error_insufficient_buffer, succeeded, Heap, taken, Text, Done, Api, sh_str_dup,
}
use ovirt_guest_agent.CredProv.Helpers.Blocks.{
  Settles, Given, block_of_text, s_ok-succeeded, sh_str_dup-cases, fails, free-taken, taken_live,
  free_first, free_second, taken_corrupt, unexpected_fails,
}
use ovirt_guest_agent.CredProv.Helpers.Protect.{
  Encryption, encrypted, refused, Credman, release, with_copy, encrypt, protect_copy,
  protect_and_copy_string, already_encrypted, is_credui, copy_or_protect,
  protect_if_necessary_and_copy_password,
}

-- A string in a block that was taken since, or nothing at all.
abbrev pub Sound : (Wide → Type 0) → Heap → Done Text → Type 0
Sound P h d = Settles block_of_text h d × Given (λ t. (h.next ≤ t.block) × P t.text) d.out

sh_str_dup-Sound :
    (P : Wide → Type 0) (api : Api) (h : Heap) (s : Wide) → P s → Sound P h (sh_str_dup api h s)
unfolding taken
sh_str_dup-Sound P api h s p = elim (sh_str_dup-cases api h s) [
  | inl (y, c) ↦ rw c ((y, refl, refl), (omega arith, p))
  | inr (y, c) ↦ rw c ((y, refl, refl), tt)
]

release-Sound :
    (P : Wide → Type 0) (h : Heap) (d : Done Text)
    → Sound P (taken h) d
    → Sound P h (release h.next d)
unfolding taken release
release-Sound P h d s = go d.hr d.out d.heap s
  where
    go :
        (hr : ℕ) (o : Option Text) (left : Heap)
        → Sound P (taken h) (record { hr = hr; out = o; heap = left })
        → Sound P h (release h.next (record { hr = hr; out = o; heap = left }))
    go hr none left ((y, live, corrupt), g) =
        rw (free_first left h.next h.live live) ((y, refl, corrupt), tt)
    go hr (some t) left ((y, live, corrupt), (above, p)) =
        rw (free_second left t.block h.next h.live live (λ e. omega (arith, e, above)))
          ((y, refl, corrupt), (omega (arith, above), p))

with_copy-Sound :
    (P : Wide → Type 0) (api : Api) (h : Heap) (s : Wide) (work : Heap → Wide → Done Text)
    → Sound P (taken h) (work (taken h) s)
    → Sound P h (with_copy api h s work)
unfolding with_copy
with_copy-Sound P api h s work w = elim (sh_str_dup-cases api h s) [
  | inl (y, c) ↦ rw (with_copy, c, c) (release-Sound P h (work (taken h) s) w)
  | inr (y, c) ↦ rw (with_copy, c, c) ((y, refl, refl), tt)
]

-- HRESULT_FROM_WIN32() of an error is a failure, and a call that fails reports an error.
pub record Reports (api : Api) (cred : Credman) : Type 0 where
  pub converts : (e : ℕ) → e ≢ 0 → succeeded (api.hresult_from_win32 e) ≡ false
  pub size_reports : (s : Wide) → (cred.cred_protect_size s).error ≢ 0
  pub protect_reports : (s : Wide) (n e : ℕ) → cred.cred_protect s n ≡ refused e → e ≢ 0

Encryption-cases : (e : Encryption) → ((t : Wide) × (e ≡ encrypted t)) ⊎ ((n : ℕ) × (e ≡ refused n))
Encryption-cases (encrypted t) = inl (t, refl)
Encryption-cases (refused n) = inr (n, refl)

-- An encryption of the string.
abbrev pub Encrypts : Credman → Wide → Wide → Type 0
Encrypts cred s t = (n : ℕ) × (cred.cred_protect s n ≡ encrypted t)

module _ (api : Api) (cred : Credman) (reports : Reports api cred) where
  encrypt-Sound : (n : ℕ) (h : Heap) (s : Wide) → Sound (Encrypts cred s) h (encrypt api cred n h s)
  unfolding encrypt
  encrypt-Sound n h s = elim (Bool-cases (api.allocates h.next (n * 2))) [
    | inl a ↦ elim (Encryption-cases (cred.cred_protect s n)) [
      | inl (t, e) ↦
          rw (a, e) ((s_ok-succeeded, taken_live h, taken_corrupt h), (omega arith, (n, e)))
      | inr (err, e) ↦
          rw (a, e, free-taken h)
            ((reports.converts err (reports.protect_reports s n err e), refl, refl), tt)
    ]
    | inr a ↦ rw a ((fails, refl, refl), tt)
  ]

  protect_copy-Sound : (h : Heap) (s : Wide) → Sound (Encrypts cred s) h (protect_copy api cred h s)
  unfolding protect_copy
  protect_copy-Sound h s =
      let needed = cred.cred_protect_size s in
      elim (Bool-cases needed.done) [
        | inl d ↦ rw d ((unexpected_fails, refl, refl), tt)
        | inr d ↦ rw d (
            if_both (Sound (Encrypts cred s) h)
              (needed.error == error_insufficient_buffer && ltb 0 needed.count)
              (encrypt api cred needed.count h s)
              (record { hr = api.hresult_from_win32 needed.error; out = none; heap = h })
              (encrypt-Sound needed.count h s)
              ((reports.converts needed.error (reports.size_reports s), refl, refl), tt))
      ]

  protect_and_copy_string-Sound :
      (h : Heap) (s : Wide) → Sound (Encrypts cred s) h (protect_and_copy_string api cred h s)
  unfolding protect_and_copy_string
  protect_and_copy_string-Sound h s =
      with_copy-Sound (Encrypts cred s) api h s (protect_copy api cred)
        (protect_copy-Sound (taken h) s)

-- What the password becomes: the empty string for no password or an empty one, itself where the caller
-- is CredUI or it is encrypted already, else an encryption of it.
pub data Protects (cred : Credman) (cpus : Scenario) : Option Wide → Wide → Type 0 where
  no_password : Protects cred cpus none []
  empty : Protects cred cpus (some []) []
  kept :
      {u : ℕ} {s : Wide}
      → (is_credui cpus || already_encrypted cred (u ∷ s)) ≡ true
      → Protects cred cpus (some (u ∷ s)) (u ∷ s)
  protected :
      {u : ℕ} {s t : Wide}
      → (is_credui cpus || already_encrypted cred (u ∷ s)) ≡ false
      → Encrypts cred (u ∷ s) t
      → Protects cred cpus (some (u ∷ s)) t

-- A weaker property of the same result.
Sound-weaken :
    (P Q : Wide → Type 0) (h : Heap) (d : Done Text)
    → ((s : Wide) → P s → Q s)
    → Sound P h d
    → Sound Q h d
Sound-weaken P Q h d f (s, g) = (s, go d.out g)
  where
    go :
        (o : Option Text)
        → Given (λ t. (h.next ≤ t.block) × P t.text) o
        → Given (λ t. (h.next ≤ t.block) × Q t.text) o
    go none g = tt
    go (some t) (above, p) = (above, f t.text p)

module _ (api : Api) (cred : Credman) (reports : Reports api cred) (cpus : Scenario) where
  copy_or_protect-Sound :
      (h : Heap) (u : ℕ) (s : Wide)
      → Sound (Protects cred cpus (some (u ∷ s))) h (copy_or_protect api cred cpus h (u ∷ s))
  unfolding copy_or_protect
  copy_or_protect-Sound h u s =
      elim (Bool-cases (is_credui cpus || already_encrypted cred (u ∷ s))) [
        | inl k ↦ rw k (sh_str_dup-Sound (Protects cred cpus (some (u ∷ s))) api h (u ∷ s) (kept k))
        | inr k ↦ rw k (
            Sound-weaken (Encrypts cred (u ∷ s)) (Protects cred cpus (some (u ∷ s))) h
              (protect_and_copy_string api cred h (u ∷ s)) (λ t e. protected k e)
              (protect_and_copy_string-Sound api cred reports h (u ∷ s)))
      ]

  -- Where a failing call reports an error and HRESULT_FROM_WIN32() makes a failure of it: the function
  -- succeeds if and only if it hands out a password, which is then as `Protects` says; the block of that
  -- password is all that stays on the heap, all copies made on the way are given back, each once.
  pub protect-Sound :
      (h : Heap) (password : Option Wide)
      → Sound
          (Protects cred cpus password)
          h
          (protect_if_necessary_and_copy_password api cred h password cpus)
  unfolding protect_if_necessary_and_copy_password
  protect-Sound h none = sh_str_dup-Sound (Protects cred cpus none) api h [] no_password
  protect-Sound h (some []) = sh_str_dup-Sound (Protects cred cpus (some [])) api h [] empty
  protect-Sound h (some (u ∷ s)) =
      with_copy-Sound (Protects cred cpus (some (u ∷ s))) api h (u ∷ s)
        (copy_or_protect api cred cpus) (copy_or_protect-Sound (taken h) u s)

-- Of what CredProtectW() returns CredIsProtectedW() answers a kind of protection other than CredUnprotected (0).
abbrev pub Recognised : Credman → Type 0
Recognised cred =
    (s t : Wide)
    → Encrypts cred s t
    → (kind : ℕ) × (cred.cred_is_protected t ≡ some kind) × (kind ≢ 0)

Recognised-already_encrypted :
    (cred : Credman)
    → Recognised cred
    → (s t : Wide) → Encrypts cred s t
    → already_encrypted cred t ≡ true
unfolding already_encrypted
Recognised-already_encrypted cred known s t c =
    let (kind, answer, other) = known s t c in ground (arith, answer, other)

Protects_again :
    (cred : Credman)
    → Recognised cred
    → (cpus : Scenario) (password : Option Wide) (s t : Wide) → Protects cred cpus password s
    → Protects cred cpus (some s) t
    → t ≡ s
Protects_again cred known cpus none s t no_password empty = refl
Protects_again cred known cpus (some p) s t empty empty = refl
Protects_again cred known cpus (some p) s t (kept e) (kept e') = refl
Protects_again cred known cpus (some p) s t (kept e) (protected e' _) =
    absurd (ground (arith, e, e'))
Protects_again cred known cpus (some p) s t (protected e c) empty = refl
Protects_again cred known cpus (some p) s t (protected e c) (kept e') = refl
Protects_again cred known cpus (some p) s t (protected e c) (protected e' _) =
    absurd (ground (arith, Recognised-already_encrypted cred known _ _ c, e'))

-- A password is encrypted at most once: where it went through the function and comes in again in the same
-- scenario, both calls succeeding, it is handed out unchanged. A failing call reports an error,
-- HRESULT_FROM_WIN32() makes a failure of it, and CredIsProtectedW() answers another kind than
-- CredUnprotected for what CredProtectW() returned.
pub protect_once :
    (api : Api) (cred : Credman) (cpus : Scenario) (h h' : Heap) (password : Option Wide)
    (a b : Text)
    → Reports api cred
    → Recognised cred
    → (protect_if_necessary_and_copy_password api cred h password cpus).out ≡ some a
    → (protect_if_necessary_and_copy_password api cred h' (some a.text) cpus).out ≡ some b
    → b.text ≡ a.text
protect_once api cred cpus h h' password a b reports known first again =
    let was =
      subst (Given (λ t. (h.next ≤ t.block) × Protects cred cpus password t.text)) first
        (protect-Sound api cred reports cpus h password).1 in
    let is =
      subst (Given (λ t. (h'.next ≤ t.block) × Protects cred cpus (some a.text) t.text)) again
        (protect-Sound api cred reports cpus h' (some a.text)).1 in
    Protects_again cred known cpus password a.text b.text was.1 is.1
