-- ===== src/GuestAgent/VirtIoChannel/Keys.antt =====
-- The keys of a dict.
use ovirt_guest_agent.Prelude.{
  ℕ, ◌≡◌, refl, ap, ◌∙◌, inl, inr, false, some, List, arith, str_eq, str_eq→eq, str_eq_refl,
  if_both, Bool-cases,
}
use ovirt_guest_agent.GuestAgent.VirtIoChannel.{
  Value, Entries, no_entries, entry, has_key, store, pop,
}

pub str_eq_sym : (a b : List ℕ) → str_eq a b ≡ false → str_eq b a ≡ false
str_eq_sym a b h = elim (Bool-cases (str_eq b a)) [
  | inl e ↦ absurd (ground (arith, h, ap (str_eq a) (str_eq→eq b a e) ∙ str_eq_refl a))
  | inr e ↦ e
]

-- A key that a dict has not is stored behind the others.
pub fresh_key :
    (key k : List ℕ) (w : Value) (es : Entries)
    → has_key key (entry k w es) ≡ false
    → (str_eq k key ≡ false) × (has_key key es ≡ false)
unfolding has_key
fresh_key key k w es n = elim (Bool-cases (str_eq k key)) [
  | inl e ↦ absurd (ground (arith, n, e))
  | inr e ↦ (e, ground (arith, n, e))
]

store_behind :
    (key k : List ℕ) (v w : Value) (es : Entries)
    → str_eq k key ≡ false
    → store key v (entry k w es) ≡ entry k w (store key v es)
unfolding store
store_behind key k v w es e = rw (store, e) refl

pop_behind :
    (key k : List ℕ) (v w : Value) (es others : Entries)
    → str_eq k key ≡ false
    → pop key es ≡ some (v, others)
    → pop key (entry k w es) ≡ some (v, entry k w others)
unfolding pop
pop_behind key k v w es others e p = rw (pop, e, p) refl

pub pop-store :
    (key : List ℕ) (v : Value) (es : Entries)
    → has_key key es ≡ false
    → pop key (store key v es) ≡ some (v, es)
unfolding pop store
pop-store key v no_entries n = rw (str_eq_refl key) refl
pop-store key v (entry k w es) n =
    let (e, fresh) = fresh_key key k w es n in
    ap (pop key) (store_behind key k v w es e)
    ∙ pop_behind key k v w (store key v es) es e (pop-store key v es fresh)

pub has_key-store :
    (key k : List ℕ) (v : Value) (es : Entries)
    → str_eq key k ≡ false
    → has_key k es ≡ false
    → has_key k (store key v es) ≡ false
unfolding has_key store
has_key-store key k v no_entries d n = rw d refl
has_key-store key k v (entry l w es) d n =
    let (e, fresh) = fresh_key k l w es n in
    if_both (λ x. has_key k x ≡ false) (str_eq l key) (entry l v es) (entry l w (store key v es))
      (rw (has_key, e) fresh) (rw (has_key, e) (has_key-store key k v es d fresh))
