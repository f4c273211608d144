-- ===== src/CredProv/Helpers/Blocks.antt =====
-- The blocks that a function takes, gives back and hands out.
use ovirt_guest_agent.Prelude.{
  ℕ, suc, ◌≡◌, refl, ◌⊎◌, inl, inr, Bool, true, false, Option, none, some, List, [], ◌∷◌, ◌++◌,
  arith, Bool-cases, ==_refl, ne→==, ◌≢◌,
}
use ovirt_guest_agent.CredProv.Channel.{Wide}
use ovirt_guest_agent.CredProv.Helpers.{
  s_ok, e_outofmemory, e_unexpected, succeeded, Heap, taken, without, free, Text, Done, Api,
  sh_str_dup,
}

-- A block given back right after it was taken.
pub free-taken : (h : Heap) → free (taken h) h.next ≡ record h { next = suc h.next }
unfolding free taken without
free-taken h = ground arith

-- A block given back from the top of those that are there, and from below one or two others.
pub free_first :
    (h : Heap) (b : ℕ) (rest : List ℕ) → h.live ≡ b ∷ rest → free h b ≡ record h { live = rest }
unfolding free without
free_first h b rest e = rw (free, e, without, ==_refl b) refl

pub free_second :
    (h : Heap) (c b : ℕ) (rest : List ℕ)
    → h.live ≡ c ∷ b ∷ rest
    → c ≢ b
    → free h b ≡ record h { live = c ∷ rest }
unfolding free without
free_second h c b rest e n = rw (free, e, without, ne→== c b n, without, ==_refl b) refl

pub free_third :
    (h : Heap) (d c b : ℕ) (rest : List ℕ)
    → h.live ≡ d ∷ c ∷ b ∷ rest
    → d ≢ b
    → c ≢ b
    → free h b ≡ record h { live = d ∷ c ∷ rest }
unfolding free without
free_third h d c b rest e m n =
    rw (free, e, without, ne→== d b m, without, ne→== c b n, without, ==_refl b) refl

pub s_ok-succeeded : succeeded s_ok ≡ true
unfolding succeeded
s_ok-succeeded = refl

pub fails : succeeded e_outofmemory ≡ false
unfolding succeeded
fails = refl

pub unexpected_fails : succeeded e_unexpected ≡ false
unfolding succeeded
unexpected_fails = refl

pub taken_live : (h : Heap) → (taken h).live ≡ h.next ∷ h.live
unfolding taken
taken_live h = refl

pub taken_corrupt : (h : Heap) → (taken h).corrupt ≡ h.corrupt
unfolding taken
taken_corrupt h = refl

-- What stays on the heap for the caller.
abbrev pub owned {ℓ} : {A : Type ℓ} → (A → List ℕ) → Option A → List ℕ
owned blocks none = []
owned blocks (some a) = blocks a

abbrev pub is_some {ℓ} : {A : Type ℓ} → Option A → Bool
is_some none = false
is_some (some _) = true

-- A function that succeeds hands its result out, and leaves its blocks and no others; one that fails
-- hands out nothing and leaves nothing; and no block is given back that is not there.
abbrev pub Settles {ℓ} : {A : Type ℓ} → (A → List ℕ) → Heap → Done A → Type 0
Settles blocks h d =
    (succeeded d.hr ≡ is_some d.out)
    × (d.heap.live ≡ owned blocks d.out ++ h.live)
    × (d.heap.corrupt ≡ h.corrupt)

abbrev pub block_of_text : Text → List ℕ
block_of_text t = t.block ∷ []

-- A copy is made in the next block, or none is.
pub sh_str_dup-cases :
    (api : Api) (h : Heap) (s : Wide)
    → ((succeeded (api.str_dup h.next s) ≡ true)
        × (sh_str_dup api h s ≡ record {
          hr = api.str_dup h.next s;
          out = some (record { block = h.next; text = s });
          heap = taken h;
        }))
      ⊎ ((succeeded (api.str_dup h.next s) ≡ false)
          × (sh_str_dup api h s ≡ record { hr = api.str_dup h.next s; out = none; heap = h }))
unfolding sh_str_dup
sh_str_dup-cases api h s = elim (Bool-cases (succeeded (api.str_dup h.next s))) [
  | inl e ↦ inl (rw e (refl, refl))
  | inr e ↦ inr (rw e (refl, refl))
]

-- What holds of the result, where there is one.
abbrev pub Given {ℓ} : {A : Type ℓ} → (A → Type 0) → Option A → Type 0
Given P none = Unit
Given P (some a) = P a
