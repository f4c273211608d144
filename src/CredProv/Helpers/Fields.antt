-- ===== src/CredProv/Helpers/Fields.antt =====
-- FieldDescriptorCoAllocCopy() and FieldDescriptorCopy() of windows-credprov/Helpers.cpp: the copies of a
-- tile's field that LogonUI is given.
use ovirt_guest_agent.Prelude.{
  ℕ, ◌≡◌, refl, inl, inr, Option, none, some, List, [], ◌∷◌, ◌++◌, if◌then◌else◌, Bool-cases,
}
use ovirt_guest_agent.CredProv.Channel.{Wide}
use ovirt_guest_agent.CredProv.Helpers.{
  s_ok, e_outofmemory, succeeded, Heap, taken, free, Text, Done, Api, sh_str_dup,
}
use ovirt_guest_agent.CredProv.Helpers.Blocks.{
  Settles, Given, block_of_text, owned, s_ok-succeeded, sh_str_dup-cases, fails, free-taken,
}

-- CREDENTIAL_PROVIDER_FIELD_DESCRIPTOR with its label: a string of the caller, or a copy.
pub record FieldDescriptor {ℓ} (Label : Type ℓ) : Type ℓ where
  pub field_id : ℕ
  pub cpft : ℕ
  pub field_type : ℕ
  pub label : Option Label

-- sizeof(**ppcpfd)
abbrev descriptor_size : ℕ
descriptor_size = 32

copy_label : Api → Heap → Option Wide → Done Text
copy_label api h none = record { hr = s_ok; out = none; heap = h }
copy_label api h (some label) = sh_str_dup api h label

with_label : FieldDescriptor Wide → Option Text → FieldDescriptor Text
with_label d label = record {
  field_id = d.field_id;
  cpft = d.cpft;
  field_type = d.field_type;
  label = label;
}

pub field_descriptor_copy : Api → Heap → FieldDescriptor Wide → Done (FieldDescriptor Text)
field_descriptor_copy api h d =
    let copy = copy_label api h d.label in
    if succeeded copy.hr
    then record { hr = copy.hr; out = some (with_label d copy.out); heap = copy.heap }
    else record { hr = copy.hr; out = none; heap = copy.heap }

-- The copy in a block of its own.
pub record CoAllocated : Type 0 where
  pub block : ℕ
  pub descriptor : FieldDescriptor Text

fill_block : ℕ → FieldDescriptor Wide → Done Text → Done CoAllocated
fill_block b d copy =
    if succeeded copy.hr
    then record {
      hr = copy.hr;
      out = some (record { block = b; descriptor = with_label d copy.out });
      heap = copy.heap;
    }
    else record { hr = copy.hr; out = none; heap = free copy.heap b }

pub field_descriptor_co_alloc_copy : Api → Heap → FieldDescriptor Wide → Done CoAllocated
field_descriptor_co_alloc_copy api h d =
    if api.allocates h.next descriptor_size
    then fill_block h.next d (copy_label api (taken h) d.label)
    else record { hr = e_outofmemory; out = none; heap = h }

abbrev pub text_of : Option Text → Option Wide
text_of none = none
text_of (some t) = some t.text

-- The same fields, and a copy of the label where there is one.
abbrev pub SameFields : FieldDescriptor Wide → FieldDescriptor Text → Type 0
SameFields d c =
    (c.field_id ≡ d.field_id)
    × (c.cpft ≡ d.cpft)
    × (c.field_type ≡ d.field_type)
    × (text_of c.label ≡ d.label)

abbrev pub block_of_label : FieldDescriptor Text → List ℕ
block_of_label c = owned block_of_text c.label

abbrev pub blocks_of_copy : CoAllocated → List ℕ
blocks_of_copy c = block_of_label c.descriptor ++ c.block ∷ []

-- A copy of the fields: the blocks that it holds, and what it says.
abbrev pub Copies {ℓ} :
    {A : Type ℓ}
    → (A → List ℕ)
    → (A → FieldDescriptor Text)
    → FieldDescriptor Wide
    → Heap
    → Done A
    → Type 0
Copies blocks fields d h done =
    Settles blocks h done × Given (λ a. SameFields d (fields a)) done.out

copy-Copies :
    (api : Api) (h : Heap) (d : FieldDescriptor Wide)
    → Copies block_of_label (λ c. c) d h (field_descriptor_copy api h d)
unfolding field_descriptor_copy copy_label taken with_label
copy-Copies api h d = go d.label refl
  where
    go :
        (l : Option Wide)
        → d.label ≡ l
        → Copies block_of_label (λ c. c) d h (field_descriptor_copy api h d)
    go none e = rw (e, s_ok-succeeded) ((s_ok-succeeded, refl, refl), (refl, refl, refl, refl))
    go (some l) e = elim (sh_str_dup-cases api h l) [
      | inl (s, c) ↦ rw (e, c, s) ((s, refl, refl), (refl, refl, refl, refl))
      | inr (s, c) ↦ rw (e, c, s) ((s, refl, refl), tt)
    ]

fill_block-Copies :
    (api : Api) (h : Heap) (d : FieldDescriptor Wide)
    → Copies blocks_of_copy
        (λ c. c.descriptor)
        d
        h
        (fill_block h.next d (copy_label api (taken h) d.label))
unfolding fill_block copy_label taken with_label
fill_block-Copies api h d = go d.label refl
  where
    go :
        (l : Option Wide)
        → d.label ≡ l
        → Copies blocks_of_copy
            (λ c. c.descriptor)
            d
            h
            (fill_block h.next d (copy_label api (taken h) d.label))
    go none e = rw (e, s_ok-succeeded) ((s_ok-succeeded, refl, refl), (refl, refl, refl, refl))
    go (some l) e = elim (sh_str_dup-cases api (taken h) l) [
      | inl (s, c) ↦ rw (e, c, s) ((s, refl, refl), (refl, refl, refl, refl))
      | inr (s, c) ↦ rw (e, c, s, free-taken h) ((s, refl, refl), tt)
    ]

-- Whatever the allocator and SHStrDupW() answer, both functions hand out a copy of all fields with a copy
-- of the label where there is one, and keep just its blocks, or fail, hand out nothing and keep nothing;
-- no block is given back that is not there.
pub descriptor_copies :
    (api : Api) (h : Heap) (d : FieldDescriptor Wide)
    → Copies block_of_label (λ c. c) d h (field_descriptor_copy api h d)
      × Copies blocks_of_copy (λ c. c.descriptor) d h (field_descriptor_co_alloc_copy api h d)
unfolding field_descriptor_co_alloc_copy
descriptor_copies api h d = (
  copy-Copies api h d,
  elim (Bool-cases (api.allocates h.next descriptor_size)) [
    | inl e ↦ rw e (fill_block-Copies api h d)
    | inr e ↦ rw e ((fails, refl, refl), tt)
  ],
)
