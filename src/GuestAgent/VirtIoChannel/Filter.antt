-- ===== src/GuestAgent/VirtIoChannel/Filter.antt =====
-- What is left of the strings that are sent.
use ovirt_guest_agent.Prelude.{
  ℕ, ◌≡◌, refl, ap, inl, inr, Bool, true, false, ◌||◌, List, [], ◌∷◌, All, arith, ltb, ◌==◌,
  Bool-cases,
}
use ovirt_guest_agent.GuestAgent.VirtIoChannel.Keys.{str_eq_sym, fresh_key, has_key-store}
use ovirt_guest_agent.GuestAgent.VirtIoChannel.{
  store, restricted, filter_xml_char, filter_xml_chars, Value, text, other, sequence, dict, Values,
  no_values, value, Entries, no_entries, entry, has_key, add_before, filter_object, filter_values,
  filter_entries, within, replacement_char, surrogate,
}

-- The characters that http://www.w3.org/TR/xml11/#charsets allows, without those that it restricts.
abbrev pub xml : ℕ → Bool
xml c =
    c == 0x9
    || c == 0xA
    || c == 0xD
    || within 0x20 0x7E c
    || c == 0x85
    || within 0xA0 0xD7FF c
    || within 0xE000 0xFFFD c
    || within 0x10000 0x10FFFF c

abbrev pub Xml : ℕ → Type 0
Xml c = xml c ≡ true

kept :
    (c : ℕ)
    → ltb 0x10FFFF c ≡ false
    → surrogate c ≡ false
    → (c == 0xFFFE || c == 0xFFFF) ≡ false
    → restricted c ≡ false
    → Xml c
kept c small plain proper free = ground (arith, small, plain, proper, free)

replaced : Xml replacement_char
replaced = refl

filter_xml_char-Xml : (c : ℕ) → Xml (filter_xml_char c)
unfolding filter_xml_char
filter_xml_char-Xml c = elim (Bool-cases (ltb 0x10FFFF c)) [
  | inl e ↦ rw e replaced
  | inr small ↦ elim (Bool-cases (surrogate c)) [
    | inl e ↦ rw (small, e) replaced
    | inr plain ↦ elim (Bool-cases (c == 0xFFFE || c == 0xFFFF)) [
      | inl e ↦ rw (small, plain, e) replaced
      | inr proper ↦ elim (Bool-cases (restricted c)) [
        | inl e ↦ rw (small, plain, proper, e) replaced
        | inr free ↦ rw (small, plain, proper, free) (kept c small plain proper free)
      ]
    ]
  ]
]

filter_xml_char-same : (c : ℕ) → Xml c → filter_xml_char c ≡ c
unfolding filter_xml_char
filter_xml_char-same c x = ground (arith, x)

filter_xml_chars-Xml : (s : List ℕ) → All Xml (filter_xml_chars s)
unfolding filter_xml_chars
filter_xml_chars-Xml [] = tt
filter_xml_chars-Xml (c ∷ s) = (filter_xml_char-Xml c, filter_xml_chars-Xml s)

filter_xml_chars-same : (s : List ℕ) → All Xml s → filter_xml_chars s ≡ s
unfolding filter_xml_chars
filter_xml_chars-same [] x = refl
filter_xml_chars-same (c ∷ s) x = rw (filter_xml_char-same c x.0, filter_xml_chars-same s x.1) refl

-- All strings, those of keys as well, are of such characters, and no dict has a key twice.
unfoldable mutual
  pub Clean : Value → Type 0
  Clean (text s) = All Xml s
  Clean (other n) = Unit
  Clean (sequence vs) = CleanValues vs
  Clean (dict es) = CleanEntries es

  pub CleanValues : Values → Type 0
  CleanValues no_values = Unit
  CleanValues (value v vs) = Clean v × CleanValues vs

  pub CleanEntries : Entries → Type 0
  CleanEntries no_entries = Unit
  CleanEntries (entry k v es) = All Xml k × Clean v × (has_key k es ≡ false) × CleanEntries es

add_before-Clean :
    (k : List ℕ) (v : Value) (es : Entries)
    → All Xml k
    → Clean v
    → CleanEntries es
    → CleanEntries (add_before k v es)
unfolding add_before CleanEntries
add_before-Clean k v es x c cs = elim (Bool-cases (has_key k es)) [
  | inl e ↦ rw e cs
  | inr e ↦ rw e (x, c, e, cs)
]

mutual
  unfolding filter_object filter_values filter_entries Clean CleanValues CleanEntries

  pub filter_object-Clean : (v : Value) → Clean (filter_object v)
  filter_object-Clean (text s) = filter_xml_chars-Xml s
  filter_object-Clean (other n) = tt
  filter_object-Clean (sequence vs) = filter_values-Clean vs
  filter_object-Clean (dict es) = filter_entries-Clean es

  filter_values-Clean : (vs : Values) → CleanValues (filter_values vs)
  filter_values-Clean no_values = tt
  filter_values-Clean (value v vs) = (filter_object-Clean v, filter_values-Clean vs)

  filter_entries-Clean : (es : Entries) → CleanEntries (filter_entries es)
  filter_entries-Clean no_entries = tt
  filter_entries-Clean (entry k v es) =
      add_before-Clean (filter_xml_chars k) (filter_object v) (filter_entries es)
        (filter_xml_chars-Xml k) (filter_object-Clean v) (filter_entries-Clean es)

mutual
  unfolding filter_object filter_values filter_entries Clean CleanValues CleanEntries add_before

  pub filter_object-same : (v : Value) → Clean v → filter_object v ≡ v
  filter_object-same (text s) c = ap text (filter_xml_chars-same s c)
  filter_object-same (other n) c = refl
  filter_object-same (sequence vs) c = ap sequence (filter_values-same vs c)
  filter_object-same (dict es) c = ap dict (filter_entries-same es c)

  filter_values-same : (vs : Values) → CleanValues vs → filter_values vs ≡ vs
  filter_values-same no_values c = refl
  filter_values-same (value v vs) c = rw (filter_object-same v c.0, filter_values-same vs c.1) refl

  filter_entries-same : (es : Entries) → CleanEntries es → filter_entries es ≡ es
  filter_entries-same no_entries c = refl
  filter_entries-same (entry k v es) (x, c, fresh, cs) =
      rw (filter_xml_chars-same k x, filter_object-same v c, filter_entries-same es cs, fresh) refl

-- Whatever is sent, after the filter all its strings and keys are made of characters that XML allows and does
-- not restrict, no dict has a key twice, and the filter leaves it as it is.
pub filter_object_lem :
    (v : Value) → Clean (filter_object v) × (filter_object (filter_object v) ≡ filter_object v)
filter_object_lem v =
    (filter_object-Clean v, filter_object-same (filter_object v) (filter_object-Clean v))

pub store-Clean :
    (key s : List ℕ) (es : Entries)
    → has_key key es ≡ false
    → All Xml key
    → All Xml s
    → CleanEntries es
    → CleanEntries (store key (text s) es)
unfolding store CleanEntries Clean has_key
store-Clean key s no_entries n x c cs = (x, c, refl, tt)
store-Clean key s (entry k w es) n x c (xk, cw, fresh, cs) =
    let (e, new) = fresh_key key k w es n in
    rw (e) (
      xk,
      cw,
      has_key-store key k (text s) es (str_eq_sym k key e) fresh,
      store-Clean key s es new x c cs,
    )

pub CleanEntries-dict : (es : Entries) → CleanEntries es → Clean (dict es)
unfolding Clean
CleanEntries-dict es c = c
