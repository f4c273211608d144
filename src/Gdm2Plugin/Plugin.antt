-- ===== src/Gdm2Plugin/Plugin.antt =====
-- gdm2-plugin/plugin.c: the one extension of the process. GObject's calls are recorded, latest first.
use mathlib.Core.Path.{subst}
use ovirt_guest_agent.Prelude.{
  Run, Run-keeps, ℕ, ◌+◌, ◌-◌, ◌<◌, ◌≡◌, refl, sym, ◌≢◌, Option, none, some, List, [], ◌∷◌, arith,
  ◌==◌, if◌then◌else◌, ==_refl, ==_iff, inl, inr, Bool-cases,
}

pub data Call : Type 0 where
  object_new : ℕ → Call
  object_ref : ℕ → Call
  object_add_weak_pointer : ℕ → Call
  object_unref : ℕ → Call

-- The static variable, and the calls made.
pub record Plugin : Type 0 where
  pub extension : Option ℕ
  pub calls : List Call

-- The plugin and the extension returned, where g_object_new() would make the object `new`.
pub get_extension : Plugin → ℕ → Plugin × ℕ
get_extension p new = elim p.extension [
  | some e ↦ (record p { calls = object_ref e ∷ p.calls }, e)
  | none ↦ (
    record p {
      extension = some new;
      calls = object_add_weak_pointer new ∷ object_new new ∷ p.calls;
    },
    new,
  )
]

-- The references that the calls leave to an object, by the documentation of GObject.
abbrev pub refs : ℕ → List Call → ℕ
refs o [] = 0
refs o (object_new i ∷ cs) = if i == o then 1 else refs o cs
refs o (object_ref i ∷ cs) = if i == o then refs o cs + 1 else refs o cs
refs o (object_add_weak_pointer i ∷ cs) = refs o cs
refs o (object_unref i ∷ cs) = if i == o then refs o cs - 1 else refs o cs

abbrev clear_weak : ℕ → Option ℕ → Option ℕ
clear_weak o none = none
clear_weak o (some e) = if e == o then none else some e

-- A client drops a reference to `o`; with the last one the object goes and its weak pointers are set
-- to NULL.
abbrev pub release : Plugin → ℕ → Plugin
release p o =
    let calls = object_unref o ∷ p.calls in
    record {
      extension = if refs o calls == 0 then clear_weak o p.extension else p.extension;
      calls = calls;
    }

-- What clients do: a new object is not one that is alive, and only references held are dropped.
pub data Step (p : Plugin) : Plugin → Type 0 where
  gets : (new : ℕ) {p' : Plugin} → refs new p.calls ≡ 0 → p' ≡ (get_extension p new).0 → Step p p'
  releases : (o : ℕ) {p' : Plugin} → 0 < refs o p.calls → p' ≡ release p o → Step p p'

abbrev pub Reach : Plugin → Plugin → Type 0
Reach = Run Step

abbrev pub init : Plugin
init = record { extension = none; calls = [] }

-- The objects alive are those that the static variable names.
abbrev pub Alive : Option ℕ → List Call → Type 0
Alive none cs = (o : ℕ) → refs o cs ≡ 0
Alive (some e) cs = (0 < refs e cs) × ((o : ℕ) → o ≢ e → refs o cs ≡ 0)

gets-Alive :
    (e : Option ℕ) (cs : List Call) (new : ℕ)
    → Alive e cs
    → Alive
        (get_extension (record { extension = e; calls = cs }) new).0.extension
        (get_extension (record { extension = e; calls = cs }) new).0.calls
unfolding get_extension
gets-Alive none cs new a = (ground arith, λ o n. ground (arith, a o))
gets-Alive (some e) cs new a = (ground (arith, a.0), λ o n. ground (arith, a.1 o n))

release_own :
    (e : ℕ) (cs : List Call)
    → Alive (some e) cs
    → Alive (release (record { extension = some e; calls = cs }) e).extension (object_unref e ∷ cs)
release_own e cs a = elim (Bool-cases (refs e cs - 1 == 0)) [
  | inl last ↦ rw (==_refl e, last) (λ o. ground (arith, a.1 o))
  | inr more ↦ rw (==_refl e, more) (ground arith, λ o other. ground (arith, a.1 o other))
]

releases-Alive :
    (e : Option ℕ) (cs : List Call) (o : ℕ)
    → 0 < refs o cs
    → Alive e cs
    → Alive (release (record { extension = e; calls = cs }) o).extension (object_unref o ∷ cs)
releases-Alive none cs o h a = absurd (omega (arith, a o))
releases-Alive (some e) cs o h a = elim (Bool-cases (o == e)) [
  | inl same ↦
      subst
        (λ x.
          Alive (release (record { extension = some e; calls = cs }) x).extension
            (object_unref x ∷ cs))
        (sym ((==_iff o e).0 same)) (release_own e cs a)
  | inr other ↦ absurd (omega (arith, a.1 o (λ same. cc (same, other, ==_refl e))))
]

Step-Alive : {p q : Plugin} → Step p q → Alive p.extension p.calls → Alive q.extension q.calls
Step-Alive {p} (gets new f q) a = rw q (gets-Alive p.extension p.calls new a)
Step-Alive {p} (releases o h q) a = rw q (releases-Alive p.extension p.calls o h a)

Reach-Alive : {p q : Plugin} → Reach p q → Alive p.extension p.calls → Alive q.extension q.calls
Reach-Alive {p} {q} r a =
    Run-keeps Step (λ x. Alive x.extension x.calls) (λ x y s w. Step-Alive s w) p q r a

Alive-one :
    (e : Option ℕ) (cs : List Call) (o i : ℕ) → Alive e cs → 0 < refs o cs → 0 < refs i cs → o ≡ i
Alive-one none cs o i a ho hi = absurd (omega (arith, a o))
Alive-one (some e) cs o i a ho hi = ground (arith, a.1 o, a.1 i)

get_extension-Alive :
    (e : Option ℕ) (cs : List Call) (o new : ℕ)
    → Alive e cs
    → 0 < refs o cs
    → ((get_extension (record { extension = e; calls = cs }) new).1 ≡ o)
      × (refs o (get_extension (record { extension = e; calls = cs }) new).0.calls ≡ refs o cs + 1)
unfolding get_extension
get_extension-Alive none cs o new a h = absurd (omega (arith, a o))
get_extension-Alive (some e) cs o new a h =
    let same = Alive-one (some e) cs e o a a.0 h in (same, rw (same, ==_refl o) refl)

-- Whenever clients hold references to extensions, they hold them to one and the same, and
-- `get_extension` returns it, counted once more.
pub get_extension_shared :
    {p : Plugin}
    → Reach init p
    → (o i new : ℕ) → 0 < refs o p.calls
    → 0 < refs i p.calls
    → (o ≡ i)
      × ((get_extension p new).1 ≡ o)
      × (refs o (get_extension p new).0.calls ≡ refs o p.calls + 1)
unfolding get_extension
get_extension_shared {p} r o i new ho hi =
    let a = Reach-Alive r (λ o. refl) in
    let (same, more) = get_extension-Alive p.extension p.calls o new a ho in
    (Alive-one p.extension p.calls o i a ho hi, same, more)

-- The first client holds the only reference.
pub get_extension_first : (new : ℕ) → refs new (get_extension init new).0.calls ≡ 1
unfolding get_extension
get_extension_first new = rw (==_refl new) refl
