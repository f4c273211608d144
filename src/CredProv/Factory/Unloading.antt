-- ===== src/CredProv/Factory/Unloading.antt =====
-- When COM may unload the DLL, and when a class factory is deleted.
use ovirt_guest_agent.Prelude.{
  ℕ, suc, ◌+◌, ◌-◌, ◌*◌, ◌%◌, ◌^◌, ◌≤◌, ◌<◌, ◌≡◌, refl, ◌↔◌, Bool, true, false, Option, none, some,
  List, [], ◌∷◌, arith, if◌then◌else◌, Run, Run-keeps,
}
use mathlib.Core.Path.{subst}
use ovirt_guest_agent.CredProv.Credentials.{
  HResult, s_ok, Interface, unknown, class_factory, credential_provider,
  credential_provider_credential, another,
}
use ovirt_guest_agent.CredProv.Factory.{
  dll_add_ref, dll_release, dll_can_unload_now, Factory, add_ref, release, query_interface,
  class_factory_create_instance, dll_get_class_object,
}

-- The count after some calls, first to last: true for DllAddRef(), false for DllRelease().
abbrev pub counted : List Bool → ℕ → ℕ
counted [] n = n
counted (true ∷ ops) n = counted ops (dll_add_ref n)
counted (false ∷ ops) n = counted ops (dll_release n)

abbrev pub adds : List Bool → ℕ
adds [] = 0
adds (true ∷ ops) = suc (adds ops)
adds (false ∷ ops) = adds ops

abbrev pub releases : List Bool → ℕ
releases [] = 0
releases (true ∷ ops) = releases ops
releases (false ∷ ops) = suc (releases ops)

counted_mod :
    (ops : List Bool) (n : ℕ)
    → n < 2 ^ 32
    → counted ops n ≡ (n + adds ops + releases ops * (2 ^ 32 - 1)) % 2 ^ 32
unfolding dll_add_ref dll_release
counted_mod [] n h = omega arith
counted_mod (true ∷ ops) n h = omega (arith, counted_mod ops ((n + 1) % 2 ^ 32))
counted_mod (false ∷ ops) n h = omega (arith, counted_mod ops ((n + (2 ^ 32 - 1)) % 2 ^ 32))

-- The DLL says that it can be unloaded exactly while references to it are left, if fewer than 2 ^ 31 were
-- taken and none was given back that was not taken.
pub can_unload_iff_in_use :
    (ops : List Bool)
    → releases ops ≤ adds ops
    → adds ops < 2 ^ 31
    → (dll_can_unload_now (counted ops 0) ≡ s_ok) ↔ (releases ops < adds ops)
unfolding dll_can_unload_now
can_unload_iff_in_use ops le bound = ground (arith, left)
  where
    left : counted ops 0 ≡ adds ops - releases ops
    left = omega (arith, counted_mod ops 0)

-- A factory, and how many references to it clients hold.
pub data Step : Factory × ℕ → Factory × ℕ → Type 0 where
  takes : (f : Factory) (held : ℕ) → Step (f, held) ((add_ref f).0, suc held)
  asks :
      (f : Factory) (held : ℕ) (riid : Interface) (wanted : Bool)
      → Step
          (f, held)
          (
            (query_interface f riid wanted).0,
            if (query_interface f riid wanted).2 then suc held else held,
          )
  gives : (f : Factory) (held : ℕ) → Step (f, suc held) ((release f).0, held)

abbrev pub Reach : Factory × ℕ → Factory × ℕ → Type 0
Reach = Run Step

-- The count is that of the references, and the object is there.
abbrev pub Counts : Factory × ℕ → Type 0
Counts (f, held) = (f.refs ≡ held) × (f.deleted ≡ false)

step-Counts : (x y : Factory × ℕ) → Step x y → Counts x → Counts y
unfolding add_ref release query_interface
step-Counts _ _ (takes f held) h = ground arith
step-Counts _ _ (asks f held riid false) h = h
step-Counts _ _ (asks f held riid true) h = ground arith
step-Counts _ _ (gives f held) h = ground arith

-- A factory that was handed out has one reference.
abbrev HandedOut : Option Factory × HResult × Bool → Type 0
HandedOut (some f, hr, true) = Counts (f, 1)
HandedOut (some f, hr, false) = Unit
HandedOut (none, hr, set) = Unit

get-HandedOut : (riid : Interface) → HandedOut (dll_get_class_object true true riid true)
unfolding dll_get_class_object class_factory_create_instance query_interface add_ref release
get-HandedOut unknown = (refl, refl)
get-HandedOut class_factory = (refl, refl)
get-HandedOut credential_provider = tt
get-HandedOut credential_provider_credential = tt
get-HandedOut another = tt

-- A class factory that a client got from the DLL is never deleted while its clients give back only
-- references that they hold, not even when they have given back all of them.
pub factory_kept :
    (riid : Interface) (f f' : Factory) (held : ℕ)
    → dll_get_class_object true true riid true ≡ (some f, s_ok, true)
    → Reach (f, 1) (f', held)
    → (f'.refs ≡ held) × (f'.deleted ≡ false)
factory_kept riid f f' held e run =
    Run-keeps Step Counts step-Counts (f, 1) (f', held) run (subst HandedOut e (get-HandedOut riid))
