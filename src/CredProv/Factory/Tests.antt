-- ===== src/CredProv/Factory/Tests.antt =====
-- A client that loads the DLL, and gives back what it took.
use ovirt_guest_agent.Prelude.{◌<◌, ◌≡◌, refl, ◌↔◌, true, false, some, [], ◌∷◌, arith}
use ovirt_guest_agent.CredProv.Credentials.{s_ok, class_factory}
use ovirt_guest_agent.CredProv.Factory.{
  dll_can_unload_now, new, release, add_ref, query_interface, class_factory_create_instance,
  dll_get_class_object,
}
use ovirt_guest_agent.CredProv.Factory.Unloading.{counted, releases, adds, can_unload_iff_in_use}

can_unload_iff_in_use_example :
    (dll_can_unload_now (counted (true ∷ true ∷ false ∷ []) 0) ≡ s_ok)
    ↔ (releases (true ∷ true ∷ false ∷ []) < adds (true ∷ true ∷ false ∷ []))
can_unload_iff_in_use_example =
    can_unload_iff_in_use (true ∷ true ∷ false ∷ []) (omega arith) (omega arith)

got : dll_get_class_object true true class_factory true ≡ (some new, s_ok, true)
unfolding dll_get_class_object class_factory_create_instance query_interface release add_ref
got = refl
