-- ===== src/CredProv/Factory.antt =====
-- windows-credprov/OVirtCredProv.cpp: the class factory and the functions of the DLL. `memory` is whether
-- there is an object, `wanted` whether the pointer for the result is not NULL.
pub mod Unloading
mod Tests
use ovirt_guest_agent.Prelude.{
  ℕ, ◌+◌, ◌-◌, ◌%◌, ◌^◌, Bool, true, false, ◌||◌, Option, none, some, List, [], ◌∷◌, leb, ◌==◌,
  if◌then◌else◌,
}
use ovirt_guest_agent.CredProv.Credentials.{
  HResult, s_ok, s_false, e_invalidarg, e_nointerface, e_outofmemory, class_e_noaggregation,
  class_e_classnotavailable, Interface, unknown, class_factory,
}
use ovirt_guest_agent.CredProv.Provider as Provider

-- g_nRefCount, as its 32 bits
pub dll_add_ref : ℕ → ℕ
dll_add_ref n = (n + 1) % 2 ^ 32

pub dll_release : ℕ → ℕ
dll_release n = (n + (2 ^ 32 - 1)) % 2 ^ 32

-- TRUE is 1, the number of S_FALSE, and FALSE is that of S_OK.
pub dll_can_unload_now : ℕ → HResult
dll_can_unload_now n = if (n == 0) || leb (2 ^ 31) n then s_false else s_ok

-- `deleted` is whether the destructor ran.
pub record Factory : Type 0 where
  pub refs : ℕ
  pub deleted : Bool

abbrev pub new : Factory
new = record { refs = 1; deleted = false }

-- Both return the count as it was before.
pub add_ref : Factory → Factory × ℕ
add_ref f = (record f { refs = f.refs + 1 }, f.refs)

pub release : Factory → Factory × ℕ
release f =
    if f.refs == 0
    then (record f { deleted = true }, 0)
    else (record f { refs = f.refs - 1 }, f.refs)

abbrev pub answers : Interface → Bool
answers unknown = true
answers class_factory = true
answers _ = false

pub query_interface : Factory → Interface → Bool → Factory × HResult × Bool
query_interface f riid false = (f, e_invalidarg, false)
query_interface f riid true =
    if answers riid then ((add_ref f).0, s_ok, true) else (f, e_nointerface, false)

-- The provider made, where the object is not to be part of another one.
pub create_instance : Bool → Bool → ℕ → Interface → Bool → Option Provider.Released × HResult × Bool
create_instance false memory unset riid wanted =
    let (made, hr, set) = Provider.create_instance memory unset riid wanted in (some made, hr, set)
create_instance true memory unset riid wanted = (none, class_e_noaggregation, false)

pub lock_server : Bool → ℕ → ℕ × HResult
lock_server true n = (dll_add_ref n, s_ok)
lock_server false n = (dll_release n, s_ok)

-- `ours` is whether the class is CLSID_OVirtProvider.
pub class_factory_create_instance : Bool → Bool → Interface → Bool → Option Factory × HResult × Bool
class_factory_create_instance false memory riid wanted = (none, class_e_classnotavailable, false)
class_factory_create_instance true false riid wanted = (none, e_outofmemory, false)
class_factory_create_instance true true riid wanted =
    let (asked, hr, set) = query_interface new riid wanted in (some (release asked).0, hr, set)

pub dll_get_class_object : Bool → Bool → Interface → Bool → Option Factory × HResult × Bool
dll_get_class_object ours memory riid wanted = class_factory_create_instance ours memory riid wanted

pub data Reason : Type 0 where
  process_attach process_detach thread_attach thread_detach : Reason

-- Whether the thread notifications are turned off, and what is returned.
pub dll_main : Reason → Bool × Bool
dll_main process_attach = (true, true)
dll_main _ = (false, true)
