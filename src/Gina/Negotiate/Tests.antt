-- ===== src/Gina/Negotiate/Tests.antt =====
-- An original GINA with every function.
use ovirt_guest_agent.Prelude.{◌<◌, ◌≡◌, refl, true, false, none, some, [], All}
use ovirt_guest_agent.Gina.Config.{Registry}
use ovirt_guest_agent.Gina.Dialogs.{version_1_2, version_1_3, version_1_4, loaded}
use ovirt_guest_agent.Gina.Negotiate.{
  Library, System, Stub, load_original_gina, named, load_required, load_1_1, load_1_3, load_1_4,
  my_initialize, concluded, settled, with_library, wlx_negotiate, functions_1_0, functions_1_3,
  functions_1_4,
}
use ovirt_guest_agent.Gina.Negotiate.Entries.{asked, Forwards, negotiated-Forwards}

abbrev msgina : Library
msgina = record { exports = λ f. some 77; settles = λ v. some v; returns = λ p args. args }

-- No custom GINA is registered.
abbrev windows : System
windows = record {
  sso_opens = true;
  original_custom_gina = none;
  load_library = λ name. some msgina;
}

abbrev registry : Registry
registry = record { config_opens = false; controls_open = false; query = λ name. none }

abbrev started : Stub
started = record { pointers = λ f. none; version = version_1_4; gina = loaded; called = [] }

-- The stub after a Winlogon of version 1.3.
abbrev negotiated : Stub
negotiated = (wlx_negotiate windows version_1_3 started).0

negotiates : wlx_negotiate windows version_1_3 started ≡ (negotiated, some version_1_3)
unfolding wlx_negotiate with_library settled concluded my_initialize load_required load_1_1 load_1_3
    load_1_4 named load_original_gina
negotiates = refl

negotiated-Forwards_example :
    (lib : Library) × (windows.load_library (named (load_original_gina windows)) ≡ some lib)
    × (lib.settles (asked version_1_3) ≡ some version_1_3)
    × (negotiated.version ≡ version_1_3)
    × All (Forwards lib registry negotiated) functions_1_0
    × (version_1_2 < version_1_3 → All (Forwards lib registry negotiated) functions_1_3)
    × (version_1_3 < version_1_3 → All (Forwards lib registry negotiated) functions_1_4)
negotiated-Forwards_example =
    negotiated-Forwards windows version_1_3 started negotiated version_1_3 registry negotiates
