-- ===== src/Gina/Negotiate.antt =====
-- GinaSSO/GinaSSO.cpp: the functions that Winlogon calls, and the original GINA behind them. A library is
-- what it exports, a pointer to a function is a number and NULL is `none`.
pub mod Pointers
pub mod Entries
mod Tests
use ovirt_guest_agent.Prelude.{
  ℕ, Bool, true, false, not, ◌&&◌, Option, none, some, List, [], ◌∷◌, ltb, ◌==◌, if◌then◌else◌,
}
use mathlib.Core.Logic.{ite}
use ovirt_guest_agent.CredProv.Channel.{Wide}
use ovirt_guest_agent.Gina.Config.{Registry}
use ovirt_guest_agent.Gina.Dialogs.{
  version_1_0, version_1_2, version_1_3, version_1_4, Gina, hook_wlx_dialog_box_param,
  kill_listener_thread,
}

pub data Wlx : Type 0 where
  negotiate initialize display_sas_notice logged_out_sas activate_user_shell logged_on_sas : Wlx
  display_locked_notice is_lock_ok wksta_locked_sas is_logoff_ok logoff shutdown : Wlx
  start_application screen_saver_notify network_provider_load display_status_message : Wlx
  get_status_message remove_status_message get_console_switch_credentials : Wlx
  reconnect_notify disconnect_notify : Wlx

pub Wlx-discrete : Discrete Wlx
Wlx-discrete = hlevel

-- An original GINA: GetProcAddress(), the version that its WlxNegotiate() settles on (`none` for FALSE),
-- and what a function of it returns for its arguments.
pub record Library : Type 0 where
  pub exports : Wlx → Option ℕ
  pub settles : ℕ → Option ℕ
  pub returns : ℕ → ℕ → ℕ

-- The registry's answer for the original custom GINA, and LoadLibrary(), `none` standing for MSGINA.DLL.
pub record System : Type 0 where
  pub sso_opens : Bool
  pub original_custom_gina : Option Wide
  pub load_library : Option Wide → Option Library

-- The pointers of the file, its `g_dwVersion`, the variables of GinaDlg.cpp, and the calls through the
-- pointers with their arguments, latest first.
pub record Stub : Type 0 where
  pub pointers : Wlx → Option ℕ
  pub version : ℕ
  pub gina : Gina
  pub called : List (ℕ × ℕ)

pub load_original_gina : System → Option Wide
load_original_gina sys = if sys.sso_opens then sys.original_custom_gina else none

abbrev pub assign : Library → Wlx → Stub → Stub
assign lib f s = record s { pointers = λ x. ite (Wlx-discrete x f) (lib.exports f) (s.pointers x) }

-- if (!pointer) return FALSE; and otherwise what follows.
abbrev checked : Option ℕ → Stub → Stub × Bool → Stub × Bool
checked none s rest = (s, false)
checked (some p) s rest = rest

-- A run of pointers that must not be NULL.
pub load_required : Library → List Wlx → Stub → Stub × Bool
load_required lib [] s = (s, true)
load_required lib (f ∷ fs) s =
    checked (lib.exports f) (assign lib f s) (load_required lib fs (assign lib f s))

abbrev pub functions_1_0 : List Wlx
functions_1_0 =
    initialize ∷ display_sas_notice ∷ logged_out_sas ∷ activate_user_shell ∷ logged_on_sas
    ∷ display_locked_notice ∷ is_lock_ok ∷ wksta_locked_sas ∷ is_logoff_ok ∷ logoff ∷ shutdown ∷ []

abbrev pub functions_1_3 : List Wlx
functions_1_3 =
    network_provider_load ∷ display_status_message ∷ get_status_message ∷ remove_status_message ∷ []

abbrev pub functions_1_4 : List Wlx
functions_1_4 = get_console_switch_credentials ∷ reconnect_notify ∷ disconnect_notify ∷ []

-- Where the part before has succeeded.
abbrev and_then : Stub × Bool → (Stub → Stub × Bool) → Stub × Bool
and_then (s, true) f = f s
and_then (s, false) f = (s, false)

load_1_1 : Library → ℕ → Stub → Stub × Bool
load_1_1 lib version s = (
  if ltb version_1_0 version
      then assign lib screen_saver_notify (assign lib start_application s)
      else s,
  true,
)

load_1_3 : Library → ℕ → Stub → Stub × Bool
load_1_3 lib version s =
    if ltb version_1_2 version then load_required lib functions_1_3 s else (s, true)

load_1_4 : Library → ℕ → Stub → Stub × Bool
load_1_4 lib version s =
    if ltb version_1_3 version then load_required lib functions_1_4 s else (s, true)

pub my_initialize : Library → ℕ → Stub → Stub × Bool
my_initialize lib version s =
    and_then
      (and_then (and_then (load_required lib functions_1_0 s) (load_1_1 lib version))
        (load_1_3 lib version))
      (load_1_4 lib version)

-- What Winlogon gets: the version where it gets TRUE.
concluded : ℕ → Stub × Bool → Stub × Option ℕ
concluded version (s, true) = (record s { version = version }, some version)
concluded version (s, false) = (s, none)

settled : Library → Option ℕ → Stub → Stub × Option ℕ
settled lib none s = (s, none)
settled lib (some version) s = concluded version (my_initialize lib version s)

with_library : Option Library → ℕ → Stub → Stub × Option ℕ
with_library none winlogon s = (s, none)
with_library (some lib) winlogon s =
    let asked = if ltb winlogon version_1_4 then winlogon else version_1_4 in
    elim (lib.exports negotiate) [
      | none ↦ (assign lib negotiate s, none)
      | some _ ↦ settled lib (lib.settles asked) (assign lib negotiate s)
    ]

-- The custom GINA where its name is not empty.
pub named : Option Wide → Option Wide
named none = none
named (some []) = none
named (some (u ∷ us)) = some (u ∷ us)

pub wlx_negotiate : System → ℕ → Stub → Stub × Option ℕ
wlx_negotiate sys winlogon s =
    with_library (sys.load_library (named (load_original_gina sys))) winlogon s

-- A call through a pointer, with the arguments handed on; through NULL there is none.
through : Library → Option ℕ → ℕ → Stub → Option (Stub × ℕ)
through lib none args s = none
through lib (some p) args s = some (record s { called = (p, args) ∷ s.called }, lib.returns p args)

-- WlxScreenSaverNotify() alone does not go on to the original's.
abbrev pub is_screen_saver_notify : Wlx → Bool
is_screen_saver_notify screen_saver_notify = true
is_screen_saver_notify _ = false

-- What the stub does of its own before it goes on.
pub prepared : Registry → Wlx → Gina → Gina
prepared r initialize g = hook_wlx_dialog_box_param r g
prepared r disconnect_notify g = kill_listener_thread g
prepared r _ g = g

-- Winlogon calls a function other than WlxNegotiate().
pub wlx_entry : Library → Registry → Wlx → ℕ → Stub → Option (Stub × ℕ)
wlx_entry lib r f args s =
    if is_screen_saver_notify f
    then some (s, 0)
    else through lib (s.pointers f) args (record s { gina = prepared r f s.gina })
