-- ===== src/CredProv/Credentials.antt =====
-- windows-credprov/OVirtCredentials.cpp: the credential that LogonUI shows. COM objects are numbers,
-- wide strings are lists of units, NULL is `none`.
pub mod Stored
mod Tests
use ovirt_guest_agent.Prelude.{
  ℕ, zero, suc, ◌+◌, ◌-◌, ◌*◌, Bool, true, false, not, ◌&&◌, ◌||◌, Option, none, some, List, [],
  ◌∷◌, ◌++◌, length, replicate, ◌==◌, if◌then◌else◌, is_some,
}
use ovirt_guest_agent.CredProv.Channel.{Wide, zero_bytes}

-- CREDENTIAL_PROVIDER_USAGE_SCENARIO
pub data Scenario : Type 0 where
  logon unlock_workstation change_password credui other : Scenario

-- The codes of the methods that the provider and its credential implement.
pub data HResult : Type 0 where
  s_ok s_false e_notimpl e_invalidarg e_nointerface e_outofmemory : HResult
  class_e_noaggregation class_e_classnotavailable : HResult

-- The interfaces that a client may ask for.
pub data Interface : Type 0 where
  unknown credential_provider credential_provider_credential class_factory another : Interface

-- The object. `freed` lists the blocks given back to the heap, latest first, each with the units that
-- it still holds; `deleted` is whether the destructor ran.
pub record Credentials : Type 0 where
  pub refs : ℕ
  pub username : Option Wide
  pub password : Option Wide
  pub domain : Option Wide
  pub cpus : Scenario
  pub freed : List Wide
  pub deleted : Bool

-- The constructor; the scenario is not set there.
pub new : Scenario → Credentials
new unset = record {
  refs = 1;
  username = none;
  password = none;
  domain = none;
  cpus = unset;
  freed = [];
  deleted = false;
}

pub got_credentials : Credentials → Bool
got_credentials c = is_some c.username && is_some c.password && is_some c.domain

free_username : Credentials → Option Wide → Credentials
free_username c none = c
free_username c (some s) = record c { username = none; freed = s ∷ c.freed }

-- SecureZeroMemory(_wzPassword, wcslen(_wzPassword) * sizeof(WCHAR))
free_password : Credentials → Option Wide → Credentials
free_password c none = c
free_password c (some s) = record c {
  password = none;
  freed = zero_bytes (length s * 2) s ∷ c.freed;
}

free_domain : Credentials → Option Wide → Credentials
free_domain c none = c
free_domain c (some s) = record c { domain = none; freed = s ∷ c.freed }

pub reset_credentials : Credentials → Credentials
reset_credentials c =
    let named = free_username c c.username in
    let wiped = free_password named named.password in free_domain wiped wiped.domain

-- Which of the three copies of _wcsdup() succeed, and what GetComputerNameW() answers.
pub record Host : Type 0 where
  pub dup_username : Bool
  pub dup_password : Bool
  pub dup_domain : Bool
  pub computer_name : Option Wide

wcsdup : Bool → Wide → Option Wide
wcsdup true s = some s
wcsdup false s = none

-- _wcsdup() of what is there, NULL of NULL.
copy : Bool → Option Wide → Option Wide
copy works none = none
copy works (some s) = wcsdup works s

pick_domain : Host → Option Wide → Option Wide
pick_domain host (some s) = wcsdup host.dup_domain s
pick_domain host none = copy host.dup_domain host.computer_name

-- The three copies, in the place of the strings that were released before.
pub fill : Host → Credentials → Option Wide → Option Wide → Option Wide → Credentials
fill host c username password domain = record c {
  username = copy host.dup_username username;
  password = copy host.dup_password password;
  domain = pick_domain host domain;
}

abbrev pub keep_whole : Credentials → Credentials
keep_whole c = if not (got_credentials c) then reset_credentials c else c

pub set_credentials : Host → Credentials → Option Wide → Option Wide → Option Wide → Credentials
set_credentials host c username password domain =
    keep_whole (fill host (reset_credentials c) username password domain)

pub set_usage_scenario : Credentials → Scenario → Credentials
set_usage_scenario c cpus = record c { cpus = cpus }

pub add_ref : Credentials → Credentials × ℕ
add_ref c = (record c { refs = c.refs + 1 }, c.refs + 1)

-- The destructor resets the credentials.
pub delete : Credentials → Credentials
delete c = record (reset_credentials c) { deleted = true }

pub release : Credentials → Credentials × ℕ
release c =
    let dropped = record c { refs = c.refs - 1 } in
    if dropped.refs == 0 then (delete dropped, 0) else (dropped, dropped.refs)

abbrev pub answers_credential : Interface → Bool
answers_credential unknown = true
answers_credential credential_provider_credential = true
answers_credential _ = false

-- `wanted` is whether there is a place for the pointer; the flag returned is whether it was set to the
-- object.
pub query_interface : Credentials → Interface → Bool → Credentials × HResult × Bool
query_interface c riid false = (c, e_invalidarg, false)
query_interface c riid true =
    if answers_credential riid then ((add_ref c).0, s_ok, true) else (c, e_nointerface, false)

-- The methods that do nothing but answer.
pub data Method : Type 0 where
  advise un_advise set_selected set_deselected : Method
  get_field_state get_string_value get_bitmap_value get_checkbox_value : Method
  get_combo_box_value_count get_combo_box_value_at get_submit_button_value : Method
  set_string_value set_checkbox_value set_combo_box_selected_value : Method
  command_link_clicked report_result : Method

pub answer : Method → HResult
answer advise = s_ok
answer un_advise = s_ok
answer set_selected = s_false
answer set_deselected = s_ok
answer _ = e_notimpl
