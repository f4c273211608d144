-- ===== src/CredProv/Provider.antt =====
-- windows-credprov/OVirtProvider.cpp: the provider that LogonUI loads. It owns the channel and the
-- credential, and listens to the channel. The memory and the events object are arguments.
pub mod Arrivals
pub mod References
mod Tests
use ovirt_guest_agent.Prelude.{
  ℕ, zero, suc, ◌+◌, ◌-◌, Bool, true, false, not, ◌&&◌, Option, none, some, List, [], ◌∷◌, ◌==◌,
  ltb, if◌then◌else◌, is_some,
}
use ovirt_guest_agent.PamOvirtCred.CredChannel.{Outcome, ok, fault, blocked, ◌>>=◌}
use ovirt_guest_agent.CredProv.Channel.{
  Wide, Arrival, Handle, Channel, create_channel, destroy_channel,
}
use ovirt_guest_agent.CredProv.Channel as Chan
use ovirt_guest_agent.CredProv.Credentials.{
  Scenario, logon, unlock_workstation, change_password, credui, other, HResult, s_ok, s_false,
  e_notimpl, e_invalidarg, e_nointerface, e_outofmemory, Interface, unknown, credential_provider,
  Credentials, Host, got_credentials, set_credentials, query_interface,
}
use ovirt_guest_agent.CredProv.Credentials as Cred

-- What the provider asks of the events object of LogonUI.
pub data Call : Type 0 where
  events_add_ref events_release : ℕ → Call
  credentials_changed : ℕ → ℕ → Call

pub record Provider : Type 0 where
  pub refs : ℕ
  pub channel : Option Channel
  pub credentials : Option Credentials
  pub events : Option ℕ
  pub context : ℕ
  pub deleted : Bool
  pub calls : List Call

-- The constructor; the context is not set there.
pub new : ℕ → Provider
new unset = record {
  refs = 1;
  channel = none;
  credentials = none;
  events = none;
  context = unset;
  deleted = false;
  calls = [];
}

-- What a scenario finds: memory for the two objects, and what the two calls of Windows return.
pub record Resources : Type 0 where
  pub credentials_memory : Bool
  pub channel_memory : Bool
  pub pipe : Handle
  pub thread : Handle

make_channel : Resources → Scenario → Provider → Provider × HResult
make_channel r unset p =
    if r.channel_memory
    then (record p { credentials = some (Cred.new unset); channel = some Chan.init }, e_invalidarg)
    else (p, e_outofmemory)

make_objects : Resources → Scenario → Provider → Provider × HResult
make_objects r unset p =
    if not (is_some p.credentials) && not (is_some p.channel)
    then (if r.credentials_memory then make_channel r unset p else (p, e_outofmemory))
    else (p, e_invalidarg)

set_scenario : Scenario → Option Credentials → Option Credentials
set_scenario cpus none = none
set_scenario cpus (some c) = some (Cred.set_usage_scenario c cpus)

-- The `bool` of CreateChannel() as an HRESULT: `true` is 1, that is S_FALSE.
of_bool : Bool → HResult
of_bool true = s_false
of_bool false = s_ok

-- `self` is the provider as the channel's listener.
open_channel : ℕ → Resources → Option Channel → HResult → Option Channel × HResult
open_channel self r none hr = (none, hr)
open_channel self r (some ch) hr =
    let (made, success) = create_channel ch self r.pipe r.thread in (some made, of_bool success)

start : ℕ → Resources → Scenario → Scenario → Provider → Provider × HResult
start self r unset cpus p =
    let (made, hr) = make_objects r unset p in
    let (channel, hr') = open_channel self r made.channel hr in
    (record made { credentials = set_scenario cpus made.credentials; channel = channel }, hr')

-- `unset` is what the new credential's scenario happens to hold.
pub set_usage_scenario : ℕ → Resources → Scenario → Provider → Scenario → Provider × HResult
set_usage_scenario self r unset p logon = start self r unset logon p
set_usage_scenario self r unset p unlock_workstation = start self r unset unlock_workstation p
set_usage_scenario self r unset p change_password = (p, e_notimpl)
set_usage_scenario self r unset p credui = (p, e_notimpl)
set_usage_scenario self r unset p other = (p, e_invalidarg)

abbrev call : Call → Provider → Provider
call c p = record p { calls = c ∷ p.calls }

release_events : Option ℕ → Provider → Provider
release_events none p = p
release_events (some e) p = call (events_release e) p

pub advise : Provider → ℕ → ℕ → Provider × HResult
advise p events context = (
  record (call (events_add_ref events) (release_events p.events p)) {
    events = some events;
    context = context;
  },
  s_ok,
)

pub un_advise : Provider → Provider × HResult
un_advise p = (record (release_events p.events p) { events = none }, s_ok)

pub get_field_descriptor_count : Provider → ℕ × HResult
get_field_descriptor_count p = (0, s_ok)

pub get_field_descriptor_at : Provider → HResult
get_field_descriptor_at p = e_notimpl

pub set_serialization : Provider → HResult
set_serialization p = e_notimpl

-- The three values handed out; without a credential the call goes through a NULL pointer.
pub record Count : Type 0 where
  pub count : ℕ
  pub default : ℕ
  pub auto_logon : Bool
  pub hr : HResult

count_of : Option Credentials → Outcome Count
count_of none = fault
count_of (some c) = ok (record {
  count = if got_credentials c then 1 else 0;
  default = 0;
  auto_logon = true;
  hr = s_ok;
})

pub get_credential_count : Provider → Outcome Count
get_credential_count p = count_of p.credentials

credential_at : Provider → Option Credentials → ℕ → Provider × HResult × Bool
credential_at p none index = (p, e_invalidarg, false)
credential_at p (some c) index =
    if ltb index 1
    then (let (c', hr, set) = query_interface c Cred.credential_provider_credential true in
        (record p { credentials = some c' }, hr, set))
    else (p, e_invalidarg, false)

-- The place for the pointer is there; the flag is whether it was set to the credential.
pub get_credential_at : Provider → ℕ → Provider × HResult × Bool
get_credential_at p index = credential_at p p.credentials index

notify : Option ℕ → Provider → Provider
notify none p = p
notify (some e) p = call (credentials_changed e p.context) p

arrival_at : Host → Provider → Option Credentials → Arrival → Outcome Provider
arrival_at host p none a = fault
arrival_at host p (some c) a =
    let stored = set_credentials host c (some a.username) (some a.password) a.domain in
    ok (notify p.events (record p { credentials = some stored }))

pub on_credentials_arrival : Host → Provider → Arrival → Outcome Provider
on_credentials_arrival host p a = arrival_at host p p.credentials a

pub add_ref : Provider → Provider × ℕ
add_ref p = (record p { refs = p.refs + 1 }, p.refs + 1)

-- What the destructor leaves of the objects that the provider held: the channel destroyed, the
-- credential one reference poorer.
pub record Released : Type 0 where
  pub provider : Provider
  pub channel : Option Channel
  pub credentials : Option Credentials

map_channel : Option Channel → Option Channel
map_channel none = none
map_channel (some ch) = some (destroy_channel ch)

map_credentials : Option Credentials → Option Credentials
map_credentials none = none
map_credentials (some c) = some (Cred.release c).0

pub delete : Provider → Released
delete p = record {
  provider = record (release_events p.events p) {
    channel = none;
    credentials = none;
    events = none;
    deleted = true;
  };
  channel = map_channel p.channel;
  credentials = map_credentials p.credentials;
}

-- The objects that a release lets go, where it is the last.
pub release : Provider → Released × ℕ
release p =
    let dropped = record p { refs = p.refs - 1 } in
    if dropped.refs == 0
    then (delete dropped, 0)
    else (record { provider = dropped; channel = none; credentials = none }, dropped.refs)

abbrev answers_provider : Interface → Bool
answers_provider unknown = true
answers_provider credential_provider = true
answers_provider _ = false

pub query : Provider → Interface → Bool → Provider × HResult × Bool
query p riid false = (p, e_invalidarg, false)
query p riid true =
    if answers_provider riid then ((add_ref p).0, s_ok, true) else (p, e_nointerface, false)

-- OVirtCredProv_CreateInstance(), where `memory` is whether there is an object.
pub create_instance : Bool → ℕ → Interface → Bool → Released × HResult × Bool
create_instance false unset riid wanted =
    (record { provider = new unset; channel = none; credentials = none }, e_outofmemory, false)
create_instance true unset riid wanted =
    let (asked, hr, set) = query (new unset) riid wanted in ((release asked).0, hr, set)
