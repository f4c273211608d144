-- ===== src/CredProv/Provider/References.antt =====
-- The references that the provider takes and gives.
use ovirt_guest_agent.Prelude.{
  Run, Run-keeps, ℕ, suc, ◌+◌, ◌≤◌, ◌≡◌, refl, Bool, true, false, not, ◌&&◌, Option, none, some,
  List, [], ◌∷◌, arith, if◌then◌else◌, ◌==◌,
}
use ovirt_guest_agent.PamOvirtCred.CredChannel.{ok}
use ovirt_guest_agent.CredProv.Channel.{Arrival}
use ovirt_guest_agent.CredProv.Credentials.{
  Scenario, logon, unlock_workstation, change_password, credui, other, Interface, Host, Credentials,
  set_credentials,
}
use ovirt_guest_agent.CredProv.Provider.{
  Provider, Call, events_add_ref, events_release, new, Resources, make_channel, make_objects, start,
  set_usage_scenario, release_events, advise, un_advise, credential_at, get_credential_at, notify,
  arrival_at, on_credentials_arrival, add_ref, delete, release, query, create_instance,
  answers_provider,
}

-- How often the events object was taken, and how often it was given back.
abbrev pub taken : ℕ → List Call → ℕ
taken e [] = 0
taken e (events_add_ref i ∷ cs) = if i == e then suc (taken e cs) else taken e cs
taken e (_ ∷ cs) = taken e cs

abbrev pub given_back : ℕ → List Call → ℕ
given_back e [] = 0
given_back e (events_release i ∷ cs) = if i == e then suc (given_back e cs) else given_back e cs
given_back e (_ ∷ cs) = given_back e cs

abbrev pub holds : ℕ → Option ℕ → ℕ
holds e none = 0
holds e (some i) = if i == e then 1 else 0

-- Of each events object the provider holds one reference while it is the current one, and none else.
abbrev pub Balanced : Provider → Type 0
Balanced p = (e : ℕ) → taken e p.calls ≡ given_back e p.calls + holds e p.events

-- What LogonUI and the channel do with a provider, the release of its last reference apart.
pub data Step (p : Provider) : Provider → Type 0 where
  advised : (events context : ℕ) {q : Provider} → q ≡ (advise p events context).0 → Step p q
  unadvised : {q : Provider} → q ≡ (un_advise p).0 → Step p q
  arrives :
      (host : Host) (a : Arrival) {q : Provider} → on_credentials_arrival host p a ≡ ok q → Step p q
  uses :
      (self : ℕ) (r : Resources) (unset cpus : Scenario) {q : Provider}
      → q ≡ (set_usage_scenario self r unset p cpus).0
      → Step p q
  takes : (index : ℕ) {q : Provider} → q ≡ (get_credential_at p index).0 → Step p q
  adds : {q : Provider} → q ≡ (add_ref p).0 → Step p q
  queries :
      (riid : Interface) (wanted : Bool) {q : Provider} → q ≡ (query p riid wanted).0 → Step p q
  releases : {q : Provider} → 2 ≤ p.refs → q ≡ (release p).0.provider → Step p q

abbrev pub Reach : Provider → Provider → Type 0
Reach = Run Step

-- The calls and the current events object are those of before.
abbrev Quiet : Provider → Provider → Type 0
Quiet p q = (q.events ≡ p.events) × (q.calls ≡ p.calls)

Quiet-Balanced : (p q : Provider) → Quiet p q → Balanced p → Balanced q
Quiet-Balanced p q (i, j) b e = rw (i, j) (b e)

release_events-Balanced :
    (o : Option ℕ) (p : Provider)
    → p.events ≡ o
    → Balanced p
    → (e : ℕ) → taken e (release_events o p).calls ≡ given_back e (release_events o p).calls
unfolding release_events
release_events-Balanced none p q b e = ground (arith, b e)
release_events-Balanced (some i) p q b e = ground (arith, b e)

advise-Balanced :
    (p : Provider) (events context : ℕ) → Balanced p → Balanced (advise p events context).0
unfolding advise
advise-Balanced p events context b e = ground (arith, release_events-Balanced p.events p refl b e)

un_advise-Balanced : (p : Provider) → Balanced p → Balanced (un_advise p).0
unfolding un_advise
un_advise-Balanced p b e = ground (arith, release_events-Balanced p.events p refl b e)

notify-Balanced : (o : Option ℕ) (p : Provider) → Balanced p → Balanced (notify o p)
unfolding notify
notify-Balanced none p b e = b e
notify-Balanced (some i) p b e = b e

arrival-Balanced :
    (host : Host) (p q : Provider) (c : Option Credentials) (a : Arrival)
    → arrival_at host p c a ≡ ok q
    → Balanced p
    → Balanced q
unfolding arrival_at
arrival-Balanced host p q none a h b = absurd cc
arrival-Balanced host p q (some c) a h b =
    let stored : Provider = record p {
      credentials = some (set_credentials host c (some a.username) (some a.password) a.domain);
    } in
    let same : notify p.events stored ≡ q = cc in rw (← same) (notify-Balanced p.events stored b)

make_objects-Quiet :
    (r : Resources) (unset : Scenario) (p : Provider) → Quiet p (make_objects r unset p).0
unfolding make_objects make_channel
make_objects-Quiet r unset p = (ground arith, ground arith)

start-Quiet :
    (self : ℕ) (r : Resources) (unset cpus : Scenario) (p : Provider)
    → Quiet p (start self r unset cpus p).0
unfolding start
start-Quiet self r unset cpus p = make_objects-Quiet r unset p

uses-Quiet :
    (self : ℕ) (r : Resources) (unset : Scenario) (p : Provider) (cpus : Scenario)
    → Quiet p (set_usage_scenario self r unset p cpus).0
unfolding set_usage_scenario
uses-Quiet self r unset p logon = start-Quiet self r unset logon p
uses-Quiet self r unset p unlock_workstation = start-Quiet self r unset unlock_workstation p
uses-Quiet self r unset p change_password = (refl, refl)
uses-Quiet self r unset p credui = (refl, refl)
uses-Quiet self r unset p other = (refl, refl)

credential_at-Quiet :
    (p : Provider) (c : Option Credentials) (index : ℕ) → Quiet p (credential_at p c index).0
unfolding credential_at
credential_at-Quiet p none index = (refl, refl)
credential_at-Quiet p (some c) index = (ground arith, ground arith)

query-Quiet : (p : Provider) (riid : Interface) (wanted : Bool) → Quiet p (query p riid wanted).0
unfolding query add_ref
query-Quiet p riid false = (refl, refl)
query-Quiet p riid true = (ground arith, ground arith)

release-Quiet : (p : Provider) → 2 ≤ p.refs → Quiet p (release p).0.provider
unfolding release
release-Quiet p kept = (ground (arith, kept), ground (arith, kept))

Step-Balanced : {p q : Provider} → Step p q → Balanced p → Balanced q
unfolding on_credentials_arrival get_credential_at add_ref
Step-Balanced {p} (advised events context h) b = rw h (advise-Balanced p events context b)
Step-Balanced {p} (unadvised h) b = rw h (un_advise-Balanced p b)
Step-Balanced {p} (arrives host a h) b = arrival-Balanced host p _ p.credentials a h b
Step-Balanced {p} (uses self r unset cpus h) b =
    rw h (
      Quiet-Balanced p (set_usage_scenario self r unset p cpus).0 (uses-Quiet self r unset p cpus)
        b)
Step-Balanced {p} (takes index h) b = rw h (
    Quiet-Balanced p (credential_at p p.credentials index).0
      (credential_at-Quiet p p.credentials index) b)
Step-Balanced {p} (adds h) b = rw h b
Step-Balanced {p} (queries riid wanted h) b =
    rw h (Quiet-Balanced p (query p riid wanted).0 (query-Quiet p riid wanted) b)
Step-Balanced {p} (releases kept h) b =
    rw h (Quiet-Balanced p (release p).0.provider (release-Quiet p kept) b)

Reach-Balanced : {p q : Provider} → Reach p q → Balanced p → Balanced q
Reach-Balanced {p} {q} r v = Run-keeps Step Balanced (λ x y s w. Step-Balanced s w) p q r v

-- However a new provider is used, its references taken, asked for and given back in any order included, the
-- release of its last reference deletes it, and by then each events object was given back as often as it was
-- taken.
pub release_balanced :
    (unset : ℕ) {p : Provider}
    → Reach (new unset) p
    → p.refs ≡ 1
    → (e : ℕ)
    → let gone = (release p).0.provider in
      (gone.deleted ≡ true) × (taken e gone.calls ≡ given_back e gone.calls)
unfolding release delete new
release_balanced unset {p} r one e =
    let b : Balanced p = Reach-Balanced r (λ i. refl) in
    rw one (refl, release_events-Balanced p.events (record p { refs = 0 }) refl b e)

-- Where there is memory, an instance is handed out exactly where the interface asked for is one of
-- the provider's and there is a place for the pointer; it then has one reference, and else it is
-- deleted.
pub create_instance_lem :
    (unset : ℕ) (riid : Interface) (wanted : Bool)
    → let (left, hr, set) = create_instance true unset riid wanted in
      (set ≡ (wanted && answers_provider riid))
      × (left.provider.deleted ≡ not set)
      × (left.provider.refs ≡ (if set then 1 else 0))
unfolding create_instance query release delete add_ref new release_events
create_instance_lem unset riid false = (refl, refl, refl)
create_instance_lem unset riid true = (ground arith, ground arith, ground arith)
