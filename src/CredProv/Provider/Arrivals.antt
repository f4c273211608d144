-- ===== src/CredProv/Provider/Arrivals.antt =====
-- From the agent's message to the credential that LogonUI submits by itself.
use ovirt_guest_agent.Prelude.{
  ℕ, ◌<◌, ◌≡◌, refl, ◌≢◌, ◌⊎◌, inl, inr, true, some, List, [], ◌∷◌, ◌++◌, arith, Bytes, NonZero,
  All, length, if◌then◌else◌,
}
use ovirt_guest_agent.PamOvirtCred.CredChannel.{ok}
use ovirt_guest_agent.PamOvirtCred.CredChannel.Parse.{pack}
use ovirt_guest_agent.CredProv.Channel as Chan
use ovirt_guest_agent.CredProv.Channel.{
  Wide, pipe_buffer, Arrival, Parsing, Handle, invalid, null, handle, Channel, init, is_invalid,
  create_channel, parse_credentials_buffer,
}
use ovirt_guest_agent.CredProv.Channel.Lifecycle.{create_channel_success}
use ovirt_guest_agent.CredProv.Channel.Message.{Converts, Allocates, message_arrives}
use ovirt_guest_agent.CredProv.Credentials.{
  Scenario, logon, unlock_workstation, s_ok, s_false, Credentials, Host, set_credentials,
}
use ovirt_guest_agent.CredProv.Credentials.Stored.{set_credentials_stores}
use ovirt_guest_agent.CredProv.Provider.{
  Provider, Call, credentials_changed, new, Resources, make_channel, make_objects, of_bool,
  open_channel, start, set_usage_scenario, count_of, get_credential_count, notify, arrival_at,
  on_credentials_arrival,
}

-- The copies of the three strings can be made.
pub record Copies (host : Host) : Type 0 where
  pub username_ok : host.dup_username ≡ true
  pub password_ok : host.dup_password ≡ true
  pub domain_ok : host.dup_domain ≡ true

-- The provider holds exactly these credentials, offers them as the one to log on with, and has told
-- LogonUI so, last of all.
pub record Offered (p : Provider) (event context : ℕ) (username password domain : Wide)
    : Type 0 where
  pub stored : Credentials
  pub held : p.credentials ≡ some stored
  pub username_eq : stored.username ≡ some username
  pub password_eq : stored.password ≡ some password
  pub domain_eq : stored.domain ≡ some domain
  pub counted :
      get_credential_count p ≡ ok (record { count = 1; default = 0; auto_logon = true; hr = s_ok })
  pub earlier : List Call
  pub told : p.calls ≡ credentials_changed event context ∷ earlier

arrival-Offered :
    (host : Host) (p : Provider) (c : Credentials) (event : ℕ) (username password domain : Wide)
    → Copies host
    → p.credentials ≡ some c
    → p.events ≡ some event
    → (q : Provider) × (on_credentials_arrival host p
          (record { username = username; password = password; domain = some domain })
        ≡ ok q)
      × Offered q event p.context username password domain
unfolding on_credentials_arrival arrival_at notify get_credential_count count_of
arrival-Offered host p c event username password domain copies held ev =
    let (got, u, w, d) =
      set_credentials_stores host c username password domain (some domain) copies.username_ok
        copies.password_ok copies.domain_ok (inl refl) in
    let stored = set_credentials host c (some username) (some password) (some domain) in
    let arrived : Provider = record p {
      credentials = some stored;
      calls = credentials_changed event p.context ∷ p.calls;
    } in
    (
      arrived,
      rw (held, ev) refl,
      record {
        stored = stored;
        held = refl;
        username_eq = u;
        password_eq = w;
        domain_eq = d;
        counted = rw got refl;
        earlier = p.calls;
        told = refl;
      },
    )

-- From end to end: a message with a user name, `@`, a domain and a password that is not empty, as
-- the agent packs them, at the front of the pipe's buffer, is parsed, reaches the listener, and is
-- then offered to LogonUI as the one credential for an automatic logon, each string as the agent
-- meant it; LogonUI is told so last. The provider must hold its credential and an events object,
-- and Windows must have the memory, convert the strings and make the copies.
pub message-Offered :
    (host : Chan.Host) (copier : Host) (decode : Bytes → Wide)
    (message_user message_password rest : Bytes) (user domain secret : Wide) (p : Provider)
    (c : Credentials) (event : ℕ)
    → Converts host decode
    → Allocates host
    → Copies copier
    → length (pack message_user message_password ++ rest) ≡ pipe_buffer
    → decode message_user ≡ user ++ b'@' ∷ domain
    → decode (message_password ++ 0 ∷ []) ≡ secret ++ 0 ∷ []
    → All NonZero user
    → All NonZero domain
    → All NonZero secret
    → All (λ u. u ≢ b'@') user
    → 0 < length secret
    → p.credentials ≡ some c
    → p.events ≡ some event
    → (m : Parsing) × (a : Arrival) × (q : Provider) × (parse_credentials_buffer host true
          (pack message_user message_password ++ rest)
          (length (pack message_user message_password))
        ≡ ok m)
      × (m.arrival ≡ some a)
      × (on_credentials_arrival copier p a ≡ ok q)
      × Offered q event p.context user secret domain
message-Offered host copier decode mu mp rest user domain secret p c event conv mem copies size eu
      ep nu nd np no_at full held ev =
    let (m, parsed, arrived) =
      message_arrives host decode mu mp rest user domain secret conv mem size eu ep nu nd np no_at
        full in
    let (q, ran, offered) = arrival-Offered copier p c event user secret domain copies held ev in
    (
      m,
      record { username = user; password = secret; domain = some domain },
      q,
      parsed,
      arrived,
      ran,
      offered,
    )

-- For the two scenarios that it serves, a new provider with the memory for its objects reports S_OK
-- where the handle of the pipe or of the thread is INVALID_HANDLE_VALUE, and S_FALSE else: no
-- answer of Windows makes it report a failure.
pub set_usage_scenario_succeeds :
    (self unset : ℕ) (r : Resources) (scenario cpus : Scenario)
    → r.credentials_memory ≡ true
    → r.channel_memory ≡ true
    → (cpus ≡ logon) ⊎ (cpus ≡ unlock_workstation)
    → (set_usage_scenario self r scenario (new unset) cpus).1
      ≡ (if is_invalid r.pipe then s_ok else if is_invalid r.thread then s_ok else s_false)
unfolding set_usage_scenario start open_channel make_objects make_channel of_bool new
set_usage_scenario_succeeds self unset r scenario cpus cm chm w =
    let s = create_channel_success init self r.pipe r.thread in
    elim w [ inl e ↦ rw (e, cm, chm, s) (ground arith) | inr e ↦ rw (e, cm, chm, s) (ground arith) ]
