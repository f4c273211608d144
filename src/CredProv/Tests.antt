-- ===== src/CredProv/Tests.antt =====
-- A message of the agent on its way to LogonUI.
use ovirt_guest_agent.Prelude.{◌≡◌, refl, true, false, none, some, [], ◌++◌, arith, codes}
use ovirt_guest_agent.PamOvirtCred.CredChannel.{ok}
use ovirt_guest_agent.PamOvirtCred.CredChannel.Parse.{pack}
use ovirt_guest_agent.CredProv.Channel.{Parsing, Arrival, parse_credentials_buffer}
use ovirt_guest_agent.CredProv.Channel.Examples.{
  host, decode, host-Converts, user, domain, secret, rest, user-NonZero, domain-NonZero,
  secret-NonZero, user_without_at,
}
use ovirt_guest_agent.CredProv.Credentials.{Host, logon, Credentials}
use ovirt_guest_agent.CredProv.Credentials as Cred
use ovirt_guest_agent.CredProv.Provider.{Provider, on_credentials_arrival}
use ovirt_guest_agent.CredProv.Provider.Arrivals.{Copies, Offered}
use ovirt_guest_agent.CredProv.Serialization.Examples.{windows, windows-Works}
use ovirt_guest_agent.CredProv.Submission.{Submits, message_submitted}

abbrev copier : Host
copier = record {
  dup_username = true;
  dup_password = true;
  dup_domain = true;
  computer_name = none;
}

abbrev copier-Copies : Copies copier
copier-Copies = record { username_ok = refl; password_ok = refl; domain_ok = refl }

abbrev provider : Provider
provider = record {
  refs = 1;
  channel = none;
  credentials = some (Cred.new logon);
  events = some 7;
  context = 9;
  deleted = false;
  calls = [];
}

message_submitted_example :
    (m : Parsing) × (a : Arrival) × (q : Provider) × (stored : Credentials)
    × (parse_credentials_buffer host true (pack (codes "eve@lab") secret ++ rest) 18 ≡ ok m)
    × (m.arrival ≡ some a)
    × (on_credentials_arrival copier provider a ≡ ok q)
    × (q.credentials ≡ some stored)
    × Offered q 7 9 user secret domain
    × Submits windows stored user secret domain
message_submitted_example =
    message_submitted host copier decode (codes "eve@lab") secret rest user domain secret provider
      (Cred.new logon) 7 host-Converts (λ n. refl) copier-Copies refl refl refl user-NonZero
      domain-NonZero secret-NonZero user_without_at (omega arith) refl refl windows windows-Works
      (omega arith) (omega arith) (omega arith) (omega arith) (omega arith)
