-- ===== src/CredProv/Serialization/LogonInit.antt =====
-- KerbInteractiveUnlockLogonInit() of windows-credprov/Helpers.cpp, which the credential does not call:
-- its GetSerialization() does the same by itself.
use ovirt_guest_agent.Prelude.{◌≡◌, refl, Option, none, some}
use ovirt_guest_agent.CredProv.Channel.{Wide}
use ovirt_guest_agent.CredProv.Credentials.{
  Scenario, logon, unlock_workstation, change_password, credui, other, Credentials,
}
use ovirt_guest_agent.CredProv.Serialization.{
  unspecified, Answer, success, failure, ◌>>=◌, Windows, UnicodeString, unicode_string_init,
  MessageType, interactive_logon, workstation_unlock_logon, logon_pack, Serialization,
  message_type_of, get_serialization, retrieve_negotiate_auth_package,
}

-- KERB_INTERACTIVE_UNLOCK_LOGON; `none` is the number 0, which is the type of no message.
pub record UnlockLogon : Type 0 where
  pub message_type : Option MessageType
  pub domain : UnicodeString
  pub username : UnicodeString
  pub password : UnicodeString

pub submit_type : Scenario → Answer (Option MessageType)
submit_type unlock_workstation = success (some workstation_unlock_logon)
submit_type logon = success (some interactive_logon)
submit_type credui = success none
submit_type change_password = failure unspecified
submit_type other = failure unspecified

pub kerb_interactive_unlock_logon_init :
    Windows → Option Wide → Option Wide → Option Wide → Scenario → Answer UnlockLogon
kerb_interactive_unlock_logon_init w domain username password cpus = do
  d ← unicode_string_init w domain
  u ← unicode_string_init w username
  p ← unicode_string_init w password
  type ← submit_type cpus
  success (record { message_type = type; domain = d; username = u; password = p })

-- A serialization by way of it: its strings are packed behind a message of its type.
abbrev pub pack_typed : Windows → UnlockLogon → Answer Serialization
pack_typed w k = elim k.message_type [
  | none ↦ failure unspecified
  | some type ↦ logon_pack w type k.domain k.username k.password >>= (λ block.
      (retrieve_negotiate_auth_package w).0
      >>= (λ auth_package. success (record { block = block; auth_package = auth_package })))
]

abbrev pub via_init : Windows → Credentials → Answer Serialization
via_init w c =
    kerb_interactive_unlock_logon_init w c.domain c.username c.password c.cpus >>= pack_typed w

-- The scenarios in which a user logs on or unlocks the station.
pub data LogsOn : Scenario → Type 0 where
  logs_on : LogsOn logon
  unlocks : LogsOn unlock_workstation

-- Where a user logs on or unlocks the station, GetSerialization() gives what Microsoft's helper followed by the
-- packing and the lookup of the package gives, failures included.
pub get_serialization-via_init :
    (w : Windows) (c : Credentials) → LogsOn c.cpus → get_serialization w c ≡ via_init w c
unfolding get_serialization kerb_interactive_unlock_logon_init submit_type
get_serialization-via_init w c l =
    go (unicode_string_init w c.domain) (unicode_string_init w c.username)
      (unicode_string_init w c.password) c.cpus l
  where
    go :
        (d u p : Answer UnicodeString) (cpus : Scenario)
        → LogsOn cpus
        → (d >>= (λ d. u >>= (λ u. p >>= (λ p.
            logon_pack w (message_type_of cpus) d u p >>= (λ block.
              (retrieve_negotiate_auth_package w).0 >>= (λ auth_package.
                success (record { block = block; auth_package = auth_package })))))))
          ≡ ((d >>= (λ d. u >>= (λ u. p >>= (λ p. submit_type cpus >>= (λ type.
                success
                  (record { message_type = type; domain = d; username = u; password = p }))))))
              >>= pack_typed w)
    go (failure why) u p cpus l = refl
    go (success d) (failure why) p cpus l = refl
    go (success d) (success u) (failure why) cpus l = refl
    go (success d) (success u) (success p) logon logs_on = refl
    go (success d) (success u) (success p) unlock_workstation unlocks = refl
    go (success d) (success u) (success p) change_password l = elim l [ ]
    go (success d) (success u) (success p) credui l = elim l [ ]
    go (success d) (success u) (success p) other l = elim l [ ]
