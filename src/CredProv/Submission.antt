-- ===== src/CredProv/Submission.antt =====
-- The whole way of the agent's message through the credential provider, from the pipe to the block that
-- LogonUI submits.
use ovirt_guest_agent.Prelude.{
  ℕ, ◌*◌, ◌^◌, ◌<◌, ◌≡◌, ◌≢◌, true, some, ◌∷◌, ◌++◌, [], Bytes, NonZero, All, length,
}
use ovirt_guest_agent.PamOvirtCred.CredChannel.{ok}
use ovirt_guest_agent.PamOvirtCred.CredChannel.Parse.{pack}
use ovirt_guest_agent.CredProv.Channel as Chan
use ovirt_guest_agent.CredProv.Channel.{
  Wide, pipe_buffer, Arrival, Parsing, parse_credentials_buffer,
}
use ovirt_guest_agent.CredProv.Channel.Message.{Converts, Allocates}
use ovirt_guest_agent.CredProv.Credentials.{Credentials, Host}
use ovirt_guest_agent.CredProv.Provider.{Provider, on_credentials_arrival}
use ovirt_guest_agent.CredProv.Provider.Arrivals.{Copies, Offered, message-Offered}
use ovirt_guest_agent.CredProv.Serialization.{
  Windows, success, to_bytes, Serialization, get_serialization, unpack_in_place,
}
use ovirt_guest_agent.CredProv.Serialization.Layout.{Works}
use ovirt_guest_agent.CredProv.Serialization.Unpacking.{text_at, get_serialization-unpack}

-- The serialization of these credentials, unpacked where it lies, shows the bytes of the three strings, as
-- many behind each pointer as the block's own length of that string counts.
abbrev pub Submits : Windows → Credentials → Wide → Wide → Wide → Type 0
Submits w c username password domain =
    (s : Serialization) × (get_serialization w c ≡ success s)
    × (text_at w.struct_size s.block (unpack_in_place w s.block s.block.size).domain
          s.block.domain.length_bytes
        ≡ some (to_bytes domain))
    × (text_at w.struct_size s.block (unpack_in_place w s.block s.block.size).username
          s.block.username.length_bytes
        ≡ some (to_bytes username))
    × (text_at w.struct_size s.block (unpack_in_place w s.block s.block.size).password
          s.block.password.length_bytes
        ≡ some (to_bytes password))

-- From the pipe to the submission: a message with a user name, `@`, a domain and a password that is not
-- empty, as the agent packs them, at the front of the pipe's buffer, is parsed, reaches the provider, is
-- offered to LogonUI as the one credential for an automatic logon, and LogonUI is told so last; the
-- serialization of that credential then succeeds, and where it is unpacked its three strings, each of the
-- length that the block states for it, are those that the agent meant. The provider must hold its credential and an events object, each string has less
-- than 2 ^ 16 bytes, and Windows must have the memory, convert the strings and the numbers, make the
-- copies and find the package.
pub message_submitted :
    (host : Chan.Host) (copier : Host) (decode : Bytes → Wide)
    (message_user message_password rest : Bytes) (user domain secret : Wide) (p : Provider)
    (c : Credentials) (event : ℕ)
    → Converts host decode
    → Allocates host
    → Copies copier
    → length (pack message_user message_password ++ rest) ≡ pipe_buffer
    → decode message_user ≡ user ++ b'@' ∷ domain
    → decode (message_password ++ 0 ∷ []) ≡ secret ++ 0 ∷ []
    → All NonZero user
    → All NonZero domain
    → All NonZero secret
    → All (λ u. u ≢ b'@') user
    → 0 < length secret
    → p.credentials ≡ some c
    → p.events ≡ some event
    → (w : Windows) → Works w
    → 0 < w.struct_size
    → w.struct_size < 2 ^ 16
    → length user * 2 < 2 ^ 16
    → length secret * 2 < 2 ^ 16
    → length domain * 2 < 2 ^ 16
    → (m : Parsing) × (a : Arrival) × (q : Provider) × (stored : Credentials)
      × (parse_credentials_buffer host true
            (pack message_user message_password ++ rest)
            (length (pack message_user message_password))
          ≡ ok m)
      × (m.arrival ≡ some a)
      × (on_credentials_arrival copier p a ≡ ok q)
      × (q.credentials ≡ some stored)
      × Offered q event p.context user secret domain
      × Submits w stored user secret domain
message_submitted host copier decode mu mp rest user domain secret p c event conv mem copies size eu
      ep nu nd np no_at full held ev w works some_size small fits_user fits_secret fits_domain =
    let (m, a, q, parsed, arrived, ran, offered) =
      message-Offered host copier decode mu mp rest user domain secret p c event conv mem copies
        size eu ep nu nd np no_at full held ev in
    (
      m,
      a,
      q,
      offered.stored,
      parsed,
      arrived,
      ran,
      offered.held,
      offered,
      get_serialization-unpack w works offered.stored domain user secret some_size small fits_domain
          fits_user fits_secret offered.domain_eq offered.username_eq offered.password_eq,
    )
