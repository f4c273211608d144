-- ===== src/CredProv/Serialization/Tests.antt =====
-- A short logon.
use ovirt_guest_agent.Prelude.{◌≡◌, refl, false, some, [], arith, codes}
use ovirt_guest_agent.CredProv.Credentials.{Credentials, logon}
use ovirt_guest_agent.CredProv.Serialization.{
  success, to_bytes, Serialization, get_serialization, unpack_in_place,
}
use ovirt_guest_agent.CredProv.Serialization.Examples.{windows, windows-Works}
use ovirt_guest_agent.CredProv.Serialization.Unpacking.{text_at, get_serialization-unpack}

abbrev full : Credentials
full = record {
  refs = 1;
  username = some (codes "eve");
  password = some (codes "pw");
  domain = some (codes "PC");
  cpus = logon;
  freed = [];
  deleted = false;
}

get_serialization-unpack_example :
    (s : Serialization) × (get_serialization windows full ≡ success s)
    × (text_at 64 s.block
          (unpack_in_place windows s.block s.block.size).domain
          s.block.domain.length_bytes
        ≡ some (to_bytes (codes "PC")))
    × (text_at 64 s.block
          (unpack_in_place windows s.block s.block.size).username
          s.block.username.length_bytes
        ≡ some (to_bytes (codes "eve")))
    × (text_at 64 s.block
          (unpack_in_place windows s.block s.block.size).password
          s.block.password.length_bytes
        ≡ some (to_bytes (codes "pw")))
get_serialization-unpack_example =
    get_serialization-unpack windows windows-Works full (codes "PC") (codes "eve") (codes "pw")
      (omega arith) (omega arith) (omega arith) (omega arith) (omega arith) refl refl refl
