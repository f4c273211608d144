-- ===== src/CredProv/Credentials/Tests.antt =====
-- Credentials with and without a domain.
use ovirt_guest_agent.Prelude.{◌≡◌, refl, true, false, none, some, [], ◌∷◌, codes}
use ovirt_guest_agent.CredProv.Credentials.{Credentials, Host, logon, set_credentials, release, new}
use ovirt_guest_agent.CredProv.Credentials.Stored.{
  Blank, Whole, set_credentials-Whole, release_erases,
}

abbrev host : Host
host = record {
  dup_username = true;
  dup_password = true;
  dup_domain = true;
  computer_name = some (codes "PC");
}

abbrev poor_host : Host
poor_host = record host { dup_password = false }

set_credentials-Whole_example :
    Whole (set_credentials poor_host (new logon) (some (codes "eve")) (some (codes "pw")) none)
set_credentials-Whole_example =
    set_credentials-Whole poor_host (new logon) (some (codes "eve")) (some (codes "pw")) none

abbrev stored : Credentials
stored = set_credentials host (new logon) (some (codes "eve")) (some (codes "pw")) none

abbrev full : Credentials
full = record {
  refs = 1;
  username = some (codes "eve");
  password = some (codes "pw");
  domain = some (codes "PC");
  cpus = logon;
  freed = [];
  deleted = false;
}

release_erases_example :
    ((release full).0.deleted ≡ true)
    × Blank (release full).0
    × ((release full).0.freed ≡ codes "PC" ∷ (0 ∷ 0 ∷ []) ∷ codes "eve" ∷ [])
release_erases_example =
    release_erases full (codes "eve") (codes "pw") (codes "PC") refl refl refl refl
