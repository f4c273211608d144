-- ===== src/CredProv/Helpers/Repack/Tests.antt =====
-- A block that is converted.
use ovirt_guest_agent.Prelude.{some, codes}
use ovirt_guest_agent.CredProv.Helpers.Examples.{heap, api}
use ovirt_guest_agent.CredProv.Helpers.Repack.{
  Wow, unpacked, kerb_interactive_unlock_logon_repack_native,
}
use ovirt_guest_agent.CredProv.Helpers.Repack.Clean.{Hands, Origin, repack_native_clean}

abbrev wow : Wow
wow = record {
  unpack_size = λ b. record { error = 122; username_count = 4; password_count = 3 };
  unpack = λ b. unpacked (codes "eve") (codes "pw") 3;
  pack_size = λ c. record { error = 122; size = 40 };
  pack = λ c. some (codes "native");
}

repack_native_clean_example :
    Hands
      (Origin wow (codes "wow"))
      heap
      (kerb_interactive_unlock_logon_repack_native api wow heap (codes "wow")).done
repack_native_clean_example = repack_native_clean api wow heap (codes "wow")
