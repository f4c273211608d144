-- ===== src/CredProv/Helpers/Protect/Tests.antt =====
-- An encryption that puts a mark in front.
use ovirt_guest_agent.Prelude.{
  ◌≡◌, refl, ◌+◌, ◌==◌, ℕ, [], ◌∷◌, false, some, none, codes, length, arith, if◌then◌else◌, Option,
}
use ovirt_guest_agent.CredProv.Channel.{Wide}
use ovirt_guest_agent.CredProv.Credentials.{logon}
use ovirt_guest_agent.CredProv.Helpers.{Text, taken, succeeded, sh_str_dup, Heap}
use ovirt_guest_agent.CredProv.Helpers.Examples.{heap, api}
use ovirt_guest_agent.CredProv.Helpers.Protect.{
  encrypted, Credman, protect_if_necessary_and_copy_password, with_copy, encrypt, protect_copy,
  protect_and_copy_string, already_encrypted, copy_or_protect, release,
}
use ovirt_guest_agent.CredProv.Helpers.Protect.Once.{
  Reports, Recognised, Protects, Sound, protect-Sound, protect_once,
}

abbrev marked : Wide → Option ℕ
marked [] = none
marked (c ∷ s) = some (if c == b'@' then 2 else 0)

abbrev credman : Credman
credman = record {
  cred_is_protected = marked;
  cred_protect_size = λ s. record { done = false; error = 122; count = length s + 2 };
  cred_protect = λ s n. encrypted (b'@' ∷ s);
}

credman-Reports : Reports api credman
unfolding succeeded
credman-Reports = record {
  converts = λ e n. refl;
  size_reports = λ s e. omega (arith, e);
  protect_reports = λ s n e p. absurd (ground (arith, p));
}

known : Recognised credman
known s t (n, e) = (2, ground (arith, e), omega arith)

protect-Sound_example :
    Sound
      (Protects credman logon (some (codes "pw")))
      heap
      (protect_if_necessary_and_copy_password api credman heap (some (codes "pw")) logon)
protect-Sound_example = protect-Sound api credman credman-Reports logon heap (some (codes "pw"))

abbrev protected : Text
protected = record { block = 7; text = codes "@pw" }

first_time :
    (protect_if_necessary_and_copy_password api credman heap (some (codes "pw")) logon).out
    ≡ some protected
unfolding protect_if_necessary_and_copy_password with_copy encrypt protect_copy
    protect_and_copy_string already_encrypted copy_or_protect release sh_str_dup succeeded taken
first_time = refl

abbrev later : Heap
later = record { next = 8; live = 7 ∷ 2 ∷ []; corrupt = false }

abbrev copy : Text
copy = record { block = 9; text = codes "@pw" }

second_time :
    (protect_if_necessary_and_copy_password api credman later (some protected.text) logon).out
    ≡ some copy
unfolding protect_if_necessary_and_copy_password with_copy already_encrypted copy_or_protect release
    sh_str_dup succeeded taken
second_time = refl

protect_once_example : copy.text ≡ protected.text
protect_once_example =
    protect_once api credman logon heap later (some (codes "pw")) protected copy credman-Reports
      known first_time second_time
