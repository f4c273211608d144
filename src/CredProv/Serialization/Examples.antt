-- ===== src/CredProv/Serialization/Examples.antt =====
-- A Windows whose conversions refuse what does not fit.
use ovirt_guest_agent.Prelude.{◌*◌, ◌^◌, refl, true, some, none, if◌then◌else◌, ltb, lt→ltb}
use ovirt_guest_agent.CredProv.Serialization.{Windows}
use ovirt_guest_agent.CredProv.Serialization.Layout.{Works}

abbrev pub windows : Windows
windows = record {
  struct_size = 64;
  size_t_to_ushort = λ n. if ltb n (2 ^ 16) then some n else none;
  ushort_mult = λ a b. if ltb (a * b) (2 ^ 16) then some (a * b) else none;
  co_task_mem_alloc = λ n. true;
  lsa_connects = true;
  lsa_lookup = λ name. some 2;
}

abbrev pub windows-Works : Works windows
windows-Works = record {
  converts = λ n h. rw (lt→ltb n (2 ^ 16) h);
  multiplies = λ a b h. rw (lt→ltb (a * b) (2 ^ 16) h);
  allocates = λ n. refl;
  auth_package = 2;
  connects = refl;
  finds = refl;
}
