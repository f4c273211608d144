-- ===== src/CredProv/Helpers/Examples.antt =====
-- A heap with one block, and calls that all succeed.
use ovirt_guest_agent.Prelude.{[], ◌∷◌, true, false}
use ovirt_guest_agent.CredProv.Helpers.{Heap, Api}

abbrev pub heap : Heap
heap = record { next = 5; live = 2 ∷ []; corrupt = false }

abbrev pub api : Api
api = record {
  allocates = λ block size. true;
  str_dup = λ block text. 0;
  hresult_from_win32 = λ error. 0x80070000;
}
