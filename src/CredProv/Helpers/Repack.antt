-- ===== src/CredProv/Helpers/Repack.antt =====
-- KerbInteractiveUnlockLogonRepackNative() of windows-credprov/Helpers.cpp: a block of the 32-bit system is
-- unpacked and packed again. The credential manager is an argument.
mod Clean
mod Tests
use ovirt_guest_agent.Prelude.{ℕ, suc, ◌*◌, ◌==◌, Option, none, some, Bytes, if◌then◌else◌}
use ovirt_guest_agent.CredProv.Channel.{Wide}
use ovirt_guest_agent.CredProv.Helpers.{
  s_ok, e_outofmemory, error_insufficient_buffer, succeeded, Heap, taken, free, Done, Api,
}

-- CredUnPackAuthenticationBufferW() into two buffers: user name, password and the count of the password, or
-- the error and that count.
pub data Unpack : Type 0 where
  unpacked : Wide → Wide → ℕ → Unpack
  refused : ℕ → ℕ → Unpack

-- The same without buffers: what GetLastError() gives then, and the units asked for.
pub record UnpackSize : Type 0 where
  pub error : ℕ
  pub username_count : ℕ
  pub password_count : ℕ

pub record PackSize : Type 0 where
  pub error : ℕ
  pub size : ℕ

-- CredPackAuthenticationBufferW() is given what stands in the two buffers; `none` is what LocalAlloc() left
-- there.
pub record Wow : Type 0 where
  pub unpack_size : Bytes → UnpackSize
  pub unpack : Bytes → Unpack
  pub pack_size : Option (Wide × Wide) → PackSize
  pub pack : Option (Wide × Wide) → Option Bytes

-- `hr`, the two buffers, what stands in them, the count of the password, and the heap, between the steps.
pub record Strings : Type 0 where
  pub hr : ℕ
  pub username : Option ℕ
  pub password : Option ℕ
  pub contents : Option (Wide × Wide)
  pub password_count : ℕ
  pub heap : Heap

unpack_into : Heap → Unpack → Strings
unpack_into h (unpacked username password count) = record {
  hr = s_ok;
  username = some h.next;
  password = some (suc h.next);
  contents = some (username, password);
  password_count = count;
  heap = taken (taken h);
}
unpack_into h (refused error count) = record {
  hr = error;
  username = some h.next;
  password = some (suc h.next);
  contents = none;
  password_count = count;
  heap = taken (taken h);
}

without_strings : Heap → Option ℕ → UnpackSize → Strings
without_strings h username needed = record {
  hr = e_outofmemory;
  username = username;
  password = none;
  contents = none;
  password_count = needed.password_count;
  heap = h;
}

unpack_wow : Api → Wow → Heap → Bytes → Strings
unpack_wow api wow h rgb_wow =
    let needed = wow.unpack_size rgb_wow in
    if needed.error == error_insufficient_buffer
    then (if api.allocates h.next (needed.username_count * 2)
        then (if api.allocates (suc h.next) (needed.password_count * 2)
            then unpack_into h (wow.unpack rgb_wow)
            else without_strings (taken h) (some h.next) needed)
        else without_strings h none needed)
    else without_strings h none needed

pub record Native : Type 0 where
  pub block : ℕ
  pub bytes : Bytes

-- What the function returns, a pointer that it leaves in `*prgbNative` to a block that is gone, `*pcbNative`,
-- and the block that it wiped with the number of bytes.
pub record Repacked : Type 0 where
  pub done : Done Native
  pub stale : Option ℕ
  pub size : ℕ
  pub wiped : Option (ℕ × ℕ)

pack_into : Heap → ℕ → Option Bytes → Repacked
pack_into h size (some bytes) = record {
  done = record {
    hr = s_ok;
    out = some (record { block = h.next; bytes = bytes });
    heap = taken h;
  };
  stale = none;
  size = size;
  wiped = none;
}
pack_into h size none = record {
  done = record { hr = e_outofmemory; out = none; heap = free (taken h) h.next };
  stale = some h.next;
  size = size;
  wiped = none;
}

unpackable : ℕ → ℕ → Heap → Repacked
unpackable hr size h = record {
  done = record { hr = hr; out = none; heap = h };
  stale = none;
  size = size;
  wiped = none;
}

repack : Api → Wow → Strings → Repacked
repack api wow s =
    let needed = wow.pack_size s.contents in
    if succeeded s.hr
    then (if needed.error == error_insufficient_buffer
        then (if api.allocates s.heap.next needed.size
            then pack_into s.heap needed.size (wow.pack s.contents)
            else unpackable e_outofmemory needed.size s.heap)
        else unpackable e_outofmemory needed.size s.heap)
    else unpackable s.hr 0 s.heap

-- LocalFree()
local_free : Heap → Option ℕ → Heap
local_free h none = h
local_free h (some b) = free h b

clean_up : Strings → Repacked → Repacked
clean_up s r =
    let left = local_free (local_free r.done.heap s.username) s.password in
    record r {
      done = record r.done { heap = left };
      wiped = elim s.password [ none ↦ none | some b ↦ some (b, s.password_count * 2) ];
    }

pub kerb_interactive_unlock_logon_repack_native : Api → Wow → Heap → Bytes → Repacked
kerb_interactive_unlock_logon_repack_native api wow h rgb_wow =
    let strings = unpack_wow api wow h rgb_wow in clean_up strings (repack api wow strings)
