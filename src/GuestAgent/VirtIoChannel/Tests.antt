-- ===== src/GuestAgent/VirtIoChannel/Tests.antt =====
-- A heartbeat, written in three parts and read in two.
use ovirt_guest_agent.Prelude.{
  ℕ, ◌≡◌, refl, some, List, [], ◌∷◌, All, map, Bytes, codes, arith, replicate, take, drop,
}
use ovirt_guest_agent.GuestAgent.VirtIoChannel.{
  Value, text, other, dict, no_entries, entry, Json, parse_line, filter_object, has_key, encode,
}
use ovirt_guest_agent.GuestAgent.VirtIoChannel.Filter.{Clean, CleanEntries, filter_object_lem}
use ovirt_guest_agent.GuestAgent.VirtIoChannel.Lines.{concat, framed, to_come, read_lines}
use ovirt_guest_agent.GuestAgent.VirtIoChannel.RoundTrip.{
  Message, Faithful, object_of, Taken, Sendable, lines, messages, write_all, messages_arrive,
}

-- A string with a control character in it.
abbrev noisy : Value
noisy = dict (entry (codes "name") (text (7 ∷ codes "x")) no_entries)

filter_object_lem_example :
    Clean (filter_object noisy) × (filter_object (filter_object noisy) ≡ filter_object noisy)
filter_object_lem_example = filter_object_lem noisy

abbrev heartbeat : Message
heartbeat = record { name = codes "hb"; args = entry (codes "ram") (other 512) no_entries }

-- An encoding that is good for the heartbeat.
abbrev json : Json
json = record {
  dumps = λ v. codes "{ram: 512, __name__: hb}";
  loads = λ line. some (object_of heartbeat);
}

json-Faithful : Faithful json (object_of heartbeat)
json-Faithful = record { one_line = ground arith; loads_dumps = refl }

heartbeat-Sendable : Sendable heartbeat
unfolding has_key CleanEntries Clean
heartbeat-Sendable = (ground arith, (ground arith, tt, refl, tt), refl)

abbrev sending : List (Message × List ℕ)
sending = (heartbeat, replicate 30 9) ∷ []

sending-Taken : All (Taken json) sending
unfolding encode
sending-Taken = ((ground arith, omega arith), tt)

abbrev bytes : Bytes
bytes = framed (lines json sending)

messages_arrive_example :
    (sent : List Bytes) × (write_all json sending ≡ some sent)
    × (concat sent ≡ concat (take 5 bytes ∷ drop 5 bytes ∷ []))
    × (left : Bytes) × (unread : List Bytes) × (got : List Bytes) × (read_lines 1 []
          (take 5 bytes ∷ drop 5 bytes ∷ [])
        ≡ some (got, left, unread))
    × (map (parse_line json) got ≡ messages sending)
    × (to_come left unread ≡ [])
messages_arrive_example =
    messages_arrive json sending (take 5 bytes ∷ drop 5 bytes ∷ []) (json-Faithful, tt)
      (heartbeat-Sendable, tt) sending-Taken refl
