-- ===== src/GuestAgent/VirtIoChannel/RoundTrip.antt =====
-- From one end of the channel to the other.
use mathlib.Core.List.{append_assoc, append-nil}
use ovirt_guest_agent.Prelude.{
  ℕ, suc, ◌≤◌, ◌<◌, ◌≡◌, refl, sym, ap, ◌∙◌, false, Option, none, some, List, [], ◌∷◌, ◌++◌, map,
  Bytes, All, arith, length,
}
use ovirt_guest_agent.GuestAgent.VirtIoChannel.{
  newline, Value, text, dict, Entries, has_key, filter_object, Json, name_key, store, parse_line,
  encode, write,
}
use ovirt_guest_agent.GuestAgent.VirtIoChannel.Keys.{pop-store}
use ovirt_guest_agent.GuestAgent.VirtIoChannel.Filter.{
  Xml, CleanEntries, CleanEntries-dict, filter_object-same, store-Clean,
}
use ovirt_guest_agent.GuestAgent.VirtIoChannel.Lines.{
  NoNewline, concat, framed, to_come, read_lines, read_lines-framed, write_loop_whole,
}

-- What json documents: one line, since dumps() escapes newlines, from which loads() gives the object back.
pub record Faithful (json : Json) (v : Value) : Type 0 where
  pub one_line : NoNewline (json.dumps v)
  pub loads_dumps : json.loads (json.dumps v) ≡ some v

pub record Message : Type 0 where
  pub name : List ℕ
  pub args : Entries

-- A message that the filter does not change, and that has no argument of the name of its name.
abbrev pub Sendable : Message → Type 0
Sendable m = All Xml m.name × CleanEntries m.args × (has_key name_key m.args ≡ false)

-- The object that is sent for it, and its line.
abbrev pub object_of : Message → Value
object_of m = filter_object (dict (store name_key (text m.name) m.args))

abbrev pub line_of : Json → Message → Bytes
line_of json m = json.dumps (object_of m)

-- What is read of it.
abbrev pub received : Message → Option (Value × Entries)
received m = some (text m.name, m.args)

parse_line_of :
    (json : Json) (m : Message)
    → Faithful json (object_of m)
    → Sendable m
    → parse_line json (line_of json m) ≡ received m
unfolding parse_line
parse_line_of json m f (x, c, fresh) =
    rw (parse_line, f.loads_dumps, whole) (pop-store name_key (text m.name) m.args fresh)
  where
    whole :
        filter_object (dict (store name_key (text m.name) m.args))
        ≡ dict (store name_key (text m.name) m.args)
    whole = filter_object-same (dict (store name_key (text m.name) m.args)) (
        CleanEntries-dict (store name_key (text m.name) m.args)
          (store-Clean name_key m.name m.args fresh (ground arith) x c))

-- Each message is written with what the stream takes at each write.
pub write_all : Json → List (Message × List ℕ) → Option (List Bytes)
write_all json [] = some []
write_all json ((m, counts) ∷ ms) = elim (write json m.name m.args counts) [
  | none ↦ none
  | some pieces ↦ elim (write_all json ms) [ none ↦ none | some others ↦ some (pieces ++ others) ]
]

-- The stream takes something at each write, and as often as it may have to.
abbrev pub Taken : Json → Message × List ℕ → Type 0
Taken json (m, counts) =
    All (λ n. 0 < n) counts × (length (encode json m.name m.args) ≤ length counts)

abbrev pub lines : Json → List (Message × List ℕ) → List Bytes
lines json [] = []
lines json ((m, counts) ∷ ms) = line_of json m ∷ lines json ms

abbrev pub messages : List (Message × List ℕ) → List (Option (Value × Entries))
messages [] = []
messages ((m, counts) ∷ ms) = received m ∷ messages ms

concat-append : (ps qs : List Bytes) → concat (ps ++ qs) ≡ concat ps ++ concat qs
concat-append [] qs = refl
concat-append (p ∷ ps) qs =
    ap (λ x. p ++ x) (concat-append ps qs) ∙ sym (append_assoc p (concat ps) (concat qs))

write_all_step :
    (json : Json) (m : Message) (counts : List ℕ) (ms : List (Message × List ℕ))
    (pieces others : List Bytes)
    → write json m.name m.args counts ≡ some pieces
    → write_all json ms ≡ some others
    → write_all json ((m, counts) ∷ ms) ≡ some (pieces ++ others)
unfolding write_all
write_all_step json m counts ms pieces others w ws = rw (write_all, w, ws) refl

write_all-framed :
    (json : Json) (ms : List (Message × List ℕ))
    → All (Taken json) ms
    → (sent : List Bytes) × (write_all json ms ≡ some sent) × (concat sent ≡ framed (lines json ms))
unfolding write_all write encode
write_all-framed json [] t = ([], refl, refl)
write_all-framed json ((m, counts) ∷ ms) t =
    let (pieces, done, whole) = write_loop_whole counts (encode json m.name m.args) t.0.0 t.0.1 in
    let (others, rest, framed_rest) = write_all-framed json ms t.1 in
    (
      pieces ++ others,
      write_all_step json m counts ms pieces others done rest,
      concat-append pieces others
          ∙ ap (λ x. x ++ concat others) whole
          ∙ append_assoc (line_of json m) (newline ∷ []) (concat others)
          ∙ ap (λ x. line_of json m ++ newline ∷ x) framed_rest,
    )

lines-NoNewline :
    (json : Json) (ms : List (Message × List ℕ))
    → All (λ m. Faithful json (object_of m.0)) ms
    → All NoNewline (lines json ms)
lines-NoNewline json [] f = tt
lines-NoNewline json ((m, counts) ∷ ms) f = (f.0.one_line, lines-NoNewline json ms f.1)

parse_lines :
    (json : Json) (ms : List (Message × List ℕ))
    → All (λ m. Faithful json (object_of m.0)) ms
    → All (λ m. Sendable m.0) ms
    → map (parse_line json) (lines json ms) ≡ messages ms
parse_lines json [] f s = refl
parse_lines json ((m, counts) ∷ ms) f s =
    rw (parse_line_of json m f.0 s.0, parse_lines json ms f.1 s.1) refl

length-lines : (json : Json) (ms : List (Message × List ℕ)) → length (lines json ms) ≡ length ms
length-lines json [] = refl
length-lines json ((m, counts) ∷ ms) = ap suc (length-lines json ms)

-- What one end writes the other reads: where the json module is faithful to the objects sent, the messages are made of XML
-- characters and have their keys once, and the stream takes something at each write, all messages are
-- written, and whoever gets their bytes, cut into whatever pieces, reads just these messages in their
-- order, nothing being left over.
pub messages_arrive :
    (json : Json) (ms : List (Message × List ℕ)) (pieces : List Bytes)
    → All (λ m. Faithful json (object_of m.0)) ms
    → All (λ m. Sendable m.0) ms
    → All (Taken json) ms
    → concat pieces ≡ framed (lines json ms)
    → (sent : List Bytes) × (write_all json ms ≡ some sent)
      × (concat sent ≡ concat pieces)
      × (left : Bytes) × (unread : List Bytes) × (got : List Bytes) × (read_lines
            (length ms)
            []
            pieces
          ≡ some (got, left, unread))
      × (map (parse_line json) got ≡ messages ms)
      × (to_come left unread ≡ [])
messages_arrive json ms pieces f s t same =
    let (sent, written, whole) = write_all-framed json ms t in
    let (left, unread, read, over) =
      read_lines-framed (lines json ms) [] pieces [] (lines-NoNewline json ms f)
        (same ∙ sym (append-nil (framed (lines json ms)))) in
    (
      sent,
      written,
      whole ∙ sym same,
      left,
      unread,
      lines json ms,
      ap (λ n. read_lines n [] pieces) (sym (length-lines json ms)) ∙ read,
      parse_lines json ms f s,
      over,
    )
