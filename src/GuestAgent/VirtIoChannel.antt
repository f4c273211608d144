-- ===== src/GuestAgent/VirtIoChannel.antt =====
-- ovirt-guest-agent/VirtIoChannel.py: the messages between agent and host, one JSON object in a line. What
-- the stream gives and takes is an argument, and so is the json module.
pub mod Lines
mod Keys
pub mod Filter
pub mod RoundTrip
mod Tests
use ovirt_guest_agent.Prelude.{
  ℕ, ◌≤◌, Bool, true, false, ◌&&◌, ◌||◌, Option, none, some, List, [], ◌∷◌, ◌++◌, Bytes, codes,
  str_eq, take, drop, leb, ltb, ◌==◌, if◌then◌else◌,
}

abbrev pub replacement_char : ℕ
replacement_char = 0xFFFD

abbrev pub newline : ℕ
newline = b'\n'

abbrev within : ℕ → ℕ → ℕ → Bool
within low high c = leb low c && leb c high

-- __RESTRICTED_CHARS
abbrev restricted : ℕ → Bool
restricted c =
    leb c 8 || within 0xB 0xC c || within 0xE 0x1F c || within 0x7F 0x84 c || within 0x86 0x9F c

-- The category 'Cs'.
abbrev surrogate : ℕ → Bool
surrogate c = within 0xD800 0xDFFF c

pub filter_xml_char : ℕ → ℕ
filter_xml_char c =
    if ltb 0x10FFFF c
    then replacement_char
    else if surrogate c
    then replacement_char
    else if c == 0xFFFE || c == 0xFFFF
    then replacement_char
    else if restricted c
    then replacement_char
    else c

-- A unicode string is the list of its code points.
pub filter_xml_chars : List ℕ → List ℕ
filter_xml_chars [] = []
filter_xml_chars (c ∷ s) = filter_xml_char c ∷ filter_xml_chars s

-- What is sent: a string, something else that is no container, a list or tuple, a dict.
mutual
  pub data Value : Type 0 where
    text : List ℕ → Value
    other : ℕ → Value
    sequence : Values → Value
    dict : Entries → Value

  pub data Values : Type 0 where
    no_values : Values
    value : Value → Values → Values

  pub data Entries : Type 0 where
    no_entries : Entries
    entry : List ℕ → Value → Entries → Entries

pub has_key : List ℕ → Entries → Bool
has_key key no_entries = false
has_key key (entry k v es) = str_eq k key || has_key key es

-- dict() of pairs: of two with one key the later counts.
pub add_before : List ℕ → Value → Entries → Entries
add_before key v es = if has_key key es then es else entry key v es

mutual
  pub filter_object : Value → Value
  filter_object (text s) = text (filter_xml_chars s)
  filter_object (other n) = other n
  filter_object (sequence vs) = sequence (filter_values vs)
  filter_object (dict es) = dict (filter_entries es)

  pub filter_values : Values → Values
  filter_values no_values = no_values
  filter_values (value v vs) = value (filter_object v) (filter_values vs)

  pub filter_entries : Entries → Entries
  filter_entries no_entries = no_entries
  filter_entries (entry k v es) =
      add_before (filter_xml_chars k) (filter_object v) (filter_entries es)

-- json.dumps(), encoded, and json.loads() of a line.
pub record Json : Type 0 where
  pub dumps : Value → Bytes
  pub loads : Bytes → Option Value

abbrev pub name_key : List ℕ
name_key = codes "__name__"

-- args[key] = v
pub store : List ℕ → Value → Entries → Entries
store key v no_entries = entry key v no_entries
store key v (entry k w es) =
    let rest = store key v es in if str_eq k key then entry k v es else entry k w rest

-- args[key], and the rest after `del args[key]`.
pub pop : List ℕ → Entries → Option (Value × Entries)
pop key no_entries = none
pop key (entry k v es) =
    let rest = pop key es in
    if str_eq k key
    then some (v, es)
    else elim rest [ none ↦ none | some (w, others) ↦ some (w, entry k v others) ]

-- Without a newline find() gives -1, else split() gives what stands before the first one and behind it.
pub split_line : Bytes → Option (Bytes × Bytes)
split_line [] = none
split_line (c ∷ cs) =
    let rest = split_line cs in
    if c == newline
    then some ([], cs)
    else elim rest [ none ↦ none | some (line, more) ↦ some (c ∷ line, more) ]

-- An empty read is a nap.
pub readbuffer : Bytes → Bytes → Bytes
readbuffer buffer [] = buffer
readbuffer buffer (b ∷ bs) = buffer ++ b ∷ bs

-- A line, what is left in the buffer, and what was not read yet.
pub record Line : Type 0 where
  pub line : Bytes
  pub buffer : Bytes
  pub unread : List Bytes

-- The stream gives these pieces, one for each read; behind them the loop waits for ever.
pub readline : Bytes → List Bytes → Option Line
readline buffer [] = elim (split_line buffer) [
  | none ↦ none
  | some (line, more) ↦ some (record { line = line; buffer = more; unread = [] })
]
readline buffer (piece ∷ pieces) =
    let rest = readline (readbuffer buffer piece) pieces in
    elim (split_line buffer) [
      | none ↦ rest
      | some (line, more) ↦ some (record { line = line; buffer = more; unread = piece ∷ pieces })
    ]

-- (name, args), or (None, None).
pub parse_line : Json → Bytes → Option (Value × Entries)
parse_line json line = elim (json.loads line) [
  | none ↦ none
  | some (text s) ↦ none
  | some (other n) ↦ none
  | some (sequence vs) ↦ none
  | some (dict es) ↦ pop name_key es
]

pub encode : Json → List ℕ → Entries → Bytes
encode json name args =
    json.dumps (filter_object (dict (store name_key (text name) args))) ++ newline ∷ []

-- The stream takes these many bytes, one number for each write; `none` where it takes no more.
pub write_loop : Bytes → List ℕ → Option (List Bytes)
write_loop [] counts = some []
write_loop (b ∷ message) [] = none
write_loop (b ∷ message) (n ∷ counts) =
    let rest = write_loop (drop n (b ∷ message)) counts in
    elim rest [ none ↦ none | some pieces ↦ some (take n (b ∷ message) ∷ pieces) ]

pub write : Json → List ℕ → Entries → List ℕ → Option (List Bytes)
write json name args counts = write_loop (encode json name args) counts
