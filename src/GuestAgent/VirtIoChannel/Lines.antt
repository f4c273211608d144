-- ===== src/GuestAgent/VirtIoChannel/Lines.antt =====
-- The lines of the stream, however it is cut into pieces.
use mathlib.Core.List.{append_assoc, append-nil}
use mathlib.Core.Path.{subst}
use ovirt_guest_agent.Prelude.{
  ℕ, zero, suc, ◌≤◌, ◌<◌, ◌≡◌, ◌≢◌, refl, sym, ap, ◌∙◌, inl, inr, Option, none, some, List, [], ◌∷◌,
  ◌++◌, Bytes, All, arith, length, length-drop, take, drop, take-drop, ◌==◌, ne→==, ==_iff,
  Bool-cases, Option-cases,
}
use ovirt_guest_agent.GuestAgent.VirtIoChannel.{
  newline, split_line, readbuffer, Line, readline, write_loop,
}

abbrev pub NoNewline : Bytes → Type 0
NoNewline = All (λ c. c ≢ newline)

abbrev pub concat : List Bytes → Bytes
concat [] = []
concat (p ∷ ps) = p ++ concat ps

split_first : (m rest : Bytes) → NoNewline m → split_line (m ++ newline ∷ rest) ≡ some (m, rest)
unfolding split_line
split_first [] rest n = refl
split_first (c ∷ m) rest n = rw (ne→== c newline n.0, split_first m rest n.1) refl

-- What split() gives is the front of the buffer.
abbrev Front : Bytes → Option (Bytes × Bytes) → Type 0
Front buffer none = Unit
Front buffer (some (line, more)) = (buffer ≡ line ++ newline ∷ more) × NoNewline line

Front-cons :
    (c : ℕ) (cs : Bytes) (o : Option (Bytes × Bytes))
    → c ≢ newline
    → Front cs o
    → Front (c ∷ cs) (elim o [ none ↦ none | some (line, more) ↦ some (c ∷ line, more) ])
Front-cons c cs none n f = tt
Front-cons c cs (some (line, more)) n (e, m) = (ap (◌∷◌ c) e, (n, m))

split_line-Front : (buffer : Bytes) → Front buffer (split_line buffer)
unfolding split_line
split_line-Front [] = tt
split_line-Front (c ∷ cs) = elim (Bool-cases (c == newline)) [
  | inl e ↦ rw e (ap (λ x. x ∷ cs) ((==_iff c newline).0 e), tt)
  | inr e ↦ rw e (Front-cons c cs (split_line cs) (λ z. ground (arith, e, z)) (split_line-Front cs))
]

-- The bytes that the channel will see.
abbrev pub to_come : Bytes → List Bytes → Bytes
to_come buffer pieces = buffer ++ concat pieces

-- A line of the stream is read, and the rest of the stream is still to come.
abbrev pub Reads : Bytes → List Bytes → Bytes → Bytes → Type 0
Reads buffer pieces m rest =
    (r : Line) × (readline buffer pieces ≡ some r)
    × (r.line ≡ m)
    × (to_come r.buffer r.unread ≡ rest)

readbuffer_lem : (buffer piece : Bytes) → readbuffer buffer piece ≡ buffer ++ piece
unfolding readbuffer
readbuffer_lem buffer [] = sym (append-nil buffer)
readbuffer_lem buffer (b ∷ bs) = refl

abbrev first_of : Option (Bytes × Bytes) → Bytes
first_of none = []
first_of (some p) = p.0

abbrev second_of : Option (Bytes × Bytes) → Bytes
second_of none = []
second_of (some p) = p.1

pair :
    {a b c d : Bytes}
    → Path (Option (Bytes × Bytes)) (some (a, b)) (some (c, d))
    → (a ≡ c) × (b ≡ d)
pair e = (ap (λ o. first_of o) e, ap (λ o. second_of o) e)

-- Two ways to cut the bytes at the first newline are one.
same_cut :
    (l m x y : Bytes)
    → NoNewline l
    → NoNewline m
    → l ++ newline ∷ x ≡ m ++ newline ∷ y
    → (l ≡ m) × (x ≡ y)
same_cut l m x y nl nm e = pair (sym (split_first l x nl) ∙ ap split_line e ∙ split_first m y nm)

from_split :
    (buffer : Bytes) (pieces : List Bytes) (m rest line more : Bytes)
    → NoNewline m
    → to_come buffer pieces ≡ m ++ newline ∷ rest
    → split_line buffer ≡ some (line, more)
    → (line ≡ m) × (to_come more pieces ≡ rest)
from_split buffer pieces m rest line more n e s =
    let (cut, nl) = subst (Front buffer) s (split_line-Front buffer) in
    same_cut line m (more ++ concat pieces) rest nl n (
      sym (ap (λ b. b ++ concat pieces) cut ∙ append_assoc line (newline ∷ more) (concat pieces))
      ∙ e)

some≢none : {p : Bytes × Bytes} → Path (Option (Bytes × Bytes)) (some p) none → ⊥
some≢none e = ground (arith, e)

pub readline-Reads :
    (pieces : List Bytes) (buffer m rest : Bytes)
    → NoNewline m
    → to_come buffer pieces ≡ m ++ newline ∷ rest
    → Reads buffer pieces m rest
unfolding readline
readline-Reads [] buffer m rest n e = elim (Option-cases (split_line buffer)) [
  | inl s ↦
      absurd
        (some≢none (sym (split_first m rest n) ∙ ap split_line (sym e ∙ append-nil buffer) ∙ s))
  | inr ((line, more), s) ↦
      let (x, y) = from_split buffer [] m rest line more n e s in
      rw (readline, s) (record { line = line; buffer = more; unread = [] }, refl, x, y)
]
readline-Reads (piece ∷ pieces) buffer m rest n e = elim (Option-cases (split_line buffer)) [
  | inl s ↦
      rw (readline, s)
        (readline-Reads pieces (readbuffer buffer piece) m rest n (
          ap (λ b. b ++ concat pieces) (readbuffer_lem buffer piece)
          ∙ append_assoc buffer piece (concat pieces)
          ∙ e))
  | inr ((line, more), s) ↦
      let (x, y) = from_split buffer (piece ∷ pieces) m rest line more n e s in
      rw (readline, s) (record { line = line; buffer = more; unread = piece ∷ pieces }, refl, x, y)
]

-- Lines one after the other.
pub read_lines : ℕ → Bytes → List Bytes → Option (List Bytes × Bytes × List Bytes)
read_lines zero buffer pieces = some ([], buffer, pieces)
read_lines (suc k) buffer pieces = elim (readline buffer pieces) [
  | none ↦ none
  | some r ↦ elim (read_lines k r.buffer r.unread) [
    | none ↦ none
    | some (lines, buffer', unread) ↦ some (r.line ∷ lines, buffer', unread)
  ]
]

-- The lines as they stand in the stream.
abbrev pub framed : List Bytes → Bytes
framed [] = []
framed (m ∷ ms) = m ++ newline ∷ framed ms

read_lines_step :
    (k : ℕ) (buffer : Bytes) (pieces : List Bytes) (r : Line) (ms : List Bytes) (left : Bytes)
    (unread : List Bytes)
    → readline buffer pieces ≡ some r
    → read_lines k r.buffer r.unread ≡ some (ms, left, unread)
    → read_lines (suc k) buffer pieces ≡ some (r.line ∷ ms, left, unread)
unfolding read_lines
read_lines_step k buffer pieces r ms left unread got others = rw (read_lines, got, others) refl

-- However the stream is cut into pieces: as many reads as lines were sent give these lines, in their order,
-- and leave what was sent behind them.
pub read_lines-framed :
    (ms : List Bytes) (buffer : Bytes) (pieces : List Bytes) (rest : Bytes)
    → All NoNewline ms
    → to_come buffer pieces ≡ framed ms ++ rest
    → (left : Bytes) × (unread : List Bytes) × (read_lines (length ms) buffer pieces
        ≡ some (ms, left, unread))
      × (to_come left unread ≡ rest)
unfolding read_lines
read_lines-framed [] buffer pieces rest n e = (buffer, pieces, refl, e)
read_lines-framed (m ∷ ms) buffer pieces rest n e =
    let (r, got, line, more) =
      readline-Reads pieces buffer m (framed ms ++ rest) n.0
        (e ∙ append_assoc m (newline ∷ framed ms) rest) in
    let (left, unread, others, behind) = read_lines-framed ms r.buffer r.unread rest n.1 more in
    (
      left,
      unread,
      read_lines_step (length ms) buffer pieces r ms left unread got others
          ∙ ap (λ l. some (l ∷ ms, left, unread)) line,
      behind,
    )

write_loop_step :
    (n : ℕ) (counts : List ℕ) (b : ℕ) (m : Bytes) (pieces : List Bytes)
    → write_loop (drop n (b ∷ m)) counts ≡ some pieces
    → write_loop (b ∷ m) (n ∷ counts) ≡ some (take n (b ∷ m) ∷ pieces)
unfolding write_loop
write_loop_step n counts b m pieces done = rw (write_loop, done) refl

-- Where each write takes at least one byte, and there are as many writes as the message has bytes: a write of
-- a part is followed by one of the rest, until all of it is written.
pub write_loop_whole :
    (counts : List ℕ) (message : Bytes)
    → All (λ n. 0 < n) counts
    → length message ≤ length counts
    → (pieces : List Bytes) × (write_loop message counts ≡ some pieces) × (concat pieces ≡ message)
unfolding write_loop
write_loop_whole counts [] p fits = ([], refl, refl)
write_loop_whole [] (b ∷ m) p fits = absurd (omega (arith, fits))
write_loop_whole (zero ∷ counts) (b ∷ m) p fits = absurd (omega (arith, p.0))
write_loop_whole (suc n ∷ counts) (b ∷ m) p fits =
    let (pieces, done, same) =
      write_loop_whole counts (drop n m) p.1 (omega (arith, fits, length-drop n m)) in
    (
      take (suc n) (b ∷ m) ∷ pieces,
      write_loop_step (suc n) counts b m pieces done,
      ap (λ x. take (suc n) (b ∷ m) ++ x) same ∙ take-drop (suc n) (b ∷ m),
    )
