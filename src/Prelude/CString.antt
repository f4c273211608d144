-- ===== src/Prelude/CString.antt =====
-- C strings: bytes (or wide characters) as numbers, texts without their terminator, and the
-- functions of <string.h> that the program calls.
use Prim.Native.Nat.{ℕ, zero, suc, ◌≤◌, ◌<◌}
use mathlib.Core.Path.{◌≡◌, refl}
use mathlib.Core.Logic.{◌≢◌, ◌↔◌}
use mathlib.Core.Bool.{Bool, true, false, ◌&&◌}
use mathlib.Core.List.{List, [], ◌∷◌, ◌++◌}
use mathlib.Core.Option.{Option, none, some}
use Prim.Native.Char.{code}
use Prim.Native.String.{String}
use native.Mathlib.Omega.{arith}
use ovirt_guest_agent.Prelude.Tests.{◌==◌, if◌then◌else◌}
use ovirt_guest_agent.Prelude.Lists.{length, take, drop, All}

abbrev pub Bytes : Type 0
Bytes = List ℕ

-- The code points of a literal: its bytes, since all literals of the program are ASCII.
abbrev pub codes : String → Bytes
codes String.[] = []
codes (String.◌∷◌ c s) = code c ∷ codes s

-- strcmp(s, t) == 0
abbrev pub str_eq : Bytes → Bytes → Bool
str_eq [] [] = true
str_eq [] (y ∷ ys) = false
str_eq (x ∷ xs) [] = false
str_eq (x ∷ xs) (y ∷ ys) = (x == y) && str_eq xs ys

-- strchr(s, c): the index of the first `c`.
abbrev pub strchr : Bytes → ℕ → Option ℕ
strchr [] c = none
strchr (x ∷ xs) c =
    let rest = strchr xs c in
    if x == c then some 0 else elim rest [ none ↦ none | some i ↦ some (suc i) ]

-- The text that starts a run of bytes: all before the first NUL.
abbrev pub c_str : Bytes → Bytes
c_str [] = []
c_str (x ∷ xs) = if x == 0 then [] else x ∷ c_str xs

-- strndup(p, n) at the bytes from `p` to the end of the object that holds them: `none` is a read
-- past that end.
abbrev pub read_str : Bytes → ℕ → Option Bytes
read_str bs zero = some []
read_str [] (suc n) = none
read_str (b ∷ bs) (suc n) =
    let rest = read_str bs n in
    if b == 0 then some [] else elim rest [ none ↦ none | some s ↦ some (b ∷ s) ]

abbrev pub NonZero : ℕ → Type 0
NonZero b = b ≢ 0

pub str_eq→eq : (s t : Bytes) → str_eq s t ≡ true → s ≡ t
str_eq→eq [] [] h = refl
str_eq→eq [] (y ∷ ys) h = ground arith
str_eq→eq (x ∷ xs) [] h = ground arith
str_eq→eq (x ∷ xs) (y ∷ ys) h = ground (arith, str_eq→eq xs ys)

pub str_eq_refl : (s : Bytes) → str_eq s s ≡ true
str_eq_refl [] = refl
str_eq_refl (x ∷ xs) = ground (arith, str_eq_refl xs)

pub str_eq_iff : (s t : Bytes) → (str_eq s t ≡ true) ↔ (s ≡ t)
str_eq_iff s t = (str_eq→eq s t, λ e. rw e (str_eq_refl t))

-- `strchr` finds the character, and nothing before it is that character.
pub strchr-some :
    (s : Bytes) (c i : ℕ)
    → strchr s c ≡ some i
    → (s ≡ take i s ++ c ∷ drop (suc i) s) × All (λ x. x ≢ c) (take i s)
strchr-some [] c i h = ground arith
strchr-some (x ∷ xs) c zero h = ground arith
strchr-some (x ∷ xs) c (suc i) h = ground (arith, strchr-some xs c i)

-- Within the object a bounded copy is the text of the first `n` bytes.
pub read_str-take : (bs : Bytes) (n : ℕ) → n ≤ length bs → read_str bs n ≡ some (c_str (take n bs))
read_str-take bs zero h = refl
read_str-take [] (suc n) h = absurd (omega arith)
read_str-take (b ∷ bs) (suc n) h = ground (arith, read_str-take bs n)

-- Past the end it runs out of the object, unless a NUL stops it.
pub read_str_past : (bs : Bytes) (n : ℕ) → All NonZero bs → length bs < n → read_str bs n ≡ none
read_str_past bs zero a h = absurd (omega arith)
read_str_past [] (suc n) a h = refl
read_str_past (b ∷ bs) (suc n) a h = ground (arith, read_str_past bs n a.1)

pub c_str-NonZero : (bs : Bytes) → All NonZero bs → c_str bs ≡ bs
c_str-NonZero [] a = refl
c_str-NonZero (b ∷ bs) a = ground (arith, c_str-NonZero bs a.1)

pub c_str-append_zero : (bs rest : Bytes) → All NonZero bs → c_str (bs ++ 0 ∷ rest) ≡ bs
c_str-append_zero [] rest a = refl
c_str-append_zero (b ∷ bs) rest a = ground (arith, c_str-append_zero bs rest a.1)
