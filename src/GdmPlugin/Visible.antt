-- ===== src/GdmPlugin/Visible.antt =====
-- gdm_ovirtcred_extension_is_visible() of gdm-plugin/gdm-ovirtcred-extension.c: the extension is shown
-- while the process named in the agent's PID file exists. The file and /proc are arguments.
use ovirt_guest_agent.Prelude.{
  ℕ, zero, suc, ◌+◌, ◌-◌, ◌*◌, ◌/◌, ◌%◌, ◌<◌, ◌≡◌, refl, ◌∙◌, ap, Bool, true, false, not, ◌&&◌,
  ◌||◌, Option, none, some, [], ◌∷◌, ◌++◌, arith, Bytes, codes, ltb, leb, ◌==◌, if◌then◌else◌,
  Bool-cases, le→leb, ltb→lt, ◌^◌, inl, inr,
}

-- A value of atoi() or %d: a magnitude, and whether it is negative.
pub record Number : Type 0 where
  pub negative : Bool
  pub magnitude : ℕ

is_digit : ℕ → Bool
is_digit c = leb b'0' c && leb c b'9'

-- isspace(): space, \t, \n, \v, \f, \r
is_space : ℕ → Bool
is_space c = (c == 32) || (leb 9 c && leb c 13)

read_digits : ℕ → Bytes → ℕ
read_digits acc [] = acc
read_digits acc (c ∷ cs) =
    let more = read_digits (acc * 10 + (c - b'0')) cs in if is_digit c then more else acc

read_signed : Bytes → Number
read_signed [] = record { negative = false; magnitude = 0 }
read_signed (c ∷ cs) =
    if c == b'-'
    then record { negative = true; magnitude = read_digits 0 cs }
    else if c == b'+'
    then record { negative = false; magnitude = read_digits 0 cs }
    else record { negative = false; magnitude = read_digits 0 (c ∷ cs) }

-- atoi(), where the number fits an `int`; beyond, the language leaves it open.
pub atoi : Bytes → Number
unfolding read_signed
atoi [] = record { negative = false; magnitude = 0 }
atoi (c ∷ cs) = let rest = atoi cs in if is_space c then rest else read_signed (c ∷ cs)

-- The decimal digits of `n`, in front of `out`.
print_digits : ℕ → ℕ → Bytes → Bytes
print_digits zero n out = out
print_digits (suc fuel) n out =
    let more = print_digits fuel (n / 10) ((b'0' + n % 10) ∷ out) in
    if ltb n 10 then (b'0' + n) ∷ out else more

-- sprintf ("%d"), with as many rounds as the number has digits at most.
pub decimal : ℕ → Bytes
decimal n = print_digits (suc n) n []

pub print_number : Number → Bytes
print_number n = if n.negative then b'-' ∷ decimal n.magnitude else decimal n.magnitude

-- `contents` is what g_file_get_contents() reads, `exists` what g_file_test() says of a path.
unfoldable pub is_visible : Option Bytes → (Bytes → Bool) → Bool
is_visible none exists = false
is_visible (some contents) exists =
    let pid = atoi contents in
    if pid.magnitude == 0
    then false
    else if not (exists (codes "/proc/" ++ print_number pid))
    then false
    else true

read_digits_step :
    (acc d : ℕ) (cs : Bytes)
    → d < 10
    → read_digits acc ((b'0' + d) ∷ cs) ≡ read_digits (acc * 10 + d) cs
unfolding read_digits is_digit
read_digits_step acc d cs h =
    let e : acc * 10 + (b'0' + d - b'0') ≡ acc * 10 + d = omega arith in
    rw (le→leb b'0' (b'0' + d) (omega arith), le→leb (b'0' + d) b'9' (omega arith), e)

-- Reading the digits of a number back, and then what stands behind them.
read_digits-print :
    (fuel n : ℕ) (out : Bytes)
    → n < fuel
    → read_digits 0 (print_digits fuel n out) ≡ read_digits n out
unfolding print_digits
read_digits-print zero n out h = absurd (omega arith)
read_digits-print (suc fuel) n out h = elim (Bool-cases (ltb n 10)) [
  | inl small ↦
      rw small
        (read_digits_step 0 n out (ltb→lt n 10 small) ∙ ap (λ k. read_digits k out) (omega arith))
  | inr large ↦ rw large (
      read_digits-print fuel (n / 10) ((b'0' + n % 10) ∷ out) (ground arith)
      ∙ read_digits_step (n / 10) (n % 10) out (omega arith)
      ∙ ap (λ k. read_digits k out) (omega arith))
]

abbrev StartsDigit : Bytes → Type 0
StartsDigit [] = ⊥
StartsDigit (c ∷ cs) = is_digit c ≡ true

print_digits_starts : (fuel n : ℕ) (out : Bytes) → n < fuel → StartsDigit (print_digits fuel n out)
unfolding print_digits is_digit
print_digits_starts zero n out h = absurd (omega arith)
print_digits_starts (suc fuel) n out h = elim (Bool-cases (ltb n 10)) [
  | inl small ↦ rw small (ground arith)
  | inr large ↦ rw large (print_digits_starts fuel (n / 10) ((b'0' + n % 10) ∷ out) (ground arith))
]

print_digits-append :
    (fuel n : ℕ) (out cs : Bytes) → print_digits fuel n out ++ cs ≡ print_digits fuel n (out ++ cs)
unfolding print_digits
print_digits-append zero n out cs = refl
print_digits-append (suc fuel) n out cs = elim (Bool-cases (ltb n 10)) [
  | inl small ↦ rw small
  | inr large ↦ rw large (print_digits-append fuel (n / 10) ((b'0' + n % 10) ∷ out) cs)
]

atoi_digits :
    (cs : Bytes)
    → StartsDigit cs
    → atoi cs ≡ record { negative = false; magnitude = read_digits 0 cs }
unfolding atoi is_digit is_space
atoi_digits [] h = elim h [ ]
atoi_digits (c ∷ cs) h = ground arith

read_digits_newline : (n : ℕ) → read_digits n (10 ∷ []) ≡ n
unfolding read_digits is_digit
read_digits_newline n = refl

-- What the agent writes into its PID file is read back as that number.
pub atoi-decimal :
    (n : ℕ) → atoi (decimal n ++ 10 ∷ []) ≡ record { negative = false; magnitude = n }
unfolding decimal
atoi-decimal n = rw (print_digits-append (suc n) n [] (10 ∷ [])) (
    atoi_digits (print_digits (suc n) n (10 ∷ []))
      (print_digits_starts (suc n) n (10 ∷ []) (omega arith))
    ∙ ap (λ k. record { negative = false; magnitude = k })
        (read_digits-print (suc n) n (10 ∷ []) (omega arith) ∙ read_digits_newline n))

-- With a PID file that holds a positive number below 2 ^ 31 in decimal and a newline, the extension
-- is visible exactly where the directory of that number in /proc exists.
pub is_visible_pidfile :
    (pid : ℕ) (exists : Bytes → Bool)
    → 0 < pid
    → pid < 2 ^ 31
    → is_visible (some (decimal pid ++ 10 ∷ [])) exists ≡ exists (codes "/proc/" ++ decimal pid)
unfolding is_visible print_number
is_visible_pidfile pid exists p s = rw (atoi-decimal pid) (ground arith)
