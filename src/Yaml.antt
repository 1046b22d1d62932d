-- ===== src/Yaml.antt =====
-- sub-converter/src/yaml_emit.c: when a scalar may stand plain, how it is quoted, and the lines of
-- the document. An index into the text is the list of the bytes from that index on.
pub mod Quote
pub mod Emit
pub mod Reader
pub mod RoundTrip
use openwrt_sub_converter.Common.{
  ℕ, zero, suc, ◌+◌, ◌-◌, ◌*◌, ◌/◌, ◌%◌, ◌^◌, ◌<◌, ◌≤◌, Bool, true, false, not, ◌&&◌, ◌||◌, List,
  [], ◌∷◌, ◌++◌, append_assoc, append-nil, Option, none, some, ◌≡◌, ◌≢◌, ◌↔◌, ◌⊎◌, inl, inr, refl,
  sym, subst, fun_ext, ◌∙◌, ap, arith, Bytes, IsBytes, Lacks, All, All-append, codes, get_or,
  length, take, drop, length-append, length-take, length-drop, take-length-append, take-length,
  drop_behind, take-append-drop, drop-length-append, replicate, length-replicate, equal, equal_iff,
  c_str, c_str-Lacks, Lacks-c_str, is_space, is_digit, if◌then◌else◌, ◌==◌, ltb, leb, ==_iff,
  Bool-cases, Option-cases, all_below, all_below_sound, all_below_sound₂, Outcome, done, failed,
  fault, ◌>>=◌, ◌>>◌, >>=-eq-done, >>=-ne-fault, Returns, Ensures, Returns->>=, Ensures->>=,
  Returns-done, Ensures-ne-fault, Returns-Ensures,
}

unfoldable pub is_leading_indicator : ℕ → Bool
is_leading_indicator c =
    c == b'-'
    || c == b'?'
    || c == b':'
    || c == b','
    || c == b'['
    || c == b']'
    || c == b'{'
    || c == b'}'
    || c == b'#'
    || c == b'&'
    || c == b'*'
    || c == b'!'
    || c == b'|'
    || c == b'>'
    || c == b'\''
    || c == b'"'
    || c == b'%'
    || c == b'@'
    || c == b'`'

unfoldable pub hexch : ℕ → Bool
unfolding is_digit
hexch c = is_digit c || (leb b'a' c && leb c b'f') || (leb b'A' c && leb c b'F')

-- The loops over a radix literal: every byte passes, and there is one.
radix_digits : (ℕ → Bool) → Bytes → Bool
radix_digits test [] = false
radix_digits test (c ∷ []) = test c
radix_digits test (c ∷ d ∷ s) = test c && radix_digits test (d ∷ s)

skip_digits : Bytes → Bytes
unfolding is_digit
skip_digits [] = []
skip_digits (c ∷ s) = let further = skip_digits s in if is_digit c then further else c ∷ s

skip_sign : Bytes → Bytes
skip_sign [] = []
skip_sign (c ∷ s) = if c == b'+' || c == b'-' then s else c ∷ s

-- At least one digit, and what stands behind the digits.
digits_then : Bytes → Option Bytes
unfolding skip_digits
digits_then [] = none
digits_then (c ∷ s) = if is_digit c then some (skip_digits (c ∷ s)) else none

fraction : Bytes → Option Bytes
unfolding digits_then
fraction [] = some []
fraction (c ∷ s) = if c == b'.' then digits_then s else some (c ∷ s)

exponent : Bytes → Option Bytes
unfolding digits_then skip_sign
exponent [] = some []
exponent (c ∷ s) = if c == b'e' || c == b'E' then digits_then (skip_sign s) else some (c ∷ s)

-- i == len
at_end : Option Bytes → Bool
at_end (some []) = true
at_end (some (c ∷ s)) = false
at_end none = false

and_then : Option Bytes → (Bytes → Option Bytes) → Option Bytes
and_then none f = none
and_then (some s) f = f s

decimal_number : Bytes → Bool
unfolding digits_then fraction exponent at_end and_then
decimal_number s = at_end (and_then (and_then (digits_then s) fraction) exponent)

unsigned_number : Bytes → Bool
unfolding decimal_number radix_digits hexch
unsigned_number [] = false
unsigned_number (c ∷ []) = decimal_number (c ∷ [])
unsigned_number (c ∷ p ∷ s) =
    if c == b'0' && (p == b'x' || p == b'X')
    then radix_digits hexch s
    else if c == b'0' && (p == b'b' || p == b'B')
    then radix_digits (λ d. d == b'0' || d == b'1') s
    else if c == b'0' && (p == b'o' || p == b'O')
    then radix_digits (λ d. leb b'0' d && leb d b'7') s
    else decimal_number (c ∷ p ∷ s)

unfoldable pub is_yaml_number : Bytes → Bool
unfolding unsigned_number skip_sign
is_yaml_number s = unsigned_number (skip_sign s)

unfoldable pub is_yaml_date : Bytes → Bool
unfolding is_digit
is_yaml_date (a ∷ b ∷ c ∷ d ∷ e ∷ f ∷ g ∷ h ∷ i ∷ j ∷ []) =
    is_digit a
    && is_digit b
    && is_digit c
    && is_digit d
    && e == b'-'
    && is_digit f
    && is_digit g
    && h == b'-'
    && is_digit i
    && is_digit j
is_yaml_date s = false

to_lower : ℕ → ℕ
to_lower c = if leb b'A' c && leb c b'Z' then c + (b'a' - b'A') else c

unfoldable pub ascii_lower_equal : Bytes → Bytes → Bool
unfolding to_lower
ascii_lower_equal [] [] = true
ascii_lower_equal [] (d ∷ word) = false
ascii_lower_equal (c ∷ s) [] = false
ascii_lower_equal (c ∷ s) (d ∷ word) = to_lower c == d && ascii_lower_equal s word

unfoldable pub is_resolved_word : Bytes → Bool
unfolding ascii_lower_equal
is_resolved_word s =
    ascii_lower_equal s (codes "true")
    || ascii_lower_equal s (codes "false")
    || ascii_lower_equal s (codes "yes")
    || ascii_lower_equal s (codes "no")
    || ascii_lower_equal s (codes "on")
    || ascii_lower_equal s (codes "off")
    || ascii_lower_equal s (codes "null")
    || equal s (codes "~")

unfoldable pub is_control : ℕ → Bool
is_control c = ltb c 0x20 || c == 0x7f

unfoldable pub has_control : Bytes → Bool
unfolding is_control
has_control [] = false
has_control (c ∷ s) = is_control c || has_control s

-- A colon before a space, or a number sign behind one.
unfoldable pub has_mark : Bytes → Bool
has_mark [] = false
has_mark (c ∷ []) = false
has_mark (c ∷ d ∷ s) = (c == b':' && d == b' ') || (c == b' ' && d == b'#') || has_mark (d ∷ s)

-- memchr(s, c, len) != NULL
unfoldable pub memchr : ℕ → Bytes → Bool
memchr c [] = false
memchr c (d ∷ s) = d == c || memchr c s

unfoldable pub last_or : ℕ → Bytes → ℕ
last_or c [] = c
last_or c (d ∷ s) = last_or d s

unfoldable pub yaml_plain_safe : ℕ → Bytes → Bool
unfolding has_control has_mark last_or
yaml_plain_safe c rest =
    let s = c ∷ rest in
    if is_space c || is_space (last_or c rest)
    then false
    else if is_leading_indicator c
    then false
    else if has_control s
    then false
    else if has_mark s
    then false
    else if memchr b'"' s || memchr b'\\' s
    then false
    else if equal s (codes ".")
        || equal s (codes "..")
        || is_yaml_number s
        || is_resolved_word s
        || is_yaml_date s
    then false
    else not (is_digit c && memchr b':' s)
