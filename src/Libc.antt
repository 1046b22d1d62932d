-- ===== src/Libc.antt =====
-- The functions of the C library that the source calls for numbers: `strtol` with base 10 and the
-- conversion `%d` of `vsnprintf`. `long` has 64 bits.
pub mod Decimal
use openwrt_sub_converter.Common.{
  ℕ, zero, suc, ◌+◌, ◌-◌, ◌*◌, ◌/◌, ◌%◌, ◌^◌, ◌<◌, ◌≤◌, Bool, true, false, not, ◌&&◌, ◌||◌, List,
  [], ◌∷◌, ◌++◌, append_assoc, append-nil, Option, none, some, ◌≡◌, ◌≢◌, ◌↔◌, ◌⊎◌, inl, inr, refl,
  sym, fun_ext, ◌∙◌, ap, arith, Bytes, IsBytes, Lacks, All, All-append, codes, get_or, length, take,
  drop, length-append, length-take, length-drop, take-length-append, drop-length-append, replicate,
  length-replicate, equal, equal_iff, c_str, c_str-Lacks, Lacks-c_str, is_space, is_digit,
  if◌then◌else◌, ◌==◌, ltb, leb, ==_iff, Bool-cases, Option-cases, all_below, all_below_sound,
  all_below_sound₂, Outcome, done, failed, fault, ◌>>=◌, ◌>>◌, >>=-eq-done, >>=-ne-fault,
}

-- `negsuc n` is -(n + 1).
pub data ℤ : Type 0 where
  pos : ℕ → ℤ
  negsuc : ℕ → ℤ

-- The digits of `n` in front of `out`, with fuel; `n + 1` rounds are enough.
unfoldable pub digits_from : ℕ → ℕ → Bytes → Bytes
digits_from zero n out = out
digits_from (suc f) n out =
    let more = digits_from f (n / 10) ((b'0' + n % 10) ∷ out) in
    if ltb n 10 then (b'0' + n) ∷ out else more

unfoldable pub decimal : ℕ → Bytes
unfolding digits_from
decimal n = digits_from (suc n) n []

-- `%d`
unfoldable pub format_int : ℤ → Bytes
unfolding decimal
format_int (pos n) = decimal n
format_int (negsuc n) = b'-' ∷ decimal (suc n)

-- The number that the digits at the front spell behind `acc`, and what stands behind them.
unfoldable pub read_digits : Bytes → ℕ → ℕ × Bytes
unfolding is_digit
read_digits [] acc = (acc, [])
read_digits (c ∷ s) acc =
    let further = read_digits s (acc * 10 + (c - b'0')) in
    if is_digit c then further else (acc, c ∷ s)

-- `long` saturates.
unfoldable pub clamp_long : Bool → ℕ → ℤ
clamp_long false n = pos (if ltb n (2 ^ 63) then n else 2 ^ 63 - 1)
clamp_long true zero = pos 0
clamp_long true (suc n) = negsuc (if ltb n (2 ^ 63) then n else 2 ^ 63 - 1)

unfoldable pub read_magnitude : Bool → Bytes → Option (ℤ × Bytes)
unfolding read_digits clamp_long
read_magnitude negative [] = none
read_magnitude negative (c ∷ s) =
    let (n, rest) = read_digits (c ∷ s) 0 in
    if is_digit c then some (clamp_long negative n, rest) else none

unfoldable pub read_signed : Bytes → Option (ℤ × Bytes)
unfolding read_magnitude
read_signed [] = none
read_signed (c ∷ s) =
    if c == b'-'
    then read_magnitude true s
    else if c == b'+'
    then read_magnitude false s
    else read_magnitude false (c ∷ s)

unfoldable pub skip_space : Bytes → Bytes
unfolding is_space
skip_space [] = []
skip_space (c ∷ s) = let further = skip_space s in if is_space c then further else c ∷ s

-- `strtol(s, &end, 10)`: the value with the text from `end` on, or `none` when `end == s`.
unfoldable pub strtol : Bytes → Option (ℤ × Bytes)
unfolding read_signed skip_space
strtol s = read_signed (skip_space s)
