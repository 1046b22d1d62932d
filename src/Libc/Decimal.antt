-- ===== src/Libc/Decimal.antt =====
-- Decimal numbers: what `%d` writes, `strtol` reads back.
use native.Mathlib.Nat.{pow-suc}
use mathlib.Core.Bool.{false≢true}
use openwrt_sub_converter.Common.{
  ℕ, zero, suc, ◌+◌, ◌-◌, ◌*◌, ◌/◌, ◌%◌, ◌^◌, ◌<◌, ◌≤◌, true, false, [], ◌∷◌, ◌++◌, append-nil,
  some, ◌≡◌, ◌≢◌, inl, inr, refl, sym, ◌∙◌, ap, arith, Bytes, Lacks, All, length, is_space,
  is_digit, ◌==◌, ltb, Bool-cases,
}
use openwrt_sub_converter.Libc.{
  pos, digits_from, decimal, read_digits, clamp_long, read_magnitude, read_signed, skip_space,
  strtol,
}

read_digits-cons :
    (d : ℕ) (s : Bytes) (acc : ℕ)
    → d < 10
    → read_digits ((b'0' + d) ∷ s) acc ≡ read_digits s (acc * 10 + d)
unfolding read_digits
read_digits-cons d s acc h =
    let e : b'0' + d - b'0' ≡ d = omega arith in
    let t : is_digit (b'0' + d) ≡ true = unfold is_digit in ground arith in rw (t, e)

read_digits-digits_from :
    (f n : ℕ) (out t : Bytes)
    → n < f
    → read_digits (digits_from f n out ++ t) 0 ≡ read_digits (out ++ t) n
unfolding digits_from
read_digits-digits_from zero n out t h = absurd (omega arith)
read_digits-digits_from (suc f) n out t h = elim (Bool-cases (ltb n 10)) [
  | inl small ↦
      rw small
        (read_digits-cons n (out ++ t) 0 (ground arith) ∙ ap (read_digits (out ++ t)) (omega arith))
  | inr big ↦ rw big (
      read_digits-digits_from f (n / 10) ((b'0' + n % 10) ∷ out) t (ground arith)
      ∙ read_digits-cons (n % 10) (out ++ t) (n / 10) (omega arith)
      ∙ ap (read_digits (out ++ t)) (omega arith))
]

pub read_digits-decimal : (n : ℕ) (t : Bytes) → read_digits (decimal n ++ t) 0 ≡ read_digits t n
unfolding decimal
read_digits-decimal n t = read_digits-digits_from (suc n) n [] t (omega arith)

-- The numeral starts with a digit.
abbrev StartsWithDigit : Bytes → Type 0
StartsWithDigit [] = ⊥
StartsWithDigit (c ∷ s) = is_digit c ≡ true

digits_from-StartsWithDigit :
    (f n : ℕ) (out : Bytes) → n < f → StartsWithDigit (digits_from f n out)
unfolding digits_from
digits_from-StartsWithDigit zero n out h = absurd (omega arith)
digits_from-StartsWithDigit (suc f) n out h = elim (Bool-cases (ltb n 10)) [
  | inl small ↦ rw small (unfold is_digit in ground arith)
  | inr big ↦ rw big (digits_from-StartsWithDigit f (n / 10) ((b'0' + n % 10) ∷ out) (ground arith))
]

strtol-digits :
    (s : Bytes)
    → StartsWithDigit s
    → strtol s ≡ some (clamp_long false (read_digits s 0).0, (read_digits s 0).1)
unfolding strtol skip_space read_signed read_magnitude
strtol-digits [] h = absurd h
strtol-digits (c ∷ s) h = rw (solid) (rw (no_minus, no_plus, read_signed) (rw (h, read_magnitude)))
  where
    solid : is_space c ≡ false
    solid = unfold is_space is_digit in ground arith

    no_minus : (c == b'-') ≡ false
    no_minus = unfold is_digit in ground arith

    no_plus : (c == b'+') ≡ false
    no_plus = unfold is_digit in ground arith

decimal-StartsWithDigit : (n : ℕ) → StartsWithDigit (decimal n)
unfolding decimal
decimal-StartsWithDigit n = digits_from-StartsWithDigit (suc n) n [] (omega arith)

decimal-read : (n : ℕ) → read_digits (decimal n) 0 ≡ (n, [])
decimal-read n =
    ap (λ s. read_digits s 0) (sym (append-nil (decimal n)))
    ∙ read_digits-decimal n []
    ∙ (unfold read_digits in refl)

clamp_small : (n : ℕ) → n < 2 ^ 63 → clamp_long false n ≡ pos n
unfolding clamp_long
clamp_small n h = ground arith

-- Every number below 2^63 is read back from the decimal digits that `%d` writes, to their end.
pub strtol-decimal : (n : ℕ) → n < 2 ^ 63 → strtol (decimal n) ≡ some (pos n, [])
strtol-decimal n h =
    strtol-digits (decimal n) (decimal-StartsWithDigit n) ∙ rw (decimal-read n, clamp_small n h)

-- Different numbers have different digits.
pub decimal_injective : (m n : ℕ) → decimal m ≡ decimal n → m ≡ n
decimal_injective m n e =
    ap (λ r. r.0) (sym (decimal-read m) ∙ ap (λ s. read_digits s 0) e ∙ decimal-read n)

abbrev pub IsDigit : ℕ → Type 0
IsDigit c = is_digit c ≡ true

digits_from-IsDigit : (f n : ℕ) (out : Bytes) → All IsDigit out → All IsDigit (digits_from f n out)
unfolding digits_from
digits_from-IsDigit zero n out h = h
digits_from-IsDigit (suc f) n out h = elim (Bool-cases (ltb n 10)) [
  | inl small ↦ rw small ((unfold is_digit in ground arith), h)
  | inr big ↦ rw big (
      digits_from-IsDigit f (n / 10) ((b'0' + n % 10) ∷ out) ((unfold is_digit in ground arith), h))
]

pub decimal-IsDigit : (n : ℕ) → All IsDigit (decimal n)
unfolding decimal
decimal-IsDigit n = digits_from-IsDigit (suc n) n [] tt

pub Lacks-IsDigit : (b : ℕ) (s : Bytes) → is_digit b ≡ false → All IsDigit s → Lacks b s
Lacks-IsDigit b [] e h = tt
Lacks-IsDigit b (c ∷ s) e (hc, hs) =
    let differ : c ≢ b = λ p. false≢true (sym e ∙ ap is_digit (sym p) ∙ hc) in
    (differ, Lacks-IsDigit b s e hs)

digits_from-length :
    (k f n : ℕ) (out : Bytes) → n < 10 ^ suc k → length (digits_from f n out) ≤ suc k + length out
unfolding digits_from
digits_from-length k zero n out h = omega arith
digits_from-length zero (suc f) n out h = ground arith
digits_from-length (suc k) (suc f) n out h = elim (Bool-cases (ltb n 10)) [
  | inl small ↦ rw small (omega arith)
  | inr big ↦ rw big (
      omega (
        arith,
        digits_from-length k f (n / 10) ((b'0' + n % 10) ∷ out) (omega (arith, pow-suc 10 (suc k))),
      ))
]

-- At most `k + 1` digits below the power.
pub decimal-length : (k n : ℕ) → n < 10 ^ suc k → length (decimal n) ≤ suc k
unfolding decimal
decimal-length k n h = omega (arith, digits_from-length k (suc n) n [] h)

pub decimal-nonempty : (n : ℕ) → 0 < length (decimal n)
decimal-nonempty n = nonempty (decimal n) (decimal-StartsWithDigit n)
  where
    nonempty : (s : Bytes) → StartsWithDigit s → 0 < length s
    nonempty [] h = absurd h
    nonempty (c ∷ s) h = omega arith
