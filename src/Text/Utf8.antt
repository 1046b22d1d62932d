-- ===== src/Text/Utf8.antt =====
-- The well-formed byte sequences of the Unicode standard, and that each is read as a code point.
pub mod Inverse
pub mod Validate
use openwrt_sub_converter.Common.{
  ℕ, zero, suc, ◌+◌, ◌*◌, ◌/◌, ◌%◌, ◌<◌, ◌≤◌, true, false, ◌&&◌, ◌||◌, [], ◌∷◌, Option, none, some,
  ◌≡◌, ◌↔◌, ◌⊎◌, inl, inr, refl, sym, subst, ◌∙◌, ap, arith, Bytes, length, ◌==◌, ltb, leb, ==_iff,
  Bool-cases, Option-cases,
}
use openwrt_sub_converter.Text.{
  utf8_lead, utf8_follow, utf8_check, utf8_rest, utf8_next_codepoint, validate_from, utf8_validate,
}

abbrev pub IsTail : ℕ → Type 0
IsTail d = (0x80 ≤ d) × (d ≤ 0xBF)

-- The second byte of three, and of four, by the table of the well-formed sequences.
abbrev pub IsSecond3 : ℕ → ℕ → Type 0
IsSecond3 c d =
    ((c ≡ 0xE0) × (0xA0 ≤ d))
    ⊎ (((0xE1 ≤ c) × (c ≤ 0xEC)) ⊎ (((c ≡ 0xED) × (d ≤ 0x9F)) ⊎ ((0xEE ≤ c) × (c ≤ 0xEF))))

abbrev pub IsSecond4 : ℕ → ℕ → Type 0
IsSecond4 c d = ((c ≡ 0xF0) × (0x90 ≤ d)) ⊎ (((0xF1 ≤ c) × (c ≤ 0xF3)) ⊎ ((c ≡ 0xF4) × (d ≤ 0x8F)))

-- The well-formed texts.
pub data Utf8 : Bytes → Type 0 where
  empty : Utf8 []
  one : (c : ℕ) (s : Bytes) → c ≤ 0x7F → Utf8 s → Utf8 (c ∷ s)
  two : (c d : ℕ) (s : Bytes) → 0xC2 ≤ c → c ≤ 0xDF → IsTail d → Utf8 s → Utf8 (c ∷ (d ∷ s))
  three :
      (c d e : ℕ) (s : Bytes)
      → IsSecond3 c d
      → IsTail d
      → IsTail e
      → Utf8 s
      → Utf8 (c ∷ (d ∷ (e ∷ s)))
  four :
      (c d e f : ℕ) (s : Bytes)
      → IsSecond4 c d
      → IsTail d
      → IsTail e
      → IsTail f
      → Utf8 s
      → Utf8 (c ∷ (d ∷ (e ∷ (f ∷ s))))

pub next_one : (c : ℕ) (s : Bytes) → c ≤ 0x7F → utf8_next_codepoint (c ∷ s) ≡ some s
unfolding utf8_next_codepoint utf8_lead utf8_rest utf8_follow utf8_check
next_one c s h = ground arith

pub lead_two : (c : ℕ) → 0xC0 ≤ c → c ≤ 0xDF → utf8_lead c ≡ some (c % 32, (1, 0x80))
unfolding utf8_lead
lead_two c h k = ground arith

pub next_two :
    (c d : ℕ) (s : Bytes)
    → 0xC2 ≤ c
    → c ≤ 0xDF
    → IsTail d
    → utf8_next_codepoint (c ∷ (d ∷ s)) ≡ some s
unfolding utf8_next_codepoint utf8_rest utf8_follow utf8_check
next_two c d s h k t = rw (lead_two c (omega arith) k) (ground arith)

pub lead_three : (c : ℕ) → 0xE0 ≤ c → c ≤ 0xEF → utf8_lead c ≡ some (c % 16, (2, 0x800))
unfolding utf8_lead
lead_three c h k = ground arith

pub lead_four : (c : ℕ) → 0xF0 ≤ c → c ≤ 0xF7 → utf8_lead c ≡ some (c % 8, (3, 0x10000))
unfolding utf8_lead
lead_four c h k = ground arith

follow_tail :
    (extra v d : ℕ) (s : Bytes)
    → IsTail d
    → utf8_follow (suc extra) v (d ∷ s) ≡ utf8_follow extra (v * 64 + d % 64) s
unfolding utf8_follow
follow_tail extra v d s t = rw ((==_iff (d / 64) 2).1 (omega arith)) refl

check_scalar :
    (mincp v : ℕ) (s : Bytes)
    → mincp ≤ v
    → v ≤ 0x10FFFF
    → (v < 0xD800) ⊎ (0xDFFF < v)
    → utf8_check mincp (some (v, s)) ≡ some s
unfolding utf8_check
check_scalar mincp v s h k n = ground arith

value3 :
    (c d e : ℕ)
    → IsSecond3 c d
    → IsTail d
    → IsTail e
    → (0x800 ≤ (c % 16 * 64 + d % 64) * 64 + e % 64)
      × ((c % 16 * 64 + d % 64) * 64 + e % 64 ≤ 0x10FFFF)
      × (((c % 16 * 64 + d % 64) * 64 + e % 64 < 0xD800)
          ⊎ (0xDFFF < (c % 16 * 64 + d % 64) * 64 + e % 64))
value3 c d e (inl h) t u = (omega arith, omega arith, inl (omega arith))
value3 c d e (inr (inl h)) t u = (omega arith, omega arith, inl (omega arith))
value3 c d e (inr (inr (inl h))) t u = (omega arith, omega arith, inl (omega arith))
value3 c d e (inr (inr (inr h))) t u = (omega arith, omega arith, inr (omega arith))

range3 : (c d : ℕ) → IsSecond3 c d → (0xE0 ≤ c) × (c ≤ 0xEF)
range3 c d (inl h) = omega arith
range3 c d (inr (inl h)) = omega arith
range3 c d (inr (inr (inl h))) = omega arith
range3 c d (inr (inr (inr h))) = omega arith

pub next_three :
    (c d e : ℕ) (s : Bytes)
    → IsSecond3 c d
    → IsTail d
    → IsTail e
    → utf8_next_codepoint (c ∷ (d ∷ (e ∷ s))) ≡ some s
unfolding utf8_next_codepoint utf8_rest
next_three c d e s h t u =
    let (lo, hi) = range3 c d h in
    let (a, b, n) = value3 c d e h t u in
    let room : (leb 2 (length (d ∷ (e ∷ s))) ≡ true) = ground arith in
    rw
      (
        lead_three c lo hi,
        room,
        follow_tail 1 (c % 16) d (e ∷ s) t,
        follow_tail 0 (c % 16 * 64 + d % 64) e s u,
      )
      (unfold utf8_follow in check_scalar 0x800 ((c % 16 * 64 + d % 64) * 64 + e % 64) s a b n)

value4 :
    (c d e f : ℕ)
    → IsSecond4 c d
    → IsTail d
    → IsTail e
    → IsTail f
    → (0x10000 ≤ ((c % 8 * 64 + d % 64) * 64 + e % 64) * 64 + f % 64)
      × (((c % 8 * 64 + d % 64) * 64 + e % 64) * 64 + f % 64 ≤ 0x10FFFF)
value4 c d e f (inl h) t u w = (omega arith, omega arith)
value4 c d e f (inr (inl h)) t u w = (omega arith, omega arith)
value4 c d e f (inr (inr h)) t u w = (omega arith, omega arith)

range4 : (c d : ℕ) → IsSecond4 c d → (0xF0 ≤ c) × (c ≤ 0xF7)
range4 c d (inl h) = omega arith
range4 c d (inr (inl h)) = omega arith
range4 c d (inr (inr h)) = omega arith

pub next_four :
    (c d e f : ℕ) (s : Bytes)
    → IsSecond4 c d
    → IsTail d
    → IsTail e
    → IsTail f
    → utf8_next_codepoint (c ∷ (d ∷ (e ∷ (f ∷ s)))) ≡ some s
unfolding utf8_next_codepoint utf8_rest
next_four c d e f s h t u w =
    let (lo, hi) = range4 c d h in
    let (a, b) = value4 c d e f h t u w in
    let room : (leb 3 (length (d ∷ (e ∷ (f ∷ s)))) ≡ true) = ground arith in
    rw
      (
        lead_four c lo hi,
        room,
        follow_tail 2 (c % 8) d (e ∷ (f ∷ s)) t,
        follow_tail 1 (c % 8 * 64 + d % 64) e (f ∷ s) u,
        follow_tail 0 ((c % 8 * 64 + d % 64) * 64 + e % 64) f s w,
      )
      (unfold utf8_follow in
        check_scalar 0x10000 (((c % 8 * 64 + d % 64) * 64 + e % 64) * 64 + f % 64) s a b
          (inr (omega arith)))
