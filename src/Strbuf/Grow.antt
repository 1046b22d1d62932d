-- ===== src/Strbuf/Grow.antt =====
-- The loop that doubles the capacity ends, without wrapping around.
use openwrt_sub_converter.Common.{
  ℕ, zero, suc, ◌+◌, ◌*◌, ◌/◌, ◌^◌, ◌<◌, ◌≤◌, true, ◌≡◌, ◌≢◌, ◌⊎◌, inl, inr, refl, arith, ltb,
  Bool-cases, failed, Ensures, Ensures-mono,
}
use openwrt_sub_converter.Strbuf.{size_max, double_until}

-- `n` after `f` rounds.
unfoldable pub doubled : ℕ → ℕ → ℕ
doubled zero n = n
doubled (suc f) n = doubled f (n * 2)

pub doubled_mono : (f m n : ℕ) → m ≤ n → doubled f m ≤ doubled f n
unfolding doubled
doubled_mono zero m n h = h
doubled_mono (suc f) m n h = doubled_mono f (m * 2) (n * 2) (omega arith)

pub doubled_one : doubled 64 1 ≡ size_max + 1
unfolding doubled
doubled_one = refl

-- A capacity that is enough, within a `size_t`, and less than twice what is needed unless it was
-- enough before.
abbrev pub IsCapacity : ℕ → ℕ → ℕ → Type 0
IsCapacity ncap need r = (need ≤ r) × (ncap ≤ r) × (r ≤ size_max) × ((r ≡ ncap) ⊎ (r < 2 * need))

IsCapacity-double :
    (ncap need r : ℕ) → ltb ncap need ≡ true → IsCapacity (ncap * 2) need r → IsCapacity ncap need r
IsCapacity-double ncap need r more (enough, above, small, least) =
    let below : (ncap < need) = ground arith in
    (enough, omega arith, small, inr (elim least [ inl e ↦ omega arith | inr h ↦ h ]))

-- With a round for each doubling that a `size_t` allows, and from a capacity within it, the loop
-- ends: with a capacity that is enough, within a `size_t`, not below the one before, and less than
-- twice what is needed unless it is the one before; or with `oom_abort`.
pub double_until-IsCapacity :
    (f ncap need : ℕ)
    → ncap ≤ size_max
    → size_max < doubled f ncap
    → Ensures (IsCapacity ncap need) (double_until (suc f) ncap need)
unfolding double_until doubled
double_until-IsCapacity zero ncap need small enough = absurd (omega arith)
double_until-IsCapacity (suc f) ncap need small enough =
    let ih : ((ncap * 2 ≤ size_max)
        → Ensures (IsCapacity (ncap * 2) need) (double_until (suc f) (ncap * 2) need)) =
      (λ h. double_until-IsCapacity f (ncap * 2) need h enough) in
    elim (Bool-cases (ltb ncap need)) [
      | inr stop ↦ rw stop (ground arith)
      | inl more ↦ elim (Bool-cases (ltb (size_max / 2) ncap)) [
        | inl over ↦ rw (more, over) tt
        | inr fits ↦
            rw (more, fits)
              (Ensures-mono (IsCapacity (ncap * 2) need) (IsCapacity ncap need)
                (double_until (suc f) (ncap * 2) need) (ih (ground arith))
                (λ r q. IsCapacity-double ncap need r more q))
      ]
    ]

-- Up to half of the address space, the doubling does not meet its own limit.
pub double_until-ne-failed : (f ncap need : ℕ) → need ≤ 2 ^ 63 → double_until f ncap need ≢ failed
unfolding double_until
double_until-ne-failed zero ncap need h = cc
double_until-ne-failed (suc f) ncap need h =
    let ih = double_until-ne-failed f (ncap * 2) need h in
    elim (Bool-cases (ltb ncap need)) [
      | inr stop ↦ rw stop (cc)
      | inl more ↦ elim (Bool-cases (ltb (size_max / 2) ncap)) [
        | inl over ↦ absurd (ground arith)
        | inr fits ↦ rw (more, fits) ih
      ]
    ]
