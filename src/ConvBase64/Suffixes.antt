-- ===== src/ConvBase64/Suffixes.antt =====
-- The search for a free name: the loop ends, with the first candidate that no node has.
use mathlib.Core.List.{tail-eq_of_cons-eq}
use openwrt_sub_converter.Common.{
  ℕ, zero, suc, ◌+◌, ◌<◌, ◌≤◌, true, false, List, [], ◌∷◌, ◌++◌, some, ◌≡◌, ◌≢◌, ◌⊎◌, inl, inr,
  refl, sym, ◌∙◌, ap, arith, Bytes, codes, length, length-append, equal, equal_iff, if◌then◌else◌,
  Bool-cases,
}
use openwrt_sub_converter.Libc.{decimal}
use openwrt_sub_converter.Libc.Decimal.{decimal_injective}
use openwrt_sub_converter.ConvBase64.{name_used, with_suffix, find_free, assign_unique_name}

append_cancel : (s t u : Bytes) → s ++ t ≡ s ++ u → t ≡ u
append_cancel [] t u e = e
append_cancel (c ∷ s) t u e = append_cancel s t u (tail-eq_of_cons-eq e)

with_suffix_injective : (base : Bytes) (j k : ℕ) → with_suffix base j ≡ with_suffix base k → j ≡ k
unfolding with_suffix
with_suffix_injective base j k e = decimal_injective j k (
    append_cancel (codes " - ") (decimal j) (decimal k)
      (append_cancel base (codes " - " ++ decimal j) (codes " - " ++ decimal k) e))

base-ne-with_suffix : (base : Bytes) (k : ℕ) → base ≢ with_suffix base k
unfolding with_suffix
base-ne-with_suffix base k e =
    absurd (omega (arith, ap length e, length-append base (codes " - " ++ decimal k)))

-- The used names but `x`.
remove : Bytes → List Bytes → List Bytes
remove x [] = []
remove x (u ∷ used) = if equal u x then remove x used else u ∷ remove x used

remove-le : (x : Bytes) (used : List Bytes) → length (remove x used) ≤ length used
unfolding remove
remove-le x [] = omega arith
remove-le x (u ∷ used) = ground (arith, remove-le x used)

remove-lt :
    (x : Bytes) (used : List Bytes) → name_used used x ≡ true → length (remove x used) < length used
unfolding remove name_used
remove-lt x [] h = cc
remove-lt x (u ∷ used) h = ground (arith, remove-le x used, remove-lt x used)

name_used-remove :
    (x c : Bytes) (used : List Bytes) → x ≢ c → name_used (remove x used) c ≡ name_used used c
unfolding remove name_used
name_used-remove x c [] h = refl
name_used-remove x c (u ∷ used) h =
    ground (arith, name_used-remove x c used h, equal_iff u x, equal_iff u c)

-- No candidate from suffix `k` on.
abbrev IsNew : Bytes → Bytes → ℕ → Type 0
IsNew base x k = (j : ℕ) → k ≤ j → x ≢ with_suffix base j

find_free-remove :
    (f : ℕ) (used : List Bytes) (base c x : Bytes) (k : ℕ)
    → x ≢ c
    → IsNew base x k
    → find_free f (remove x used) base c k ≡ find_free f used base c k
unfolding find_free
find_free-remove zero used base c x k h new = refl
find_free-remove (suc f) used base c x k h new = rw (name_used-remove x c used h) (
    rw (
      find_free-remove f used base (with_suffix base k) x (k + 1) (new k (omega arith))
        (λ j le. new j (omega arith))))

-- A name that no node has yet: the candidate itself, or the base with a later suffix.
unfoldable pub IsFree : List Bytes → Bytes → Bytes → ℕ → Bytes → Type 0
IsFree used base cand k name =
    (name_used used name ≡ false)
    × ((name ≡ cand) ⊎ ((j : ℕ) × (k ≤ j) × (name ≡ with_suffix base j)))

-- The first such name.
unfoldable pub IsFirst : List Bytes → Bytes → Bytes → ℕ → Bytes → Type 0
IsFirst used base cand k name =
    (name_used used name ≡ false)
    × ((name ≡ cand)
        ⊎ ((j : ℕ) × (k ≤ j)
            × (name ≡ with_suffix base j)
            × (name_used used cand ≡ true)
            × ((i : ℕ) → k ≤ i → i < j → name_used used (with_suffix base i) ≡ true)))

IsFirst-IsFree :
    (used : List Bytes) (base cand : Bytes) (k : ℕ) (name : Bytes)
    → IsFirst used base cand k name
    → IsFree used base cand k name
unfolding IsFirst IsFree
IsFirst-IsFree used base cand k name (free, inl e) = (free, inl e)
IsFirst-IsFree used base cand k name (free, inr (j, le, e, taken, before)) = (free, inr (j, le, e))

-- With more rounds than there are used names the loop finds such a name.
find_free_total :
    (f : ℕ) (used : List Bytes) (base cand : Bytes) (k : ℕ)
    → length used < f
    → IsNew base cand k
    → (name : Bytes) × (find_free f used base cand k ≡ some name) × IsFirst used base cand k name
unfolding find_free IsFirst IsFree
find_free_total zero used base cand k h new = absurd (omega arith)
find_free_total (suc f) used base cand k h new = elim (Bool-cases (name_used used cand)) [
  | inr free ↦ (cand, rw free, (free, inl refl))
  | inl taken ↦
      let next = with_suffix base k in
      let (name, found, free) =
        find_free_total f (remove cand used) base next (k + 1)
          (omega (arith, remove-lt cand used taken)) (later k) in
      let differ =
        not_cand name (IsFirst-IsFree (remove cand used) base next (k + 1) name free).1 in
      (
        name,
        rw taken (
            sym (
              find_free-remove f used base next cand (k + 1) (new k (omega arith))
                (λ j le. new j (omega arith)))
            ∙ found),
        (sym (name_used-remove cand name used differ) ∙ free.0, inr (first name taken free.1)),
      )
]
  where
    later : (k : ℕ) → IsNew base (with_suffix base k) (k + 1)
    later k j le e = absurd (omega (arith, with_suffix_injective base k j e))

    used_before :
        (i : ℕ)
        → k ≤ i
        → name_used (remove cand used) (with_suffix base i) ≡ true
        → name_used used (with_suffix base i) ≡ true
    used_before i le h = sym (name_used-remove cand (with_suffix base i) used (new i le)) ∙ h

    first :
        (name : Bytes)
        → name_used used cand ≡ true
        → (name ≡ with_suffix base k)
          ⊎ ((j : ℕ) × (k + 1 ≤ j)
              × (name ≡ with_suffix base j)
              × (name_used (remove cand used) (with_suffix base k) ≡ true)
              × ((i : ℕ)
                  → k + 1 ≤ i
                  → i < j
                  → name_used (remove cand used) (with_suffix base i) ≡ true))
        → (j : ℕ) × (k ≤ j)
          × (name ≡ with_suffix base j)
          × (name_used used cand ≡ true)
          × ((i : ℕ) → k ≤ i → i < j → name_used used (with_suffix base i) ≡ true)
    first name taken (inl e) = (k, omega arith, e, taken, λ i le lt. absurd (omega arith))
    first name taken (inr (j, le, e, here, before)) = (
      j,
      omega arith,
      e,
      taken,
      λ i ge lt. elim (at_or_above i ge) [
        | inl same ↦ rw same (used_before k (omega arith) here)
        | inr above ↦ used_before i ge (before i above lt)
      ],
    )
      where
        at_or_above : (i : ℕ) → k ≤ i → (i ≡ k) ⊎ (k + 1 ≤ i)
        at_or_above i ge = ground arith

    suffix :
        (name : Bytes)
        → (name ≡ with_suffix base k) ⊎ ((j : ℕ) × (k + 1 ≤ j) × (name ≡ with_suffix base j))
        → (j : ℕ) × (k ≤ j) × (name ≡ with_suffix base j)
    suffix name (inl e) = (k, omega arith, e)
    suffix name (inr (j, le, e)) = (j, omega arith, e)

    not_cand :
        (name : Bytes)
        → (name ≡ with_suffix base k) ⊎ ((j : ℕ) × (k + 1 ≤ j) × (name ≡ with_suffix base j))
        → cand ≢ name
    not_cand name o e = let (j, le, q) = suffix name o in new j le (e ∙ q)

pub assign_unique_name-IsFirst :
    (used : List Bytes) (base : Bytes)
    → (name : Bytes) × (assign_unique_name used base ≡ some (name, used ++ name ∷ []))
      × IsFirst used base base 2 name
unfolding assign_unique_name
assign_unique_name-IsFirst used base =
    let (name, found, free) =
      find_free_total (suc (length used)) used base base 2 (omega arith)
        (λ j le. base-ne-with_suffix base j) in
    (name, rw found, free)

pub assign_unique_name-IsFree :
    (used : List Bytes) (base : Bytes)
    → (name : Bytes) × (assign_unique_name used base ≡ some (name, used ++ name ∷ []))
      × IsFree used base base 2 name
assign_unique_name-IsFree used base =
    let (name, assigned, first) = assign_unique_name-IsFirst used base in
    (name, assigned, IsFirst-IsFree used base base 2 name first)
