-- ===== src/Strbuf/Total.antt =====
-- Appending to `strbuf` does not fail while memory lasts.
use openwrt_sub_converter.Common.{
  ℕ, ◌+◌, ◌-◌, ◌^◌, ◌<◌, ◌≤◌, [], ◌∷◌, Option, none, some, ◌≡◌, ◌≢◌, inl, inr, refl, arith, Bytes,
  length, if◌then◌else◌, ◌==◌, leb, Bool-cases, done, failed, require, Ensures-done, >>=-ne-failed,
}
use openwrt_sub_converter.Buffer
use openwrt_sub_converter.Buffer.{Buffer}
use openwrt_sub_converter.Strbuf.Grow.{double_until-ne-failed}
use openwrt_sub_converter.Strbuf.Refine.{IsValid, Refines, strbuf_append_bytes-Refines}
use openwrt_sub_converter.Strbuf.{
  Strbuf, Heap, size_max, not_null, store, store_text, strbuf_grow, strbuf_reserve,
  strbuf_append_bytes, view,
}

not_null-ne-failed : (o : Option Bytes) → not_null o ≢ failed
not_null-ne-failed none = cc
not_null-ne-failed (some b) = cc

store-ne-failed : (b : Bytes) (off : ℕ) (s : Bytes) → store b off s ≢ failed
unfolding store
store-ne-failed b off s = ground arith

store_text-ne-failed : (b : Bytes) (len : ℕ) (s : Bytes) → store_text b len s ≢ failed
unfolding store_text
store_text-ne-failed b len s = elim (Bool-cases (length s == 0)) [
  | inl e ↦ rw e (store-ne-failed b (len + length s) (0 ∷ []))
  | inr e ↦ rw e (
      >>=-ne-failed _ _ (store-ne-failed b len s)
        λ b' _. store-ne-failed b' (len + length s) (0 ∷ []))
]

module _ (heap : Heap) (plenty : (old : Option Bytes) (n : ℕ) → heap.realloc old n ≢ none) where
  open heap use {realloc}

  require-ne-failed : (o : Option Bytes) → o ≢ none → require o ≢ failed
  require-ne-failed none h = absurd (h refl)
  require-ne-failed (some b) h = cc

  strbuf_grow-ne-failed :
      (sb : Strbuf) (need : ℕ) → need ≤ 2 ^ 63 → strbuf_grow heap sb need ≢ failed
  unfolding strbuf_grow
  strbuf_grow-ne-failed sb need h = elim (Bool-cases (leb need sb.cap)) [
    | inl e ↦ rw e (cc)
    | inr e ↦ rw e (
        >>=-ne-failed _ _ (double_until-ne-failed 65 (if sb.cap == 0 then 32 else sb.cap) need h)
          λ ncap _.
            >>=-ne-failed _ _ (require-ne-failed (realloc sb.block ncap) (plenty sb.block ncap))
              λ nd _. (cc))
  ]

  strbuf_reserve-ne-failed :
      (sb : Strbuf) (extra : ℕ) → sb.len + extra < 2 ^ 63 → strbuf_reserve heap sb extra ≢ failed
  unfolding strbuf_reserve
  strbuf_reserve-ne-failed sb extra h = elim (Bool-cases (leb (size_max - sb.len) extra)) [
    | inl e ↦ absurd (ground arith)
    | inr e ↦ rw e (strbuf_grow-ne-failed sb (sb.len + extra + 1) (omega arith))
  ]

  -- While `realloc` gives a block and the text stays below half of the address space, appending to a
  -- valid buffer
  -- succeeds, and the contents are those before and the new bytes.
  pub strbuf_append_bytes_total :
      (sb : Strbuf) (s : Bytes)
      → IsValid sb
      → sb.len + length s < 2 ^ 63
      → (r : Strbuf) × (strbuf_append_bytes heap sb s ≡ done r)
        × Refines (Buffer.append_bytes (view sb) s) r
  strbuf_append_bytes_total sb s v h =
      Ensures-done _ (strbuf_append_bytes heap sb s) (strbuf_append_bytes-Refines heap sb s v) (
        unfold strbuf_append_bytes in
        >>=-ne-failed _ _ (strbuf_reserve-ne-failed sb (length s) h) λ r _.
          >>=-ne-failed _ _ (not_null-ne-failed r.block)
            λ b _. >>=-ne-failed _ _ (store_text-ne-failed b r.len s) λ b' _. (cc))
