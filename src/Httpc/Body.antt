-- ===== src/Httpc/Body.antt =====
-- What `body_write_cb` does to the body that was received so far.
use openwrt_sub_converter.Common.{
  ℕ, zero, suc, ◌+◌, ◌*◌, ◌%◌, ◌^◌, ◌<◌, ◌≤◌, false, [], ◌∷◌, ◌++◌, append-nil, Option, none, some,
  ◌≡◌, ◌≢◌, inl, inr, refl, sym, subst, ◌∙◌, ap, arith, Bytes, length, if◌then◌else◌, ◌==◌, ltb,
  leb, Bool-cases, Outcome, done, failed, fault, ◌>>=◌, Ensures,
}
use mathlib.Core.Option
use openwrt_sub_converter.Buffer
use openwrt_sub_converter.Buffer.{Buffer}
use openwrt_sub_converter.Httpc.{wrap_until, body_room, body_store, body_write_cb}
use openwrt_sub_converter.Strbuf.Grow.{doubled, doubled_mono, doubled_one}
use openwrt_sub_converter.Strbuf.Refine.{
  IsValid, Refines, IsGrown, IsGrown-StoredAs, realloc-IsGrown, IsBlock-IsRoom,
}
use openwrt_sub_converter.Strbuf.{Strbuf, Heap, size_max, not_null, store_text, view}

-- Up to half of the address space, the doubling does not wrap around, and ends.
wrap_until_total :
    (f ncap need : ℕ)
    → need ≤ 2 ^ 63
    → ncap ≤ size_max
    → size_max < doubled f ncap
    → (r : ℕ) × (wrap_until (suc f) ncap need ≡ done r) × (need ≤ r) × (ncap ≤ r) × (r ≤ size_max)
unfolding wrap_until doubled
wrap_until_total zero ncap need h small enough = absurd (omega arith)
wrap_until_total (suc f) ncap need h small enough = elim (Bool-cases (ltb ncap need)) [
  | inr stop ↦ (ncap, rw stop refl, ground arith, omega arith, small)
  | inl more ↦
      let below : (ncap < need) = ground arith in
      let e : (ncap * 2 % 2 ^ 64 ≡ ncap * 2) = omega arith in
      let (r, run, p, q, k) = wrap_until_total f (ncap * 2) need h (omega arith) enough in
      (r, rw (more, e) run, p, omega arith, k)
]

start_bounds :
    (c : ℕ)
    → c ≤ size_max
    → (0 < (if c == 0 then 1024 else c)) × ((if c == 0 then 1024 else c) ≤ size_max)
start_bounds c h = ground arith

start_above : (c n : ℕ) → (if c == 0 then 1024 else c) ≤ n → c ≤ n
start_above c n h = ground arith

-- Nothing was taken, or the chunk was added to the body.
pub data Taken (buf : Strbuf) (chunk : Bytes) : ℕ × Strbuf → Type 0 where
  refused : Taken buf chunk (0, buf)
  added :
      (r : Strbuf)
      → Refines (Buffer.append_bytes (view buf) chunk) r
      → Taken buf chunk (length chunk, r)

-- The room that was found.
abbrev IsRoomy : Strbuf → ℕ → Option Strbuf → Type 0
IsRoomy buf need none = Unit
IsRoomy buf need (some r) = IsGrown buf need r

module _ (heap : Heap) where
  realloc-IsRoomy :
      (buf : Strbuf) (need ncap : ℕ) (o : Option Bytes)
      → IsValid buf
      → buf.cap ≤ ncap
      → need ≤ ncap
      → ncap ≤ size_max
      → heap.realloc buf.block ncap ≡ o
      → IsRoomy buf need
          (Option.map (λ nd. record { block = some nd; len = buf.len; cap = ncap }) o)
  realloc-IsRoomy buf need ncap none v p q k e = tt
  realloc-IsRoomy buf need ncap (some b) v p q k e =
      realloc-IsGrown heap buf need ncap (some b) v p q k e

  body_room-IsRoomy :
      (buf : Strbuf) (need : ℕ)
      → IsValid buf
      → 0 < need
      → need ≤ 2 ^ 63
      → (r : Option Strbuf) × (body_room heap buf need ≡ done r) × IsRoomy buf need r
  unfolding body_room
  body_room-IsRoomy buf need v p h = elim (Bool-cases (leb need buf.cap)) [
    | inl fits ↦ (
      some buf,
      rw fits refl,
      record {
        same_len = refl;
        bounded = v.bounded;
        room = IsBlock-IsRoom heap buf.len buf.cap need buf.block v.shape p (ground arith);
      },
    )
    | inr more ↦
        let (lo, hi) = start_bounds buf.cap v.bounded in
        let (ncap, run, a, b, c) =
          wrap_until_total 64 (if buf.cap == 0 then 1024 else buf.cap) need h hi (
            omega (
              arith,
              doubled_one,
              doubled_mono 64 1 (if buf.cap == 0 then 1024 else buf.cap) (omega arith),
            )) in
        (
          Option.map (λ nd. record { block = some nd; len = buf.len; cap = ncap })
              (heap.realloc buf.block ncap),
          rw (more, run) refl,
          realloc-IsRoomy buf need ncap (heap.realloc buf.block ncap) v (start_above buf.cap ncap b)
              a c refl,
        )
  ]

  body_store-Taken :
      (r : Option Strbuf) (buf : Strbuf) (chunk : Bytes)
      → IsValid buf
      → IsRoomy buf (buf.len + length chunk + 1) r
      → Ensures (Taken buf chunk) (body_store r buf chunk)
  unfolding body_store
  body_store-Taken none buf chunk v g = Taken.refused
  body_store-Taken (some r) buf chunk v g =
      let (b, b', e, run, q) = IsGrown-StoredAs buf chunk r v g in
      let step : (body_store (some r) buf chunk
          ≡ done
              (length chunk, record { block = some b'; len = r.len + length chunk; cap = r.cap })) =
        ap
          (λ (o : Option Bytes). not_null o >>= λ b.
            (store_text b r.len chunk >>= λ b'.
            done
              (length chunk, record { block = some b'; len = r.len + length chunk; cap = r.cap })))
          e
        ∙ ap
            (λ (o : Outcome Bytes). o >>= λ b'.
              done
                (length chunk, record { block = some b'; len = r.len + length chunk; cap = r.cap }))
            run in
      subst (Ensures (Taken buf chunk)) (sym step) (Taken.added _ q)

  -- The steps of the callback, with the room that was found.
  body_write_cb-eq :
      (chunk : Bytes) (buf : Strbuf) (need : ℕ) (r : Option Strbuf)
      → (length chunk == 0) ≡ false
      → (buf.len + length chunk + 1) % 2 ^ 64 ≡ need
      → body_room heap buf need ≡ done r
      → body_write_cb heap chunk buf ≡ body_store r buf chunk
  unfolding body_write_cb
  body_write_cb-eq chunk buf need r e fit run = rw (e, fit, run) refl

  -- While the body stays below half of the address space, the callback writes within its block; it
  -- takes the whole chunk and adds it to the body, or it takes nothing and changes nothing.
  pub body_write_cb-Taken :
      (chunk : Bytes) (buf : Strbuf)
      → IsValid buf
      → buf.len + length chunk < 2 ^ 63
      → Ensures (Taken buf chunk) (body_write_cb heap chunk buf)
  unfolding body_write_cb
  body_write_cb-Taken chunk buf v h = elim (Bool-cases (length chunk == 0)) [
    | inl e ↦ rw e Taken.refused
    | inr e ↦
        let fit : ((buf.len + length chunk + 1) % 2 ^ 64 ≡ buf.len + length chunk + 1) =
          omega arith in
        let (r, run, g) =
          body_room-IsRoomy buf (buf.len + length chunk + 1) v (omega arith) (omega arith) in
        subst (Ensures (Taken buf chunk)) (sym (body_write_cb-eq chunk buf _ r e fit run))
          (body_store-Taken r buf chunk v g)
  ]

map-ne-none {ℓ κ} :
    {A : Type ℓ} {B : Type κ} (f : A → B) (o : Option A) → o ≢ none → Option.map f o ≢ none
map-ne-none f none h = absurd (h refl)
map-ne-none f (some a) h = cc

-- The buffer `r` holds `s`.
pub record Holds (s : Bytes) (r : Strbuf) : Type 0 where
  pub valid : IsValid r
  pub text : Buffer.contents (view r) ≡ s

module _ (heap : Heap) (plenty : (old : Option Bytes) (n : ℕ) → heap.realloc old n ≢ none) where
  grown-ne-none :
      (buf : Strbuf) (w : Outcome ℕ) (r : Option Strbuf)
      → (w >>= λ ncap. done (
          Option.map {B = Strbuf}
            (λ nd. record { block = some nd; len = buf.len; cap = ncap })
            (heap.realloc buf.block ncap)))
        ≡ done r
      → r ≢ none
  grown-ne-none buf (done ncap) r e = λ none_left.
      map-ne-none {B = Strbuf} (λ nd. record { block = some nd; len = buf.len; cap = ncap })
        (heap.realloc buf.block ncap) (plenty buf.block ncap) (cc)
  grown-ne-none buf failed r e = cc
  grown-ne-none buf fault r e = cc

  body_room-ne-none :
      (buf : Strbuf) (need : ℕ) (r : Option Strbuf) → body_room heap buf need ≡ done r → r ≢ none
  unfolding body_room
  body_room-ne-none buf need r e = elim (Bool-cases (leb need buf.cap)) [
    | inl fits ↦ let e' : (done (some buf) ≡ done r) = (rw fits at e) in cc
    | inr more ↦
        grown-ne-none buf (wrap_until 65 (if buf.cap == 0 then 1024 else buf.cap) need) r
          (rw more at e)
  ]

  stored-Holds :
      (r : Option Strbuf) (buf : Strbuf) (chunk : Bytes)
      → IsValid buf
      → r ≢ none
      → IsRoomy buf (buf.len + length chunk + 1) r
      → (q : Strbuf) × (body_store r buf chunk ≡ done (length chunk, q))
        × Holds (Buffer.contents (view buf) ++ chunk) q
  unfolding body_store
  stored-Holds none buf chunk v n g = absurd (n refl)
  stored-Holds (some r) buf chunk v n g =
      let (b, b', e, run, q) = IsGrown-StoredAs buf chunk r v g in
      (
        record { block = some b'; len = r.len + length chunk; cap = r.cap },
        ap
              (λ (o : Option Bytes). not_null o >>= λ b.
                (store_text b r.len chunk >>= λ b'. done (
                  length chunk,
                  record { block = some b'; len = r.len + length chunk; cap = r.cap },
                )))
              e
            ∙ ap
                (λ (o : Outcome Bytes). o >>= λ b'. done (
                  length chunk,
                  record { block = some b'; len = r.len + length chunk; cap = r.cap },
                ))
                run,
        record { valid = q.0; text = ap Buffer.contents q.1 },
      )

  pub body_write_cb-Holds :
      (chunk : Bytes) (buf : Strbuf)
      → IsValid buf
      → buf.len + length chunk < 2 ^ 63
      → (q : Strbuf) × (body_write_cb heap chunk buf ≡ done (length chunk, q))
        × Holds (Buffer.contents (view buf) ++ chunk) q
  unfolding body_write_cb
  body_write_cb-Holds [] buf v h = (buf, refl, record { valid = v; text = sym (append-nil _) })
  body_write_cb-Holds (c ∷ chunk) buf v h =
      let some_bytes : ((length (c ∷ chunk) == 0) ≡ false) = ground arith in
      let fit : ((buf.len + length (c ∷ chunk) + 1) % 2 ^ 64 ≡ buf.len + length (c ∷ chunk) + 1) =
        omega arith in
      let (r, run, g) =
        body_room-IsRoomy heap buf (buf.len + length (c ∷ chunk) + 1) v (omega arith)
          (omega arith) in
      let (q, e, k) = stored-Holds r buf (c ∷ chunk) v (body_room-ne-none buf _ r run) g in
      (q, body_write_cb-eq heap (c ∷ chunk) buf _ r some_bytes fit run ∙ e, k)
