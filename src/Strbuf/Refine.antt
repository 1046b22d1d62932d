-- ===== src/Strbuf/Refine.antt =====
-- The growing block of `strbuf` does what its clients see of it.
use openwrt_sub_converter.Common.{
  ℕ, zero, suc, ◌+◌, ◌-◌, ◌<◌, ◌≤◌, List, [], ◌∷◌, ◌++◌, append_assoc, append-nil, Option, none,
  some, ◌≡◌, inl, inr, refl, sym, subst, ◌∙◌, ap, arith, Bytes, length, get_elem?, take, drop,
  length-append, length-take, length-drop, take-length-append, if◌then◌else◌, ◌==◌, leb, ==_iff,
  Bool-cases, done, ◌>>=◌, require, Ensures, Ensures->>=,
}
use openwrt_sub_converter.Buffer
use openwrt_sub_converter.Buffer.{Buffer}
use openwrt_sub_converter.Strbuf.Grow.{
  IsCapacity, double_until-IsCapacity, doubled, doubled_mono, doubled_one,
}
use openwrt_sub_converter.Strbuf.{
  Strbuf, Heap, size_max, not_null, store, store_text, strbuf_grow, strbuf_reserve,
  strbuf_append_bytes, seen, view, strbuf_init,
}

get_elem?-append {ℓ} :
    {A : Type ℓ} (xs ys : List A) (x : A) → get_elem? (xs ++ x ∷ ys) (length xs) ≡ some x
get_elem?-append [] ys x = refl
get_elem?-append (y ∷ xs) ys x = get_elem?-append xs ys x

take-take {ℓ} : {A : Type ℓ} (m n : ℕ) (xs : List A) → m ≤ n → take m (take n xs) ≡ take m xs
take-take zero n xs h = refl
take-take (suc m) zero xs h = absurd (omega arith)
take-take (suc m) (suc n) [] h = refl
take-take (suc m) (suc n) (x ∷ xs) h = ap (λ t. x ∷ t) (take-take m n xs (omega arith))

take_within {ℓ} : {A : Type ℓ} (n : ℕ) (xs : List A) → n ≤ length xs → length (take n xs) ≡ n
take_within n xs h = ground (arith, length-take n xs)

-- The first `n` bytes after `s` is written at `n`'s end.
unfoldable pub splice : Bytes → ℕ → Bytes → Bytes
splice b off s = take off b ++ (s ++ drop (off + length s) b)

pub length-splice :
    (b : Bytes) (off : ℕ) (s : Bytes)
    → off + length s ≤ length b
    → length (splice b off s) ≡ length b
unfolding splice
length-splice b off s h =
    let e = length-append (take off b) (s ++ drop (off + length s) b) in
    let e' = length-append s (drop (off + length s) b) in
    omega (arith, take_within off b (omega arith), length-drop (off + length s) b)

take-splice :
    (b : Bytes) (off : ℕ) (s : Bytes)
    → off + length s ≤ length b
    → take (off + length s) (splice b off s) ≡ take off b ++ s
unfolding splice
take-splice b off s h =
    let n : (length (take off b ++ s) ≡ off + length s) =
      omega (arith, length-append (take off b) s, take_within off b (omega arith)) in
    ap (take (off + length s)) (sym (append_assoc (take off b) s (drop (off + length s) b)))
    ∙ (subst (λ k. take k ((take off b ++ s) ++ drop (off + length s) b) ≡ take off b ++ s) n
        (take-length-append (take off b ++ s) (drop (off + length s) b)))

pub store_within :
    (b : Bytes) (off : ℕ) (s : Bytes)
    → off + length s ≤ length b
    → store b off s ≡ done (splice b off s)
unfolding store splice
store_within b off s h = ground arith

-- The block `b` has the bytes `u` before its terminator.
abbrev pub IsText : ℕ → Bytes → Bytes → Type 0
IsText n u b = (take n b ≡ u) × (get_elem? b n ≡ some 0)

terminated : (b : Bytes) (n : ℕ) → n < length b → IsText n (take n b) (splice b n (0 ∷ []))
unfolding splice
terminated b n h =
    let e : (length (take n b) ≡ n) = take_within n b (omega arith) in
    (
      subst (λ k. take k (take n b ++ 0 ∷ drop (n + 1) b) ≡ take n b) e
          (take-length-append (take n b) (0 ∷ drop (n + 1) b)),
      subst (λ k. get_elem? (take n b ++ 0 ∷ drop (n + 1) b) k ≡ some 0) e
          (get_elem?-append (take n b) (drop (n + 1) b) 0),
    )

-- The bytes and the terminator fit: the write is within the block.
pub record Stored (b : Bytes) (len : ℕ) (s : Bytes) (r : Bytes) : Type 0 where
  pub length_kept : length r ≡ length b
  pub text : IsText (len + length s) (take len b ++ s) r

Stored-terminator :
    (b b' : Bytes) (len : ℕ) (s : Bytes)
    → length b' ≡ length b
    → take (len + length s) b' ≡ take len b ++ s
    → len + length s < length b
    → Stored b len s (splice b' (len + length s) (0 ∷ []))
Stored-terminator b b' len s same front h = record {
  length_kept = length-splice b' (len + length s) (0 ∷ []) (omega arith) ∙ same;
  text = let t = terminated b' (len + length s) (omega arith) in (t.0 ∙ front, t.1);
}

take-append-nil :
    (b : Bytes) (len : ℕ) (s : Bytes) → length s ≡ 0 → take (len + length s) b ≡ take len b ++ s
take-append-nil b len [] h = rw append-nil (ap (λ n. take n b) (omega arith))
take-append-nil b len (c ∷ s) h = absurd (omega arith)

pub store_text_lem :
    (b : Bytes) (len : ℕ) (s : Bytes)
    → len + length s < length b
    → (r : Bytes) × (store_text b len s ≡ done r) × Stored b len s r
unfolding store_text
store_text_lem b len s h = elim (Bool-cases (length s == 0)) [
  | inl e ↦ (
    splice b (len + length s) (0 ∷ []),
    rw e (store_within b (len + length s) (0 ∷ []) (omega arith)),
    Stored-terminator b b len s refl (take-append-nil b len s ((==_iff _ _).0 e)) h,
  )
  | inr e ↦ (
    splice (splice b len s) (len + length s) (0 ∷ []),
    rw (e, store_within b len s (omega arith))
        (store_within (splice b len s) (len + length s) (0 ∷ [])
          (omega (arith, length-splice b len s (omega arith)))),
    Stored-terminator b (splice b len s) len s (length-splice b len s (omega arith))
        (take-splice b len s (omega arith)) h,
  )
]

-- The invariant: no block and no room, or a block of `cap` bytes with the terminator at `len`.
abbrev pub IsBlock : ℕ → ℕ → Option Bytes → Type 0
IsBlock len cap none = (len ≡ 0) × (cap ≡ 0)
IsBlock len cap (some b) = (length b ≡ cap) × (len < cap) × (get_elem? b len ≡ some 0)

pub record IsValid (sb : Strbuf) : Type 0 where
  pub bounded : sb.cap ≤ size_max
  pub shape : IsBlock sb.len sb.cap sb.block

pub strbuf_init-IsValid : IsValid strbuf_init
strbuf_init-IsValid = record { bounded = omega arith; shape = (refl, refl) }

-- Room for `need` bytes, with the first `len` bytes as before.
abbrev pub IsRoom : ℕ → ℕ → Bytes → Option Bytes → Type 0
IsRoom need cap old none = ⊥
IsRoom need cap old (some b) = (length b ≡ cap) × (need ≤ cap) × (take (length old) b ≡ old)

pub record IsGrown (sb : Strbuf) (need : ℕ) (r : Strbuf) : Type 0 where
  pub same_len : r.len ≡ sb.len
  pub bounded : r.cap ≤ size_max
  pub room : IsRoom need r.cap (Buffer.contents (view sb)) r.block

start_small : (c : ℕ) → c ≤ size_max → (if c == 0 then 32 else c) ≤ size_max
start_small c h = ground arith

start_pos : (c : ℕ) → 0 < (if c == 0 then 32 else c)
start_pos c = ground arith

start_above : (c n : ℕ) → (if c == 0 then 32 else c) ≤ n → c ≤ n
start_above c n h = ground arith

pub length-view :
    (len cap : ℕ) (block : Option Bytes)
    → IsBlock len cap block
    → length (Buffer.contents (seen len block)) ≡ len
length-view len cap none h = sym h.0
length-view len cap (some b) h = take_within len b (omega arith)

-- The step of the implementation is the step of the abstract buffer.
abbrev pub Refines : Buffer → Strbuf → Type 0
Refines b r = IsValid r × (view r ≡ b)

-- Writing a text and its terminator to a block with room for them.
abbrev pub StoredAs : ℕ → ℕ → Bytes → Bytes → Option Bytes → Type 0
StoredAs len cap old s block =
    (b b' : Bytes) × (block ≡ some b)
    × (store_text b len s ≡ done b')
    × Refines (some (old ++ s)) (record { block = some b'; len = len + length s; cap = cap })

room-StoredAs :
    (len cap : ℕ) (old s : Bytes) (block : Option Bytes)
    → length old ≡ len
    → cap ≤ size_max
    → IsRoom (len + length s + 1) cap old block
    → StoredAs len cap old s block
room-StoredAs len cap old s none e bound h = absurd h
room-StoredAs len cap old s (some b) e bound (size, k, front) =
    let (r, run, st) = store_text_lem b len s (omega arith) in
    (
      b,
      r,
      refl,
      run,
      (
        record { bounded = bound; shape = (st.length_kept ∙ size, omega arith, st.text.1) },
        ap some (st.text.0 ∙ ap (λ u. u ++ s) (subst (λ n. take n b ≡ old) e front)),
      ),
    )

pub IsGrown-StoredAs :
    (sb : Strbuf) (s : Bytes) (r : Strbuf)
    → IsValid sb
    → IsGrown sb (sb.len + length s + 1) r
    → StoredAs r.len r.cap (Buffer.contents (view sb)) s r.block
IsGrown-StoredAs sb s r v g =
    subst (λ n. StoredAs n r.cap (Buffer.contents (view sb)) s r.block) (sym g.same_len)
      (room-StoredAs sb.len r.cap (Buffer.contents (view sb)) s r.block
        (length-view sb.len sb.cap sb.block v.shape) g.bounded g.room)

get_block : Option Bytes → Bytes
get_block none = []
get_block (some b) = b

stored-Ensures :
    (len cap : ℕ) (old s : Bytes) (block : Option Bytes)
    → StoredAs len cap old s block
    → Ensures (Refines (some (old ++ s))) (
        not_null block >>= λ b.
        (store_text b len s >>= λ b'.
        done (record { block = some b'; len = len + length s; cap = cap })))
unfolding get_block
stored-Ensures len cap old s none (b, b', e, run, r) = absurd (cc)
stored-Ensures len cap old s (some c) (b, b', e, run, r) =
    let run' : (store_text c len s ≡ done b') =
      ap (λ (o : Option Bytes). store_text (get_block o) len s) e ∙ run in
    rw run' r

module _ (heap : Heap) where
  open heap use {realloc, length-realloc, take-realloc}

  realloc-IsRoom :
      (len cap need ncap : ℕ) (block : Option Bytes) (b : Bytes)
      → IsBlock len cap block
      → cap ≤ ncap
      → need ≤ ncap
      → realloc block ncap ≡ some b
      → IsRoom need ncap (Buffer.contents (seen len block)) (some b)
  realloc-IsRoom len cap need ncap none b v h k e = (length-realloc none ncap b e, k, refl)
  realloc-IsRoom len cap need ncap (some old) b (size, below, _) h k e =
      let n : (length (take len old) ≡ len) = take_within len old (omega arith) in
      (
        length-realloc (some old) ncap b e,
        k,
        rw n (
            sym (take-take len (length old) b (omega arith))
            ∙ ap (take len) (take-realloc old b ncap (omega arith) e)),
      )

  pub IsBlock-IsRoom :
      (len cap need : ℕ) (block : Option Bytes)
      → IsBlock len cap block
      → 0 < need
      → need ≤ cap
      → IsRoom need cap (Buffer.contents (seen len block)) block
  IsBlock-IsRoom len cap need none (_, v) h k = absurd (omega arith)
  IsBlock-IsRoom len cap need (some b) (size, below, _) h k =
      (size, k, ap (λ n. take n b) (take_within len b (omega arith)))

  pub realloc-IsGrown :
      (sb : Strbuf) (need ncap : ℕ) (o : Option Bytes)
      → IsValid sb
      → sb.cap ≤ ncap
      → need ≤ ncap
      → ncap ≤ size_max
      → realloc sb.block ncap ≡ o
      → Ensures
          (IsGrown sb need)
          (require o >>= λ nd. done (record { block = some nd; len = sb.len; cap = ncap }))
  realloc-IsGrown sb need ncap none v h k small e = tt
  realloc-IsGrown sb need ncap (some b) v h k small e = record {
    same_len = refl;
    bounded = small;
    room = realloc-IsRoom sb.len sb.cap need ncap sb.block b v.shape h k e;
  }

  doubled_start : (n : ℕ) → 0 < n → size_max < doubled 64 n
  doubled_start n h = omega (arith, doubled_one, doubled_mono 64 1 n (omega arith))

  strbuf_grow-IsGrown :
      (sb : Strbuf) (need : ℕ)
      → IsValid sb
      → 0 < need
      → Ensures (IsGrown sb need) (strbuf_grow heap sb need)
  unfolding strbuf_grow
  strbuf_grow-IsGrown sb need v h = elim (Bool-cases (leb need sb.cap)) [
    | inl fits ↦ rw fits (record {
      same_len = refl;
      bounded = v.bounded;
      room = IsBlock-IsRoom sb.len sb.cap need sb.block v.shape h (ground arith);
    })
    | inr more ↦ rw more (
        Ensures->>= (IsCapacity (if sb.cap == 0 then 32 else sb.cap) need) _ _ _
          (double_until-IsCapacity 64 (if sb.cap == 0 then 32 else sb.cap) need
            (start_small sb.cap v.bounded) (doubled_start _ (start_pos sb.cap)))
          λ ncap c.
            realloc-IsGrown sb need ncap (realloc sb.block ncap) v (start_above sb.cap ncap c.1) c.0
              c.2 refl)
  ]

  strbuf_reserve-IsGrown :
      (sb : Strbuf) (extra : ℕ)
      → IsValid sb
      → Ensures (IsGrown sb (sb.len + extra + 1)) (strbuf_reserve heap sb extra)
  unfolding strbuf_reserve
  strbuf_reserve-IsGrown sb extra v = elim (Bool-cases (leb (size_max - sb.len) extra)) [
    | inl over ↦ rw over tt
    | inr fits ↦ rw fits (strbuf_grow-IsGrown sb (sb.len + extra + 1) v (omega arith))
  ]

  -- Appending to a valid buffer writes within its block, and keeps the invariant; the bytes that
  -- it holds then are those before and the new ones. It may only end by `oom_abort`.
  pub strbuf_append_bytes-Refines :
      (sb : Strbuf) (s : Bytes)
      → IsValid sb
      → Ensures (Refines (Buffer.append_bytes (view sb) s)) (strbuf_append_bytes heap sb s)
  unfolding strbuf_append_bytes
  strbuf_append_bytes-Refines sb s v =
      Ensures->>= (IsGrown sb (sb.len + length s + 1)) _ _ _
        (strbuf_reserve-IsGrown sb (length s) v)
        λ r g.
          stored-Ensures r.len r.cap (Buffer.contents (view sb)) s r.block
            (IsGrown-StoredAs sb s r v g)
