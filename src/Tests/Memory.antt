-- ===== src/Tests/Memory.antt =====
-- A memory that never runs out, and what `strbuf` does in it.
use openwrt_sub_converter.Common.{
  ℕ, zero, suc, ◌-◌, ◌≤◌, [], ◌∷◌, ◌++◌, Option, none, some, ◌≡◌, ◌≢◌, refl, subst, ◌∙◌, ap, arith,
  Bytes, codes, length, take, length-append, length-take, take-length-append, replicate,
  length-replicate, done, Ensures,
}
use openwrt_sub_converter.Buffer
use openwrt_sub_converter.Httpc.Body.{Taken, body_write_cb-Taken}
use openwrt_sub_converter.Httpc.{body_write_cb}
use openwrt_sub_converter.Strbuf.Grow.{IsCapacity, doubled, double_until-IsCapacity}
use openwrt_sub_converter.Strbuf.Refine.{IsValid, Refines, strbuf_init-IsValid}
use openwrt_sub_converter.Strbuf.Total.{strbuf_append_bytes_total}
use openwrt_sub_converter.Strbuf.Uses.{Use, use_buffers, use_strbufs, use_strbufs-Refines}
use openwrt_sub_converter.Strbuf.{
  Strbuf, Heap, double_until, strbuf_init, strbuf_append_bytes, view,
}

-- A block with the bytes of `old` at its front.
resized : Bytes → ℕ → Bytes
resized old n = take n old ++ replicate (n - length (take n old)) 0

length-resized : (old : Bytes) (n : ℕ) → length (resized old n) ≡ n
unfolding resized
length-resized old n =
    length-append (take n old) (replicate (n - length (take n old)) 0)
    ∙ ground (arith, length-replicate {A = ℕ} (n - length (take n old)) 0, length-take n old)

take-resized : (old : Bytes) (n : ℕ) → length old ≤ n → take (length old) (resized old n) ≡ old
unfolding resized
take-resized old n h =
    let whole : (take n old ≡ old) = take_whole n old h in
    rw whole (take-length-append old (replicate (n - length old) 0))
  where
    take_whole : (n : ℕ) (s : Bytes) → length s ≤ n → take n s ≡ s
    take_whole zero [] h = refl
    take_whole zero (c ∷ s) h = absurd (omega arith)
    take_whole (suc n) [] h = refl
    take_whole (suc n) (c ∷ s) h = ap (λ t. c ∷ t) (take_whole n s (omega arith))

old_bytes : Option Bytes → Bytes
old_bytes none = []
old_bytes (some b) = b

pub big_realloc : Option Bytes → ℕ → Option Bytes
unfolding resized old_bytes
big_realloc old n = some (resized (old_bytes old) n)

pub length-big_realloc :
    (old : Option Bytes) (n : ℕ) (b : Bytes) → big_realloc old n ≡ some b → length b ≡ n
unfolding big_realloc
length-big_realloc old n b e = subst (λ r. length r ≡ n) (same e) (length-resized (old_bytes old) n)
  where
    same : {x y : Bytes} → some x ≡ some y → x ≡ y
    same h = cc

pub take-big_realloc :
    (old b : Bytes) (n : ℕ)
    → length old ≤ n
    → big_realloc (some old) n ≡ some b
    → take (length old) b ≡ old
unfolding big_realloc old_bytes
take-big_realloc old b n h e =
    subst (λ r. take (length old) r ≡ old) (same e) (take-resized old n h)
  where
    same : {x y : Bytes} → some x ≡ some y → x ≡ y
    same h = cc

abbrev pub big_heap : Heap
big_heap = record {
  realloc = big_realloc;
  length-realloc = length-big_realloc;
  take-realloc = take-big_realloc;
}

pub big_heap_plenty : (old : Option Bytes) (n : ℕ) → big_heap.realloc old n ≢ none
unfolding big_realloc
big_heap_plenty old n = cc

abbrev word : Bytes
word = codes "abc"

double_until-IsCapacity_example : Ensures (IsCapacity 32 100) (double_until 65 32 100)
double_until-IsCapacity_example =
    double_until-IsCapacity 64 32 100 (omega arith) (unfold doubled in omega arith)

strbuf_append_bytes_total_example :
    (r : Strbuf) × (strbuf_append_bytes big_heap strbuf_init word ≡ done r)
    × Refines (Buffer.append_bytes (view strbuf_init) word) r
strbuf_append_bytes_total_example =
    strbuf_append_bytes_total big_heap big_heap_plenty strbuf_init word strbuf_init-IsValid
      (omega arith)

use_strbufs-Refines_example :
    Ensures
      (Refines (use_buffers (Use.put word ∷ Use.reset ∷ Use.put_char b'x' ∷ []) none))
      (use_strbufs big_heap (Use.put word ∷ Use.reset ∷ Use.put_char b'x' ∷ []) strbuf_init)
use_strbufs-Refines_example =
    use_strbufs-Refines big_heap (Use.put word ∷ Use.reset ∷ Use.put_char b'x' ∷ [])

abbrev held_word : Strbuf
held_word = record { block = some (codes "abc\0\0"); len = 3; cap = 5 }

held_word-IsValid : IsValid held_word
held_word-IsValid = record { bounded = omega arith; shape = (refl, omega arith, refl) }

body_write_cb-Taken_example : Ensures (Taken held_word word) (body_write_cb big_heap word held_word)
body_write_cb-Taken_example =
    body_write_cb-Taken big_heap word held_word held_word-IsValid (omega arith)
