-- ===== src/Strbuf.antt =====
-- The growing block of `strbuf`, sub-converter/src/util.c. `realloc` is a parameter, with what C
-- says of it as laws. `failed` is `oom_abort`, which ends the program; `fault` is a write outside
-- the block. The loop that doubles the capacity has fuel, one round for each bit of a `size_t`.
pub mod Grow
pub mod Refine
pub mod Uses
pub mod Total
use openwrt_sub_converter.Common.{
  ℕ, zero, suc, ◌+◌, ◌-◌, ◌*◌, ◌/◌, ◌%◌, ◌^◌, ◌<◌, ◌≤◌, Bool, true, false, not, ◌&&◌, ◌||◌, List,
  [], ◌∷◌, ◌++◌, append_assoc, append-nil, Option, none, some, ◌≡◌, ◌≢◌, ◌↔◌, ◌⊎◌, inl, inr, refl,
  sym, subst, fun_ext, ◌∙◌, ap, arith, Bytes, IsBytes, Lacks, All, All-append, codes, get_or,
  length, get_elem?, take, drop, length-append, length-take, length-drop, take-length-append,
  take-length, drop_behind, take-append-drop, drop-length-append, replicate, length-replicate,
  equal, equal_iff, c_str, c_str-Lacks, Lacks-c_str, is_space, is_digit, if◌then◌else◌, ◌==◌, ltb,
  leb, ==_iff, Bool-cases, Option-cases, all_below, all_below_sound, all_below_sound₂, Outcome,
  done, failed, fault, ◌>>=◌, ◌>>◌, >>=-eq-done, >>=-ne-fault, require, guard, Returns, Ensures,
  Returns->>=, Ensures->>=, Returns-done, Ensures-ne-fault, Returns-Ensures,
}
use openwrt_sub_converter.Buffer.{Buffer}

pub record Strbuf : Type 0 where
  pub block : Option Bytes
  pub len : ℕ
  pub cap : ℕ

-- `realloc`: `none` is NULL. A block has the size that was asked for, and keeps the old bytes.
pub record Heap : Type 0 where
  pub realloc : Option Bytes → ℕ → Option Bytes
  pub length-realloc :
      (old : Option Bytes) (n : ℕ) (b : Bytes) → realloc old n ≡ some b → length b ≡ n
  pub take-realloc :
      (old b : Bytes) (n : ℕ)
      → length old ≤ n
      → realloc (some old) n ≡ some b
      → take (length old) b ≡ old

abbrev pub size_max : ℕ
size_max = 2 ^ 64 - 1

-- `while (ncap < need) { if (ncap > SIZE_MAX / 2) oom_abort(); ncap *= 2; }`
unfoldable pub double_until : ℕ → ℕ → ℕ → Outcome ℕ
double_until zero ncap need = fault
double_until (suc f) ncap need =
    let further = double_until f (ncap * 2) need in
    if ltb ncap need then if ltb (size_max / 2) ncap then failed else further else done ncap

abbrev pub strbuf_init : Strbuf
strbuf_init = record { block = none; len = 0; cap = 0 }

-- A pointer that is written through.
abbrev pub not_null : Option Bytes → Outcome Bytes
not_null none = fault
not_null (some b) = done b

-- The bytes of `s` written over those of the block from `off` on.
unfoldable pub store : Bytes → ℕ → Bytes → Outcome Bytes
store b off s =
    if leb (off + length s) (length b)
    then done (take off b ++ (s ++ drop (off + length s) b))
    else fault

-- `if (n) memcpy(…)` and the terminator behind it.
unfoldable pub store_text : Bytes → ℕ → Bytes → Outcome Bytes
unfolding store
store_text b len s = do
  b' ← if length s == 0 then done b else store b len s
  store b' (len + length s) (0 ∷ [])

module _ (heap : Heap) where
  open heap use {realloc}

  unfoldable pub strbuf_grow : Strbuf → ℕ → Outcome Strbuf
  unfolding double_until
  strbuf_grow sb need = if leb need sb.cap then done sb else do
    ncap ← double_until 65 (if sb.cap == 0 then 32 else sb.cap) need
    nd ← require (realloc sb.block ncap)
    done (record { block = some nd; len = sb.len; cap = ncap })

  unfoldable pub strbuf_reserve : Strbuf → ℕ → Outcome Strbuf
  unfolding strbuf_grow
  strbuf_reserve sb extra =
      if leb (size_max - sb.len) extra then failed else strbuf_grow sb (sb.len + extra + 1)

  unfoldable pub strbuf_append_bytes : Strbuf → Bytes → Outcome Strbuf
  unfolding strbuf_reserve store_text
  strbuf_append_bytes sb s = do
    r ← strbuf_reserve sb (length s)
    b ← not_null r.block
    b' ← store_text b r.len s
    done (record { block = some b'; len = r.len + length s; cap = r.cap })

  unfoldable pub strbuf_append_char : Strbuf → ℕ → Outcome Strbuf
  unfolding strbuf_append_bytes
  strbuf_append_char sb c = strbuf_append_bytes sb (c ∷ [])

  -- A C string.
  unfoldable pub strbuf_append_str : Strbuf → Bytes → Outcome Strbuf
  unfolding strbuf_append_bytes
  strbuf_append_str sb s = strbuf_append_bytes sb (c_str s)

  -- `text` is what `vsnprintf` formats, with its terminator, into the room that is reserved; it
  -- gives a negative number for a text that is longer than an `int` can say.
  unfoldable pub strbuf_appendf : Strbuf → Bytes → Outcome Strbuf
  unfolding strbuf_append_bytes
  strbuf_appendf sb text =
      if ltb (2 ^ 31 - 1) (length text) then done sb else strbuf_append_bytes sb text

-- `free` takes the block back.
unfoldable pub strbuf_free : Strbuf → Strbuf
strbuf_free sb = strbuf_init

unfoldable pub clear_block : Option Bytes → Outcome (Option Bytes)
unfolding store
clear_block none = done none
clear_block (some b) = do b' ← store b 0 (0 ∷ []); done (some b')

unfoldable pub strbuf_clear : Strbuf → Outcome Strbuf
unfolding clear_block
strbuf_clear sb = do
  block ← clear_block sb.block
  done (record { block = block; len = 0; cap = sb.cap })

-- `xstrdup(sb.data)`: the bytes before the first NUL of the block.
unfoldable pub xstrdup : Option Bytes → Outcome Bytes
xstrdup none = fault
xstrdup (some b) = done (c_str b)

-- What a client sees: the first `len` bytes of the block.
abbrev pub seen : ℕ → Option Bytes → Buffer
seen len none = none
seen len (some b) = some (take len b)

abbrev pub view : Strbuf → Buffer
view sb = seen sb.len sb.block
