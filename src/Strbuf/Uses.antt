-- ===== src/Strbuf/Uses.antt =====
-- Sequences of operations on `strbuf`.
use openwrt_sub_converter.Common.{
  ℕ, zero, suc, ◌≤◌, List, [], ◌∷◌, Option, none, some, ◌≡◌, refl, subst, ◌∙◌, ap, arith, Bytes,
  get_elem?, take, c_str, length, ltb, ◌-◌, ◌^◌, if◌then◌else◌, Bool-cases, inl, inr, Outcome, done,
  ◌>>=◌, Ensures, Ensures->>=,
}
use openwrt_sub_converter.Buffer
use openwrt_sub_converter.Buffer.{Buffer}
use openwrt_sub_converter.Strbuf.Refine.{
  IsBlock, IsValid, Refines, strbuf_init-IsValid, strbuf_append_bytes-Refines, splice, store_within,
  length-splice,
}
use openwrt_sub_converter.Strbuf.{
  Strbuf, Heap, size_max, strbuf_append_bytes, strbuf_append_char, clear_block, strbuf_clear,
  strbuf_append_str, strbuf_appendf, strbuf_free, xstrdup, seen, view, strbuf_init,
}

cleared-Refines :
    (len cap : ℕ) (block : Option Bytes)
    → cap ≤ size_max
    → IsBlock len cap block
    → Ensures
        (Refines (Buffer.clear (seen len block)))
        (clear_block block >>= λ b. done (record { block = b; len = 0; cap = cap }))
unfolding clear_block
cleared-Refines len cap none e v = (record { bounded = e; shape = (refl, v.1) }, refl)
cleared-Refines len cap (some b) e (size, below, _) = rw (store_within b 0 (0 ∷ []) (omega arith)) (
  record {
    bounded = e;
    shape = (length-splice b 0 (0 ∷ []) (omega arith) ∙ size, omega arith, unfold splice in refl);
  },
  refl,
)

-- Clearing a valid buffer keeps the invariant and the block, and leaves no bytes.
pub strbuf_clear-Refines :
    (sb : Strbuf) → IsValid sb → Ensures (Refines (Buffer.clear (view sb))) (strbuf_clear sb)
unfolding strbuf_clear
strbuf_clear-Refines sb v = cleared-Refines sb.len sb.cap sb.block v.bounded v.shape

c_str-take : (n : ℕ) (b : Bytes) → get_elem? b n ≡ some 0 → c_str b ≡ c_str (take n b)
unfolding c_str
c_str-take zero [] h = cc
c_str-take zero (x ∷ b) h = ground arith
c_str-take (suc n) [] h = cc
c_str-take (suc n) (x ∷ b) h = let ih = c_str-take n b h in ground arith

dup_block :
    (len cap : ℕ) (block : Option Bytes)
    → IsBlock len cap block
    → xstrdup block ≡ Buffer.dup_data (seen len block)
unfolding xstrdup
dup_block len cap none v = refl
dup_block len cap (some b) v = ap done (c_str-take len b v.2)

-- A copy of the contents stops at their first NUL byte or at their end: nothing behind them is
-- read. It is a read through NULL where nothing was ever appended.
pub xstrdup-dup_data : (sb : Strbuf) → IsValid sb → xstrdup sb.block ≡ Buffer.dup_data (view sb)
xstrdup-dup_data sb v = dup_block sb.len sb.cap sb.block v.shape

-- What a client does with a buffer, and what it means for the contents.
pub data Use : Type 0 where
  put : Bytes → Use
  put_char : ℕ → Use
  put_str : Bytes → Use
  put_format : Bytes → Use
  reset : Use
  release : Use

abbrev pub use_strbuf : Heap → Use → Strbuf → Outcome Strbuf
use_strbuf heap (Use.put s) sb = strbuf_append_bytes heap sb s
use_strbuf heap (Use.put_char c) sb = strbuf_append_char heap sb c
use_strbuf heap (Use.put_str s) sb = strbuf_append_str heap sb s
use_strbuf heap (Use.put_format text) sb = strbuf_appendf heap sb text
use_strbuf heap Use.reset sb = strbuf_clear sb
use_strbuf heap Use.release sb = done (strbuf_free sb)

abbrev pub use_buffer : Use → Buffer → Buffer
use_buffer (Use.put s) b = Buffer.append_bytes b s
use_buffer (Use.put_char c) b = Buffer.append_char b c
use_buffer (Use.put_str s) b = Buffer.append_bytes b (c_str s)
use_buffer (Use.put_format text) b =
    if ltb (2 ^ 31 - 1) (length text) then b else Buffer.append_bytes b text
use_buffer Use.reset b = Buffer.clear b
use_buffer Use.release b = none

abbrev pub use_strbufs : Heap → List Use → Strbuf → Outcome Strbuf
use_strbufs heap [] sb = done sb
use_strbufs heap (u ∷ us) sb = use_strbuf heap u sb >>= use_strbufs heap us

abbrev pub use_buffers : List Use → Buffer → Buffer
use_buffers [] b = b
use_buffers (u ∷ us) b = use_buffers us (use_buffer u b)

appendf-Refines :
    (heap : Heap) (sb : Strbuf) (text : Bytes)
    → IsValid sb
    → Ensures
        (Refines
          (if ltb (2 ^ 31 - 1) (length text) then view sb else Buffer.append_bytes (view sb) text))
        (strbuf_appendf heap sb text)
unfolding strbuf_appendf
appendf-Refines heap sb text v = elim (Bool-cases (ltb (2 ^ 31 - 1) (length text))) [
  | inl e ↦ rw e (v, refl)
  | inr e ↦ rw e (strbuf_append_bytes-Refines heap sb text v)
]

use_strbuf-Refines :
    (heap : Heap) (u : Use) (sb : Strbuf)
    → IsValid sb
    → Ensures (Refines (use_buffer u (view sb))) (use_strbuf heap u sb)
use_strbuf-Refines heap (Use.put s) sb v = strbuf_append_bytes-Refines heap sb s v
use_strbuf-Refines heap (Use.put_char c) sb v =
    unfold strbuf_append_char in strbuf_append_bytes-Refines heap sb (c ∷ []) v
use_strbuf-Refines heap (Use.put_str s) sb v =
    unfold strbuf_append_str in strbuf_append_bytes-Refines heap sb (c_str s) v
use_strbuf-Refines heap (Use.put_format text) sb v = appendf-Refines heap sb text v
use_strbuf-Refines heap Use.reset sb v = strbuf_clear-Refines sb v
use_strbuf-Refines heap Use.release sb v = unfold strbuf_free in (strbuf_init-IsValid, refl)

uses-Refines :
    (heap : Heap) (us : List Use) (b : Buffer) (sb : Strbuf)
    → Refines b sb
    → Ensures (Refines (use_buffers us b)) (use_strbufs heap us sb)
uses-Refines heap [] b sb r = r
uses-Refines heap (u ∷ us) b sb (v, e) =
    Ensures->>= (Refines (use_buffer u b)) _ _ _
      (subst (λ c. Ensures (Refines (use_buffer u c)) (use_strbuf heap u sb)) e
        (use_strbuf-Refines heap u sb v))
      λ s r. uses-Refines heap us (use_buffer u b) s r

-- Whatever is appended to an empty `strbuf`, and whenever it is cleared or freed, no write leaves
-- its block, the invariant holds in the end, and the contents are those of the abstract buffer,
-- unless `oom_abort` ends the program.
pub use_strbufs-Refines :
    (heap : Heap) (us : List Use)
    → Ensures (Refines (use_buffers us none)) (use_strbufs heap us strbuf_init)
use_strbufs-Refines heap us = uses-Refines heap us none strbuf_init (strbuf_init-IsValid, refl)
