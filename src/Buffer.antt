-- ===== src/Buffer.antt =====
-- What the clients of `strbuf` (sub-converter/src/util.c) see of it: `none` while `data` is NULL,
-- `some bytes` once a block is allocated. How the block grows is left out: memory that runs out
-- ends the program.
use mathlib.Core.List.{foldl}
use openwrt_sub_converter.Common.{
  ℕ, Option, none, some, [], ◌∷◌, ◌++◌, append_assoc, append-nil, ◌≡◌, ◌≢◌, refl, Bytes, c_str,
  Outcome, done, fault,
}

abbrev pub Buffer : Type 0
Buffer = Option Bytes

abbrev pub contents : Buffer → Bytes
contents none = []
contents (some s) = s

-- Even with no byte to add, the block is allocated.
abbrev pub append_bytes : Buffer → Bytes → Buffer
append_bytes b s = some (contents b ++ s)

abbrev pub append_char : Buffer → ℕ → Buffer
append_char b c = append_bytes b (c ∷ [])

abbrev pub clear : Buffer → Buffer
clear none = none
clear (some s) = some []

-- `xstrdup(sb.data)`: the string up to the first NUL, and a read through NULL when nothing was
-- ever appended.
abbrev pub dup_data : Buffer → Outcome Bytes
dup_data none = fault
dup_data (some s) = done (c_str s)

-- One `append_char` for each byte: nothing is allocated for no bytes.
unfoldable pub append_chars : Buffer → Bytes → Buffer
append_chars b s = foldl append_char b s

pub append_chars-append :
    (b : Buffer) (s t : Bytes) → append_chars b (s ++ t) ≡ append_chars (append_chars b s) t
unfolding append_chars
append_chars-append b [] t = refl
append_chars-append b (c ∷ s) t = append_chars-append (append_char b c) s t

pub contents-append_chars : (b : Buffer) (s : Bytes) → contents (append_chars b s) ≡ contents b ++ s
unfolding append_chars
contents-append_chars b [] = rw append-nil
contents-append_chars b (c ∷ s) =
    rw (contents-append_chars (append_char b c) s) (append_assoc (contents b) (c ∷ []) s)

pub append_chars-some : (u s : Bytes) → append_chars (some u) s ≡ some (u ++ s)
unfolding append_chars
append_chars-some u [] = rw append-nil
append_chars-some u (c ∷ s) = rw (append_chars-some (u ++ c ∷ []) s, append_assoc)

-- After `clear`, one byte or more make the contents, whether or not there was a block.
pub append_chars-clear : (b : Buffer) (s : Bytes) → s ≢ [] → append_chars (clear b) s ≡ some s
append_chars-clear b [] h = absurd (h refl)
append_chars-clear none (c ∷ s) h = unfold append_chars in append_chars-some (c ∷ []) s
append_chars-clear (some u) (c ∷ s) h = unfold append_chars in append_chars-some (c ∷ []) s
