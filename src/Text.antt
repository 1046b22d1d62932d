-- ===== src/Text.antt =====
-- The text helpers of sub-converter/src/util.c. A text is a C string, less its terminator; a place
-- in a text is the bytes from there on.
pub mod Split
pub mod Trim
pub mod Utf8
use openwrt_sub_converter.Common.{
  ℕ, zero, suc, ◌+◌, ◌-◌, ◌*◌, ◌/◌, ◌%◌, ◌^◌, ◌<◌, ◌≤◌, Bool, true, false, not, ◌&&◌, ◌||◌, List,
  [], ◌∷◌, ◌++◌, append_assoc, append-nil, Option, none, some, ◌≡◌, ◌≢◌, ◌↔◌, ◌⊎◌, inl, inr, refl,
  sym, subst, fun_ext, ◌∙◌, ap, arith, Bytes, IsBytes, Lacks, All, All-append, codes, get_or,
  length, get_elem?, take, drop, length-append, length-take, length-drop, take-length-append,
  take-length, drop_behind, take-append-drop, drop-length-append, replicate, length-replicate,
  equal, equal_iff, c_str, c_str-Lacks, Lacks-c_str, is_space, is_digit, if◌then◌else◌, ◌==◌, ltb,
  leb, ==_iff, Bool-cases, Option-cases, all_below, all_below_sound, all_below_sound₂, Outcome,
  done, failed, fault, ◌>>=◌, ◌>>◌, >>=-eq-done, >>=-ne-fault, require, guard, Returns, Ensures,
  Returns->>=, Ensures->>=, Returns-done, Ensures-ne-fault, Returns-Ensures, Ensures-mono,
  Ensures-done, >>=-ne-failed,
}
use mathlib.Core.List.{reverse}
use openwrt_sub_converter.Buffer.{Buffer, append_bytes, append_char}

unfoldable pub drop_while : (ℕ → Bool) → Bytes → Bytes
drop_while p [] = []
drop_while p (c ∷ s) = let further = drop_while p s in if p c then further else c ∷ s

-- The loops that step back from the end.
unfoldable pub drop_end : (ℕ → Bool) → Bytes → Bytes
unfolding drop_while
drop_end p s = reverse (drop_while p (reverse s))

-- `none` is NULL.
unfoldable pub str_trim : Option Bytes → Option Bytes
unfolding drop_end
str_trim none = none
str_trim (some s) = some (drop_end is_space (drop_while is_space s))

unfoldable pub str_starts_with : Bytes → Bytes → Bool
unfolding equal
str_starts_with s prefix = equal (take (length prefix) s) prefix

unfoldable pub str_ends_with : Bytes → Bytes → Bool
unfolding equal
str_ends_with s suffix =
    if ltb (length s) (length suffix)
    then false
    else equal (drop (length s - length suffix) s) suffix

-- The parts from here on, the first of which begins with `part`.
unfoldable pub split_from : ℕ → Bytes → Bytes → List Bytes
split_from delim part [] = part ∷ []
split_from delim part (c ∷ s) = elim (c == delim) [
  | true ↦ part ∷ split_from delim [] s
  | false ↦ split_from delim (part ++ c ∷ []) s
]

unfoldable pub str_split : Bytes → ℕ → List Bytes
unfolding split_from
str_split s delim = split_from delim [] s

-- `skip` bytes belong to the text that was replaced last.
unfoldable pub replace_from : Bytes → Bytes → ℕ → Bytes → Buffer → Buffer
unfolding equal
replace_from from to skip [] out = out
replace_from from to (suc skip) (c ∷ s) out = replace_from from to skip s out
replace_from from to zero (c ∷ s) out =
    let found = leb (length from) (length (c ∷ s)) && equal (take (length from) (c ∷ s)) from in
    replace_from from to (if found then length from - 1 else 0) s
      (if found then append_bytes out to else append_char out c)

unfoldable pub str_replace_all : Bytes → Bytes → Bytes → Buffer → Buffer
unfolding replace_from
str_replace_all text from to out =
    if length from == 0 then append_bytes out text else replace_from from to 0 text out

-- A lead byte: the bits of the code point that it gives, the number of bytes that follow, and the
-- least code point of that length.
unfoldable pub utf8_lead : ℕ → Option (ℕ × (ℕ × ℕ))
utf8_lead c =
    if ltb c 0x80
    then some (c, (0, 0))
    else if c / 32 == 6
    then some (c % 32, (1, 0x80))
    else if c / 16 == 14
    then some (c % 16, (2, 0x800))
    else if c / 8 == 30
    then some (c % 8, (3, 0x10000))
    else none

-- The bytes that follow a lead byte, each of which adds six bits.
unfoldable pub utf8_follow : ℕ → ℕ → Bytes → Option (ℕ × Bytes)
utf8_follow zero v s = some (v, s)
utf8_follow (suc extra) v [] = none
utf8_follow (suc extra) v (c ∷ s) =
    let further = utf8_follow extra (v * 64 + c % 64) s in if c / 64 == 2 then further else none

-- The code point is not too small for its length, and is a scalar value.
unfoldable pub utf8_check : ℕ → Option (ℕ × Bytes) → Option Bytes
utf8_check mincp none = none
utf8_check mincp (some (v, s)) =
    if ltb v mincp || ltb 0x10FFFF v || (leb 0xD800 v && leb v 0xDFFF) then none else some s

unfoldable pub utf8_rest : Option (ℕ × (ℕ × ℕ)) → Bytes → Option Bytes
unfolding utf8_follow utf8_check
utf8_rest none s = none
utf8_rest (some (v, (extra, mincp))) s =
    if leb extra (length s) then utf8_check mincp (utf8_follow extra v s) else none

-- What stands behind the code point at the front, and `none` for -1.
unfoldable pub utf8_next_codepoint : Bytes → Option Bytes
unfolding utf8_lead utf8_rest
utf8_next_codepoint [] = none
utf8_next_codepoint (c ∷ s) = utf8_rest (utf8_lead c) s

-- The loop, with a round for each byte: a round moves on by one byte or more.
unfoldable pub validate_from : ℕ → Bytes → Bool
unfolding utf8_next_codepoint
validate_from fuel [] = true
validate_from zero (c ∷ s) = false
validate_from (suc fuel) (c ∷ s) = elim (utf8_next_codepoint (c ∷ s)) [
  | none ↦ false
  | some rest ↦ validate_from fuel rest
]

unfoldable pub utf8_validate : Bytes → Bool
unfolding validate_from
utf8_validate s = validate_from (length s) s
