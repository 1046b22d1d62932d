-- ===== src/Base64.antt =====
-- sub-converter/src/base64.c: the encoders and decoders for both alphabets, and the test by which
-- the base64 converter recognises an encoded subscription. The decoder's loop is a step function
-- on the state `Decoder`, whose list `quad` is quad[0 .. qn-1].
pub mod Alphabet
pub mod RoundTrip
pub mod Recognise
use Prim.Native.Nat.{bit_or}
use openwrt_sub_converter.Common.{
  ℕ, ◌+◌, ◌*◌, ◌/◌, ◌%◌, Bool, true, false, not, ◌&&◌, ◌||◌, List, [], ◌∷◌, ◌++◌, Option, none,
  some, Bytes, codes, length, get_or, is_space, ltb, leb, ◌==◌, if◌then◌else◌, Outcome, done,
  failed, ◌>>=◌,
}
use openwrt_sub_converter.Buffer.{Buffer, append_char, append_bytes, clear}

abbrev pub b64_std_chars : Bytes
b64_std_chars = codes "ABCDEFGHIJKLMNOPQRSTUVWXYZabcdefghijklmnopqrstuvwxyz0123456789+/"

abbrev pub b64_url_chars : Bytes
b64_url_chars = codes "ABCDEFGHIJKLMNOPQRSTUVWXYZabcdefghijklmnopqrstuvwxyz0123456789-_"

unfoldable pub b64_is_ws : ℕ → Bool
unfolding is_space
b64_is_ws c = is_space c

-- The place of the first `c` in a block.
strchr : Bytes → ℕ → Option ℕ
strchr [] c = none
strchr (d ∷ s) c = elim (d == c) [
  | true ↦ some 0
  | false ↦ elim (strchr s c) [ none ↦ none | some i ↦ some (i + 1) ]
]

-- `strchr` searches the terminator too, so the byte 0 is found at place 64.
unfoldable pub b64_char_val : Bytes → ℕ → Option ℕ
unfolding strchr
b64_char_val alphabet c = strchr (alphabet ++ 0 ∷ []) c

-- The loop over three bytes at a time and the one or two bytes behind it. The fields of the
-- 24-bit `v` do not overlap, so they are added.
b64_encode_rest : Bytes → Bool → Bytes → Buffer → Buffer
b64_encode_rest alphabet with_padding [] out = out
b64_encode_rest alphabet with_padding (a ∷ []) out =
    let out = append_char out (get_or alphabet (a / 4 % 64) 0) in
    let out = append_char out (get_or alphabet (a % 4 * 16) 0) in
    if with_padding then append_bytes out (codes "==") else out
b64_encode_rest alphabet with_padding (a ∷ b ∷ []) out =
    let out = append_char out (get_or alphabet (a / 4 % 64) 0) in
    let out = append_char out (get_or alphabet (a % 4 * 16 + b / 16) 0) in
    let out = append_char out (get_or alphabet (b % 16 * 4) 0) in
    if with_padding then append_char out b'=' else out
b64_encode_rest alphabet with_padding (a ∷ b ∷ c ∷ rest) out =
    let v = a * 65536 + b * 256 + c in
    let out = append_char out (get_or alphabet (v / 262144 % 64) 0) in
    let out = append_char out (get_or alphabet (v / 4096 % 64) 0) in
    let out = append_char out (get_or alphabet (v / 64 % 64) 0) in
    let out = append_char out (get_or alphabet (v % 64) 0) in
    b64_encode_rest alphabet with_padding rest out

-- Nothing to encode empties the buffer; all else is appended to it.
b64_encode_core : Bytes → Bytes → Buffer → Bool → Buffer
unfolding b64_encode_rest
b64_encode_core alphabet [] out with_padding = clear out
b64_encode_core alphabet s out with_padding = b64_encode_rest alphabet with_padding s out

pub record Decoder : Type 0 where
  pub quad : Bytes
  pub pad : ℕ
  pub out : Buffer

byte0 : ℕ → ℕ → ℕ
byte0 a b = bit_or (a * 4) (b / 16) % 256

byte1 : ℕ → ℕ → ℕ
byte1 b c = bit_or (b % 16 * 16) (c / 4) % 256

byte2 : ℕ → ℕ → ℕ
byte2 c d = bit_or (c % 4 * 64) d % 256

-- A full quad becomes three bytes.
b64_flush : Bytes → ℕ → Buffer → Decoder
unfolding byte0 byte1 byte2
b64_flush (a ∷ b ∷ c ∷ d ∷ []) pad out = record {
  quad = [];
  pad = pad;
  out = append_char (append_char (append_char out (byte0 a b)) (byte1 b c)) (byte2 c d);
}
b64_flush quad pad out = record { quad = quad; pad = pad; out = out }

b64_take : Option ℕ → Decoder → Outcome Decoder
unfolding b64_flush
b64_take none d = failed
b64_take (some v) d =
    if ltb 0 d.pad then failed else done (b64_flush (d.quad ++ v ∷ []) d.pad d.out)

-- One round of the loop.
b64_decode_step : Bytes → Decoder → ℕ → Outcome Decoder
unfolding b64_take b64_is_ws b64_char_val
b64_decode_step alphabet d c =
    let qn = length d.quad in
    if b64_is_ws c
    then done d
    else if c == b'='
    then if ltb qn 2 || ltb 3 qn
      then failed
      else if ltb 4 (qn + (d.pad + 1))
      then failed
      else done (record d { pad = d.pad + 1 })
    else b64_take (b64_char_val alphabet c) d

b64_decode_run : Bytes → Decoder → Bytes → Outcome Decoder
unfolding b64_decode_step
b64_decode_run alphabet d [] = done d
b64_decode_run alphabet d (c ∷ s) = do
  d' ← b64_decode_step alphabet d c
  b64_decode_run alphabet d' s

-- What stands behind the loop: an unfinished quad.
b64_finish : Bytes → ℕ → Buffer → Outcome Buffer
unfolding byte0 byte1
b64_finish (a ∷ []) pad out = failed
b64_finish (a ∷ b ∷ []) pad out =
    if not (pad == 0) && not (pad == 2) then failed else done (append_char out (byte0 a b))
b64_finish (a ∷ b ∷ c ∷ []) pad out =
    if not (pad == 0) && not (pad == 1)
    then failed
    else done (append_char (append_char out (byte0 a b)) (byte1 b c))
b64_finish quad pad out = done out

b64_decode_core : Bytes → Bytes → Buffer → Outcome Buffer
unfolding b64_decode_run b64_finish
b64_decode_core alphabet s out = do
  d ← b64_decode_run alphabet (record { quad = []; pad = 0; out = out }) s
  b64_finish d.quad d.pad d.out

unfoldable pub base64_encode : Bytes → Buffer → Buffer
unfolding b64_encode_core
base64_encode s out = b64_encode_core b64_std_chars s out true

unfoldable pub base64_decode : Bytes → Buffer → Outcome Buffer
unfolding b64_decode_core
base64_decode s out = b64_decode_core b64_std_chars s out

unfoldable pub base64_encode_url : Bytes → Buffer → Buffer
unfolding b64_encode_core
base64_encode_url s out = b64_encode_core b64_url_chars s out false

unfoldable pub base64_decode_url : Bytes → Buffer → Outcome Buffer
unfolding b64_decode_core
base64_decode_url s out = b64_decode_core b64_url_chars s out

is_found : Option ℕ → Bool
is_found none = false
is_found (some _) = true

-- The loop of `base64_looks_like`, with the count `n`.
looks_like_from : Bytes → ℕ → Bool
unfolding is_found b64_is_ws b64_char_val
looks_like_from [] n = leb 4 n && n % 4 == 0
looks_like_from (c ∷ s) n =
    let skipped = looks_like_from s n in
    let counted = looks_like_from s (n + 1) in
    if b64_is_ws c
    then skipped
    else if not (c == b'=') && not (is_found (b64_char_val b64_std_chars c))
    then false
    else counted

unfoldable pub base64_looks_like : Bytes → Bool
unfolding looks_like_from
base64_looks_like s = looks_like_from s 0
