-- ===== src/Url.antt =====
-- sub-converter/src/util.c: percent encoding. The decoder's read of the two bytes behind `%` is
-- the pattern of its last clause; the shorter ones are the test `i + 2 >= inlen`.
pub mod RoundTrip
pub mod Grammar
use openwrt_sub_converter.Common.{
  ℕ, zero, suc, ◌+◌, ◌-◌, ◌*◌, ◌/◌, ◌%◌, ◌^◌, ◌<◌, ◌≤◌, Bool, true, false, not, ◌&&◌, ◌||◌, List,
  [], ◌∷◌, ◌++◌, append_assoc, append-nil, Option, none, some, ◌≡◌, ◌≢◌, ◌↔◌, ◌⊎◌, inl, inr, refl,
  sym, fun_ext, ◌∙◌, ap, arith, Bytes, IsBytes, Lacks, All, All-append, codes, get_or, length, take,
  drop, length-append, length-take, length-drop, take-length-append, drop-length-append, replicate,
  length-replicate, equal, equal_iff, c_str, c_str-Lacks, Lacks-c_str, is_space, is_digit,
  if◌then◌else◌, ◌==◌, ltb, leb, ==_iff, Bool-cases, Option-cases, all_below, all_below_sound,
  all_below_sound₂, Outcome, done, failed, fault, ◌>>=◌, ◌>>◌, >>=-eq-done, >>=-ne-fault,
}
use openwrt_sub_converter.Buffer.{Buffer, append_char}

-- `none` is the -1 of the source.
unfoldable pub hex_val : ℕ → Option ℕ
hex_val c =
    if leb b'0' c && leb c b'9'
    then some (c - b'0')
    else if leb b'a' c && leb c b'f'
    then some (c - b'a' + 10)
    else if leb b'A' c && leb c b'F'
    then some (c - b'A' + 10)
    else none

-- The byte for two hexadecimal digits, if both are.
unfoldable pub hex_pair : Option ℕ → Option ℕ → Option ℕ
hex_pair (some hi) (some lo) = some (hi * 16 + lo)
hex_pair none lo = none
hex_pair hi none = none

unfoldable pub url_decode : Bytes → Buffer → Outcome Buffer
unfolding hex_val hex_pair
url_decode [] out = done out
url_decode (c ∷ []) out = if c == b'%' then failed else done (append_char out c)
url_decode (c ∷ h ∷ []) out =
    let plain = url_decode (h ∷ []) (append_char out c) in if c == b'%' then failed else plain
url_decode (c ∷ h ∷ l ∷ rest) out =
    let plain = url_decode (h ∷ l ∷ rest) (append_char out c) in
    let escaped = λ (v : ℕ). url_decode rest (append_char out v) in
    if c == b'%'
    then elim (hex_pair (hex_val h) (hex_val l)) [ none ↦ failed | some v ↦ escaped v ]
    else plain

unfoldable pub is_unreserved : ℕ → Bool
is_unreserved c =
    (leb b'A' c && leb c b'Z')
    || ((leb b'a' c && leb c b'z')
        || ((leb b'0' c && leb c b'9') || (c == b'-' || (c == b'_' || (c == b'.' || c == b'~')))))

abbrev pub hexdig : Bytes
hexdig = codes "0123456789ABCDEF"

-- What one round of `url_encode` appends.
url_encode_char : Buffer → ℕ → Buffer
unfolding is_unreserved
url_encode_char out c =
    if is_unreserved c
    then append_char out c
    else append_char (append_char (append_char out b'%') (get_or hexdig (c / 16) 0))
        (get_or hexdig (c % 16) 0)

unfoldable pub url_encode : Bytes → Buffer → Buffer
unfolding url_encode_char
url_encode [] out = out
url_encode (c ∷ s) out = url_encode s (url_encode_char out c)
