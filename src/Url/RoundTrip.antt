-- ===== src/Url/RoundTrip.antt =====
-- Decoding what the encoder writes.
use openwrt_sub_converter.Common.{
  ℕ, ◌/◌, ◌%◌, ◌<◌, Bool, true, false, [], ◌∷◌, ◌++◌, append_assoc, append-nil, Option, none, some,
  ◌≡◌, ◌⊎◌, inl, inr, refl, ◌∙◌, arith, Bytes, IsBytes, All, get_or, if◌then◌else◌, ◌==◌,
  Bool-cases, all_below, all_below_sound, done,
}
use openwrt_sub_converter.Buffer.{Buffer, contents, append_char, append_chars}
use openwrt_sub_converter.Url.{
  hex_val, hex_pair, url_decode, is_unreserved, hexdig, url_encode_char, url_encode,
}

-- A byte as RFC 3986 writes it.
abbrev pub escape_byte : ℕ → Bytes
escape_byte c =
    if is_unreserved c
    then c ∷ []
    else b'%' ∷ get_or hexdig (c / 16) 0 ∷ get_or hexdig (c % 16) 0 ∷ []

abbrev pub escape : Bytes → Bytes
escape [] = []
escape (c ∷ s) = escape_byte c ++ escape s

encode_char-escape :
    (out : Buffer) (c : ℕ) → contents (url_encode_char out c) ≡ contents out ++ escape_byte c
unfolding url_encode_char
encode_char-escape out c = elim (Bool-cases (is_unreserved c)) [
  | inl u ↦ rw u
  | inr e ↦ rw e (simp append_assoc)
]

pub encode-escape :
    (s : Bytes) (out : Buffer) → contents (url_encode s out) ≡ contents out ++ escape s
unfolding url_encode
encode-escape [] out = rw append-nil
encode-escape (c ∷ s) out =
    rw (encode-escape s (url_encode_char out c), encode_char-escape out c) (simp append_assoc)

is_value : ℕ → Option ℕ → Bool
is_value v none = false
is_value v (some w) = w == v

is_value_sound : (v : ℕ) (o : Option ℕ) → is_value v o ≡ true → o ≡ some v
unfolding is_value
is_value_sound v none h = cc
is_value_sound v (some w) h = ground arith

hexdig_table : all_below 16 (λ v. is_value v (hex_val (get_or hexdig v 0))) ≡ true
unfolding all_below is_value hex_val
hexdig_table = refl

hex_val-hexdig : (v : ℕ) → v < 16 → hex_val (get_or hexdig v 0) ≡ some v
hex_val-hexdig v h =
    is_value_sound v _
      (all_below_sound 16 (λ w. is_value w (hex_val (get_or hexdig w 0))) v hexdig_table h)

-- The two digits of a byte.
pub hex_pair-hexdig :
    (c : ℕ)
    → c < 256
    → hex_pair (hex_val (get_or hexdig (c / 16) 0)) (hex_val (get_or hexdig (c % 16) 0)) ≡ some c
hex_pair-hexdig c h =
    rw (hex_val-hexdig (c / 16) (omega arith), hex_val-hexdig (c % 16) (omega arith))
      (unfold hex_pair in ground arith)

pub decode_plain :
    (c : ℕ) (s : Bytes) (out : Buffer)
    → (c == b'%') ≡ false
    → url_decode (c ∷ s) out ≡ url_decode s (append_char out c)
unfolding url_decode
decode_plain c [] out h = rw h
decode_plain c (d ∷ []) out h = rw h
decode_plain c (d ∷ e ∷ s) out h = rw h

pub decode_escaped :
    (h l : ℕ) (s : Bytes) (out : Buffer) {v : ℕ}
    → hex_pair (hex_val h) (hex_val l) ≡ some v
    → url_decode (b'%' ∷ h ∷ l ∷ s) out ≡ url_decode s (append_char out v)
unfolding url_decode
decode_escaped h l s out e = rw e

decode-escape_byte :
    (c : ℕ) (s : Bytes) (out : Buffer)
    → c < 256
    → url_decode (escape_byte c ++ s) out ≡ url_decode s (append_char out c)
decode-escape_byte c s out h = elim (Bool-cases (is_unreserved c)) [
  | inl u ↦ rw u (decode_plain c s out (unreserved-ne-percent c u))
  | inr e ↦ rw e (
      decode_escaped (get_or hexdig (c / 16) 0) (get_or hexdig (c % 16) 0) s out
        (hex_pair-hexdig c h))
]
  where
    unreserved-ne-percent : (c : ℕ) → is_unreserved c ≡ true → (c == b'%') ≡ false
    unreserved-ne-percent c u = unfold is_unreserved in ground arith

pub decode-escape :
    (s : Bytes) (out : Buffer) → IsBytes s → url_decode (escape s) out ≡ done (append_chars out s)
unfolding append_chars
decode-escape [] out h = unfold url_decode in refl
decode-escape (c ∷ s) out (hc, hs) =
    decode-escape_byte c (escape s) out hc ∙ decode-escape s (append_char out c) hs

-- What the encoder appends to an empty buffer is decoded to the bytes that went in, appended one
-- by one to the output buffer, for every string of bytes.
pub url_decode-url_encode :
    (s : Bytes) (out : Buffer)
    → IsBytes s
    → url_decode (contents (url_encode s none)) out ≡ done (append_chars out s)
url_decode-url_encode s out h = rw (encode-escape s none) (decode-escape s out h)

unreserved-char : (c : ℕ) → c < 16 → is_unreserved (get_or hexdig c 0) ≡ true
unreserved-char c h = all_below_sound 16 (λ v. is_unreserved (get_or hexdig v 0)) c table h
  where
    table : all_below 16 (λ v. is_unreserved (get_or hexdig v 0)) ≡ true
    table = unfold all_below is_unreserved in refl

-- Unreserved, or the mark of an escape.
abbrev pub IsUrlChar : ℕ → Type 0
IsUrlChar c = (is_unreserved c ≡ true) ⊎ (c ≡ b'%')

pub escape-IsUrlChar : (s : Bytes) → IsBytes s → All IsUrlChar (escape s)
escape-IsUrlChar [] h = tt
escape-IsUrlChar (c ∷ s) (hc, hs) = elim (Bool-cases (is_unreserved c)) [
  | inl u ↦ rw u (inl u, escape-IsUrlChar s hs)
  | inr e ↦ rw e (
    inr refl,
    (
      inl (unreserved-char (c / 16) (omega arith)),
      (inl (unreserved-char (c % 16) (omega arith)), escape-IsUrlChar s hs),
    ),
  )
]

-- What the encoder writes for a string of bytes holds no character but unreserved ones and `%`.
pub url_encode-IsUrlChar : (s : Bytes) → IsBytes s → All IsUrlChar (contents (url_encode s none))
url_encode-IsUrlChar s h = rw (encode-escape s none) (escape-IsUrlChar s h)
