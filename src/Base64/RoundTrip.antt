-- ===== src/Base64/RoundTrip.antt =====
-- Decoding what the encoder writes, for any alphabet that satisfies `IsAlphabet`.
use openwrt_sub_converter.Common.{
  ℕ, ◌+◌, ◌*◌, ◌/◌, ◌%◌, ◌<◌, Bool, true, false, [], ◌∷◌, ◌++◌, append_assoc, append-nil, none, ◌≡◌,
  refl, arith, Bytes, IsBytes, codes, get_or, if◌then◌else◌, done,
}
use openwrt_sub_converter.Buffer.{Buffer, contents, append_char, append_chars}
use openwrt_sub_converter.Base64.Alphabet.{
  IsAlphabet, b64_std_chars-IsAlphabet, b64_url_chars-IsAlphabet, bit_or_4, bit_or_16, bit_or_64,
}
use openwrt_sub_converter.Base64.{
  b64_decode_step, b64_decode_run, b64_finish, b64_take, b64_flush, byte0, byte1, byte2,
  b64_encode_rest, b64_encode_core, b64_decode_core, base64_encode, base64_decode,
  base64_encode_url, base64_decode_url, b64_std_chars, b64_url_chars,
}

-- The text of RFC 4648: four characters for three bytes, and a shorter last group.
abbrev pub text : Bytes → Bool → Bytes → Bytes
text alphabet with_padding [] = []
text alphabet with_padding (a ∷ []) =
    get_or alphabet (a / 4) 0
    ∷ get_or alphabet (a % 4 * 16) 0
    ∷ (if with_padding then codes "==" else [])
text alphabet with_padding (a ∷ b ∷ []) =
    get_or alphabet (a / 4) 0
    ∷ get_or alphabet (a % 4 * 16 + b / 16) 0
    ∷ get_or alphabet (b % 16 * 4) 0
    ∷ (if with_padding then codes "=" else [])
text alphabet with_padding (a ∷ b ∷ c ∷ rest) =
    get_or alphabet (a / 4) 0
    ∷ get_or alphabet (a % 4 * 16 + b / 16) 0
    ∷ get_or alphabet (b % 16 * 4 + c / 64) 0
    ∷ get_or alphabet (c % 64) 0
    ∷ text alphabet with_padding rest

encode_rest-text :
    (alphabet : Bytes) (with_padding : Bool) (s : Bytes) (out : Buffer)
    → IsBytes s
    → contents (b64_encode_rest alphabet with_padding s out)
      ≡ contents out ++ text alphabet with_padding s
unfolding b64_encode_rest
encode_rest-text alphabet p [] out h = rw append-nil
encode_rest-text alphabet true (a ∷ []) out h =
    let e : a / 4 % 64 ≡ a / 4 = omega arith in simp (e, append_assoc)
encode_rest-text alphabet false (a ∷ []) out h =
    let e : a / 4 % 64 ≡ a / 4 = omega arith in simp (e, append_assoc)
encode_rest-text alphabet true (a ∷ b ∷ []) out h =
    let e : a / 4 % 64 ≡ a / 4 = omega arith in simp (e, append_assoc)
encode_rest-text alphabet false (a ∷ b ∷ []) out h =
    let e : a / 4 % 64 ≡ a / 4 = omega arith in simp (e, append_assoc)
encode_rest-text alphabet p (a ∷ b ∷ c ∷ rest) out h =
    let v = a * 65536 + b * 256 + c in
    let e0 : v / 262144 % 64 ≡ a / 4 = omega arith in
    let e1 : v / 4096 % 64 ≡ a % 4 * 16 + b / 16 = omega arith in
    let e2 : v / 64 % 64 ≡ b % 16 * 4 + c / 64 = omega arith in
    let e3 : v % 64 ≡ c % 64 = omega arith in
    rw (e0, e1, e2, e3, encode_rest-text alphabet p rest _ h.1.1.1) (simp append_assoc)

byte0_lem : (a b : ℕ) → a < 256 → b < 256 → byte0 (a / 4) (a % 4 * 16 + b / 16) ≡ a
unfolding byte0
byte0_lem a b ha hb =
    omega (arith, bit_or_4 (a / 4) ((a % 4 * 16 + b / 16) / 16) (omega arith) (omega arith))

byte1_lem : (a b c : ℕ) → b < 256 → c < 256 → byte1 (a % 4 * 16 + b / 16) (b % 16 * 4 + c / 64) ≡ b
unfolding byte1
byte1_lem a b c hb hc = omega (
  arith,
  bit_or_16 ((a % 4 * 16 + b / 16) % 16) ((b % 16 * 4 + c / 64) / 4) (omega arith) (omega arith),
)

byte2_lem : (b c : ℕ) → c < 256 → byte2 (b % 16 * 4 + c / 64) (c % 64) ≡ c
unfolding byte2
byte2_lem b c hc =
    omega (arith, bit_or_64 ((b % 16 * 4 + c / 64) % 4) (c % 64) (omega arith) (omega arith))

byte0_last : (a : ℕ) → a < 256 → byte0 (a / 4) (a % 4 * 16) ≡ a
unfolding byte0
byte0_last a ha = omega (arith, bit_or_4 (a / 4) (a % 4 * 16 / 16) (omega arith) (omega arith))

byte1_last : (a b : ℕ) → b < 256 → byte1 (a % 4 * 16 + b / 16) (b % 16 * 4) ≡ b
unfolding byte1
byte1_last a b hb =
    omega
      (arith, bit_or_16 ((a % 4 * 16 + b / 16) % 16) (b % 16 * 4 / 4) (omega arith) (omega arith))

module _ (alphabet : Bytes) (ok : IsAlphabet alphabet) where
  step-char :
      (quad : Bytes) (out : Buffer) (v : ℕ)
      → v < 64
      → b64_decode_step alphabet (record { quad = quad; pad = 0; out = out }) (get_or alphabet v 0)
        ≡ done (b64_flush (quad ++ v ∷ []) 0 out)
  unfolding b64_decode_step b64_take
  step-char quad out v h = rw (ok.not_ws v h, ok.not_pad v h, ok.read_back v h, b64_take)

  run-char :
      (quad : Bytes) (out : Buffer) (v : ℕ) (s : Bytes)
      → v < 64
      → b64_decode_run alphabet
          (record { quad = quad; pad = 0; out = out })
          (get_or alphabet v 0 ∷ s)
        ≡ b64_decode_run alphabet (b64_flush (quad ++ v ∷ []) 0 out) s
  unfolding b64_decode_run
  run-char quad out v s h = rw (step-char quad out v h)

  -- Three bytes come back from their four sextets.
  run-group :
      (a b c : ℕ) (out : Buffer) (s : Bytes)
      → a < 256
      → b < 256
      → c < 256
      → b64_decode_run alphabet
          (record { quad = []; pad = 0; out = out })
          (get_or alphabet (a / 4) 0
            ∷ get_or alphabet (a % 4 * 16 + b / 16) 0
            ∷ get_or alphabet (b % 16 * 4 + c / 64) 0
            ∷ get_or alphabet (c % 64) 0
            ∷ s)
        ≡ b64_decode_run alphabet
            (record { quad = []; pad = 0; out = append_char (append_char (append_char out a) b) c })
            s
  unfolding b64_flush
  run-group a b c out s ha hb hc = rw (run-char [] out (a / 4) _ (omega arith)) (
      rw (run-char (a / 4 ∷ []) out (a % 4 * 16 + b / 16) _ (omega arith)) (
        rw (run-char (a / 4 ∷ (a % 4 * 16 + b / 16) ∷ []) out (b % 16 * 4 + c / 64) _ (omega arith))
          (rw
            (run-char (a / 4 ∷ (a % 4 * 16 + b / 16) ∷ (b % 16 * 4 + c / 64) ∷ []) out (c % 64) s
              (omega arith))
            (rw (byte0_lem a b ha hb, byte1_lem a b c hb hc, byte2_lem b c hc)))))

  run-pad_two :
      (p : Bool) (x y : ℕ) (out : Buffer)
      → b64_decode_run alphabet
          (record { quad = x ∷ y ∷ []; pad = 0; out = out })
          (if p then codes "==" else [])
        ≡ done (record { quad = x ∷ y ∷ []; pad = if p then 2 else 0; out = out })
  unfolding b64_decode_run
  run-pad_two true x y out = refl
  run-pad_two false x y out = refl

  run-pad_one :
      (p : Bool) (x y z : ℕ) (out : Buffer)
      → b64_decode_run alphabet
          (record { quad = x ∷ y ∷ z ∷ []; pad = 0; out = out })
          (if p then codes "=" else [])
        ≡ done (record { quad = x ∷ y ∷ z ∷ []; pad = if p then 1 else 0; out = out })
  unfolding b64_decode_run
  run-pad_one true x y z out = refl
  run-pad_one false x y z out = refl

  run_one :
      (p : Bool) (a : ℕ) (out : Buffer)
      → a < 256
      → b64_decode_run alphabet
          (record { quad = []; pad = 0; out = out })
          (text alphabet p (a ∷ []))
        ≡ done (record { quad = a / 4 ∷ a % 4 * 16 ∷ []; pad = if p then 2 else 0; out = out })
  unfolding b64_flush
  run_one p a out h = rw (run-char [] out (a / 4) _ (omega arith)) (
      rw (run-char (a / 4 ∷ []) out (a % 4 * 16) _ (omega arith))
        (run-pad_two p (a / 4) (a % 4 * 16) out))

  run_two :
      (p : Bool) (a b : ℕ) (out : Buffer)
      → a < 256
      → b < 256
      → b64_decode_run alphabet
          (record { quad = []; pad = 0; out = out })
          (text alphabet p (a ∷ b ∷ []))
        ≡ done (record {
          quad = a / 4 ∷ (a % 4 * 16 + b / 16) ∷ b % 16 * 4 ∷ [];
          pad = if p then 1 else 0;
          out = out;
        })
  unfolding b64_flush
  run_two p a b out ha hb = rw (run-char [] out (a / 4) _ (omega arith)) (
      rw (run-char (a / 4 ∷ []) out (a % 4 * 16 + b / 16) _ (omega arith)) (
        rw (run-char (a / 4 ∷ (a % 4 * 16 + b / 16) ∷ []) out (b % 16 * 4) _ (omega arith))
          (run-pad_one p (a / 4) (a % 4 * 16 + b / 16) (b % 16 * 4) out)))

  decode_text :
      (p : Bool) (s : Bytes) (out : Buffer)
      → IsBytes s
      → b64_decode_core alphabet (text alphabet p s) out ≡ done (append_chars out s)
  unfolding b64_decode_core append_chars
  decode_text p [] out h = unfold b64_decode_run b64_finish in refl
  decode_text true (a ∷ []) out h =
      rw (run_one true a out h.0) (unfold b64_finish in rw (byte0_last a h.0))
  decode_text false (a ∷ []) out h =
      rw (run_one false a out h.0) (unfold b64_finish in rw (byte0_last a h.0))
  decode_text true (a ∷ b ∷ []) out h =
      rw (run_two true a b out h.0 h.1.0)
        (unfold b64_finish in rw (byte0_lem a b h.0 h.1.0, byte1_last a b h.1.0))
  decode_text false (a ∷ b ∷ []) out h =
      rw (run_two false a b out h.0 h.1.0)
        (unfold b64_finish in rw (byte0_lem a b h.0 h.1.0, byte1_last a b h.1.0))
  decode_text p (a ∷ b ∷ c ∷ rest) out (ha, (hb, (hc, hr))) =
      rw (run-group a b c out (text alphabet p rest) ha hb hc)
        (decode_text p rest (append_char (append_char (append_char out a) b) c) hr)

pub base64_encode-text :
    (s : Bytes) → IsBytes s → contents (base64_encode s none) ≡ text b64_std_chars true s
unfolding base64_encode b64_encode_core
base64_encode-text [] h = refl
base64_encode-text (a ∷ s) h = encode_rest-text b64_std_chars true (a ∷ s) none h

base64_encode_url-text :
    (s : Bytes) → IsBytes s → contents (base64_encode_url s none) ≡ text b64_url_chars false s
unfolding base64_encode_url b64_encode_core
base64_encode_url-text [] h = refl
base64_encode_url-text (a ∷ s) h = encode_rest-text b64_url_chars false (a ∷ s) none h

-- What the standard encoder writes into an empty buffer is decoded to the bytes that went in,
-- appended one by one to the output buffer, for every string of bytes.
pub base64_decode-encode :
    (s : Bytes) (out : Buffer)
    → IsBytes s
    → base64_decode (contents (base64_encode s none)) out ≡ done (append_chars out s)
unfolding base64_decode
base64_decode-encode s out h =
    rw (base64_encode-text s h) (decode_text b64_std_chars b64_std_chars-IsAlphabet true s out h)

-- What the encoder of the URL alphabet writes into an empty buffer, with no padding, is decoded
-- to the bytes that went in, appended one by one to the output buffer, for every string of bytes.
pub base64_decode_url-encode_url :
    (s : Bytes) (out : Buffer)
    → IsBytes s
    → base64_decode_url (contents (base64_encode_url s none)) out ≡ done (append_chars out s)
unfolding base64_decode_url
base64_decode_url-encode_url s out h =
    rw (base64_encode_url-text s h)
      (decode_text b64_url_chars b64_url_chars-IsAlphabet false s out h)
