-- ===== src/Url/Grammar.antt =====
-- The language that the decoder accepts, as an inductive relation.
use openwrt_sub_converter.Common.{
  ℕ, ◌<◌, ◌+◌, ◌-◌, ◌*◌, ◌≤◌, ◌⊎◌, Option, ◌&&◌, leb, subst, true, false, [], ◌∷◌, none, some, ◌≡◌,
  ◌≢◌, ◌↔◌, inl, inr, refl, sym, ◌∙◌, ap, arith, Bytes, length, ◌==◌, ==_iff, Bool-cases,
  Option-cases, Outcome, done, failed, fault,
}
use openwrt_sub_converter.Buffer.{Buffer, append_char, append_chars}
use openwrt_sub_converter.Url.RoundTrip.{decode_plain, decode_escaped}
use openwrt_sub_converter.Url.{hex_val, hex_pair, url_decode}

-- A hexadecimal digit and its value.
abbrev pub HexDigit : ℕ → ℕ → Type 0
HexDigit c v =
    ((v < 10) × (c ≡ b'0' + v))
    ⊎ (((10 ≤ v) × (v < 16) × (c + 10 ≡ b'a' + v)) ⊎ ((10 ≤ v) × (v < 16) × (c + 10 ≡ b'A' + v)))

-- `Decodes s t`: the text `s` is well formed and stands for the bytes `t`. A percent sign stands in
-- front of two digits only, in either case; any other byte stands for itself.
pub data Decodes : Bytes → Bytes → Type 0 where
  end : Decodes [] []
  plain : {c : ℕ} {s t : Bytes} → c ≢ b'%' → Decodes s t → Decodes (c ∷ s) (c ∷ t)
  escaped :
      {h l v w : ℕ} {s t : Bytes}
      → HexDigit h v
      → HexDigit l w
      → Decodes s t
      → Decodes (b'%' ∷ h ∷ l ∷ s) ((v * 16 + w) ∷ t)

hex_val-HexDigit : (c v : ℕ) → hex_val c ≡ some v → HexDigit c v
unfolding hex_val
hex_val-HexDigit c v h = elim (Bool-cases (leb b'0' c && leb c b'9')) [
  | inl p ↦ inl (let e : (some (c - b'0') ≡ some v) = (rw p at h) in ground arith)
  | inr p ↦ elim (Bool-cases (leb b'a' c && leb c b'f')) [
    | inl q ↦ inr (inl (let e : (some (c - b'a' + 10) ≡ some v) = (rw (p, q) at h) in ground arith))
    | inr q ↦ elim (Bool-cases (leb b'A' c && leb c b'F')) [
      | inl r ↦
          inr (inr (let e : (some (c - b'A' + 10) ≡ some v) = (rw (p, q, r) at h) in ground arith))
      | inr r ↦ absurd (let e : (none ≡ some v) = (rw (p, q, r) at h) in cc)
    ]
  ]
]

HexDigit-hex_val : (c v : ℕ) → HexDigit c v → hex_val c ≡ some v
unfolding hex_val
HexDigit-hex_val c v (inl h) = ground arith
HexDigit-hex_val c v (inr (inl h)) = ground arith
HexDigit-hex_val c v (inr (inr h)) = ground arith

hex_pair-HexDigit :
    (h l : ℕ) (o p : Option ℕ) (b : ℕ)
    → hex_val h ≡ o
    → hex_val l ≡ p
    → hex_pair o p ≡ some b
    → (v : ℕ) × (w : ℕ) × HexDigit h v × HexDigit l w × (v * 16 + w ≡ b)
unfolding hex_pair
hex_pair-HexDigit h l none p b e f g = absurd (cc)
hex_pair-HexDigit h l (some v) none b e f g = absurd (cc)
hex_pair-HexDigit h l (some v) (some w) b e f g =
    (v, w, hex_val-HexDigit h v e, hex_val-HexDigit l w f, cc)

HexDigit-hex_pair :
    (h l v w : ℕ)
    → HexDigit h v
    → HexDigit l w
    → hex_pair (hex_val h) (hex_val l) ≡ some (v * 16 + w)
unfolding hex_pair
HexDigit-hex_pair h l v w p q = rw (HexDigit-hex_val h v p, HexDigit-hex_val l w q) refl

decode_complete :
    {s t : Bytes} → Decodes s t → (out : Buffer) → url_decode s out ≡ done (append_chars out t)
unfolding append_chars
decode_complete end out = unfold url_decode in refl
decode_complete (plain {c} {s} ne d) out =
    decode_plain c s out (ground (arith, ne)) ∙ decode_complete d (append_char out c)
decode_complete (escaped {h} {l} {v} {w} {s} p q d) out =
    decode_escaped h l s out (HexDigit-hex_pair h l v w p q)
    ∙ decode_complete d (append_char out (v * 16 + w))

-- A text for the rest, and what the buffer holds then.
abbrev DecodesTo : Bytes → Buffer → Buffer → Type 0
DecodesTo s out r = (t : Bytes) × Decodes s t × (r ≡ append_chars out t)

DecodesTo-plain :
    (c : ℕ) (s : Bytes) (out r : Buffer)
    → (c == b'%') ≡ false
    → DecodesTo s (append_char out c) r
    → DecodesTo (c ∷ s) out r
unfolding append_chars
DecodesTo-plain c s out r h (t, d, e) = (c ∷ t, plain (ground arith) d, e)

DecodesTo-escaped :
    (c h l v : ℕ) (s : Bytes) (out r : Buffer)
    → (c == b'%') ≡ true
    → hex_pair (hex_val h) (hex_val l) ≡ some v
    → DecodesTo s (append_char out v) r
    → DecodesTo (c ∷ h ∷ l ∷ s) out r
unfolding append_chars
DecodesTo-escaped c h l v s out r p e (t, d, q) =
    let mark : c ≡ b'%' = (==_iff c b'%').0 p in
    let (hi, lo, a, b, sum) = hex_pair-HexDigit h l (hex_val h) (hex_val l) v refl refl e in
    (
      v ∷ t,
      subst (λ k. Decodes (k ∷ h ∷ l ∷ s) (v ∷ t)) (sym mark)
          (subst (λ k. Decodes (b'%' ∷ h ∷ l ∷ s) (k ∷ t)) sum (escaped a b d)),
      q,
    )

done≢failed : {o : Outcome Buffer} {r : Buffer} → o ≡ done r → o ≡ failed → ⊥
done≢failed p q = cc

decode_mark :
    (c h l : ℕ) (s : Bytes) (out : Buffer) {v : ℕ}
    → (c == b'%') ≡ true
    → hex_pair (hex_val h) (hex_val l) ≡ some v
    → url_decode (c ∷ h ∷ l ∷ s) out ≡ url_decode s (append_char out v)
unfolding url_decode
decode_mark c h l s out p e = rw (p, e)

-- An escape that is cut short, or whose digits are none, fails.
decode_short :
    (c : ℕ) (s : Bytes) (out : Buffer)
    → (c == b'%') ≡ true
    → length s < 2
    → url_decode (c ∷ s) out ≡ failed
unfolding url_decode
decode_short c [] out p h = rw p
decode_short c (d ∷ []) out p h = rw p
decode_short c (d ∷ e ∷ s) out p h = absurd (omega arith)

decode_bad :
    (c h l : ℕ) (s : Bytes) (out : Buffer)
    → (c == b'%') ≡ true
    → hex_pair (hex_val h) (hex_val l) ≡ none
    → url_decode (c ∷ h ∷ l ∷ s) out ≡ failed
unfolding url_decode
decode_bad c h l s out p e = rw (p, e)

decode_sound :
    (s : Bytes) (out : Buffer) {r : Buffer} → url_decode s out ≡ done r → DecodesTo s out r
decode_sound [] out e = unfold url_decode append_chars in ([], end, ground arith)
decode_sound (c ∷ []) out {r} e = elim (Bool-cases (c == b'%')) [
  | inl p ↦ absurd (done≢failed e (decode_short c [] out p (omega arith)))
  | inr q ↦
      DecodesTo-plain c [] out r q
        (decode_sound [] (append_char out c) (sym (decode_plain c [] out q) ∙ e))
]
decode_sound (c ∷ h ∷ []) out {r} e = elim (Bool-cases (c == b'%')) [
  | inl p ↦ absurd (done≢failed e (decode_short c (h ∷ []) out p (omega arith)))
  | inr q ↦
      DecodesTo-plain c (h ∷ []) out r q
        (decode_sound (h ∷ []) (append_char out c) (sym (decode_plain c (h ∷ []) out q) ∙ e))
]
decode_sound (c ∷ h ∷ l ∷ s) out {r} e = elim (Bool-cases (c == b'%')) [
  | inl p ↦ elim (Option-cases (hex_pair (hex_val h) (hex_val l))) [
    | inl bad ↦ absurd (done≢failed e (decode_bad c h l s out p bad))
    | inr (v, good) ↦
        DecodesTo-escaped c h l v s out r p good
          (decode_sound s (append_char out v) (sym (decode_mark c h l s out p good) ∙ e))
  ]
  | inr q ↦
      DecodesTo-plain c (h ∷ l ∷ s) out r q
        (decode_sound (h ∷ l ∷ s) (append_char out c) (sym (decode_plain c (h ∷ l ∷ s) out q) ∙ e))
]

-- The decoder succeeds exactly on the well-formed texts: the result is then the output buffer
-- with the decoded bytes appended one by one.
pub url_decode_iff :
    (s : Bytes) (out r : Buffer)
    → (url_decode s out ≡ done r) ↔ ((t : Bytes) × Decodes s t × (r ≡ append_chars out t))
url_decode_iff s out r =
    (λ e. decode_sound s out e, λ (t, d, e). decode_complete d out ∙ ap done (sym e))

-- The decoder has defined behaviour on every input.
pub url_decode-ne-fault : (s : Bytes) (out : Buffer) → url_decode s out ≢ fault
url_decode-ne-fault [] out = unfold url_decode in cc
url_decode-ne-fault (c ∷ []) out = unfold url_decode in ground arith
url_decode-ne-fault (c ∷ h ∷ []) out =
    let ih = url_decode-ne-fault (h ∷ []) (append_char out c) in
    elim (Bool-cases (c == b'%')) [
      | inl p ↦ rw (decode_short c (h ∷ []) out p (omega arith)) cc
      | inr q ↦ rw (decode_plain c (h ∷ []) out q) ih
    ]
url_decode-ne-fault (c ∷ h ∷ l ∷ s) out =
    let ih = url_decode-ne-fault (h ∷ l ∷ s) (append_char out c) in
    let ih' = λ (v : ℕ). url_decode-ne-fault s (append_char out v) in
    elim (Bool-cases (c == b'%')) [
      | inl p ↦ elim (Option-cases (hex_pair (hex_val h) (hex_val l))) [
        | inl bad ↦ rw (decode_bad c h l s out p bad) cc
        | inr (v, good) ↦ rw (decode_mark c h l s out p good) (ih' v)
      ]
      | inr q ↦ rw (decode_plain c (h ∷ l ∷ s) out q) ih
    ]
