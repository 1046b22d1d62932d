-- ===== src/Base64/Recognise.antt =====
-- The test `base64_looks_like`, and that the decoder reads past white space.
use openwrt_sub_converter.Common.{
  ℕ, suc, ◌+◌, ◌*◌, ◌/◌, ◌%◌, ◌<◌, ◌≤◌, true, false, [], ◌∷◌, none, some, ◌≡◌, ◌≢◌, ◌↔◌, ◌⊎◌, inl,
  inr, refl, sym, fun_ext, ◌∙◌, ap, arith, Bytes, IsBytes, All, IsWhite, codes, get_or,
  if◌then◌else◌, ◌==◌, Bool-cases, Option-cases, ==_iff, ◌>>=◌,
}
use openwrt_sub_converter.Buffer.{Buffer, contents}
use openwrt_sub_converter.Base64.Alphabet.{b64_std_chars-IsAlphabet}
use openwrt_sub_converter.Base64.RoundTrip.{text, base64_encode-text}
use openwrt_sub_converter.Base64.{
  b64_is_ws, b64_char_val, b64_std_chars, is_found, looks_like_from, base64_looks_like, Decoder,
  b64_decode_step, b64_decode_run, b64_decode_core, base64_decode, base64_encode,
}

looks-char :
    (v : ℕ) (s : Bytes) (n : ℕ)
    → v < 64
    → looks_like_from (get_or b64_std_chars v 0 ∷ s) n ≡ looks_like_from s (n + 1)
unfolding looks_like_from is_found
looks-char v s n h = rw (
  b64_std_chars-IsAlphabet.not_ws v h,
  b64_std_chars-IsAlphabet.not_pad v h,
  b64_std_chars-IsAlphabet.read_back v h,
)

looks-pads : (n : ℕ) → looks_like_from (codes "=") n ≡ looks_like_from [] (n + 1)
unfolding looks_like_from
looks-pads n = refl

looks-text :
    (s : Bytes) (n : ℕ)
    → IsBytes s
    → n % 4 ≡ 0
    → (4 ≤ n) ⊎ (s ≢ [])
    → looks_like_from (text b64_std_chars true s) n ≡ true
looks-text [] n h m (inl k) = unfold looks_like_from in ground arith
looks-text [] n h m (inr k) = absurd (k refl)
looks-text (a ∷ []) n h m _ =
    rw (looks-char (a / 4) _ n (omega arith)) (
      rw (looks-char (a % 4 * 16) _ (n + 1) (omega arith)) (unfold looks_like_from in ground arith))
looks-text (a ∷ b ∷ []) n h m _ = rw (looks-char (a / 4) _ n (omega arith)) (
    rw (looks-char (a % 4 * 16 + b / 16) _ (n + 1) (omega arith)) (
      rw (looks-char (b % 16 * 4) _ (n + 1 + 1) (omega arith))
        (unfold looks_like_from in ground arith)))
looks-text (a ∷ b ∷ c ∷ rest) n (ha, (hb, (hc, hr))) m _ =
    rw (looks-char (a / 4) _ n (omega arith)) (
      rw (looks-char (a % 4 * 16 + b / 16) _ (n + 1) (omega arith)) (
        rw (looks-char (b % 16 * 4 + c / 64) _ (n + 1 + 1) (omega arith)) (
          rw (looks-char (c % 64) _ (n + 1 + 1 + 1) (omega arith))
            (looks-text rest (n + 1 + 1 + 1 + 1) hr (omega arith) (inl (omega arith))))))

-- Every non-empty string of bytes, encoded with the standard alphabet, passes the test by which
-- the converter recognises an encoded subscription.
pub base64_looks_like-encode :
    (s : Bytes) → IsBytes s → s ≢ [] → base64_looks_like (contents (base64_encode s none)) ≡ true
unfolding base64_looks_like
base64_looks_like-encode s h k = rw (base64_encode-text s h) (looks-text s 0 h refl (inr k))

-- White space, padding, or a character that `strchr` finds.
abbrev pub IsAccepted : ℕ → Type 0
IsAccepted c =
    (b64_is_ws c ≡ true) ⊎ ((c ≡ b'=') ⊎ ((v : ℕ) × (b64_char_val b64_std_chars c ≡ some v)))

-- How many bytes are not white space.
pub count_solid : Bytes → ℕ
count_solid [] = 0
count_solid (c ∷ s) = if b64_is_ws c then count_solid s else suc (count_solid s)

-- What one round does, by the three kinds of byte.
looks-cases :
    (c : ℕ) (s : Bytes) (n : ℕ)
    → ((b64_is_ws c ≡ true) × (looks_like_from (c ∷ s) n ≡ looks_like_from s n))
      ⊎ (((b64_is_ws c ≡ false)
            × IsAccepted c
            × (looks_like_from (c ∷ s) n ≡ looks_like_from s (n + 1)))
          ⊎ ((¬ IsAccepted c) × (looks_like_from (c ∷ s) n ≡ false)))
looks-cases c s n = elim (Bool-cases (b64_is_ws c)) [
  | inl ws ↦ inl (ws, unfold looks_like_from in rw ws)
  | inr other ↦ elim (Bool-cases (c == b'=')) [
    | inl pad ↦ inr (inl (other, inr (inl ((==_iff c b'=').0 pad)), looks-pad other pad))
    | inr solid ↦ elim (Option-cases (b64_char_val b64_std_chars c)) [
      | inl missing ↦ inr (inr (refused other solid missing, looks-missing other solid missing))
      | inr (v, found) ↦ inr (inl (other, inr (inr (v, found)), looks-found other solid found))
    ]
  ]
]
  where
    looks-pad :
        b64_is_ws c ≡ false
        → (c == b'=') ≡ true
        → looks_like_from (c ∷ s) n ≡ looks_like_from s (n + 1)
    looks-pad p q = unfold looks_like_from in rw (p, q)

    looks-missing :
        b64_is_ws c ≡ false
        → (c == b'=') ≡ false
        → b64_char_val b64_std_chars c ≡ none
        → looks_like_from (c ∷ s) n ≡ false
    looks-missing p q r = unfold looks_like_from is_found in rw (p, q, r)

    looks-found :
        {v : ℕ}
        → b64_is_ws c ≡ false
        → (c == b'=') ≡ false
        → b64_char_val b64_std_chars c ≡ some v
        → looks_like_from (c ∷ s) n ≡ looks_like_from s (n + 1)
    looks-found p q r = unfold looks_like_from is_found in rw (p, q, r)

    refused :
        b64_is_ws c ≡ false
        → (c == b'=') ≡ false
        → b64_char_val b64_std_chars c ≡ none
        → ¬ IsAccepted c
    refused p q r (inl a) = cc
    refused p q r (inr (inl a)) = ground arith
    refused p q r (inr (inr (v, a))) = cc

IsAccepted-looks :
    (s : Bytes) (n : ℕ)
    → looks_like_from s n ≡ true
    → All IsAccepted s × (4 ≤ n + count_solid s) × ((n + count_solid s) % 4 ≡ 0)
unfolding count_solid
IsAccepted-looks [] n h = unfold looks_like_from in ground arith
IsAccepted-looks (c ∷ s) n h = elim (looks-cases c s n) [
  | inl (ws, e) ↦
      let ih = IsAccepted-looks s n (sym e ∙ h) in ((inl ws, ih.0), rw ws ih.1, rw ws ih.2)
  | inr (inl (other, ok, e)) ↦
      let ih = IsAccepted-looks s (n + 1) (sym e ∙ h) in
      ((ok, ih.0), rw other (omega arith), rw other (omega arith))
  | inr (inr (bad, e)) ↦ cc
]

looks-IsAccepted :
    (s : Bytes) (n : ℕ)
    → All IsAccepted s
    → 4 ≤ n + count_solid s
    → (n + count_solid s) % 4 ≡ 0
    → looks_like_from s n ≡ true
unfolding count_solid
looks-IsAccepted [] n h k m = unfold looks_like_from in ground arith
looks-IsAccepted (c ∷ s) n (hc, h) k m = elim (looks-cases c s n) [
  | inl (ws, e) ↦ e ∙ looks-IsAccepted s n h (rw ws at k) (rw ws at m)
  | inr (inl (other, ok, e)) ↦
      let k' = rw other at k in
      let m' = rw other at m in e ∙ looks-IsAccepted s (n + 1) h (omega arith) (omega arith)
  | inr (inr (bad, e)) ↦ absurd (bad hc)
]

-- The test holds exactly when every byte is white space, padding or found in the alphabet, and
-- the bytes that are not white space number at least four, and a multiple of four.
pub base64_looks_like_iff :
    (s : Bytes)
    → (base64_looks_like s ≡ true)
      ↔ (All IsAccepted s × (4 ≤ count_solid s) × (count_solid s % 4 ≡ 0))
unfolding base64_looks_like
base64_looks_like_iff s = (
  λ h. let r = IsAccepted-looks s 0 h in (r.0, omega arith, omega arith),
  λ h. looks-IsAccepted s 0 h.0 (omega arith) (omega arith),
)

-- `Thins s t`: the text `t` is `s` with white space taken out of it, wherever and however much.
pub data Thins : Bytes → Bytes → Type 0 where
  end : Thins [] []
  keep : (c : ℕ) (s t : Bytes) → Thins s t → Thins (c ∷ s) (c ∷ t)
  skip : (c : ℕ) (s t : Bytes) → IsWhite c → Thins s t → Thins (c ∷ s) t

white_skipped : (c : ℕ) → IsWhite c → b64_is_ws c ≡ true
unfolding b64_is_ws
white_skipped c h = ground arith

run-skip :
    (alphabet : Bytes) (d : Decoder) (c : ℕ) (s : Bytes)
    → IsWhite c
    → b64_decode_run alphabet d (c ∷ s) ≡ b64_decode_run alphabet d s
unfolding b64_decode_run
run-skip alphabet d c s h = rw (white_skipped c h) refl

run-keep :
    (alphabet : Bytes) (d : Decoder) (c : ℕ) (s t : Bytes)
    → ((d' : Decoder) → b64_decode_run alphabet d' s ≡ b64_decode_run alphabet d' t)
    → b64_decode_run alphabet d (c ∷ s) ≡ b64_decode_run alphabet d (c ∷ t)
unfolding b64_decode_run
run-keep alphabet d c s t h = ap (λ f. b64_decode_step alphabet d c >>= f) (fun_ext h)

run-Thins :
    (alphabet : Bytes) (s t : Bytes) (d : Decoder)
    → Thins s t
    → b64_decode_run alphabet d s ≡ b64_decode_run alphabet d t
run-Thins alphabet [] [] d Thins.end = refl
run-Thins alphabet [] (_ ∷ t) d h = elim h [ ]
run-Thins alphabet (c ∷ s) (_ ∷ t) d (Thins.keep _ _ _ h) =
    run-keep alphabet d c s t (λ d'. run-Thins alphabet s t d' h)
run-Thins alphabet (c ∷ s) t d (Thins.skip _ _ _ w h) =
    run-skip alphabet d c s w ∙ run-Thins alphabet s t d h

-- White space anywhere in the input changes nothing: with spaces, tabs, line feeds, vertical tabs,
-- form feeds and carriage returns taken out, any of them or all, the decoder does the same, on
-- success and on failure.
pub base64_decode-Thins :
    (s t : Bytes) (out : Buffer) → Thins s t → base64_decode s out ≡ base64_decode t out
unfolding base64_decode b64_decode_core
base64_decode-Thins s t out h =
    rw (run-Thins b64_std_chars s t (record { quad = []; pad = 0; out = out }) h)
