-- ===== src/Base64/Alphabet.antt =====
-- What both alphabets guarantee, by evaluation at all 64 places, and the decoder's bit operations
-- on six-bit values as arithmetic.
use Prim.Native.Nat.{bit_or}
use openwrt_sub_converter.Common.{
  ℕ, ◌+◌, ◌*◌, ◌<◌, true, false, not, ◌&&◌, ◌≡◌, refl, none, some, Option, Bool, Bytes, get_or,
  all_below, all_below_sound, all_below_sound₂, ==_iff, ◌==◌, arith,
}
use openwrt_sub_converter.Base64.{b64_is_ws, b64_char_val, b64_std_chars, b64_url_chars}

-- Each value's character is neither white space nor padding, and is read back.
pub record IsAlphabet (alphabet : Bytes) : Type 0 where
  pub not_ws : (v : ℕ) → v < 64 → b64_is_ws (get_or alphabet v 0) ≡ false
  pub not_pad : (v : ℕ) → v < 64 → (get_or alphabet v 0 == b'=') ≡ false
  pub read_back : (v : ℕ) → v < 64 → b64_char_val alphabet (get_or alphabet v 0) ≡ some v

is_some_of : ℕ → Option ℕ → Bool
is_some_of v none = false
is_some_of v (some w) = w == v

is_some_of_sound : (v : ℕ) (o : Option ℕ) → is_some_of v o ≡ true → o ≡ some v
unfolding is_some_of
is_some_of_sound v none h = cc
is_some_of_sound v (some w) h = ground arith

fits : Bytes → ℕ → Bool
unfolding is_some_of
fits alphabet v =
    not (b64_is_ws (get_or alphabet v 0))
    && (not (get_or alphabet v 0 == b'=')
        && is_some_of v (b64_char_val alphabet (get_or alphabet v 0)))

fits-IsAlphabet : (alphabet : Bytes) → all_below 64 (fits alphabet) ≡ true → IsAlphabet alphabet
fits-IsAlphabet alphabet h = record {
  not_ws = λ v lt. (parts v lt).0;
  not_pad = λ v lt. (parts v lt).1;
  read_back = λ v lt. is_some_of_sound v _ (parts v lt).2;
}
  where
    split : (a b c : Bool) → (not a && (not b && c)) ≡ true → (a ≡ false) × (b ≡ false) × (c ≡ true)
    split a b c e = ground arith

    parts :
        (v : ℕ)
        → v < 64
        → (b64_is_ws (get_or alphabet v 0) ≡ false)
          × ((get_or alphabet v 0 == b'=') ≡ false)
          × (is_some_of v (b64_char_val alphabet (get_or alphabet v 0)) ≡ true)
    parts v lt = split _ _ _ (unfold fits in all_below_sound 64 (fits alphabet) v h lt)

pub b64_std_chars-IsAlphabet : IsAlphabet b64_std_chars
unfolding all_below fits b64_is_ws b64_char_val
b64_std_chars-IsAlphabet = fits-IsAlphabet b64_std_chars refl

pub b64_url_chars-IsAlphabet : IsAlphabet b64_url_chars
unfolding all_below fits b64_is_ws b64_char_val
b64_url_chars-IsAlphabet = fits-IsAlphabet b64_url_chars refl

or_4_table : all_below 64 (λ a. all_below 4 (λ b. bit_or (a * 4) b == a * 4 + b)) ≡ true
unfolding all_below
or_4_table = refl

pub bit_or_4 : (a b : ℕ) → a < 64 → b < 4 → bit_or (a * 4) b ≡ a * 4 + b
bit_or_4 a b ha hb = (==_iff _ _).0 (all_below_sound₂ 64 4 _ a b or_4_table ha hb)

or_16_table : all_below 16 (λ a. all_below 16 (λ b. bit_or (a * 16) b == a * 16 + b)) ≡ true
unfolding all_below
or_16_table = refl

pub bit_or_16 : (a b : ℕ) → a < 16 → b < 16 → bit_or (a * 16) b ≡ a * 16 + b
bit_or_16 a b ha hb = (==_iff _ _).0 (all_below_sound₂ 16 16 _ a b or_16_table ha hb)

or_64_table : all_below 4 (λ a. all_below 64 (λ b. bit_or (a * 64) b == a * 64 + b)) ≡ true
unfolding all_below
or_64_table = refl

pub bit_or_64 : (a b : ℕ) → a < 4 → b < 64 → bit_or (a * 64) b ≡ a * 64 + b
bit_or_64 a b ha hb = (==_iff _ _).0 (all_below_sound₂ 4 64 _ a b or_64_table ha hb)
