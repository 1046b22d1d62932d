-- ===== src/Tests/Texts.antt =====
-- The text helpers, on texts with more than ASCII.
use openwrt_sub_converter.Common.{
  true, false, [], ◌∷◌, none, some, ◌≡◌, ◌↔◌, refl, Bytes, codes, is_space,
}
use openwrt_sub_converter.Text.Split.{IsSplit, str_split-IsSplit}
use openwrt_sub_converter.Text.Utf8.Validate.{utf8_validate_iff}
use openwrt_sub_converter.Text.Utf8.{Utf8}
use openwrt_sub_converter.Text.{
  str_trim, str_starts_with, str_ends_with, str_split, str_replace_all, utf8_validate,
}

-- U+20AC and U+1F600.
abbrev signs : Bytes
signs = 0xE2 ∷ 0x82 ∷ 0xAC ∷ 0xF0 ∷ 0x9F ∷ 0x98 ∷ 0x80 ∷ []

utf8_validate_iff_example : (utf8_validate signs ≡ true) ↔ Utf8 signs
utf8_validate_iff_example = utf8_validate_iff signs

signs_valid : utf8_validate signs ≡ true
unfolding utf8_validate
signs_valid = refl

-- A surrogate.
surrogate_invalid : utf8_validate (0xED ∷ 0xA0 ∷ 0x80 ∷ []) ≡ false
unfolding utf8_validate
surrogate_invalid = refl

str_split-IsSplit_example : IsSplit b';' (codes "a;;b") (str_split (codes "a;;b") b';')
str_split-IsSplit_example = str_split-IsSplit (codes "a;;b") b';'

three_parts : str_split (codes "a;;b") b';' ≡ codes "a" ∷ [] ∷ codes "b" ∷ []
unfolding str_split
three_parts = refl

trimmed : str_trim (some (codes " \t a b\r\n")) ≡ some (codes "a b")
unfolding str_trim is_space
trimmed = refl

replaced : str_replace_all (codes "aaba") (codes "aa") (codes "x") none ≡ some (codes "xba")
unfolding str_replace_all
replaced = refl

starts : str_starts_with (codes "vless://h") (codes "vless") ≡ true
unfolding str_starts_with
starts = refl

ends : str_ends_with (codes "a.yaml") (codes ".yaml") ≡ true
unfolding str_ends_with
ends = refl
