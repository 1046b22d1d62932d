-- ===== src/Yaml/Quote.antt =====
-- `append_quoted` and `yaml_quote` of sub-converter/src/yaml_emit.c.
use openwrt_sub_converter.Common.{
  ℕ, ◌/◌, ◌%◌, [], ◌∷◌, ◌++◌, append_assoc, append-nil, ◌≡◌, inl, inr, refl, ◌∙◌, ap, Bytes, codes,
  get_or, if◌then◌else◌, ◌==◌, Bool-cases,
}
use openwrt_sub_converter.Buffer.{Buffer, contents, append_bytes, append_char}
use openwrt_sub_converter.Yaml.{is_control, yaml_plain_safe}

abbrev pub hexdig : Bytes
hexdig = codes "0123456789ABCDEF"

-- One byte between the quotes.
unfoldable pub quote_char : ℕ → Bytes
unfolding is_control
quote_char c =
    if c == b'\\'
    then codes "\\\\"
    else if c == b'"'
    then codes "\\\""
    else if c == b'\n'
    then codes "\\n"
    else if c == b'\t'
    then codes "\\t"
    else if c == b'\r'
    then codes "\\r"
    else if c == 0
    then codes "\\0"
    else if is_control c
    then b'\\' ∷ b'x' ∷ get_or hexdig (c / 16) 0 ∷ get_or hexdig (c % 16) 0 ∷ []
    else c ∷ []

-- The loop of `append_quoted`.
quote_onto : Bytes → Buffer → Buffer
unfolding quote_char
quote_onto [] out = out
quote_onto (c ∷ s) out = quote_onto s (append_bytes out (quote_char c))

unfoldable pub append_quoted : Bytes → Buffer → Buffer
unfolding quote_onto
append_quoted s out = append_char (quote_onto s (append_char out b'"')) b'"'

unfoldable pub yaml_quote : Bytes → Buffer → Buffer
unfolding append_quoted
yaml_quote [] out = append_bytes out (codes "\"\"")
yaml_quote (c ∷ s) out =
    if yaml_plain_safe c s then append_bytes out (c ∷ s) else append_quoted (c ∷ s) out

-- The text between and around the quotes, with no buffer.
abbrev pub quoted_body : Bytes → Bytes
quoted_body [] = []
quoted_body (c ∷ s) = quote_char c ++ quoted_body s

abbrev pub scalar_text : Bytes → Bytes
scalar_text [] = codes "\"\""
scalar_text (c ∷ s) =
    if yaml_plain_safe c s then c ∷ s else b'"' ∷ (quoted_body (c ∷ s) ++ b'"' ∷ [])

quote_onto-body :
    (s : Bytes) (out : Buffer) → contents (quote_onto s out) ≡ contents out ++ quoted_body s
unfolding quote_onto
quote_onto-body [] out = rw append-nil
quote_onto-body (c ∷ s) out =
    quote_onto-body s (append_bytes out (quote_char c))
    ∙ append_assoc (contents out) (quote_char c) (quoted_body s)

pub yaml_quote-scalar_text :
    (s : Bytes) (out : Buffer) → contents (yaml_quote s out) ≡ contents out ++ scalar_text s
unfolding yaml_quote append_quoted
yaml_quote-scalar_text [] out = refl
yaml_quote-scalar_text (c ∷ s) out = elim (Bool-cases (yaml_plain_safe c s)) [
  | inl plain ↦ rw plain
  | inr quoted ↦ rw quoted (
      ap (λ t. t ++ b'"' ∷ []) (quote_onto-body (c ∷ s) (append_char out b'"')) ∙ simp append_assoc)
]
