-- ===== src/Yaml/Reader.antt =====
-- A reader of YAML scalars, written from the YAML specification and not from the source, and how it
-- reads what stands between double quotes.
use openwrt_sub_converter.Common.{
  ℕ, ◌/◌, ◌%◌, ◌<◌, true, ◌||◌, [], ◌∷◌, ◌++◌, append_assoc, Option, none, some, ◌≡◌, inl, inr,
  refl, ◌∙◌, ap, Bytes, IsBytes, get_or, codes, ◌&&◌, if◌then◌else◌, ◌==◌, ==_iff, Bool-cases,
}
use openwrt_sub_converter.Url.RoundTrip.{hex_pair-hexdig}
use openwrt_sub_converter.Url.{hex_val, hex_pair}
use openwrt_sub_converter.Yaml.Quote.{hexdig, quote_char, quoted_body}
use openwrt_sub_converter.Yaml.{is_control, memchr}

-- The byte that a one-letter escape stands for.
unfoldable pub escape_of : ℕ → Option ℕ
escape_of c =
    if c == b'\\'
    then some b'\\'
    else if c == b'"'
    then some b'"'
    else if c == b'n'
    then some b'\n'
    else if c == b't'
    then some b'\t'
    else if c == b'r'
    then some b'\r'
    else if c == b'0'
    then some 0
    else none

-- Puts a byte in front of what is read.
unfoldable pub push : ℕ → Option (Bytes × Bytes) → Option (Bytes × Bytes)
push c none = none
push c (some (s, rest)) = some (c ∷ s, rest)

-- The mode of the reader between double quotes.
pub data Mode : Type 0 where
  text after_backslash first_digit : Mode
  second_digit : Option ℕ → Mode

unfoldable pub read_quoted : Mode → Bytes → Option (Bytes × Bytes)
unfolding push escape_of
read_quoted mode [] = none
read_quoted text (c ∷ s) =
    let escaped = read_quoted after_backslash s in
    let further = read_quoted text s in
    if c == b'"' then some ([], s) else if c == b'\\' then escaped else push c further
read_quoted after_backslash (c ∷ s) =
    let hex = read_quoted first_digit s in
    let further = read_quoted text s in
    if c == b'x' then hex else elim (escape_of c) [ none ↦ none | some v ↦ push v further ]
read_quoted first_digit (c ∷ s) = read_quoted (second_digit (hex_val c)) s
read_quoted (second_digit hi) (c ∷ s) =
    let further = read_quoted text s in
    elim (hex_pair hi (hex_val c)) [ none ↦ none | some v ↦ push v further ]

-- A plain scalar on one line ends at the line break. A colon before white space makes it a key, a
-- number sign behind a space starts a comment, and a space at the end is no part of it: none of
-- these is a scalar that fills the line.
unfoldable pub read_plain : Bytes → Option (Bytes × Bytes)
unfolding push
read_plain [] = some ([], [])
read_plain (c ∷ []) = if c == b'\n' then some ([], c ∷ []) else push c (some ([], []))
read_plain (c ∷ d ∷ s) =
    let further = read_plain (d ∷ s) in
    if c == b'\n'
    then some ([], c ∷ d ∷ s)
    else if (c == b':' && (d == b' ' || d == b'\n')) || (c == b' ' && (d == b'#' || d == b'\n'))
    then none
    else push c further

-- The bytes that do not start a plain scalar (`-`, `?` and `:` may, before some bytes).
abbrev pub indicators : Bytes
indicators = codes "-?:,[]{}#&*!|>'\"%@`"

-- A scalar: its bytes, and the text behind it.
unfoldable pub read_scalar : Bytes → Option (Bytes × Bytes)
unfolding read_quoted read_plain
read_scalar [] = none
read_scalar (c ∷ s) =
    if c == b'"'
    then read_quoted text s
    else if memchr c indicators || c == b' '
    then none
    else read_plain (c ∷ s)

-- A control byte that has no letter.
read_hex :
    (c : ℕ) (s : Bytes)
    → c < 256
    → read_quoted text (b'\\' ∷ b'x' ∷ get_or hexdig (c / 16) 0 ∷ get_or hexdig (c % 16) 0 ∷ s)
      ≡ push c (read_quoted text s)
unfolding read_quoted
read_hex c s h = rw (hex_pair-hexdig c h)

read-quote_char :
    (c : ℕ) (s : Bytes)
    → c < 256
    → read_quoted text (quote_char c ++ s) ≡ push c (read_quoted text s)
unfolding quote_char
read-quote_char c s h = elim (Bool-cases (c == b'\\')) [
  | inl e ↦ rw (named b'\\' e) (unfold read_quoted in refl)
  | inr n0 ↦ elim (Bool-cases (c == b'"')) [
    | inl e ↦ rw (named b'"' e) (unfold read_quoted in refl)
    | inr n1 ↦ elim (Bool-cases (c == b'\n')) [
      | inl e ↦ rw (named b'\n' e) (unfold read_quoted in refl)
      | inr n2 ↦ elim (Bool-cases (c == b'\t')) [
        | inl e ↦ rw (named b'\t' e) (unfold read_quoted in refl)
        | inr n3 ↦ elim (Bool-cases (c == b'\r')) [
          | inl e ↦ rw (named b'\r' e) (unfold read_quoted in refl)
          | inr n4 ↦ elim (Bool-cases (c == 0)) [
            | inl e ↦ rw (named 0 e) (unfold read_quoted in refl)
            | inr n5 ↦ elim (Bool-cases (is_control c)) [
              | inl ctl ↦ rw (n0, n1, n2, n3, n4, n5, ctl) (read_hex c s h)
              | inr other ↦ rw (n0, n1, n2, n3, n4, n5, other) (unfold read_quoted in rw (n1, n0))
            ]
          ]
        ]
      ]
    ]
  ]
]
  where
    named : (d : ℕ) → (c == d) ≡ true → c ≡ d
    named d e = (==_iff c d).0 e

pub read-body :
    (s rest : Bytes) → IsBytes s → read_quoted text (quoted_body s ++ b'"' ∷ rest) ≡ some (s, rest)
read-body [] rest h = unfold read_quoted in refl
read-body (c ∷ s) rest (hc, hs) =
    ap (read_quoted text) (append_assoc (quote_char c) (quoted_body s) (b'"' ∷ rest))
    ∙ read-quote_char c (quoted_body s ++ b'"' ∷ rest) hc
    ∙ ap (push c) (read-body s rest hs)
    ∙ (unfold push in refl)
