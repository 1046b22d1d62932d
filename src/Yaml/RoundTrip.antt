-- ===== src/Yaml/RoundTrip.antt =====
-- What `yaml_quote` writes, read by the reader of `Reader`.
use openwrt_sub_converter.Common.{
  ℕ, Bool, true, false, not, ◌&&◌, ◌||◌, [], ◌∷◌, ◌++◌, append_assoc, none, some, ◌≡◌, ◌≢◌, inl,
  inr, refl, ◌∙◌, ap, arith, Bytes, IsBytes, is_space, if◌then◌else◌, ◌==◌, Bool-cases,
}
use openwrt_sub_converter.Buffer.{contents}
use openwrt_sub_converter.Yaml.Quote.{quoted_body, scalar_text, yaml_quote, yaml_quote-scalar_text}
use openwrt_sub_converter.Yaml.{
  is_control, has_control, has_mark, last_or, is_leading_indicator, memchr, yaml_plain_safe,
}
use openwrt_sub_converter.Yaml.Reader.{
  Mode, push, read_plain, read_quoted, read_scalar, indicators, read-body,
}

-- A line break is a control byte.
no_break : (c : ℕ) → is_control c ≡ false → (c == b'\n') ≡ false
unfolding is_control
no_break c h = ground arith

or_false : (a b : Bool) → (a || b) ≡ false → (a ≡ false) × (b ≡ false)
or_false a b e = ground arith

at_break : (rest : Bytes) → read_plain (b'\n' ∷ rest) ≡ some ([], b'\n' ∷ rest)
unfolding read_plain
at_break [] = refl
at_break (c ∷ rest) = refl

-- One byte before another one of the same line.
read_plain-pair :
    (c d : ℕ) (s : Bytes) (r : Bytes × Bytes)
    → is_control c ≡ false
    → is_control d ≡ false
    → ((c == b':' && d == b' ') || (c == b' ' && d == b'#')) ≡ false
    → read_plain (d ∷ s) ≡ some r
    → read_plain (c ∷ d ∷ s) ≡ some (c ∷ r.0, r.1)
unfolding read_plain push
read_plain-pair c d s r hc hd hm ih =
    rw (no_break c hc, no_break d hd)
      (rw (or_nil (d == b' '), or_nil (d == b'#')) (rw hm (ap (push c) ih)))
  where
    or_nil : (b : Bool) → (b || false) ≡ b
    or_nil b = ground arith

mark_head :
    (c d : ℕ) (s : Bytes)
    → has_mark (c ∷ d ∷ s) ≡ false
    → (((c == b':' && d == b' ') || (c == b' ' && d == b'#')) ≡ false) × (has_mark (d ∷ s) ≡ false)
unfolding has_mark
mark_head c d s h = ground arith

read_plain-safe :
    (c : ℕ) (s rest : Bytes)
    → has_control (c ∷ s) ≡ false
    → has_mark (c ∷ s) ≡ false
    → last_or c s ≢ b':'
    → last_or c s ≢ b' '
    → read_plain (c ∷ (s ++ b'\n' ∷ rest)) ≡ some (c ∷ s, b'\n' ∷ rest)
unfolding has_control last_or
read_plain-safe c [] rest h m colon space =
    let not_colon : (c == b':') ≡ false = ground arith in
    let not_space : (c == b' ') ≡ false = ground arith in
    let (hc, _) = or_false (is_control c) false h in
    unfold read_plain in
    unfold push in rw (no_break c hc, not_colon, not_space) (ap (push c) (at_break rest))
read_plain-safe c (d ∷ s) rest h m colon space =
    let (hc, hs) = or_false (is_control c) (has_control (d ∷ s)) h in
    let (hm, ms) = mark_head c d s m in
    let (hd, ht) = or_false (is_control d) (has_control s) hs in
    read_plain-pair c d (s ++ b'\n' ∷ rest) (d ∷ s, b'\n' ∷ rest) hc hd hm
      (read_plain-safe d s rest hs ms colon space)

-- What the tests of `yaml_plain_safe` exclude.
ladder :
    (a b lead ctl mark quote back word number : Bool)
    → (if a || b
        then false
        else if lead
        then false
        else if ctl
        then false
        else if mark
        then false
        else if quote || back
        then false
        else if word
        then false
        else not number)
      ≡ true
    → (a ≡ false) × (b ≡ false) × (lead ≡ false) × (ctl ≡ false) × (mark ≡ false)
ladder a b lead ctl mark quote back word number h = ground arith

plain_facts :
    (c : ℕ) (s : Bytes)
    → yaml_plain_safe c s ≡ true
    → (is_space c ≡ false)
      × (is_space (last_or c s) ≡ false)
      × (is_leading_indicator c ≡ false)
      × (has_control (c ∷ s) ≡ false)
      × (has_mark (c ∷ s) ≡ false)
unfolding yaml_plain_safe
plain_facts c s h =
    ladder (is_space c) (is_space (last_or c s)) (is_leading_indicator c) (has_control (c ∷ s))
      (has_mark (c ∷ s)) (memchr b'"' (c ∷ s)) (memchr b'\\' (c ∷ s)) _ _ h

-- The source's indicators are the reader's.
no_indicator :
    (c : ℕ)
    → is_leading_indicator c ≡ false
    → is_space c ≡ false
    → ((c == b'"') ≡ false) × ((memchr c indicators || c == b' ') ≡ false)
unfolding is_leading_indicator is_space memchr
no_indicator c h k = (ground arith, ground arith)

not_space : (c : ℕ) → is_space c ≡ false → c ≢ b' '
unfolding is_space
not_space c h = ground arith

-- A text that is written plain is read by `read_plain`.
read_scalar-plain :
    (c : ℕ) (s rest : Bytes)
    → yaml_plain_safe c s ≡ true
    → read_scalar (scalar_text (c ∷ s) ++ b'\n' ∷ rest) ≡ read_plain (c ∷ (s ++ b'\n' ∷ rest))
unfolding read_scalar
read_scalar-plain c s rest plain =
    let (first, last, lead, clean, unmarked) = plain_facts c s plain in
    let (no_quote, no_mark) = no_indicator c lead first in rw plain (rw (no_quote, no_mark) refl)

read-scalar_text :
    (s rest : Bytes)
    → IsBytes s
    → last_or 0 s ≢ b':'
    → read_scalar (scalar_text s ++ b'\n' ∷ rest) ≡ some (s, b'\n' ∷ rest)
read-scalar_text [] rest h colon = unfold read_scalar in refl
read-scalar_text (c ∷ s) rest h colon = elim (Bool-cases (yaml_plain_safe c s)) [
  | inl plain ↦
      let (first, last, lead, clean, unmarked) = plain_facts c s plain in
      read_scalar-plain c s rest plain
      ∙ read_plain-safe c s rest clean unmarked (unfold last_or in colon)
          (not_space (last_or c s) last)
  | inr quoted ↦
      unfold read_scalar in
      rw quoted (
        ap (read_quoted Mode.text) (append_assoc (quoted_body (c ∷ s)) (b'"' ∷ []) (b'\n' ∷ rest))
        ∙ read-body (c ∷ s) (b'\n' ∷ rest) h)
]

-- What `yaml_quote` appends for a string of bytes that does not end with a colon, with a line break
-- behind it, is read back to the same bytes, up to the line break, by a reader of YAML scalars that
-- refuses a text which starts with an indicator or a space, makes a key, starts a comment or ends
-- with a space: control bytes, quotes, backslashes and the empty string included.
pub read_scalar-yaml_quote :
    (s rest : Bytes)
    → IsBytes s
    → last_or 0 s ≢ b':'
    → read_scalar (contents (yaml_quote s none) ++ b'\n' ∷ rest) ≡ some (s, b'\n' ∷ rest)
read_scalar-yaml_quote s rest h colon =
    rw (yaml_quote-scalar_text s none) (read-scalar_text s rest h colon)

pair_none :
    (c d : ℕ) (s : Bytes)
    → (c == b'\n') ≡ false
    → read_plain (d ∷ s) ≡ none
    → read_plain (c ∷ d ∷ s) ≡ none
unfolding read_plain push
pair_none c d s h ih = rw h (rw ih (ground arith))

read_plain-colon :
    (c : ℕ) (s rest : Bytes)
    → has_control (c ∷ s) ≡ false
    → last_or c s ≡ b':'
    → read_plain (c ∷ (s ++ b'\n' ∷ rest)) ≡ none
unfolding has_control last_or
read_plain-colon c [] rest h e = unfold read_plain in rw e refl
read_plain-colon c (d ∷ s) rest h e =
    let (hc, hs) = or_false (is_control c) (has_control (d ∷ s)) h in
    let ih = read_plain-colon d s rest hs e in pair_none c d (s ++ b'\n' ∷ rest) (no_break c hc) ih

-- A text that passes the test for a plain scalar and ends with a colon is written as it is, and the
-- reader refuses it: with the line break behind it, the colon makes it a key.
pub read_scalar-yaml_quote_colon :
    (c : ℕ) (s rest : Bytes)
    → yaml_plain_safe c s ≡ true
    → last_or c s ≡ b':'
    → read_scalar (contents (yaml_quote (c ∷ s) none) ++ b'\n' ∷ rest) ≡ none
read_scalar-yaml_quote_colon c s rest plain e =
    let (first, last, lead, clean, unmarked) = plain_facts c s plain in
    rw (yaml_quote-scalar_text (c ∷ s) none)
      (read_scalar-plain c s rest plain ∙ read_plain-colon c s rest clean e)
