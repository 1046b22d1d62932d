-- ===== src/Httpc/Fields.antt =====
-- What a line that libcurl delivers as a header stands for.
use openwrt_sub_converter.Common.{
  ℕ, false, List, [], ◌∷◌, ◌++◌, append_assoc, none, some, ◌≡◌, ◌≢◌, ◌⊎◌, inl, inr, refl, ◌∙◌, ap,
  arith, Bytes, All, All-append, IsWhite, length, ◌==◌, ==_iff, Bool-cases,
}
use openwrt_sub_converter.Text.{drop_end}
use openwrt_sub_converter.Text.Trim.{Only, Trims, drop_end-split, drop_spaces-Trims}
use openwrt_sub_converter.Httpc.{
  HttpcHeader, is_line_end, dup_trimmed, strchr_split, add_header, header_write_cb,
}

-- A line with no colon in front of its first NUL.
pub data NoColon : Bytes → Type 0 where
  end : NoColon []
  nul : (s : Bytes) → NoColon (0 ∷ s)
  next : (c : ℕ) (s : Bytes) → c ≢ b':' → NoColon s → NoColon (c ∷ s)

-- A line is the header `h`: the text in front of its first colon and the text behind it, which has
-- the end of the line too, are the name and the value with white space around them.
pub record IsField (line : Bytes) (h : HttpcHeader) : Type 0 where
  pub front : Bytes
  pub back : Bytes
  pub text : line ≡ front ++ b':' ∷ back
  pub front_bytes : All (λ c. (c ≢ b':') × (c ≢ 0)) front
  pub name : Trims front h.name
  pub value : Trims back h.value

strchr_split-cases :
    (s : Bytes)
    → ((r : Bytes × Bytes) × (strchr_split b':' s ≡ some r)
        × (s ≡ r.0 ++ b':' ∷ r.1)
        × All (λ c. (c ≢ b':') × (c ≢ 0)) r.0)
      ⊎ ((strchr_split b':' s ≡ none) × NoColon s)
unfolding strchr_split
strchr_split-cases [] = inr (refl, NoColon.end)
strchr_split-cases (x ∷ s) =
    let ih = strchr_split-cases s in
    elim (Bool-cases (x == b':')) [
      | inl colon ↦ inl (([], s), rw colon refl, ap (λ c. c ∷ s) ((==_iff x b':').0 colon), tt)
      | inr other ↦ elim (Bool-cases (x == 0)) [
        | inl zero ↦ inr (rw (other, zero) refl, nul_first ((==_iff x 0).0 zero))
        | inr byte ↦ elim ih [
          | inl (r, found, split, free) ↦ inl (
            (x ∷ r.0, r.1),
            rw (other, byte, found) refl,
            ap (λ t. x ∷ t) split,
            ((ground arith, ground arith), free),
          )
          | inr (missing, free) ↦
              inr (rw (other, byte, missing) refl, NoColon.next x s (ground arith) free)
        ]
      ]
    ]
  where
    nul_first : x ≡ 0 → NoColon (x ∷ s)
    nul_first e = rw e (NoColon.nul s)

line_end-IsWhite : (e : Bytes) → Only is_line_end e → All IsWhite e
unfolding is_line_end
line_end-IsWhite [] h = tt
line_end-IsWhite (c ∷ e) (hc, h) = (ground arith, line_end-IsWhite e h)

line_end-NoColon : (e : Bytes) → Only is_line_end e → NoColon e
unfolding is_line_end
line_end-NoColon [] h = NoColon.end
line_end-NoColon (c ∷ e) (hc, h) = NoColon.next c e (ground arith) (line_end-NoColon e h)

NoColon-append : (s e : Bytes) → NoColon s → NoColon e → NoColon (s ++ e)
NoColon-append _ e NoColon.end k = k
NoColon-append _ e (NoColon.nul s) k = NoColon.nul (s ++ e)
NoColon-append _ e (NoColon.next c s n h) k = NoColon.next c (s ++ e) n (NoColon-append s e h k)

-- More white space at the end is trimmed too.
Trims-append : (s t e : Bytes) → Trims s t → All IsWhite e → Trims (s ++ e) t
Trims-append s t e h w = record {
  before = h.before;
  behind = h.behind ++ e;
  text =
      ap (λ r. r ++ e) h.text
      ∙ append_assoc h.before (t ++ h.behind) e
      ∙ ap (λ r. h.before ++ r) (append_assoc t h.behind e);
  white = (h.white.0, All-append IsWhite h.behind e h.white.1 w);
  trimmed = h.trimmed;
}

-- The header of a line joins those before it, or the line has none.
pub header_write_cb-IsField :
    (line : Bytes) (hdrs : List HttpcHeader)
    → ((h : HttpcHeader) × IsField line h × ((header_write_cb line hdrs).1 ≡ hdrs ++ h ∷ []))
      ⊎ (NoColon line × ((header_write_cb line hdrs).1 ≡ hdrs))
unfolding header_write_cb
header_write_cb-IsField [] hdrs = inr (NoColon.end, refl)
header_write_cb-IsField (c ∷ rest) hdrs =
    let line = c ∷ rest in
    let (e, ends, split) = drop_end-split is_line_end line in
    let nonempty : (length line == 0) ≡ false = ground arith in
    elim (strchr_split-cases (drop_end is_line_end line)) [
      | inl (r, found, parts, free) ↦ inl (
        record { name = dup_trimmed r.0; value = dup_trimmed r.1 },
        record {
          front = r.0;
          back = r.1 ++ e;
          text = split ∙ ap (λ t. t ++ e) parts ∙ append_assoc r.0 (b':' ∷ r.1) e;
          front_bytes = free;
          name = trims r.0;
          value = Trims-append r.1 (dup_trimmed r.1) e (trims r.1) (line_end-IsWhite e ends);
        },
        added nonempty r found,
      )
      | inr (missing, free) ↦ inr (no_colon e ends split free, skipped nonempty missing)
    ]
  where
    trims : (s : Bytes) → Trims s (dup_trimmed s)
    trims s = unfold dup_trimmed in drop_spaces-Trims s

    added :
        (length (c ∷ rest) == 0) ≡ false
        → (r : Bytes × Bytes) → strchr_split b':' (drop_end is_line_end (c ∷ rest)) ≡ some r
        → (header_write_cb (c ∷ rest) hdrs).1
          ≡ hdrs ++ record { name = dup_trimmed r.0; value = dup_trimmed r.1 } ∷ []
    added n r found = unfold header_write_cb add_header in rw (n, found) refl

    skipped :
        (length (c ∷ rest) == 0) ≡ false
        → strchr_split b':' (drop_end is_line_end (c ∷ rest)) ≡ none
        → (header_write_cb (c ∷ rest) hdrs).1 ≡ hdrs
    skipped n missing = unfold header_write_cb add_header in rw (n, missing) refl

    no_colon :
        (e : Bytes)
        → Only is_line_end e
        → c ∷ rest ≡ drop_end is_line_end (c ∷ rest) ++ e
        → NoColon (drop_end is_line_end (c ∷ rest))
        → NoColon (c ∷ rest)
    no_colon e ends split free =
        rw split (NoColon-append (drop_end is_line_end (c ∷ rest)) e free (line_end-NoColon e ends))
