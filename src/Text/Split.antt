-- ===== src/Text/Split.antt =====
-- The parts of a text, joined again.
use openwrt_sub_converter.Common.{
  ℕ, true, false, List, [], ◌∷◌, ◌++◌, append_assoc, append-nil, ◌≡◌, ◌≢◌, inl, inr, refl, sym, ◌∙◌,
  ap, Bytes, Lacks, All, All-append, ◌==◌, ==_iff, Bool-cases,
}
use openwrt_sub_converter.Text.{split_from, str_split}

-- The parts with the delimiter between them.
abbrev pub join : ℕ → List Bytes → Bytes
join delim [] = []
join delim (part ∷ []) = part
join delim (part ∷ (next ∷ parts)) = part ++ delim ∷ join delim (next ∷ parts)

join-cons :
    (delim : ℕ) (part : Bytes) (parts : List Bytes)
    → parts ≢ []
    → join delim (part ∷ parts) ≡ part ++ delim ∷ join delim parts
join-cons delim part [] h = absurd (h refl)
join-cons delim part (next ∷ parts) h = refl

split_from-ne : (delim : ℕ) (part s : Bytes) → split_from delim part s ≢ []
unfolding split_from
split_from-ne delim part [] = cc
split_from-ne delim part (c ∷ s) =
    elim (c == delim)
      as (λ b.
        (elim b [
          | true ↦ part ∷ split_from delim [] s
          | false ↦ split_from delim (part ++ c ∷ []) s
        ])
        ≢ []) [ true ↦ cc | false ↦ split_from-ne delim (part ++ c ∷ []) s ]

split_from-delim :
    (delim c : ℕ) (part s : Bytes)
    → (c == delim) ≡ true
    → split_from delim part (c ∷ s) ≡ part ∷ split_from delim [] s
unfolding split_from
split_from-delim delim c part s e =
    ap
      (λ b. (elim b [
        | true ↦ part ∷ split_from delim [] s
        | false ↦ split_from delim (part ++ c ∷ []) s
      ]))
      e

split_from-other :
    (delim c : ℕ) (part s : Bytes)
    → (c == delim) ≡ false
    → split_from delim part (c ∷ s) ≡ split_from delim (part ++ c ∷ []) s
unfolding split_from
split_from-other delim c part s e =
    ap
      (λ b. (elim b [
        | true ↦ part ∷ split_from delim [] s
        | false ↦ split_from delim (part ++ c ∷ []) s
      ]))
      e

-- The parts hold no delimiter, and make the text.
abbrev pub IsSplit : ℕ → Bytes → List Bytes → Type 0
IsSplit delim s parts = (join delim parts ≡ s) × All (Lacks delim) parts

split_from-IsSplit :
    (delim : ℕ) (part s : Bytes)
    → Lacks delim part
    → IsSplit delim (part ++ s) (split_from delim part s)
split_from-IsSplit delim part [] h = unfold split_from in (sym (append-nil part), (h, tt))
split_from-IsSplit delim part (c ∷ s) h = elim (Bool-cases (c == delim)) [
  | inl e ↦
      let same : (c ≡ delim) = (==_iff c delim).0 e in
      let ih = split_from-IsSplit delim [] s tt in
      rw (split_from-delim delim c part s e) (
        join-cons delim part (split_from delim [] s) (split_from-ne delim [] s)
            ∙ ap (λ t. part ++ delim ∷ t) ih.0
            ∙ ap (λ d. part ++ d ∷ s) (sym same),
        (h, ih.1),
      )
  | inr e ↦
      let other : (c ≢ delim) = (λ p. let e' = (==_iff c delim).1 p in cc) in
      let ih =
        split_from-IsSplit delim (part ++ c ∷ []) s
          (All-append (λ d. d ≢ delim) part (c ∷ []) h (other, tt)) in
      rw (split_from-other delim c part s e) (ih.0 ∙ append_assoc part (c ∷ []) s, ih.1)
]

-- The parts that a text is split into hold no delimiter, and joined by it they make the text again.
pub str_split-IsSplit : (s : Bytes) (delim : ℕ) → IsSplit delim s (str_split s delim)
unfolding str_split
str_split-IsSplit s delim = split_from-IsSplit delim [] s tt
