-- ===== src/Text/Trim.antt =====
-- What the loops that step over white space leave.
use mathlib.Core.List.{reverse, reverse-append, reverse-reverse, reverse-cons}
use openwrt_sub_converter.Common.{
  ℕ, Bool, true, false, [], ◌∷◌, ◌++◌, ◌≡◌, inl, inr, refl, sym, ◌∙◌, ap, Bytes, All, All-append,
  is_space, IsWhite, is_space-IsWhite, IsWhite-is_space, Bool-cases,
}
use openwrt_sub_converter.Text.{drop_while, drop_end}

module _ (p : ℕ → Bool) where
  abbrev pub Only : Bytes → Type 0
  Only = All (λ c. p c ≡ true)

  drop_while-split : (s : Bytes) → (a : Bytes) × Only a × (s ≡ a ++ drop_while p s)
  unfolding drop_while
  drop_while-split [] = ([], tt, refl)
  drop_while-split (c ∷ s) =
      let (a, only, split) = drop_while-split s in
      elim (Bool-cases (p c)) [
        | inl e ↦ (c ∷ a, (e, only), rw e (ap (λ r. c ∷ r) split))
        | inr e ↦ ([], tt, rw e refl)
      ]

  drop_while-head : (s : Bytes) (c : ℕ) (t : Bytes) → drop_while p s ≡ c ∷ t → p c ≡ false
  unfolding drop_while
  drop_while-head [] c t h = absurd (cc)
  drop_while-head (d ∷ s) c t h =
      let ih = drop_while-head s c t in
      elim (Bool-cases (p d)) [
        | inl e ↦ ih (rw e at h)
        | inr e ↦ let h' : (d ∷ s ≡ c ∷ t) = (rw e at h) in cc
      ]

  Only-reverse : (s : Bytes) → Only s → Only (reverse s)
  Only-reverse [] h = tt
  Only-reverse (c ∷ s) (hc, h) =
      let ih = All-append (λ c. p c ≡ true) (reverse s) (c ∷ []) (Only-reverse s h) (hc, tt) in
      rw (reverse-cons c s) ih

  pub drop_end-split : (s : Bytes) → (e : Bytes) × Only e × (s ≡ drop_end p s ++ e)
  unfolding drop_end
  drop_end-split s =
      let (a, only, split) = drop_while-split (reverse s) in
      (
        reverse a,
        Only-reverse a only,
        sym (reverse-reverse s) ∙ ap reverse split ∙ reverse-append a (drop_while p (reverse s)),
      )

  drop_end-last : (s t : Bytes) (c : ℕ) → drop_end p s ≡ t ++ c ∷ [] → p c ≡ false
  unfolding drop_end
  drop_end-last s t c h =
      drop_while-head (reverse s) c (reverse t) (
        sym (reverse-reverse (drop_while p (reverse s))) ∙ ap reverse h ∙ reverse-append t (c ∷ []))

-- No white space at either end.
pub record IsTrimmed (s : Bytes) : Type 0 where
  pub first : (c : ℕ) (t : Bytes) → s ≡ c ∷ t → ¬ IsWhite c
  pub last : (t : Bytes) (c : ℕ) → s ≡ t ++ c ∷ [] → ¬ IsWhite c

-- A text and what it is without the white space around it.
pub record Trims (s t : Bytes) : Type 0 where
  pub before : Bytes
  pub behind : Bytes
  pub text : s ≡ before ++ (t ++ behind)
  pub white : All IsWhite before × All IsWhite behind
  pub trimmed : IsTrimmed t

pub All-IsWhite : (s : Bytes) → Only is_space s → All IsWhite s
All-IsWhite [] h = tt
All-IsWhite (c ∷ s) (hc, h) = (is_space-IsWhite c hc, All-IsWhite s h)

no_space-IsWhite : (c : ℕ) → is_space c ≡ false → ¬ IsWhite c
no_space-IsWhite c h w = let y = IsWhite-is_space c w in cc

pub drop_spaces-Trims : (s : Bytes) → Trims s (drop_end is_space (drop_while is_space s))
drop_spaces-Trims s =
    let (a, a_white, split) = drop_while-split is_space s in
    let (d, d_white, split') = drop_end-split is_space (drop_while is_space s) in
    record {
      before = a;
      behind = d;
      text = split ∙ ap (λ r. a ++ r) split';
      white = (All-IsWhite a a_white, All-IsWhite d d_white);
      trimmed = record {
        first = λ c t e.
            no_space-IsWhite c
              (drop_while-head is_space s c (t ++ d) (split' ∙ ap (λ r. r ++ d) e));
        last = λ t c e. no_space-IsWhite c (drop_end-last is_space (drop_while is_space s) t c e);
      };
    }
