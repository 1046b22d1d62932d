-- ===== src/Text/Utf8/Validate.antt =====
-- `utf8_validate` accepts the well-formed texts.
use openwrt_sub_converter.Common.{
  ℕ, zero, suc, ◌≤◌, true, false, [], ◌∷◌, none, some, ◌≡◌, ◌↔◌, inl, inr, refl, sym, ◌∙◌, ap,
  arith, Bytes, length, Option-cases,
}
use openwrt_sub_converter.Text.{utf8_next_codepoint, validate_from, utf8_validate}
use openwrt_sub_converter.Text.Utf8.{Utf8, next_one, next_two, next_three, next_four}
use openwrt_sub_converter.Text.Utf8.Inverse.{next_inv}

validate-some :
    (fuel c : ℕ) (t r : Bytes)
    → utf8_next_codepoint (c ∷ t) ≡ some r
    → validate_from (suc fuel) (c ∷ t) ≡ validate_from fuel r
unfolding validate_from
validate-some fuel c t r e =
    ap (λ o. (elim o [ none ↦ false | some rest ↦ validate_from fuel rest ])) e

validate-none :
    (fuel c : ℕ) (t : Bytes)
    → utf8_next_codepoint (c ∷ t) ≡ none
    → validate_from (suc fuel) (c ∷ t) ≡ false
unfolding validate_from
validate-none fuel c t e =
    ap (λ o. (elim o [ none ↦ false | some rest ↦ validate_from fuel rest ])) e

validate_from-Utf8 : (fuel : ℕ) (s : Bytes) → validate_from fuel s ≡ true → Utf8 s
validate_from-Utf8 fuel [] h = Utf8.empty
validate_from-Utf8 zero (c ∷ t) h = absurd (unfold validate_from in cc)
validate_from-Utf8 (suc fuel) (c ∷ t) h =
    let ih = validate_from-Utf8 fuel in
    elim (Option-cases (utf8_next_codepoint (c ∷ t))) [
      | inl e ↦ absurd (let k = sym (validate-none fuel c t e) ∙ h in cc)
      | inr (r, e) ↦ next_inv c t r e (ih r (sym (validate-some fuel c t r e) ∙ h))
    ]

Utf8-validate_from : (fuel : ℕ) (s : Bytes) → Utf8 s → length s ≤ fuel → validate_from fuel s ≡ true
Utf8-validate_from fuel [] Utf8.empty h = unfold validate_from in refl
Utf8-validate_from zero (c ∷ t) u h = absurd (omega arith)
Utf8-validate_from (suc fuel) (c ∷ s) (Utf8.one _ _ a u) h =
    validate-some fuel c s s (next_one c s a) ∙ Utf8-validate_from fuel s u (omega arith)
Utf8-validate_from (suc fuel) (c ∷ (d ∷ s)) (Utf8.two _ _ _ a b t u) h =
    validate-some fuel c (d ∷ s) s (next_two c d s a b t)
    ∙ Utf8-validate_from fuel s u (omega arith)
Utf8-validate_from (suc fuel) (c ∷ (d ∷ (e ∷ s))) (Utf8.three _ _ _ _ a t t' u) h =
    validate-some fuel c (d ∷ (e ∷ s)) s (next_three c d e s a t t')
    ∙ Utf8-validate_from fuel s u (omega arith)
Utf8-validate_from (suc fuel) (c ∷ (d ∷ (e ∷ (f ∷ s)))) (Utf8.four _ _ _ _ _ a t t' t'' u) h =
    validate-some fuel c (d ∷ (e ∷ (f ∷ s))) s (next_four c d e f s a t t' t'')
    ∙ Utf8-validate_from fuel s u (omega arith)

-- The test holds exactly for the texts that are well formed by the table of the Unicode standard:
-- no overlong form, no surrogate, nothing above U+10FFFF and no cut sequence.
pub utf8_validate_iff : (s : Bytes) → (utf8_validate s ≡ true) ↔ Utf8 s
unfolding utf8_validate
utf8_validate_iff s =
    (validate_from-Utf8 (length s) s, λ u. Utf8-validate_from (length s) s u (omega arith))
