-- ===== src/Text/Utf8/Inverse.antt =====
-- A code point that `utf8_next_codepoint` accepts is a well-formed sequence.
use openwrt_sub_converter.Common.{
  ℕ, suc, ◌+◌, ◌*◌, ◌/◌, ◌%◌, ◌<◌, ◌≤◌, false, ◌&&◌, ◌||◌, [], ◌∷◌, Option, none, some, ◌≡◌, ◌⊎◌,
  inl, inr, refl, sym, subst, ◌∙◌, ap, arith, Bytes, length, ◌==◌, ltb, leb, ==_iff, Bool-cases,
}
use openwrt_sub_converter.Text.{utf8_lead, utf8_follow, utf8_check, utf8_rest, utf8_next_codepoint}
use openwrt_sub_converter.Text.Utf8.{
  IsTail, IsSecond3, IsSecond4, Utf8, next_one, lead_two, lead_three, lead_four,
}

check_inv :
    (mincp : ℕ) (o : Option (ℕ × Bytes)) (r : Bytes)
    → utf8_check mincp o ≡ some r
    → (v : ℕ) × (o ≡ some (v, r)) × (mincp ≤ v) × (v ≤ 0x10FFFF) × ((v < 0xD800) ⊎ (0xDFFF < v))
unfolding utf8_check
check_inv mincp none r h = absurd (cc)
check_inv mincp (some (v, s)) r h =
    elim (Bool-cases (ltb v mincp || ltb 0x10FFFF v || (leb 0xD800 v && leb v 0xDFFF))) [
      | inl e ↦ absurd (let h' = (rw e at h) in cc)
      | inr e ↦
          let same : (some s ≡ some r) = (rw e at h) in
          (
            v,
            ap (λ (t : Bytes). some (v, t)) (let k : (s ≡ r) = cc in k),
            ground arith,
            ground arith,
            elim (Bool-cases (ltb v 0xD800)) [
              | inl p ↦ inl (ground arith)
              | inr p ↦ inr (ground arith)
            ],
          )
    ]

follow_inv :
    (extra v v' : ℕ) (t r : Bytes)
    → utf8_follow (suc extra) v t ≡ some (v', r)
    → (d : ℕ) × (s : Bytes) × (t ≡ d ∷ s)
      × IsTail d
      × (utf8_follow extra (v * 64 + d % 64) s ≡ some (v', r))
unfolding utf8_follow
follow_inv extra v v' [] r h = absurd (cc)
follow_inv extra v v' (d ∷ s) r h = elim (Bool-cases (d / 64 == 2)) [
  | inl e ↦
      let n : (d / 64 ≡ 2) = (==_iff _ _).0 e in
      (d, s, refl, (omega arith, omega arith), (rw e at h))
  | inr e ↦ absurd (let h' = (rw e at h) in cc)
]

follow_end : (v v' : ℕ) (t r : Bytes) → utf8_follow 0 v t ≡ some (v', r) → (t ≡ r) × (v ≡ v')
unfolding utf8_follow
follow_end v v' t r h = (cc, cc)

rest_inv :
    (v extra mincp : ℕ) (t r : Bytes)
    → utf8_rest (some (v, (extra, mincp))) t ≡ some r
    → utf8_check mincp (utf8_follow extra v t) ≡ some r
unfolding utf8_rest
rest_inv v extra mincp t r h = elim (Bool-cases (leb extra (length t))) [
  | inl e ↦ (rw e at h)
  | inr e ↦ absurd (let h' = (rw e at h) in cc)
]

second3 :
    (c d e : ℕ)
    → 0xE0 ≤ c
    → c ≤ 0xEF
    → IsTail d
    → IsTail e
    → 0x800 ≤ (c % 16 * 64 + d % 64) * 64 + e % 64
    → ((c % 16 * 64 + d % 64) * 64 + e % 64 < 0xD800)
      ⊎ (0xDFFF < (c % 16 * 64 + d % 64) * 64 + e % 64)
    → IsSecond3 c d
second3 c d e lo hi t u a n = elim (Bool-cases (c == 0xE0)) [
  | inl p ↦ let q : (c ≡ 0xE0) = (==_iff _ _).0 p in inl (q, omega arith)
  | inr p ↦ elim (Bool-cases (ltb c 0xED)) [
    | inl q ↦ inr (inl (ground arith, ground arith))
    | inr q ↦ elim (Bool-cases (c == 0xED)) [
      | inl w ↦ let x : (c ≡ 0xED) = (==_iff _ _).0 w in inr (inr (inl (x, omega arith)))
      | inr w ↦ inr (inr (inr (ground arith, hi)))
    ]
  ]
]

second4 :
    (c d e f : ℕ)
    → 0xF0 ≤ c
    → c ≤ 0xF7
    → IsTail d
    → 0x10000 ≤ ((c % 8 * 64 + d % 64) * 64 + e % 64) * 64 + f % 64
    → ((c % 8 * 64 + d % 64) * 64 + e % 64) * 64 + f % 64 ≤ 0x10FFFF
    → IsSecond4 c d
second4 c d e f lo hi t a b = elim (Bool-cases (c == 0xF0)) [
  | inl p ↦ let q : (c ≡ 0xF0) = (==_iff _ _).0 p in inl (q, omega arith)
  | inr p ↦ elim (Bool-cases (ltb c 0xF4)) [
    | inl q ↦ inr (inl (ground arith, ground arith))
    | inr q ↦ let x : (c ≡ 0xF4) = ground arith in inr (inr (x, omega arith))
  ]
]

one_inv :
    (c : ℕ) (t r : Bytes) → c ≤ 0x7F → utf8_next_codepoint (c ∷ t) ≡ some r → Utf8 r → Utf8 (c ∷ t)
one_inv c t r h e u =
    let same : (t ≡ r) = (let k = sym (next_one c t h) ∙ e in cc) in
    Utf8.one c t h (subst Utf8 (sym same) u)

two_inv :
    (c : ℕ) (t r : Bytes)
    → 0xC0 ≤ c
    → c ≤ 0xDF
    → utf8_next_codepoint (c ∷ t) ≡ some r
    → Utf8 r
    → Utf8 (c ∷ t)
unfolding utf8_next_codepoint
two_inv c t r lo hi e u =
    let e' = ap (λ o. utf8_rest o t) (sym (lead_two c lo hi)) ∙ e in
    let (v, got, a, b, n) =
      check_inv 0x80 (utf8_follow 1 (c % 32) t) r (rest_inv (c % 32) 1 0x80 t r e') in
    let (d, s, is_d, tail, got') = follow_inv 0 (c % 32) v t r got in
    let (is_r, is_v) = follow_end (c % 32 * 64 + d % 64) v s r got' in
    subst (λ x. Utf8 (c ∷ x)) (sym is_d)
      (Utf8.two c d s (omega arith) hi tail (subst Utf8 (sym is_r) u))

three_inv :
    (c : ℕ) (t r : Bytes)
    → 0xE0 ≤ c
    → c ≤ 0xEF
    → utf8_next_codepoint (c ∷ t) ≡ some r
    → Utf8 r
    → Utf8 (c ∷ t)
unfolding utf8_next_codepoint
three_inv c t r lo hi e u =
    let e' = ap (λ o. utf8_rest o t) (sym (lead_three c lo hi)) ∙ e in
    let (v, got, a, b, n) =
      check_inv 0x800 (utf8_follow 2 (c % 16) t) r (rest_inv (c % 16) 2 0x800 t r e') in
    let (d, s, is_d, tail, got') = follow_inv 1 (c % 16) v t r got in
    let (e, s', is_e, tail', got'') = follow_inv 0 (c % 16 * 64 + d % 64) v s r got' in
    let (is_r, is_v) = follow_end ((c % 16 * 64 + d % 64) * 64 + e % 64) v s' r got'' in
    let second =
      second3 c d e lo hi tail tail' (omega arith)
        (subst (λ x. (x < 0xD800) ⊎ (0xDFFF < x)) (sym is_v) n) in
    subst (λ x. Utf8 (c ∷ x)) (sym (is_d ∙ ap (λ x. d ∷ x) is_e))
      (Utf8.three c d e s' second tail tail' (subst Utf8 (sym is_r) u))

four_inv :
    (c : ℕ) (t r : Bytes)
    → 0xF0 ≤ c
    → c ≤ 0xF7
    → utf8_next_codepoint (c ∷ t) ≡ some r
    → Utf8 r
    → Utf8 (c ∷ t)
unfolding utf8_next_codepoint
four_inv c t r lo hi e u =
    let e' = ap (λ o. utf8_rest o t) (sym (lead_four c lo hi)) ∙ e in
    let (v, got, a, b, n) =
      check_inv 0x10000 (utf8_follow 3 (c % 8) t) r (rest_inv (c % 8) 3 0x10000 t r e') in
    let (d, s, is_d, tail, got') = follow_inv 2 (c % 8) v t r got in
    let (e, s', is_e, tail', got'') = follow_inv 1 (c % 8 * 64 + d % 64) v s r got' in
    let (f, s'', is_f, tail'', got''') =
      follow_inv 0 ((c % 8 * 64 + d % 64) * 64 + e % 64) v s' r got'' in
    let (is_r, is_v) =
      follow_end (((c % 8 * 64 + d % 64) * 64 + e % 64) * 64 + f % 64) v s'' r got''' in
    let second = second4 c d e f lo hi tail (omega arith) (omega arith) in
    subst (λ x. Utf8 (c ∷ x)) (sym (is_d ∙ ap (λ x. d ∷ x) (is_e ∙ ap (λ x. e ∷ x) is_f)))
      (Utf8.four c d e f s'' second tail tail' tail'' (subst Utf8 (sym is_r) u))

lead_none :
    (c : ℕ)
    → 0x7F < c
    → (c / 32 == 6) ≡ false
    → (c / 16 == 14) ≡ false
    → (c / 8 == 30) ≡ false
    → utf8_lead c ≡ none
unfolding utf8_lead
lead_none c h p q w = ground arith

next_none : (c : ℕ) (t r : Bytes) → utf8_lead c ≡ none → utf8_next_codepoint (c ∷ t) ≡ some r → ⊥
unfolding utf8_next_codepoint utf8_rest
next_none c t r h e = let e' = ap (λ o. utf8_rest o t) (sym h) ∙ e in cc

-- A code point that is accepted, in front of a well-formed text.
pub next_inv : (c : ℕ) (t r : Bytes) → utf8_next_codepoint (c ∷ t) ≡ some r → Utf8 r → Utf8 (c ∷ t)
next_inv c t r e u = elim (Bool-cases (ltb c 0x80)) [
  | inl p ↦ one_inv c t r (ground arith) e u
  | inr p ↦
      let big : (0x7F < c) = ground arith in
      elim (Bool-cases (c / 32 == 6)) [
        | inl q ↦
            let n : (c / 32 ≡ 6) = (==_iff _ _).0 q in two_inv c t r (omega arith) (omega arith) e u
        | inr q ↦ elim (Bool-cases (c / 16 == 14)) [
          | inl w ↦
              let n : (c / 16 ≡ 14) = (==_iff _ _).0 w in
              three_inv c t r (omega arith) (omega arith) e u
          | inr w ↦ elim (Bool-cases (c / 8 == 30)) [
            | inl x ↦
                let n : (c / 8 ≡ 30) = (==_iff _ _).0 x in
                four_inv c t r (omega arith) (omega arith) e u
            | inr x ↦ absurd (next_none c t r (lead_none c big q w x) e)
          ]
        ]
      ]
]
