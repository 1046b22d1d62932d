-- ===== src/Converter/Find.antt =====
-- What the search for a converter finds.
use openwrt_sub_converter.Common.{
  List, [], ◌∷◌, some, ◌≡◌, ◌↔◌, ◌⊎◌, inl, inr, refl, sym, subst, ◌∙◌, ap, Bytes, codes, equal,
  equal_iff, Bool-cases,
}
use openwrt_sub_converter.Converter.{
  Converter, find_name, conv_singbox, conv_base64, converter_all, converter_find,
}
use openwrt_sub_converter.Model.Json.{JsonC}

find_name-head : (c : Converter) (cs : List Converter) → find_name (c ∷ cs) c.name ≡ some c
unfolding find_name
find_name-head c cs = rw ((equal_iff c.name c.name).1 refl) refl

-- What the search finds is the first converter, or is found behind it.
find_name-cons :
    (c : Converter) (cs : List Converter) (name : Bytes) (d : Converter)
    → find_name (c ∷ cs) name ≡ some d
    → ((d.name ≡ name) × (d ≡ c)) ⊎ (find_name cs name ≡ some d)
unfolding find_name
find_name-cons c cs name d h = elim (Bool-cases (equal c.name name)) [
  | inl e ↦
      let same : (d ≡ c) = (let h' : (some c ≡ some d) = (rw e at h) in cc) in
      inl (ap Converter.name same ∙ (equal_iff c.name name).0 e, same)
  | inr e ↦ inr (rw e at h)
]

module _ (lib : JsonC) where
  base64_found : find_name (converter_all lib) (codes "base64") ≡ some (conv_base64 lib)
  unfolding find_name equal
  base64_found = refl

  found_name :
      (name : Bytes) (c : Converter)
      → find_name (converter_all lib) name ≡ some c
      → (c.name ≡ name) × ((c ≡ conv_singbox lib) ⊎ (c ≡ conv_base64 lib))
  found_name name c h = elim (find_name-cons (conv_singbox lib) (conv_base64 lib ∷ []) name c h) [
    | inl (e, p) ↦ (e, inl p)
    | inr h' ↦ elim (find_name-cons (conv_base64 lib) [] name c h') [
      | inl (e, p) ↦ (e, inr p)
      | inr none_left ↦ absurd (unfold find_name in cc)
    ]
  ]

  -- The search by a name gives exactly the converter of the table that has that name.
  pub converter_find_iff :
      (name : Bytes) (c : Converter)
      → (converter_find lib (some name) ≡ some c)
        ↔ ((c.name ≡ name) × ((c ≡ conv_singbox lib) ⊎ (c ≡ conv_base64 lib)))
  unfolding converter_find
  converter_find_iff name c = (
    found_name name c,
    λ h. elim h.1 [
      | inl e ↦
          subst (λ n. find_name (converter_all lib) n ≡ some c) h.0
            (subst (λ d. find_name (converter_all lib) d.name ≡ some d) (sym e)
              (find_name-head (conv_singbox lib) (conv_base64 lib ∷ [])))
      | inr e ↦
          subst (λ n. find_name (converter_all lib) n ≡ some c) h.0
            (subst (λ d. find_name (converter_all lib) d.name ≡ some d) (sym e) base64_found)
    ],
  )
