-- ===== src/ConvBase64/Names.antt =====
-- The name that a node is given, and that the names of the nodes are pairwise different.
use mathlib.Core.Option.{some-injective}
use openwrt_sub_converter.Common.{
  ℕ, ◌<◌, ◌≤◌, true, false, List, [], ◌∷◌, ◌++◌, some, ◌≡◌, ◌≢◌, ◌⊎◌, inl, inr, refl, sym, ◌∙◌,
  arith, Bytes, All, codes, equal, equal_iff, Bool-cases, ◌↔◌,
}
use openwrt_sub_converter.Libc.{decimal}
use openwrt_sub_converter.ConvBase64.{
  name_used, with_suffix, assign_unique_name, base_name, assign_names,
}
use openwrt_sub_converter.ConvBase64.Suffixes.{
  IsFree, IsFirst, assign_unique_name-IsFirst, assign_unique_name-IsFree,
}
use openwrt_sub_converter.Model.{ProxyNode}

-- One of the texts equals the name.
abbrev pub IsAmong : List Bytes → Bytes → Type 0
IsAmong [] name = ⊥
IsAmong (u ∷ used) name = (u ≡ name) ⊎ IsAmong used name

name_used_iff :
    (used : List Bytes) (name : Bytes) → (name_used used name ≡ true) ↔ IsAmong used name
unfolding name_used
name_used_iff [] name = ((λ h. absurd (cc)), λ a. absurd a)
name_used_iff (u ∷ used) name =
    let ih = name_used_iff used name in
    let same = equal_iff u name in
    elim (Bool-cases (equal u name)) [
      | inl e ↦ ((λ h. inl (same.0 e)), λ a. rw e refl)
      | inr e ↦ (
        (λ h. inr (ih.0 (rw e at h))),
        λ a.
            rw e
              (elim a [ inl here ↦ absurd (let y = same.1 here in cc) | inr there ↦ ih.1 there ]),
      )
    ]

-- The first name that is not used, of the base itself and the base with ` - 2`, ` - 3` and so on.
pub record IsFirstUnused (used : List Bytes) (base name : Bytes) : Type 0 where
  pub unused : ¬ IsAmong used name
  pub form :
      (name ≡ base)
      ⊎ ((j : ℕ) × (2 ≤ j)
          × (name ≡ base ++ (codes " - " ++ decimal j))
          × IsAmong used base
          × ((i : ℕ) → 2 ≤ i → i < j → IsAmong used (base ++ (codes " - " ++ decimal i))))

IsFirst-unused :
    (used : List Bytes) (base name : Bytes)
    → IsFirst used base base 2 name
    → IsFirstUnused used base name
unfolding IsFirst with_suffix
IsFirst-unused used base name (free, form) = record {
  unused = λ a. let y = (name_used_iff used name).1 a in cc;
  form = elim form [
    | inl e ↦ inl e
    | inr (j, le, e, taken, before) ↦ inr (
      j,
      le,
      e,
      (name_used_iff used base).0 taken,
      λ i ge lt. (name_used_iff used _).0 (before i ge lt),
    )
  ];
}

-- Whatever names are used, the name that is assigned is the first one that is not, of the base, the
-- base with ` - 2`, with ` - 3` and so on, and it joins the used names at their end.
pub assign_unique_name_total :
    (used : List Bytes) (base : Bytes)
    → (name : Bytes) × (assign_unique_name used base ≡ some (name, used ++ name ∷ []))
      × IsFirstUnused used base name
assign_unique_name_total used base =
    let (name, assigned, first) = assign_unique_name-IsFirst used base in
    (name, assigned, IsFirst-unused used base name first)

-- A node with a new name, and nothing else changed.
pub record IsRename (n r : ProxyNode) : Type 0 where
  pub name : Bytes
  pub node_is : r ≡ record n { name = some name }
  pub form :
      (name ≡ base_name n.name) ⊎ ((j : ℕ) × (2 ≤ j) × (name ≡ with_suffix (base_name n.name) j))

-- One for one, in order.
abbrev pub IsRenamed : List ProxyNode → List ProxyNode → Type 0
IsRenamed [] [] = Unit
IsRenamed [] (r ∷ out) = ⊥
IsRenamed (n ∷ nodes) [] = ⊥
IsRenamed (n ∷ nodes) (r ∷ out) = IsRename n r × IsRenamed nodes out

abbrev pub HasUnusedName : List Bytes → ProxyNode → Type 0
HasUnusedName used r = (name : Bytes) × (r.name ≡ some name) × (name_used used name ≡ false)

-- No two nodes have one name.
abbrev pub HaveDistinctNames : List ProxyNode → Type 0
HaveDistinctNames [] = Unit
HaveDistinctNames (r ∷ out) = All (λ q. q.name ≢ r.name) out × HaveDistinctNames out

name_used-concat :
    (used : List Bytes) (x c : Bytes)
    → name_used (used ++ x ∷ []) c ≡ false
    → (name_used used c ≡ false) × (x ≢ c)
unfolding name_used
name_used-concat [] x c h = (refl, ground (arith, equal_iff x c))
name_used-concat (u ∷ used) x c h = ground (arith, name_used-concat used x c)

pub weaken :
    (used : List Bytes) (x : Bytes) (out : List ProxyNode)
    → All (HasUnusedName (used ++ x ∷ [])) out
    → All (HasUnusedName used) out × All (λ q. q.name ≢ some x) out
weaken used x [] h = (tt, tt)
weaken used x (r ∷ out) ((name, is, unused), rest) =
    let (old, differ) = name_used-concat used x name unused in
    let (others, distinct) = weaken used x out rest in
    let apart : r.name ≢ some x = λ e. differ (some-injective x name (sym e ∙ is)) in
    (((name, is, old), others), (apart, distinct))

assign_names_step :
    (used : List Bytes) (n : ProxyNode) (nodes : List ProxyNode) (name : Bytes)
    (rest : List ProxyNode)
    → assign_unique_name used (base_name n.name) ≡ some (name, used ++ name ∷ [])
    → assign_names (used ++ name ∷ []) nodes ≡ some rest
    → assign_names used (n ∷ nodes) ≡ some (record n { name = some name } ∷ rest)
unfolding assign_names
assign_names_step used n nodes name rest e h = rw (e, assign_names) (rw h)

-- The loop over the nodes succeeds: each node keeps all but its name, which becomes its base name
-- or that with a suffix from 2 on, no name is one of those used before, and no two are equal.
pub assign_names_total :
    (used : List Bytes) (nodes : List ProxyNode)
    → (out : List ProxyNode) × (assign_names used nodes ≡ some out)
      × IsRenamed nodes out
      × All (HasUnusedName used) out
      × HaveDistinctNames out
assign_names_total used [] = ([], (unfold assign_names in refl), tt, tt, tt)
assign_names_total used (n ∷ nodes) =
    let (name, assigned, free) = assign_unique_name-IsFree used (base_name n.name) in
    let (rest, done_rest, renamed, unused, distinct) =
      assign_names_total (used ++ name ∷ []) nodes in
    let (others, apart) = weaken used name rest unused in
    (
      record n { name = some name } ∷ rest,
      assign_names_step used n nodes name rest assigned done_rest,
      (rename name free, renamed),
      ((name, refl, unused_of name free), others),
      (apart, distinct),
    )
  where
    rename :
        (name : Bytes)
        → IsFree used (base_name n.name) (base_name n.name) 2 name
        → IsRename n (record n { name = some name })
    rename name free = record { name = name; node_is = refl; form = (unfold IsFree in free.1) }

    unused_of :
        (name : Bytes)
        → IsFree used (base_name n.name) (base_name n.name) 2 name
        → name_used used name ≡ false
    unused_of name free = unfold IsFree in free.0
