-- ===== src/ConvSingbox/Naming.antt =====
-- The nodes of all groups get names that are pairwise different.
use openwrt_sub_converter.Common.{
  ℕ, ◌≤◌, List, [], ◌∷◌, ◌++◌, Option, none, some, ◌≡◌, ◌⊎◌, refl, ◌∙◌, ap, arith, Bytes, All,
  length, Outcome, done, failed, fault, ◌>>=◌,
}
use openwrt_sub_converter.ConvBase64
use openwrt_sub_converter.ConvBase64.Suffixes.{IsFree, assign_unique_name-IsFree}
use openwrt_sub_converter.ConvBase64.Names.{HasUnusedName, HaveDistinctNames, weaken}
use openwrt_sub_converter.ConvBase64.{with_suffix}
use openwrt_sub_converter.ConvSingbox.{assign_unique_name, name_next, name_members}
use openwrt_sub_converter.Model.{ProxyNode}

-- A node with a new name, from a base, and nothing else changed.
pub record IsNamed (base : Bytes) (n r : ProxyNode) : Type 0 where
  pub name : Bytes
  pub node_is : r ≡ record n { name = some name }
  pub form : (name ≡ base) ⊎ ((j : ℕ) × (2 ≤ j) × (name ≡ with_suffix base j))

-- One for one, in order.
abbrev pub AreNamed : List Bytes → List ProxyNode → List ProxyNode → Type 0
AreNamed [] [] [] = Unit
AreNamed (base ∷ bases) (n ∷ nodes) (r ∷ out) = IsNamed base n r × AreNamed bases nodes out
AreNamed _ _ _ = ⊥

-- With a base for each node, every node gets a name; no name is used before, and no two are equal.
pub name_members_total :
    (used bases : List Bytes) (nodes : List ProxyNode)
    → length bases ≡ length nodes
    → (out : List ProxyNode) × (used' : List Bytes) × (name_members used bases nodes
        ≡ done (out, used'))
      × AreNamed bases nodes out
      × All (HasUnusedName used) out
      × HaveDistinctNames out
name_members_total used [] [] h = ([], used, (unfold name_members in refl), tt, tt, tt)
name_members_total used (base ∷ bases) [] h = absurd (omega arith)
name_members_total used [] (n ∷ nodes) h = absurd (omega arith)
name_members_total used (base ∷ bases) (n ∷ nodes) h =
    let (name, assigned, free) = assign_unique_name-IsFree used base in
    let (rest, used', done_rest, named, unused, distinct) =
      name_members_total (used ++ name ∷ []) bases nodes (omega arith) in
    let (others, apart) = weaken used name rest unused in
    (
      record n { name = some name } ∷ rest,
      used',
      step name rest used' assigned done_rest,
      (record { name = name; node_is = refl; form = (unfold IsFree in free.1) }, named),
      ((name, refl, (unfold IsFree in free.0)), others),
      (apart, distinct),
    )
  where
    step :
        (name : Bytes) (rest : List ProxyNode) (used' : List Bytes)
        → ConvBase64.assign_unique_name used base ≡ some (name, used ++ name ∷ [])
        → name_members (used ++ name ∷ []) bases nodes ≡ done (rest, used')
        → name_members used (base ∷ bases) (n ∷ nodes)
          ≡ done (record n { name = some name } ∷ rest, used')
    step name rest used' e k =
        unfold name_members in
        unfold assign_unique_name in
        rw e (ap (λ m. m >>= λ q. done (record n { name = some name } ∷ q.0, q.1)) k)

abbrev pub Named : Type 0
Named = List ProxyNode × List Bytes

abbrev pub front : ProxyNode → Named → Outcome Named
front x rest = done (x ∷ rest.0, rest.1)

-- A second run of names behind a first one.
abbrev pub behind : Named → (List Bytes → Outcome Named) → Outcome Named
behind r k = k r.1 >>= λ (q : Named). done (r.0 ++ q.0, q.1)

regroup :
    (x : ProxyNode) (m : Outcome Named) (k : List Bytes → Outcome Named)
    → ((m >>= λ (r : Named). behind r k) >>= front x)
      ≡ ((m >>= front x) >>= λ (r : Named). behind r k)
regroup x (done r) k = go (k r.1)
  where
    go :
        (o : Outcome Named)
        → ((o >>= λ (q : Named). done (r.0 ++ q.0, q.1)) >>= front x)
          ≡ (o >>= λ (q : Named). done (x ∷ (r.0 ++ q.0), q.1))
    go (done q) = refl
    go failed = refl
    go fault = refl
regroup x failed k = refl
regroup x fault k = refl

-- Naming two runs of nodes, one after the other.
pub name_members-append :
    (used bases bases' : List Bytes) (nodes nodes' : List ProxyNode)
    → length bases ≡ length nodes
    → name_members used (bases ++ bases') (nodes ++ nodes') ≡ (
        name_members used bases nodes >>= λ (r : Named).
        behind r (λ v. name_members v bases' nodes'))
unfolding name_members
name_members-append used [] bases' [] nodes' h = same (name_members used bases' nodes')
  where
    same : (o : Outcome Named) → o ≡ (o >>= λ (q : Named). done (q.0, q.1))
    same (done q) = refl
    same failed = refl
    same fault = refl
name_members-append used (base ∷ bases) bases' [] nodes' h = absurd (omega arith)
name_members-append used [] bases' (n ∷ nodes) nodes' h = absurd (omega arith)
name_members-append used (base ∷ bases) bases' (n ∷ nodes) nodes' h =
    let ih = λ (u : List Bytes). name_members-append u bases bases' nodes nodes' (omega arith) in
    go (assign_unique_name used base) ih
  where
    go :
        (o : Option (Bytes × List Bytes))
        → ((u : List Bytes)
            → name_members u (bases ++ bases') (nodes ++ nodes') ≡ (
                name_members u bases nodes >>= λ (r : Named).
                behind r (λ v. name_members v bases' nodes')))
        → name_next n o (λ u. name_members u (bases ++ bases') (nodes ++ nodes')) ≡ (
            name_next n o (λ u. name_members u bases nodes) >>= λ (r : Named).
            behind r (λ v. name_members v bases' nodes'))
    go none ih = refl
    go (some (name, u)) ih =
        ap (λ m. m >>= front (record n { name = some name })) (ih u)
        ∙ regroup (record n { name = some name }) (name_members u bases nodes)
            (λ v. name_members v bases' nodes')
