-- ===== src/ConvSingbox/Groups.antt =====
-- Naming group by group is naming all nodes in one run, since the groups tile the nodes.
use openwrt_sub_converter.Common.{
  ℕ, suc, ◌+◌, ◌-◌, ◌≤◌, true, false, List, [], ◌∷◌, ◌++◌, append_assoc, some, ◌≡◌, ◌≢◌, inl, inr,
  refl, sym, subst, ◌∙◌, ap, arith, Bytes, length, take, drop, length-append, length-take,
  length-drop, take-length-append, take-append-drop, drop-length-append, if◌then◌else◌, ◌==◌, leb,
  ==_iff, Bool-cases, Outcome, done, ◌>>=◌,
}
use mathlib.Core.List.{map}
use openwrt_sub_converter.ConvBase64.Names.{HaveDistinctNames}
use openwrt_sub_converter.ConvSingbox.Naming.{
  AreNamed, Named, behind, name_members-append, name_members_total,
}
use openwrt_sub_converter.ConvSingbox.Outbound.{or_empty}
use openwrt_sub_converter.ConvSingbox.Reading.{Tile}
use openwrt_sub_converter.ConvSingbox.{
  Meta, range, name_members, joined, group_bases, non_null, name_range, name_group, name_groups,
}
use openwrt_sub_converter.Model.{ProxyNode}

-- The base for the name of each node of a group.
abbrev pub member_bases : Meta → List Bytes → List Bytes
member_bases m tags =
    if m.count == 0
    then []
    else if m.count == 1
    then or_empty m.group_name ∷ []
    else map (joined (or_empty m.group_name)) tags

-- The bases for all nodes, from their tags.
pub bases_from : List Meta → List Bytes → List Bytes
bases_from [] tags = []
bases_from (m ∷ metas) tags =
    member_bases m (take m.count tags) ++ bases_from metas (drop m.count tags)

length-map {ℓ κ} :
    {A : Type ℓ} {B : Type κ} (f : A → B) (xs : List A) → length (map f xs) ≡ length xs
length-map f [] = refl
length-map f (x ∷ xs) = ap suc (length-map f xs)

length-member_bases :
    (m : Meta) (tags : List Bytes) → length tags ≡ m.count → length (member_bases m tags) ≡ m.count
length-member_bases m tags h = ground (arith, length-map (joined (or_empty m.group_name)) tags)

pub Tile-le : (k : ℕ) (metas : List Meta) (total : ℕ) → Tile k metas total → k ≤ total
Tile-le k [] total h = omega arith
Tile-le k (m ∷ metas) total h = omega (arith, Tile-le (k + m.count) metas total h.1)

length-bases_from :
    (k n : ℕ) (metas : List Meta) (tags : List Bytes)
    → Tile k metas (k + n)
    → length tags ≡ n
    → length (bases_from metas tags) ≡ n
unfolding bases_from
length-bases_from k n [] tags h e = omega arith
length-bases_from k n (m ∷ metas) tags h e =
    let le = Tile-le (k + m.count) metas (k + n) h.1 in
    let taken : length (take m.count tags) ≡ m.count = omega (arith, length-take m.count tags) in
    let total : k + n ≡ (k + m.count) + (n - m.count) = omega arith in
    omega (
      arith,
      length-append (member_bases m (take m.count tags)) (bases_from metas (drop m.count tags)),
      length-member_bases m (take m.count tags) taken,
      length-bases_from (k + m.count) (n - m.count) metas (drop m.count tags)
          (subst (Tile (k + m.count) metas) total h.1) (omega (arith, length-drop m.count tags)),
    )

pub length-AreNamed :
    (bases : List Bytes) (nodes out : List ProxyNode)
    → AreNamed bases nodes out
    → length out ≡ length nodes
length-AreNamed [] [] [] h = refl
length-AreNamed [] [] (r ∷ out) h = absurd h
length-AreNamed [] (n ∷ nodes) out h = absurd h
length-AreNamed (base ∷ bases) [] out h = absurd h
length-AreNamed (base ∷ bases) (n ∷ nodes) [] h = absurd h
length-AreNamed (base ∷ bases) (n ∷ nodes) (r ∷ out) h =
    ap suc (length-AreNamed bases nodes out h.1)

module _ {ℓ} {A : Type ℓ} (xs ys zs : List A) where
  length_two : length (xs ++ (ys ++ zs)) ≡ length xs + length ys + length zs
  length_two = omega (arith, length-append xs (ys ++ zs), length-append ys zs)

  pub range-append : range (xs ++ (ys ++ zs)) (length xs) (length ys) ≡ done ys
  unfolding range
  range-append =
      let test : leb (length xs + length ys) (length (xs ++ (ys ++ zs))) ≡ true =
        (let total = length_two in ground arith) in
      rw test (rw (drop-length-append xs (ys ++ zs)) (rw (take-length-append ys zs)))

  drop_two : drop (length xs + length ys) (xs ++ (ys ++ zs)) ≡ zs
  drop_two =
      ap (λ l. drop (length xs + length ys) l) (sym (append_assoc xs ys zs))
      ∙ ap (λ k. drop k ((xs ++ ys) ++ zs)) (sym (length-append xs ys))
      ∙ drop-length-append (xs ++ ys) zs

group_bases_lem :
    (m : Meta) (group : Bytes) (tags : List Bytes)
    → m.count ≢ 0
    → group_bases group m.count (done tags)
      ≡ done (member_bases (record m { group_name = some group }) tags)
unfolding group_bases
group_bases_lem m group tags ne = ground arith

name_range_lem :
    (group : Bytes) (m : Meta) (ta tg tb used : List Bytes) (a g b : List ProxyNode)
    → m.count ≢ 0
    → m.count ≡ length g
    → length ta ≡ length a
    → length tg ≡ length g
    → name_range group (length a) m.count (ta ++ (tg ++ tb)) used (a ++ (g ++ b)) ≡ (
        name_members used (member_bases (record m { group_name = some group }) tg) g
        >>= λ (r : Named). done (a ++ (r.0 ++ b), r.1))
unfolding name_range
name_range_lem group m ta tg tb used a g b ne count la lg =
    let members : range (a ++ (g ++ b)) (length a) m.count ≡ done g =
      ap (range (a ++ (g ++ b)) (length a)) count ∙ range-append a g b in
    let tags : range (ta ++ (tg ++ tb)) (length a) m.count ≡ done tg =
      ap (λ k. range (ta ++ (tg ++ tb)) k m.count) (sym la)
      ∙ ap (range (ta ++ (tg ++ tb)) (length ta)) (count ∙ sym lg)
      ∙ range-append ta tg tb in
    let behind_all : drop (length a + m.count) (a ++ (g ++ b)) ≡ b =
      ap (λ k. drop (length a + k) (a ++ (g ++ b))) count ∙ drop_two a g b in
    rw members (
      rw tags (
        rw (group_bases_lem m group tg ne)
          (rw (take-length-append a (g ++ b)) (rw behind_all refl))))

-- What one group does, its nodes standing between those in front of it and those behind it.
name_group_lem :
    (m : Meta) (group : Bytes) (ta tg tb used : List Bytes) (a g b : List ProxyNode)
    → m.count ≢ 0
    → m.first ≡ length a
    → m.count ≡ length g
    → m.group_name ≡ some group
    → length ta ≡ length a
    → length tg ≡ length g
    → name_group m (ta ++ (tg ++ tb)) used (a ++ (g ++ b))
      ≡ (name_members used (member_bases m tg) g >>= λ (r : Named). done (a ++ (r.0 ++ b), r.1))
name_group_lem m group ta tg tb used a g b ne first count name la lg =
    let test : (m.count == 0) ≡ false = ground arith in
    unfold name_group in
    (ap
        (λ t.
          if t
          then done (a ++ (g ++ b), used)
          else non_null m.group_name
              (λ s. name_range s m.first m.count (ta ++ (tg ++ tb)) used (a ++ (g ++ b))))
        test
      ∙ opened
      ∙ ap result same)
  where
    result : List Bytes → Outcome Named
    result bases = name_members used bases g >>= λ (r : Named). done (a ++ (r.0 ++ b), r.1)

    same : member_bases (record m { group_name = some group }) tg ≡ member_bases m tg
    same = ap (λ o. member_bases (record m { group_name = o }) tg) (sym name)

    opened :
        non_null m.group_name
          (λ s. name_range s m.first m.count (ta ++ (tg ++ tb)) used (a ++ (g ++ b)))
        ≡ result (member_bases (record m { group_name = some group }) tg)
    opened =
        ap
          (λ o.
            non_null o (λ s. name_range s m.first m.count (ta ++ (tg ++ tb)) used (a ++ (g ++ b))))
          name
        ∙ ap (λ k. name_range group k m.count (ta ++ (tg ++ tb)) used (a ++ (g ++ b))) first
        ∙ name_range_lem group m ta tg tb used a g b ne count la lg

-- A group without nodes changes nothing.
name_group_none :
    (m : Meta) (tags used : List Bytes) (nodes : List ProxyNode)
    → m.count ≡ 0
    → name_group m tags used nodes ≡ done (nodes, used)
unfolding name_group
name_group_none m tags used nodes h =
    let test : (m.count == 0) ≡ true = ground arith in rw test refl

-- What naming the groups leaves, behind the nodes that have their names.
record NamesFrom (metas : List Meta) (ta tags used : List Bytes) (a nodes : List ProxyNode)
    : Type 0 where
  out : List ProxyNode
  used' : List Bytes
  members : name_members used (bases_from metas tags) nodes ≡ done (out, used')
  groups : name_groups metas (ta ++ tags) used (a ++ nodes) ≡ done (a ++ out)

bases_from_none :
    (m : Meta) (metas : List Meta) (tags : List Bytes)
    → m.count ≡ 0
    → bases_from (m ∷ metas) tags ≡ bases_from metas tags
unfolding bases_from
bases_from_none m metas tags h =
    let first : member_bases m (take m.count tags) ≡ [] = ground arith in
    ap (λ l. l ++ bases_from metas (drop m.count tags)) first
    ∙ ap (λ k. bases_from metas (drop k tags)) h

bases_from_some :
    (m : Meta) (metas : List Meta) (tg tb : List Bytes)
    → m.count ≡ length tg
    → bases_from (m ∷ metas) (tg ++ tb) ≡ member_bases m tg ++ bases_from metas tb
unfolding bases_from
bases_from_some m metas tg tb h =
    ap (λ l. member_bases m l ++ bases_from metas (drop m.count (tg ++ tb)))
      (ap (λ k. take k (tg ++ tb)) h ∙ take-length-append tg tb)
    ∙ ap (λ l. member_bases m tg ++ bases_from metas l)
        (ap (λ k. drop k (tg ++ tb)) h ∙ drop-length-append tg tb)

run_none :
    (m : Meta) (metas : List Meta) (ta tags used : List Bytes) (a nodes : List ProxyNode)
    → m.count ≡ 0
    → NamesFrom metas ta tags used a nodes
    → NamesFrom (m ∷ metas) ta tags used a nodes
run_none m metas ta tags used a nodes h r = record {
  out = r.out;
  used' = r.used';
  members = ap (λ l. name_members used l nodes) (bases_from_none m metas tags h) ∙ r.members;
  groups =
      (unfold name_groups in
        (ap (λ o. o >>= λ (q : Named). name_groups metas (ta ++ tags) q.1 q.0)
            (name_group_none m (ta ++ tags) used (a ++ nodes) h)
          ∙ r.groups));
}

run_some :
    (m : Meta) (group : Bytes) (metas : List Meta) (ta tg tb used u : List Bytes)
    (a g b o : List ProxyNode)
    → m.count ≢ 0
    → m.first ≡ length a
    → m.count ≡ length g
    → m.group_name ≡ some group
    → length ta ≡ length a
    → length tg ≡ length g
    → name_members used (member_bases m tg) g ≡ done (o, u)
    → NamesFrom metas (ta ++ tg) tb u (a ++ o) b
    → NamesFrom (m ∷ metas) ta (tg ++ tb) used a (g ++ b)
run_some m group metas ta tg tb used u a g b o ne first count name la lg e r = record {
  out = o ++ r.out;
  used' = r.used';
  members =
      ap (λ l. name_members used l (g ++ b)) (bases_from_some m metas tg tb (count ∙ sym lg))
      ∙ name_members-append used (member_bases m tg) (bases_from metas tb) g b
          (length-member_bases m tg (lg ∙ sym count) ∙ count)
      ∙ ap (λ w. w >>= λ (q : Named). behind q (λ v. name_members v (bases_from metas tb) b)) e
      ∙ ap (λ w. w >>= λ (q : Named). done (o ++ q.0, q.1)) r.members;
  groups =
      (unfold name_groups in
        (ap (λ w. w >>= λ (q : Named). name_groups metas (ta ++ (tg ++ tb)) q.1 q.0)
            (name_group_lem m group ta tg tb used a g b ne first count name la lg
              ∙ ap (λ w. w >>= λ (q : Named). done (a ++ (q.0 ++ b), q.1)) e)
          ∙ ap (λ l. name_groups metas l u (a ++ (o ++ b))) (sym (append_assoc ta tg tb))
          ∙ ap (λ l. name_groups metas ((ta ++ tg) ++ tb) u l) (sym (append_assoc a o b))
          ∙ r.groups
          ∙ ap done (append_assoc a o r.out)));
}

name_groups-run :
    (metas : List Meta) (ta tags used : List Bytes) (a nodes : List ProxyNode)
    → Tile (length a) metas (length a + length nodes)
    → length ta ≡ length a
    → length tags ≡ length nodes
    → NamesFrom metas ta tags used a nodes
name_groups-run [] ta tags used a [] h la lt = record {
  out = [];
  used' = used;
  members = (unfold bases_from name_members in refl);
  groups = (unfold name_groups in refl);
}
name_groups-run [] ta tags used a (n ∷ nodes) h la lt = absurd (omega arith)
name_groups-run (m ∷ metas) ta tags used a nodes h la lt =
    let ih =
      λ (ta' tags' used' : List Bytes) (a' nodes' : List ProxyNode)
          (t : Tile (length a') metas (length a' + length nodes')) (p : length ta' ≡ length a')
          (q : length tags' ≡ length nodes').
        name_groups-run metas ta' tags' used' a' nodes' t p q in
    elim (Bool-cases (m.count == 0)) [
      | inl none_left ↦
          let z : m.count ≡ 0 = (==_iff m.count 0).0 none_left in
          run_none m metas ta tags used a nodes z (
            ih ta tags used a nodes
              (subst (λ k. Tile k metas (length a + length nodes)) (plus_zero z) h.1) la lt)
      | inr more ↦ some_left (λ z. absurd (ground arith)) ih
    ]
  where
    plus_zero : m.count ≡ 0 → length a + m.count ≡ length a
    plus_zero z = omega arith

    g : List ProxyNode
    g = take m.count nodes

    b : List ProxyNode
    b = drop m.count nodes

    tg : List Bytes
    tg = take m.count tags

    tb : List Bytes
    tb = drop m.count tags

    some_left :
        m.count ≢ 0
        → ((ta' tags' used' : List Bytes) (a' nodes' : List ProxyNode)
            → Tile (length a') metas (length a' + length nodes')
            → length ta' ≡ length a'
            → length tags' ≡ length nodes'
            → NamesFrom metas ta' tags' used' a' nodes')
        → NamesFrom (m ∷ metas) ta tags used a nodes
    some_left ne ih =
        let (first, (group, name)) = h.0 ne in
        let le = Tile-le (length a + m.count) metas (length a + length nodes) h.1 in
        let count : m.count ≡ length g = omega (arith, length-take m.count nodes) in
        let tagged : length tg ≡ length g =
          omega (arith, length-take m.count tags, length-take m.count nodes) in
        let (o, u, e, named, unused, distinct) =
          name_members_total used (member_bases m tg) g
            (length-member_bases m tg (tagged ∙ sym count) ∙ count) in
        let same = length-AreNamed (member_bases m tg) g o named in
        let front_length : length a + m.count ≡ length (a ++ o) =
          omega (arith, length-append a o) in
        let whole : length a + length nodes ≡ length (a ++ o) + length b =
          omega (arith, length-append a o, length-drop m.count nodes) in
        let r = run_some m group metas ta tg tb used u a g b o ne first count name la tagged e (
          ih (ta ++ tg) tb u (a ++ o) b
            (subst (Tile (length (a ++ o)) metas) whole
              (subst (λ k. Tile k metas (length a + length nodes)) front_length h.1))
            (omega (arith, length-append ta tg, length-append a o))
            (omega (arith, length-drop m.count tags, length-drop m.count nodes))) in
        subst (λ l. NamesFrom (m ∷ metas) ta l used a nodes) (take-append-drop m.count tags)
          (subst (λ l. NamesFrom (m ∷ metas) ta (tg ++ tb) used a l)
            (take-append-drop m.count nodes) r)

done_injective : (x y : Named) → ◌≡◌ {A = Outcome Named} (done x) (done y) → x ≡ y
done_injective x y h = cc

-- When the groups tile the nodes and each node has a tag, the loop that names the nodes succeeds:
-- every node keeps all but its name, which is the base that its group gives it or that with a
-- suffix from 2 on, and no two nodes of all groups have one name.
pub name_groups_total :
    (metas : List Meta) (tags : List Bytes) (nodes : List ProxyNode)
    → Tile 0 metas (length nodes)
    → length tags ≡ length nodes
    → (out : List ProxyNode) × (name_groups metas tags [] nodes ≡ done out)
      × AreNamed (bases_from metas tags) nodes out
      × HaveDistinctNames out
name_groups_total metas tags nodes tile tagged =
    let whole : length nodes ≡ 0 + length nodes = omega arith in
    let tile' = subst (Tile 0 metas) whole tile in
    let r = name_groups-run metas [] tags [] [] nodes tile' refl tagged in
    let (out, used', e, named, unused, distinct) =
      name_members_total [] (bases_from metas tags) nodes
        (length-bases_from 0 (length nodes) metas tags tile' tagged) in
    (out, r.groups ∙ ap done (same out used' r e), named, distinct)
  where
    same :
        (out : List ProxyNode) (used' : List Bytes)
        → (r : NamesFrom metas [] tags [] [] nodes)
        → name_members [] (bases_from metas tags) nodes ≡ done (out, used')
        → r.out ≡ out
    same out used' r e =
        ap (λ q. q.0) (done_injective (r.out, r.used') (out, used') (sym r.members ∙ e))
