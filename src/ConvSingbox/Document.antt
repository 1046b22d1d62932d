-- ===== src/ConvSingbox/Document.antt =====
-- The conversion never reads through NULL or outside its arrays.
use openwrt_sub_converter.Common.{
  ℕ, zero, suc, ◌+◌, ◌≤◌, Bool, true, false, List, [], ◌∷◌, Option, none, some, ◌≡◌, ◌≢◌, inl, inr,
  refl, sym, subst, ◌∙◌, ap, arith, Bytes, All, codes, length, take, drop, if◌then◌else◌, ◌==◌, leb,
  Bool-cases, Outcome, done, failed, fault, ◌>>=◌, guard, Ensures, Ensures->>=, Returns-done,
  Ensures-ne-fault, Returns-Ensures,
}
use openwrt_sub_converter.Buffer.{Buffer, dup_data}
use openwrt_sub_converter.ConvBase64.Names.{HaveDistinctNames}
use openwrt_sub_converter.ConvSingbox.Groups.{
  Tile-le, length-AreNamed, bases_from, name_groups_total,
}
use openwrt_sub_converter.ConvSingbox.Naming.{AreNamed}
use openwrt_sub_converter.ConvSingbox.Reading.{IsFound, Tile, IsAllRead, read_elems-IsAllRead}
use openwrt_sub_converter.ConvSingbox.{
  Meta, Found, non_null, items, read_elems, range, emitted_or, emit_proxies, emit_members,
  emit_balancer, emit_named_group, emit_group, emit_groups, emit_group_names, write_document,
  convert_found, convert_root, conv_singbox_run, emit_group_head,
}
use openwrt_sub_converter.Model.Json.{JsonC, jsonx_parse, jsonx_is_array}
use openwrt_sub_converter.Model.{ProxyNode, NodeType}
use openwrt_sub_converter.NodeEmit.{node_emit_yaml, emit_type}
use openwrt_sub_converter.Yaml.Emit.{yaml_emit_kv, yaml_emit_dash}

abbrev HasName : ProxyNode → Type 0
HasName n = (name : Bytes) × (n.name ≡ some name)

AreNamed-HasName :
    (bases : List Bytes) (nodes out : List ProxyNode) → AreNamed bases nodes out → All HasName out
AreNamed-HasName [] [] [] h = tt
AreNamed-HasName [] [] (r ∷ out) h = absurd h
AreNamed-HasName [] (n ∷ nodes) out h = absurd h
AreNamed-HasName (base ∷ bases) [] out h = absurd h
AreNamed-HasName (base ∷ bases) (n ∷ nodes) [] h = absurd h
AreNamed-HasName (base ∷ bases) (n ∷ nodes) (r ∷ out) (h, hs) =
    ((h.name, ap (λ q. q.name) h.node_is), AreNamed-HasName bases nodes out hs)

emitted_or-done :
    (t : NodeType) (out : Buffer) (n : ProxyNode)
    → (r : Buffer) × (emitted_or (emit_type t out n) out ≡ done r)
unfolding emit_type emitted_or
emitted_or-done NodeType.vless out n = (_, refl)
emitted_or-done NodeType.vmess out n = (_, refl)
emitted_or-done NodeType.shadowsocks out n = (_, refl)
emitted_or-done NodeType.trojan out n = (_, refl)
emitted_or-done NodeType.unknown out n = (_, refl)
emitted_or-done NodeType.socks5 out n = (_, refl)
emitted_or-done NodeType.http_proxy out n = (_, refl)
emitted_or-done NodeType.hysteria2 out n = (_, refl)

emit_proxies-done :
    (nodes : List ProxyNode) (out : Buffer) → (r : Buffer) × (emit_proxies out nodes ≡ done r)
unfolding emit_proxies node_emit_yaml
emit_proxies-done [] out = (out, refl)
emit_proxies-done (n ∷ nodes) out =
    let (out', e) = emitted_or-done n.type out n in
    let (r, e') = emit_proxies-done nodes out' in
    (r, ap (λ o. o >>= λ b. emit_proxies b nodes) e ∙ e')

emit_members-done :
    (nodes : List ProxyNode) (out : Buffer)
    → All HasName nodes
    → (r : Buffer) × (emit_members out nodes ≡ done r)
unfolding emit_members
emit_members-done [] out h = (out, refl)
emit_members-done (n ∷ nodes) out ((name, e), hs) =
    let (r, e') = emit_members-done nodes (yaml_emit_dash out 6 name) hs in
    (
      r,
      ap (λ o. non_null o (λ s. done (yaml_emit_dash out 6 s)) >>= λ b. emit_members b nodes) e
          ∙ e',
    )

emit_balancer-done :
    (sb : Buffer) (group : Bytes) (tag : Option Bytes) (members : List ProxyNode)
    → All HasName members
    → (r : Buffer) × (emit_balancer sb group tag members ≡ done r)
unfolding emit_balancer
emit_balancer-done sb group none members h = (sb, refl)
emit_balancer-done sb group (some tag) members h = emit_members-done members _ h

emit_named_group-done :
    (sb : Buffer) (group : Bytes) (tag : Option Bytes) (members : List ProxyNode)
    → All HasName members
    → (r : Buffer) × (emit_named_group sb group tag members ≡ done r)
unfolding emit_named_group
emit_named_group-done sb group tag members h =
    let (listed, e) = emit_members-done members _ h in
    let (r, e') =
      emit_balancer-done (yaml_emit_dash listed 6 (codes "DIRECT")) group tag members h in
    (
      r,
      ap (λ o. o >>= λ l. emit_balancer (yaml_emit_dash l 6 (codes "DIRECT")) group tag members) e
          ∙ e',
    )

All-take {ℓ} : {A : Type ℓ} (P : A → Type 0) (k : ℕ) (xs : List A) → All P xs → All P (take k xs)
All-take P zero xs h = tt
All-take P (suc k) [] h = tt
All-take P (suc k) (x ∷ xs) (h, hs) = (h, All-take P k xs hs)

All-drop {ℓ} : {A : Type ℓ} (P : A → Type 0) (k : ℕ) (xs : List A) → All P xs → All P (drop k xs)
All-drop P zero xs h = h
All-drop P (suc k) [] h = tt
All-drop P (suc k) (x ∷ xs) (h, hs) = All-drop P k xs hs

module _ (nodes : List ProxyNode) (named : All HasName nodes) where
  range-done :
      (first count : ℕ)
      → first + count ≤ length nodes
      → range nodes first count ≡ done (take count (drop first nodes))
  unfolding range
  range-done first count h =
      let test : leb (first + count) (length nodes) ≡ true = ground arith in rw test refl

  emit_group-done :
      (sb : Buffer) (m : Meta)
      → (m.count ≢ 0
          → (m.first + m.count ≤ length nodes) × ((group : Bytes) × (m.group_name ≡ some group)))
      → (r : Buffer) × (emit_group sb nodes m ≡ done r)
  emit_group-done sb m h = elim (Bool-cases (m.count == 0)) [
    | inl z ↦ (sb, (unfold emit_group in rw z refl))
    | inr more ↦
        let (inside, (group, name)) = h (ground arith) in
        let members = take m.count (drop m.first nodes) in
        let (r, e) =
          emit_named_group-done sb group m.balancer_tag members (
            All-take HasName m.count (drop m.first nodes) (All-drop HasName m.first nodes named)) in
        (r, opened group name inside r more e)
  ]
    where
      rest : Bytes → Outcome Buffer
      rest group = range nodes m.first m.count >>= λ members.
          emit_named_group sb group m.balancer_tag members

      opened :
          (group : Bytes)
          → m.group_name ≡ some group
          → m.first + m.count ≤ length nodes
          → (r : Buffer) → (m.count == 0) ≡ false
          → emit_named_group sb group m.balancer_tag (take m.count (drop m.first nodes)) ≡ done r
          → emit_group sb nodes m ≡ done r
      opened group name inside r more e =
          unfold emit_group in
          (ap (λ t. if t then done sb else non_null m.group_name rest) more
            ∙ ap (λ o. non_null o rest) name
            ∙ ap (λ o. o >>= λ members. emit_named_group sb group m.balancer_tag members)
                (range-done m.first m.count inside)
            ∙ e)

  emit_groups-done :
      (metas : List Meta) (k : ℕ) (sb : Buffer)
      → Tile k metas (length nodes)
      → (r : Buffer) × (emit_groups sb nodes metas ≡ done r)
  unfolding emit_groups
  emit_groups-done [] k sb h = (sb, refl)
  emit_groups-done (m ∷ metas) k sb h =
      let le = Tile-le (k + m.count) metas (length nodes) h.1 in
      let (sb', e) =
        emit_group-done sb m
          (λ ne. let (first, name) = h.0 ne in (omega (arith, le, first), name)) in
      let (r, e') = emit_groups-done metas (k + m.count) sb' h.1 in
      (r, ap (λ o. o >>= λ b. emit_groups b nodes metas) e ∙ e')

emit_group_names-done :
    (metas : List Meta) (k total : ℕ) (sb : Buffer)
    → Tile k metas total
    → (r : Buffer) × (emit_group_names sb metas ≡ done r)
unfolding emit_group_names
emit_group_names-done [] k total sb h = (sb, refl)
emit_group_names-done (m ∷ metas) k total sb h =
    let ih = λ (b : Buffer). emit_group_names-done metas (k + m.count) total b h.1 in
    elim (Bool-cases (m.count == 0)) [
      | inl z ↦ let (r, e) = ih sb in (r, rw z e)
      | inr more ↦
          let (first, (group, name)) = h.0 (ground arith) in
          let (r, e) = ih (yaml_emit_dash sb 6 group) in
          (
            r,
            ap
                  (λ t. (if t then done sb else non_null m.group_name listed) >>= λ b.
                    emit_group_names b metas)
                  more
                ∙ ap (λ o. non_null o listed >>= λ b. emit_group_names b metas) name
                ∙ e,
          )
    ]
  where
    listed : Bytes → Outcome Buffer
    listed name = done (yaml_emit_dash sb 6 name)

dup_data-dash :
    (names : Buffer)
    → (doc : Bytes) × (dup_data (yaml_emit_dash names 6 (codes "DIRECT")) ≡ done doc)
unfolding yaml_emit_dash
dup_data-dash names = (_, refl)

write_document-done :
    (metas : List Meta) (nodes : List ProxyNode)
    → All HasName nodes
    → Tile 0 metas (length nodes)
    → (doc : Bytes) × (write_document metas nodes ≡ done doc)
unfolding write_document
write_document-done metas nodes named tile =
    let (sb, e) = emit_proxies-done nodes (yaml_emit_kv none 0 (codes "proxies") none) in
    let (groups, e') =
      emit_groups-done nodes named metas 0 (yaml_emit_kv sb 0 (codes "proxy-groups") none) tile in
    let (names, e'') =
      emit_group_names-done metas 0 (length nodes)
        (yaml_emit_kv (emit_group_head groups (codes "PROXY") (codes "select")) 4 (codes "proxies")
          none)
        tile in
    let (doc, d) = dup_data-dash names in (doc, rw e (rw e' (rw e'' d)))

-- What is written for the nodes and groups of a configuration.
pub record IsConverted (metas : List Meta) (st : Found) (doc : Bytes) : Type 0 where
  pub nodes : List ProxyNode
  pub named : AreNamed (bases_from metas st.tags) st.nodes nodes
  pub distinct : HaveDistinctNames nodes
  pub written : write_document metas nodes ≡ done doc

convert_found-done :
    (metas : List Meta) (st : Found)
    → IsFound st
    → Tile 0 metas (length st.nodes)
    → (length st.nodes == 0) ≡ false
    → (doc : Bytes) × IsConverted metas st doc × (convert_found metas st ≡ done doc)
unfolding convert_found
convert_found-done metas st found tile some_nodes =
    let (out, e, named, distinct) = name_groups_total metas st.tags st.nodes tile found.tagged in
    let same = length-AreNamed (bases_from metas st.tags) st.nodes out named in
    let (doc, e') =
      write_document-done metas out (AreNamed-HasName (bases_from metas st.tags) st.nodes out named)
        (subst (Tile 0 metas) (sym same) tile) in
    (
      doc,
      record { nodes = out; named = named; distinct = distinct; written = e' },
      rw some_nodes (rw e e'),
    )

convert_found-Ensures :
    (metas : List Meta) (st : Found)
    → IsFound st
    → Tile 0 metas (length st.nodes)
    → Ensures (λ _. Unit {0}) (convert_found metas st)
convert_found-Ensures metas st found tile = elim (Bool-cases (length st.nodes == 0)) [
  | inl z ↦ subst (Ensures (λ _. Unit {0})) (sym (no_nodes z)) tt
  | inr more ↦
      let (doc, _, e) = convert_found-done metas st found tile more in
      subst (Ensures (λ _. Unit {0})) (sym e) tt
]
  where
    no_nodes : (length st.nodes == 0) ≡ true → convert_found metas st ≡ failed
    no_nodes z = unfold convert_found in rw z refl

no_nodes-IsFound : IsFound (record { nodes = []; tags = [] })
no_nodes-IsFound = record { types = tt; tagged = refl }

module _ (lib : JsonC) where
  open lib use {Json}

  elems-Ensures :
      (root : Option Json)
      → Ensures
          (λ _. Unit {0})
          (read_elems lib (items lib root) (record { nodes = []; tags = [] }) >>= λ r.
            convert_found r.0 r.1)
  elems-Ensures root =
      Ensures->>= (IsAllRead (record { nodes = []; tags = [] })) (λ _. Unit {0})
        (read_elems lib (items lib root) (record { nodes = []; tags = [] }))
        (λ r. convert_found r.0 r.1)
        (read_elems-IsAllRead lib (items lib root) (record { nodes = []; tags = [] })
          no_nodes-IsFound)
        λ r h. convert_found-Ensures r.0 r.1 h.0 h.2

  convert_root-Ensures : (root : Option Json) → Ensures (λ _. Unit {0}) (convert_root lib root)
  unfolding convert_root
  convert_root-Ensures root = go (jsonx_is_array lib root)
    where
      go :
          (b : Bool)
          → Ensures
              (λ _. Unit {0})
              (guard b >>= λ _.
                read_elems lib (items lib root) (record { nodes = []; tags = [] }) >>= λ r.
                convert_found r.0 r.1)
      go true = elems-Ensures root
      go false = tt

  -- Whatever the data and whatever the JSON library makes of them, the conversion reads nothing
  -- through NULL and nothing outside its arrays, and the search for names ends.
  pub conv_singbox_run-ne-fault : (data_bytes : Bytes) → conv_singbox_run lib data_bytes ≢ fault
  unfolding conv_singbox_run
  conv_singbox_run-ne-fault data_bytes =
      Ensures-ne-fault (λ _. Unit {0}) (convert_root lib (jsonx_parse lib (some data_bytes)))
        (convert_root-Ensures (jsonx_parse lib (some data_bytes)))

  -- When the data are a JSON array whose elements hold an outbound that parses, the conversion
  -- succeeds: each node keeps all but its name, which is the base that its group gives it or that
  -- with a suffix from 2 on, no two nodes have one name, and the document is written for them.
  pub conv_singbox_run_total :
      (data_bytes : Bytes) (root : Option Json) (metas : List Meta) (st : Found)
      → jsonx_parse lib (some data_bytes) ≡ root
      → jsonx_is_array lib root ≡ true
      → read_elems lib (items lib root) (record { nodes = []; tags = [] }) ≡ done (metas, st)
      → st.nodes ≢ []
      → (doc : Bytes) × IsConverted metas st doc × (conv_singbox_run lib data_bytes ≡ done doc)
  unfolding conv_singbox_run convert_root
  conv_singbox_run_total data_bytes root metas st parsed array e ne =
      let read =
        read_elems-IsAllRead lib (items lib root) (record { nodes = []; tags = [] })
          no_nodes-IsFound in
      let (found, _, tile) =
        Returns-done (IsAllRead (record { nodes = []; tags = [] }))
          (Returns-Ensures (IsAllRead (record { nodes = []; tags = [] })) _ read) e in
      let (doc, converted, e') = convert_found-done metas st found tile (nonempty st.nodes ne) in
      (
        doc,
        converted,
        ap (convert_root lib) parsed
            ∙ ap guarded array
            ∙ ap (λ o. o >>= λ r. convert_found r.0 r.1) e
            ∙ e',
      )
    where
      guarded : Bool → Outcome Bytes
      guarded b = guard b >>= λ _.
          read_elems lib (items lib root) (record { nodes = []; tags = [] }) >>= λ r.
          convert_found r.0 r.1

      nonempty : (xs : List ProxyNode) → xs ≢ [] → (length xs == 0) ≡ false
      nonempty [] h = absurd (h refl)
      nonempty (x ∷ xs) h = ground arith
