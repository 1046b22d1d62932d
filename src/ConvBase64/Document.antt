-- ===== src/ConvBase64/Document.antt =====
-- Every subscription with a link in it becomes a document.
use openwrt_sub_converter.Common.{
  List, [], ◌∷◌, none, some, ◌≡◌, ◌≢◌, inl, inr, refl, sym, subst, ◌∙◌, ap, Bytes, All, codes,
  length, take, Bool-cases, Outcome, done, failed, fault, ◌>>=◌, Returns, Returns-done,
}
use openwrt_sub_converter.Buffer.{Buffer, dup_data}
use openwrt_sub_converter.ConvBase64.Names.{IsRenamed, assign_names_total}
use openwrt_sub_converter.ConvBase64.{
  line_blank, split_lines, push_node, source_text, collect_nodes, emit_nodes, emit_groups,
  write_document, write_named, convert_nodes, conv_base64_run,
}
use openwrt_sub_converter.Model.Json.{JsonC}
use openwrt_sub_converter.Model.Share.Scheme.{IsLinkNode, link_scheme, node_parse_share-IsLinkNode}
use openwrt_sub_converter.Model.Share.{node_parse_share, trim_crlf}
use openwrt_sub_converter.Model.{ProxyNode, NodeType}
use openwrt_sub_converter.NodeEmit.{emit_type, node_emit_yaml}
use openwrt_sub_converter.Yaml.Emit.{yaml_emit_kv, yaml_emit_dash}

-- The types that `node_emit_yaml` writes.
abbrev IsEmitted : NodeType → Type 0
IsEmitted NodeType.vless = Unit
IsEmitted NodeType.vmess = Unit
IsEmitted NodeType.shadowsocks = Unit
IsEmitted NodeType.trojan = Unit
IsEmitted _ = ⊥

link-IsEmitted : (t : NodeType) (s : Bytes) → link_scheme t ≡ some s → IsEmitted t
unfolding link_scheme
link-IsEmitted NodeType.vless s h = tt
link-IsEmitted NodeType.vmess s h = tt
link-IsEmitted NodeType.shadowsocks s h = tt
link-IsEmitted NodeType.trojan s h = tt
link-IsEmitted NodeType.unknown s h = cc
link-IsEmitted NodeType.socks5 s h = cc
link-IsEmitted NodeType.http_proxy s h = cc
link-IsEmitted NodeType.hysteria2 s h = cc

node-IsEmitted : (line : Bytes) (n : ProxyNode) → IsLinkNode line n → IsEmitted n.type
node-IsEmitted line n h =
    subst IsEmitted (sym h.node.address.type_is) (link-IsEmitted h.type h.scheme h.scheme_is)

emit_type-done :
    (t : NodeType) (out : Buffer) (n : ProxyNode)
    → IsEmitted t
    → (r : Buffer) × (emit_type t out n ≡ done r)
unfolding emit_type
emit_type-done NodeType.vless out n h = (_, refl)
emit_type-done NodeType.vmess out n h = (_, refl)
emit_type-done NodeType.shadowsocks out n h = (_, refl)
emit_type-done NodeType.trojan out n h = (_, refl)
emit_type-done NodeType.unknown out n h = absurd h
emit_type-done NodeType.socks5 out n h = absurd h
emit_type-done NodeType.http_proxy out n h = absurd h
emit_type-done NodeType.hysteria2 out n h = absurd h

emit_nodes-done :
    (nodes : List ProxyNode) (out : Buffer)
    → All (λ n. IsEmitted n.type) nodes
    → (r : Buffer) × (emit_nodes out nodes ≡ done r)
unfolding emit_nodes node_emit_yaml
emit_nodes-done [] out h = (out, refl)
emit_nodes-done (n ∷ nodes) out (h, hs) =
    let (out', e) = emit_type-done n.type out n h in
    let (r, e') = emit_nodes-done nodes out' hs in
    (r, ap (λ m. m >>= λ b. emit_nodes b nodes) e ∙ e')

write_document-done :
    (nodes : List ProxyNode)
    → All (λ n. IsEmitted n.type) nodes
    → (doc : Bytes) × (write_document nodes ≡ done doc)
unfolding write_document emit_groups yaml_emit_dash
write_document-done nodes h =
    let (r, e) = emit_nodes-done nodes (yaml_emit_kv none 0 (codes "proxies") none) h in
    (_, ap (λ m. m >>= λ b. dup_data (emit_groups b nodes)) e)

renamed-IsEmitted :
    (nodes out : List ProxyNode)
    → IsRenamed nodes out
    → All (λ n. IsEmitted n.type) nodes
    → All (λ n. IsEmitted n.type) out
renamed-IsEmitted [] [] r h = tt
renamed-IsEmitted [] (q ∷ out) r h = absurd r
renamed-IsEmitted (n ∷ nodes) [] r h = absurd r
renamed-IsEmitted (n ∷ nodes) (q ∷ out) (r, rs) (h, hs) =
    (subst (λ p. IsEmitted p.type) (sym r.node_is) h, renamed-IsEmitted nodes out rs hs)

module _ (lib : JsonC) where
  push_node-Returns :
      (o : Outcome ProxyNode) (rest : Outcome (List ProxyNode))
      → Returns (λ n. IsEmitted n.type) o
      → Returns (All (λ n. IsEmitted n.type)) rest
      → Returns (All (λ n. IsEmitted n.type)) (push_node o rest)
  unfolding push_node
  push_node-Returns (done n) (done nodes) h k = (h, k)
  push_node-Returns (done n) failed h k = tt
  push_node-Returns (done n) fault h k = tt
  push_node-Returns failed rest h k = k
  push_node-Returns fault rest h k = tt

  parsed-IsEmitted :
      (line : Bytes) (o : Outcome ProxyNode)
      → node_parse_share lib line ≡ o
      → Returns (λ n. IsEmitted n.type) o
  parsed-IsEmitted line (done n) e =
      node-IsEmitted (take (trim_crlf line (length line)) line) n
        (node_parse_share-IsLinkNode lib line e)
  parsed-IsEmitted line failed e = tt
  parsed-IsEmitted line fault e = tt

  collect_nodes-IsEmitted :
      (lines : List Bytes) → Returns (All (λ n. IsEmitted n.type)) (collect_nodes lib lines)
  unfolding collect_nodes
  collect_nodes-IsEmitted [] = tt
  collect_nodes-IsEmitted (line ∷ lines) = elim (Bool-cases (line_blank line)) [
    | inl blank ↦ rw blank (collect_nodes-IsEmitted lines)
    | inr text ↦ rw text (
        push_node-Returns (node_parse_share lib line) (collect_nodes lib lines)
          (parsed-IsEmitted line _ refl) (collect_nodes-IsEmitted lines))
  ]

  convert_nodes-done :
      (nodes : List ProxyNode)
      → All (λ n. IsEmitted n.type) nodes
      → nodes ≢ []
      → (doc : Bytes) × (convert_nodes nodes ≡ done doc)
  unfolding convert_nodes write_named
  convert_nodes-done [] h ne = absurd (ne refl)
  convert_nodes-done (n ∷ nodes) h ne =
      let (out, e, renamed, unused, distinct) = assign_names_total [] (n ∷ nodes) in
      let (doc, e') = write_document-done out (renamed-IsEmitted (n ∷ nodes) out renamed h) in
      (doc, ap write_named e ∙ e')

  -- When the text of the data has lines that parse to one node or more, with no fault on the way,
  -- the conversion succeeds with a document: naming, emitting and copying cannot fail then.
  pub conv_base64_run_total :
      (data_bytes text : Bytes) (nodes : List ProxyNode)
      → source_text data_bytes ≡ done text
      → collect_nodes lib (split_lines [] text) ≡ done nodes
      → nodes ≢ []
      → (doc : Bytes) × (conv_base64_run lib data_bytes ≡ done doc)
  unfolding conv_base64_run
  conv_base64_run_total data_bytes text nodes e e' ne =
      let (doc, h) =
        convert_nodes-done nodes (Returns-done _ (collect_nodes-IsEmitted (split_lines [] text)) e')
          ne in
      (
        doc,
        ap (λ m. m >>= λ t. collect_nodes lib (split_lines [] t) >>= convert_nodes) e
            ∙ (ap (λ m. m >>= convert_nodes) e' ∙ h),
      )
