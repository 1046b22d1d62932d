-- ===== src/Model/Share/Scheme.antt =====
-- What every node has that `node_parse_share` returns.
use mathlib.Core.Option.{some-injective}
use openwrt_sub_converter.Common.{
  ℕ, Bool, true, false, ◌&&◌, ◌++◌, Option, none, some, ◌≡◌, inl, inr, refl, sym, subst, ◌∙◌, ap,
  arith, Bytes, Lacks, codes, length, take, drop, take-append-drop, equal_iff, c_str, Lacks-c_str,
  if◌then◌else◌, ltb, Bool-cases, Outcome, done, failed, fault, Returns, Returns->>=, Returns-done,
}
use openwrt_sub_converter.Base64.{base64_decode}
use openwrt_sub_converter.Libc.{ℤ, pos, negsuc}
use openwrt_sub_converter.Model.HostPort.Bounds.{IsPort}
use openwrt_sub_converter.Model.Json.{
  JsonC, JsonType, jsonx_get_string, jsonx_parse, jsonx_str, string_of,
}
use openwrt_sub_converter.Model.Links.{find_before}
use openwrt_sub_converter.Model.Share.Address.{HasAddress, IsShared, HasAddress-same}
use openwrt_sub_converter.Model.Share.Valid.{
  Returns-any, if-Returns, named, fallback-Returns, parse_vless_like-IsShared, parse_ss-IsShared,
}
use openwrt_sub_converter.Model.Share.{node_parse_share, parse_scheme, prefix_match, trim_crlf}
use openwrt_sub_converter.Model.Vmess.{
  parse_vmess, parse_vmess_json, vmess_fields, vmess_options, vmess_name, vmess_port,
  read_vmess_port, json_int_field, decoded_or_raw, text_field, or_old,
}
use openwrt_sub_converter.Model.{ProxyNode, NodeType, node_init}
use openwrt_sub_converter.Url.{url_decode}

vmess_name-Returns :
    (o : Option Bytes) (n : ProxyNode)
    → HasAddress NodeType.vmess n
    → Returns (IsShared NodeType.vmess) (vmess_name o n)
unfolding vmess_name
vmess_name-Returns none n h = fallback-Returns NodeType.vmess n h
vmess_name-Returns (some ps) n h =
    Returns->>= (λ _. Unit {0}) (IsShared NodeType.vmess) (decoded_or_raw (url_decode ps none) ps) _
      (Returns-any _) λ name _. named NodeType.vmess n name h

vmess_port-IsPort : (v : ℤ) {p : ℕ} → vmess_port v ≡ some p → IsPort p
unfolding vmess_port
vmess_port-IsPort (pos n) h = ground arith
vmess_port-IsPort (negsuc n) h = cc

or_old-Lacks :
    (o : Option Bytes)
    → ((s : Bytes) → o ≡ some s → Lacks 0 s)
    → (s : Bytes) → or_old o none ≡ some s
    → Lacks 0 s
unfolding or_old
or_old-Lacks none h s e = cc
or_old-Lacks (some t) h s e = h s e

prefix_match_sound :
    (line scheme : Bytes)
    → prefix_match line scheme ≡ true
    → line ≡ scheme ++ drop (length scheme) line
unfolding prefix_match
prefix_match_sound line scheme h =
    let same = (equal_iff (take (length scheme) line) scheme).0 (second _ _ h) in
    sym (take-append-drop (length scheme) line) ∙ ap (λ t. t ++ drop (length scheme) line) same
  where
    second : (a b : Bool) → (a && b) ≡ true → b ≡ true
    second true b h = h
    second false b h = cc

-- The text in front of a link of the type, for the types that have links.
unfoldable pub link_scheme : NodeType → Option Bytes
link_scheme NodeType.vless = some (codes "vless://")
link_scheme NodeType.trojan = some (codes "trojan://")
link_scheme NodeType.vmess = some (codes "vmess://")
link_scheme NodeType.shadowsocks = some (codes "ss://")
link_scheme _ = none

-- A node whose type is that of the scheme that the line starts with.
pub record IsLinkNode (line : Bytes) (n : ProxyNode) : Type 0 where
  pub type : NodeType
  pub scheme : Bytes
  pub rest : Bytes
  pub scheme_is : link_scheme type ≡ some scheme
  pub line_is : line ≡ scheme ++ rest
  pub node : IsShared type n

link_node :
    (line scheme : Bytes) (t : NodeType) (n : ProxyNode)
    → link_scheme t ≡ some scheme
    → prefix_match line scheme ≡ true
    → IsShared t n
    → IsLinkNode line n
link_node line scheme t n e h node = record {
  type = t;
  scheme = scheme;
  rest = drop (length scheme) line;
  scheme_is = e;
  line_is = prefix_match_sound line scheme h;
  node = node;
}

Returns-map :
    {A : Type 0} (P Q : A → Type 0) (o : Outcome A)
    → ((a : A) → P a → Q a)
    → Returns P o
    → Returns Q o
Returns-map P Q (done a) f h = f a h
Returns-map P Q failed f h = tt
Returns-map P Q fault f h = tt

module _ (lib : JsonC) where
  open lib use {Json}

  read_vmess_port-IsPort : (obj : Json) {p : ℕ} → read_vmess_port lib obj ≡ some p → IsPort p
  unfolding read_vmess_port
  read_vmess_port-IsPort obj h = go (json_int_field lib obj (codes "port")) h
    where
      go :
          (o : Option ℤ) {p : ℕ}
          → elim o [ none ↦ vmess_port (negsuc 0) | some iv ↦ vmess_port iv ] ≡ some p
          → IsPort p
      go none h = vmess_port-IsPort (negsuc 0) h
      go (some iv) h = vmess_port-IsPort iv h

  get_string-Lacks :
      (obj : Json) (key : Bytes) (s : Bytes) → jsonx_get_string lib obj key ≡ some s → Lacks 0 s
  unfolding jsonx_get_string string_of jsonx_str
  get_string-Lacks obj key s h = go (lib.get_ex obj key) h
    where
      go : (o : Option Json) → string_of lib o ≡ some s → Lacks 0 s
      go none h = cc
      go (some v) h = pick (lib.is_type v JsonType.string) h
        where
          pick :
              (b : Bool)
              → (if b then some (c_str (lib.get_string v)) else none) ≡ some s
              → Lacks 0 s
          pick true e =
              subst (Lacks 0) (some-injective (c_str (lib.get_string v)) s e)
                (Lacks-c_str (lib.get_string v))
          pick false e = cc

  fields-Returns :
      (obj : Json) (o : Option Bytes) (p : Option ℕ) (n : ProxyNode)
      → ((s : Bytes) → o ≡ some s → Lacks 0 s)
      → ((q : ℕ) → p ≡ some q → IsPort q)
      → Returns (IsShared NodeType.vmess) (vmess_fields lib obj o p n)
  unfolding vmess_fields vmess_options
  fields-Returns obj none p n hs hp = tt
  fields-Returns obj (some server) none n hs hp = tt
  fields-Returns obj (some server) (some port) n hs hp =
      vmess_name-Returns (text_field lib obj (codes "ps")) _ (record {
        type_is = refl;
        server = server;
        server_is = refl;
        server_text = hs server refl;
        port = port;
        port_is = refl;
        port_range = hp port refl;
        udp_is = refl;
      })

  vmess_json-Returns :
      (s : Bytes) → Returns (IsShared NodeType.vmess) (parse_vmess_json lib s node_init)
  unfolding parse_vmess_json
  vmess_json-Returns s =
      Returns->>= (λ _. Unit {0}) (IsShared NodeType.vmess) (base64_decode s none) _ (Returns-any _)
        λ sb _. go (jsonx_parse lib sb)
    where
      go :
          (o : Option Json)
          → Returns (IsShared NodeType.vmess) (elim o [
            | none ↦ failed
            | some obj ↦
                vmess_fields lib obj
                  (or_old (jsonx_get_string lib obj (codes "add")) none)
                  (read_vmess_port lib obj)
                  node_init
          ])
      go none = tt
      go (some obj) =
          fields-Returns obj (or_old (jsonx_get_string lib obj (codes "add")) none)
            (read_vmess_port lib obj) node_init
            (or_old-Lacks (jsonx_get_string lib obj (codes "add"))
              (get_string-Lacks obj (codes "add")))
            (λ q e. read_vmess_port-IsPort obj e)

  vmess-Returns : (s : Bytes) → Returns (IsShared NodeType.vmess) (parse_vmess lib s node_init)
  unfolding parse_vmess
  vmess-Returns s =
      if-Returns (IsShared NodeType.vmess)
        (ltb (find_before b'@' s (find_before b'#' s (length s) (length s)) (length s)) (length s))
        _ _
        (Returns->>= (IsShared NodeType.vmess) (IsShared NodeType.vmess) _ _
          (parse_vless_like-IsShared s NodeType.vmess node_init) λ n' h. with_cipher n' h)
        (vmess_json-Returns (take (find_before b'#' s (length s) (length s)) s))
    where
      with_cipher :
          (n : ProxyNode)
          → IsShared NodeType.vmess n
          → IsShared NodeType.vmess (record n { cipher = some (codes "auto") })
      with_cipher n h = record {
        address =
            HasAddress-same (record n { cipher = some (codes "auto") }) h.address
              (refl, refl, refl, refl);
        name = h.name;
        name_is = h.name_is;
      }

  -- One test of the scheme.
  scheme-Returns :
      (line scheme : Bytes) (t : NodeType) (o rest : Outcome ProxyNode)
      → link_scheme t ≡ some scheme
      → Returns (IsShared t) o
      → Returns (IsLinkNode line) rest
      → Returns (IsLinkNode line) (if prefix_match line scheme then o else rest)
  scheme-Returns line scheme t o rest e h k = elim (Bool-cases (prefix_match line scheme)) [
    | inl hit ↦
        rw hit
          (Returns-map (IsShared t) (IsLinkNode line) o (λ n. link_node line scheme t n e hit) h)
    | inr miss ↦ rw miss k
  ]

  scheme_chain : (line : Bytes) → Returns (IsLinkNode line) (parse_scheme lib line)
  unfolding parse_scheme link_scheme
  scheme_chain line =
      scheme-Returns line (codes "vless://") NodeType.vless _ _ refl
        (parse_vless_like-IsShared (drop 8 line) NodeType.vless node_init)
        (scheme-Returns line (codes "trojan://") NodeType.trojan _ _ refl
          (parse_vless_like-IsShared (drop 9 line) NodeType.trojan node_init)
          (scheme-Returns line (codes "vmess://") NodeType.vmess _ _ refl
            (vmess-Returns (drop 8 line))
            (scheme-Returns line (codes "ss://") NodeType.shadowsocks _ _ refl
              (parse_ss-IsShared (drop 5 line) node_init) tt)))

  -- A line that is accepted starts with one of the four schemes, and the node has the type of that
  -- scheme, a server that is a C string, a port between 1 and 65535, UDP switched on and a name,
  -- whatever the JSON library does.
  pub node_parse_share-IsLinkNode :
      (line : Bytes) {n : ProxyNode}
      → node_parse_share lib line ≡ done n
      → IsLinkNode (take (trim_crlf line (length line)) line) n
  unfolding node_parse_share
  node_parse_share-IsLinkNode line h =
      let trimmed = take (trim_crlf line (length line)) line in
      Returns-done (IsLinkNode trimmed) (scheme_chain trimmed) h
