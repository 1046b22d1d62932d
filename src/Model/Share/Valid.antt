-- ===== src/Model/Share/Valid.antt =====
-- What every node has that a parser of model.c returns.
use openwrt_sub_converter.Common.{
  ◌^◌, ℕ, ◌+◌, ◌-◌, Bool, true, false, List, ◌∷◌, ◌++◌, Option, none, some, ◌≡◌, inl, inr, refl,
  arith, Bytes, length, take, drop, if◌then◌else◌, ◌==◌, ltb, Bool-cases, Outcome, done, failed,
  fault, Returns, Returns->>=,
}
use openwrt_sub_converter.Base64.{base64_decode_url}
use openwrt_sub_converter.Buffer.{contents, dup_data}
use openwrt_sub_converter.Libc.{pos, format_int}
use openwrt_sub_converter.Model.Apply.{apply_query, apply_ss_query}
use openwrt_sub_converter.Model.HostPort.Bounds.{IsHostPort, parse_host_port-Returns}
use openwrt_sub_converter.Model.HostPort.{parse_host_port}
use openwrt_sub_converter.Model.Links.{
  parse_vless_like, parse_ss, vless_at, start_node, set_credential, apply_link_query, sub_size,
  find_before, SsParts, read_parts, ss_parts, ss_encoded, split_encoded, parse_method_pass,
  find_last,
}
use openwrt_sub_converter.Model.Name.{
  set_name, copy_formatted, set_name_fallback, name_from_fragment, name_or_fallback,
}
use openwrt_sub_converter.Model.Query.{KvPair, slice, parse_query}
use openwrt_sub_converter.Model.Share.Address.{
  HasAddress, IsShared, SameAddress, HasAddress-same, query_same, ss_query_same,
}
use openwrt_sub_converter.Model.{ProxyNode, NodeType}
use openwrt_sub_converter.Url.{url_decode}

pub Returns-any : {A : Type 0} (o : Outcome A) → Returns (λ _. Unit {0}) o
Returns-any (done a) = tt
Returns-any failed = tt
Returns-any fault = tt

pub if-Returns :
    {A : Type 0} (P : A → Type 0) (b : Bool) (x y : Outcome A)
    → Returns P x
    → Returns P y
    → Returns P (if b then x else y)
if-Returns P true x y h k = h
if-Returns P false x y h k = k

link_query-Returns :
    (t : NodeType) (apply : List KvPair → ProxyNode → ProxyNode) (s : Bytes) (query frag : ℕ)
    (n : ProxyNode)
    → ((pairs : List KvPair) (n : ProxyNode) → SameAddress n (apply pairs n))
    → HasAddress t n
    → Returns (HasAddress t) (apply_link_query apply s query frag n)
unfolding apply_link_query
link_query-Returns t apply s query frag n same h = elim (Bool-cases (ltb query frag)) [
  | inr none_left ↦ rw none_left h
  | inl present ↦ rw present (
      Returns->>= (λ _. Unit {0}) (HasAddress t)
        (parse_query (slice s (query + 1) (frag - query - 1))) _ (Returns-any _)
        λ pairs _. HasAddress-same (apply pairs n) h (same pairs n))
]

-- A name does not touch the address.
pub named :
    (t : NodeType) (n : ProxyNode) (name : Bytes)
    → HasAddress t n
    → IsShared t (record n { name = some name })
named t n name h = record {
  address = HasAddress-same (record n { name = some name }) h (refl, refl, refl, refl);
  name = name;
  name_is = refl;
}

copy_formatted-Returns :
    (t : NodeType) (n : ProxyNode) (text : Bytes)
    → HasAddress t n
    → Returns (IsShared t) (copy_formatted text n)
unfolding copy_formatted
copy_formatted-Returns t n text h = elim (Bool-cases (ltb (length text) (2 ^ 31))) [
  | inl e ↦ rw e (named t n text h)
  | inr e ↦ rw e tt
]

pub fallback-Returns :
    (t : NodeType) (n : ProxyNode) → HasAddress t n → Returns (IsShared t) (set_name_fallback n)
unfolding set_name_fallback
fallback-Returns t n h = go n.server
  where
    go :
        (o : Option Bytes)
        → Returns (IsShared t) (elim o [
          | none ↦ fault
          | some server ↦ copy_formatted (server ++ b':' ∷ format_int n.port) n
        ])
    go none = tt
    go (some server) = copy_formatted-Returns t n (server ++ b':' ∷ format_int n.port) h

set_name-Returns :
    (t : NodeType) (s : Bytes) (frag : ℕ) (n : ProxyNode)
    → HasAddress t n
    → Returns (IsShared t) (set_name s frag n)
unfolding set_name
set_name-Returns t s frag n h = go (name_from_fragment s frag)
  where
    go : (o : Outcome Bytes) → Returns (IsShared t) (name_or_fallback o n)
    go (done name) = named t n name h
    go failed = fallback-Returns t n h
    go fault = tt

vless_node :
    (type : NodeType) (text : Bytes) (n : ProxyNode) (address : Bytes × ℕ)
    → IsHostPort address
    → HasAddress type (record (set_credential type text (start_node type n)) {
      server = some address.0;
      port = pos address.1;
    })
vless_node type text n address ok = record {
  type_is = typed type;
  server = address.0;
  server_is = refl;
  server_text = ok.1;
  port = address.1;
  port_is = refl;
  port_range = ok.0;
  udp_is = with_udp type;
}
  where
    typed : (type : NodeType) → (set_credential type text (start_node type n)).type ≡ type
    typed type = unfold set_credential start_node in ground arith

    with_udp : (type : NodeType) → (set_credential type text (start_node type n)).udp ≡ pos 1
    with_udp type = unfold set_credential start_node in ground arith

vless_at-Returns :
    (s : Bytes) (type : NodeType) (n : ProxyNode) (frag query at : ℕ)
    → Returns (IsShared type) (vless_at s type n frag query at)
unfolding vless_at
vless_at-Returns s type n frag query at =
    Returns->>= (λ _. Unit {0}) (IsShared type) (url_decode (take at s) none) _ (Returns-any _)
      λ sb _.
        Returns->>= (λ _. Unit {0}) (IsShared type) (dup_data sb) _ (Returns-any _)
          λ text _.
            Returns->>= IsHostPort (IsShared type) _ _
              (parse_host_port-Returns (drop (at + 1) s)
                (sub_size (if ltb query frag then query else frag) (at + 1)))
              λ address ok.
                Returns->>= (HasAddress type) (IsShared type) _ _
                  (link_query-Returns type apply_query s query frag _ query_same
                    (vless_node type text n address ok))
                  λ n'' h. set_name-Returns type s frag n'' h

-- A node that `parse_vless_like` returns has the type it was asked for, an address and a name.
pub parse_vless_like-IsShared :
    (s : Bytes) (type : NodeType) (n : ProxyNode)
    → Returns (IsShared type) (parse_vless_like s type n)
unfolding parse_vless_like
parse_vless_like-IsShared s type n =
    if-Returns (IsShared type) (find_before b'@' s query (length s) == length s) _ _ tt
      (vless_at-Returns s type n frag query (find_before b'@' s query (length s)))
  where
    frag : ℕ
    frag = find_before b'#' s (length s) (length s)

    query : ℕ
    query = find_before b'?' s frag (length s)

-- The server and the port of the parts of an `ss` link.
IsPartsOk : SsParts → Type 0
IsPartsOk p = IsHostPort (p.server, p.port)

read_parts-Returns :
    (credentials mem : Bytes) (len : ℕ) → Returns IsPartsOk (read_parts credentials mem len)
unfolding read_parts IsPartsOk
read_parts-Returns credentials mem len =
    Returns->>= (λ _. Unit {0}) IsPartsOk (parse_method_pass credentials) _ (Returns-any _)
      λ m _.
        Returns->>= IsHostPort IsPartsOk (parse_host_port mem len) _
          (parse_host_port-Returns mem len) λ a ok. ok

split-Returns : (d : Bytes) (o : Option ℕ) → Returns IsPartsOk (split_encoded d o)
unfolding split_encoded
split-Returns d none = tt
split-Returns d (some at) =
    if-Returns IsPartsOk (at == 0) _ _ tt
      (read_parts-Returns (take at d) (drop (at + 1) d) (length d - at - 1))

ss_parts-Returns : (s : Bytes) (at limit : ℕ) → Returns IsPartsOk (ss_parts s at limit)
unfolding ss_parts ss_encoded
ss_parts-Returns s at limit =
    if-Returns IsPartsOk (ltb at (length s)) _ _
      (read_parts-Returns (take at s) (drop (at + 1) s) (limit - at - 1))
      (Returns->>= (λ _. Unit {0}) IsPartsOk (base64_decode_url (take limit s) none) _
        (Returns-any _) λ sb _. split-Returns (contents sb) (find_last b'@' (contents sb) 0 none))

-- A node that `parse_ss` returns is a Shadowsocks node with an address and a name.
pub parse_ss-IsShared :
    (s : Bytes) (n : ProxyNode) → Returns (IsShared NodeType.shadowsocks) (parse_ss s n)
unfolding parse_ss
parse_ss-IsShared s n =
    Returns->>= IsPartsOk (IsShared NodeType.shadowsocks) (ss_parts s at limit) _
      (ss_parts-Returns s at limit)
      λ p ok.
        Returns->>= (HasAddress NodeType.shadowsocks) (IsShared NodeType.shadowsocks) _ _
          (link_query-Returns NodeType.shadowsocks apply_ss_query s query frag _ ss_query_same
            (record {
              type_is = refl;
              server = p.server;
              server_is = refl;
              server_text = (unfold IsPartsOk in ok.1);
              port = p.port;
              port_is = refl;
              port_range = (unfold IsPartsOk in ok.0);
              udp_is = refl;
            }))
          λ n'' h. set_name-Returns NodeType.shadowsocks s frag n'' h
  where
    frag : ℕ
    frag = find_before b'#' s (length s) (length s)

    query : ℕ
    query = find_before b'?' s frag (length s)

    limit : ℕ
    limit = if ltb query frag then query else frag

    at : ℕ
    at = find_before b'@' s limit (length s)
