-- ===== src/Model/Share/Address.antt =====
-- The address of a node, and that no query changes it.
use openwrt_sub_converter.Common.{ℕ, List, [], ◌∷◌, some, ◌≡◌, refl, ◌∙◌, arith, Bytes, Lacks}
use openwrt_sub_converter.Libc.{pos}
use openwrt_sub_converter.Model.Apply.{
  apply_mode, apply_modes, apply_field, apply_fields, apply_query, apply_plugin, apply_ss_query,
}
use openwrt_sub_converter.Model.HostPort.Bounds.{IsPort}
use openwrt_sub_converter.Model.Query.{KvPair}
use openwrt_sub_converter.Model.{ProxyNode, NodeType}

-- The type, a server that is a C string, a port between 1 and 65535, and UDP switched on.
pub record HasAddress (t : NodeType) (n : ProxyNode) : Type 0 where
  pub type_is : n.type ≡ t
  pub server : Bytes
  pub server_is : n.server ≡ some server
  pub server_text : Lacks 0 server
  pub port : ℕ
  pub port_is : n.port ≡ pos port
  pub port_range : IsPort port
  pub udp_is : n.udp ≡ pos 1

-- Such a node with a name.
pub record IsShared (t : NodeType) (n : ProxyNode) : Type 0 where
  pub address : HasAddress t n
  pub name : Bytes
  pub name_is : n.name ≡ some name

-- The fields that no query changes.
abbrev pub SameAddress : ProxyNode → ProxyNode → Type 0
SameAddress n r = (r.type ≡ n.type) × (r.server ≡ n.server) × (r.port ≡ n.port) × (r.udp ≡ n.udp)

pub HasAddress-same :
    {t : NodeType} {n : ProxyNode} (r : ProxyNode)
    → HasAddress t n
    → SameAddress n r
    → HasAddress t r
HasAddress-same r h (a, b, c, d) = record {
  type_is = a ∙ h.type_is;
  server = h.server;
  server_is = b ∙ h.server_is;
  server_text = h.server_text;
  port = h.port;
  port_is = c ∙ h.port_is;
  port_range = h.port_range;
  udp_is = d ∙ h.udp_is;
}

mode_same : (n : ProxyNode) (kv : KvPair) → SameAddress n (apply_mode n kv)
unfolding apply_mode
mode_same n kv = ground arith

field_same : (n : ProxyNode) (kv : KvPair) → SameAddress n (apply_field n kv)
unfolding apply_field
field_same n kv = ground arith

plugin_same : (n : ProxyNode) (kv : KvPair) → SameAddress n (apply_plugin n kv)
unfolding apply_plugin
plugin_same n kv = ground arith

SameAddress-trans : (a b c : ProxyNode) → SameAddress a b → SameAddress b c → SameAddress a c
SameAddress-trans a b c (p, q, r, s) (p', q', r', s') = (p' ∙ p, q' ∙ q, r' ∙ r, s' ∙ s)

modes_same : (n : ProxyNode) (pairs : List KvPair) → SameAddress n (apply_modes n pairs)
unfolding apply_modes
modes_same n [] = (refl, refl, refl, refl)
modes_same n (kv ∷ pairs) =
    SameAddress-trans n (apply_mode n kv) (apply_modes (apply_mode n kv) pairs) (mode_same n kv)
      (modes_same (apply_mode n kv) pairs)

fields_same : (n : ProxyNode) (pairs : List KvPair) → SameAddress n (apply_fields n pairs)
unfolding apply_fields
fields_same n [] = (refl, refl, refl, refl)
fields_same n (kv ∷ pairs) =
    SameAddress-trans n (apply_field n kv) (apply_fields (apply_field n kv) pairs) (field_same n kv)
      (fields_same (apply_field n kv) pairs)

pub query_same : (pairs : List KvPair) (n : ProxyNode) → SameAddress n (apply_query pairs n)
unfolding apply_query
query_same pairs n =
    SameAddress-trans n (apply_modes n pairs) (apply_fields (apply_modes n pairs) pairs)
      (modes_same n pairs) (fields_same (apply_modes n pairs) pairs)

pub ss_query_same : (pairs : List KvPair) (n : ProxyNode) → SameAddress n (apply_ss_query pairs n)
unfolding apply_ss_query
ss_query_same [] n = (refl, refl, refl, refl)
ss_query_same (kv ∷ pairs) n =
    SameAddress-trans n (apply_plugin n kv) (apply_ss_query pairs (apply_plugin n kv))
      (plugin_same n kv) (ss_query_same pairs (apply_plugin n kv))
