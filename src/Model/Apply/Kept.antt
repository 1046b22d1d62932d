-- ===== src/Model/Apply/Kept.antt =====
-- What `apply_query` does not touch.
use openwrt_sub_converter.Common.{List, [], ◌∷◌, Option, ◌≡◌, refl, ◌∙◌, arith, Bytes}
use openwrt_sub_converter.Libc.{ℤ}
use openwrt_sub_converter.Model.Apply.{
  apply_mode, apply_modes, apply_field, apply_fields, apply_query,
}
use openwrt_sub_converter.Model.Query.{KvPair}
use openwrt_sub_converter.Model.{ProxyNode, NodeType}

-- The fields that no key of a query is for.
abbrev pub unwritten :
    ProxyNode
    → (NodeType × Option Bytes × Option Bytes × ℤ)
      × (Option Bytes × Option Bytes × Option Bytes × ℤ × ℤ)
      × (Option Bytes × Option Bytes)
unwritten n = (
  (n.type, n.name, n.server, n.port),
  (n.uuid, n.password, n.cipher, n.alter_id, n.udp),
  (n.plugin, n.plugin_opts),
)

apply_mode-unwritten : (n : ProxyNode) (kv : KvPair) → unwritten (apply_mode n kv) ≡ unwritten n
unfolding apply_mode
apply_mode-unwritten n kv = ground arith

apply_field-unwritten : (n : ProxyNode) (kv : KvPair) → unwritten (apply_field n kv) ≡ unwritten n
unfolding apply_field
apply_field-unwritten n kv = ground arith

apply_modes-unwritten :
    (pairs : List KvPair) (n : ProxyNode) → unwritten (apply_modes n pairs) ≡ unwritten n
unfolding apply_modes
apply_modes-unwritten [] n = refl
apply_modes-unwritten (kv ∷ pairs) n =
    apply_modes-unwritten pairs (apply_mode n kv) ∙ apply_mode-unwritten n kv

apply_fields-unwritten :
    (pairs : List KvPair) (n : ProxyNode) → unwritten (apply_fields n pairs) ≡ unwritten n
unfolding apply_fields
apply_fields-unwritten [] n = refl
apply_fields-unwritten (kv ∷ pairs) n =
    apply_fields-unwritten pairs (apply_field n kv) ∙ apply_field-unwritten n kv

pub apply_query-unwritten :
    (pairs : List KvPair) (n : ProxyNode) → unwritten (apply_query pairs n) ≡ unwritten n
unfolding apply_query
apply_query-unwritten pairs n =
    apply_fields-unwritten pairs (apply_modes n pairs) ∙ apply_modes-unwritten pairs n
