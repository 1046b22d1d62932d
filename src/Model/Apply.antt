-- ===== src/Model/Apply.antt =====
-- `apply_query` and `apply_ss_query` of sub-converter/src/model.c: two passes over the pairs, the
-- transport and the security first, for the fields of the second pass depend on the transport.
pub mod Writes
pub mod Kept
pub mod Tables
pub mod Fields
use openwrt_sub_converter.Common.{
  ℕ, zero, suc, ◌+◌, ◌-◌, ◌*◌, ◌/◌, ◌%◌, ◌^◌, ◌<◌, ◌≤◌, Bool, true, false, not, ◌&&◌, ◌||◌, List,
  [], ◌∷◌, ◌++◌, append_assoc, append-nil, Option, none, some, ◌≡◌, ◌≢◌, ◌↔◌, ◌⊎◌, inl, inr, refl,
  sym, subst, fun_ext, ◌∙◌, ap, arith, Bytes, IsBytes, Lacks, All, All-append, codes, get_or,
  length, take, drop, length-append, length-take, length-drop, take-length-append, take-length,
  drop_behind, drop-length-append, replicate, length-replicate, equal, equal_iff, c_str,
  c_str-Lacks, Lacks-c_str, is_space, is_digit, if◌then◌else◌, ◌==◌, ltb, leb, ==_iff, Bool-cases,
  Option-cases, all_below, all_below_sound, all_below_sound₂, Outcome, done, failed, fault, ◌>>=◌,
  ◌>>◌, >>=-eq-done, >>=-ne-fault, Returns, Ensures, Returns->>=, Ensures->>=, Returns-done,
  Ensures-ne-fault, Returns-Ensures,
}
use openwrt_sub_converter.Model.{ProxyNode, NodeTransport, NodeTls}
use openwrt_sub_converter.Model.Query.{KvPair}

-- strcmp(s, literal) == 0
abbrev pub is_text : Bytes → Bytes → Bool
is_text s t = equal s t

unfoldable pub parse_transport : Bytes → NodeTransport
parse_transport v =
    if is_text v (codes "ws")
    then NodeTransport.ws
    else if is_text v (codes "xhttp")
    then NodeTransport.xhttp
    else if is_text v (codes "grpc")
    then NodeTransport.grpc
    else if is_text v (codes "http") || is_text v (codes "h2")
    then NodeTransport.http
    else NodeTransport.plain

unfoldable pub parse_security : Bytes → NodeTls
parse_security v =
    if is_text v (codes "tls")
    then NodeTls.tls
    else if is_text v (codes "reality")
    then NodeTls.reality
    else NodeTls.no_tls

unfoldable pub is_ws_transport : NodeTransport → Bool
is_ws_transport NodeTransport.ws = true
is_ws_transport _ = false

unfoldable pub apply_mode : ProxyNode → KvPair → ProxyNode
apply_mode n kv =
    if is_text kv.key (codes "type")
    then record n { transport = parse_transport kv.value }
    else if is_text kv.key (codes "security")
    then record n { tls = parse_security kv.value }
    else n

unfoldable pub apply_modes : ProxyNode → List KvPair → ProxyNode
unfolding apply_mode
apply_modes n [] = n
apply_modes n (kv ∷ pairs) = apply_modes (apply_mode n kv) pairs

unfoldable pub apply_field : ProxyNode → KvPair → ProxyNode
unfolding is_ws_transport
apply_field n kv =
    if is_text kv.key (codes "path")
    then if is_ws_transport n.transport
      then record n { ws_path = some kv.value }
      else record n { xhttp_path = some kv.value }
    else if is_text kv.key (codes "host")
    then if is_ws_transport n.transport
      then record n { ws_host = some kv.value }
      else record n { xhttp_host = some kv.value }
    else if is_text kv.key (codes "mode")
    then record n { xhttp_mode = some kv.value }
    else if is_text kv.key (codes "sni")
    then record n { sni = some kv.value }
    else if is_text kv.key (codes "fp")
    then record n { fp = some kv.value }
    else if is_text kv.key (codes "pbk")
    then record n { reality_pbk = some kv.value }
    else if is_text kv.key (codes "sid")
    then record n { reality_sid = some kv.value }
    else if is_text kv.key (codes "alpn")
    then record n { alpn = some kv.value }
    else if is_text kv.key (codes "serviceName")
    then record n { grpc_service = some kv.value }
    else n

unfoldable pub apply_fields : ProxyNode → List KvPair → ProxyNode
unfolding apply_field
apply_fields n [] = n
apply_fields n (kv ∷ pairs) = apply_fields (apply_field n kv) pairs

unfoldable pub apply_query : List KvPair → ProxyNode → ProxyNode
unfolding apply_modes apply_fields
apply_query pairs n = apply_fields (apply_modes n pairs) pairs

unfoldable pub apply_plugin : ProxyNode → KvPair → ProxyNode
apply_plugin n kv =
    if is_text kv.key (codes "plugin")
    then record n { plugin = some kv.value }
    else if is_text kv.key (codes "plugin-opts") || is_text kv.key (codes "pluginOpts")
    then record n { plugin_opts = some kv.value }
    else n

unfoldable pub apply_ss_query : List KvPair → ProxyNode → ProxyNode
unfolding apply_plugin
apply_ss_query [] n = n
apply_ss_query (kv ∷ pairs) n = apply_ss_query pairs (apply_plugin n kv)
