-- ===== src/Model/Apply/Fields.antt =====
-- `apply_query` as a whole: every field of the node that it leaves.
use openwrt_sub_converter.Common.{
  Bool, true, false, List, [], ◌∷◌, Option, none, some, ◌≡◌, inl, inr, refl, sym, ◌∙◌, ap, arith,
  Bytes, codes, equal, equal_iff, if◌then◌else◌, Bool-cases,
}
use openwrt_sub_converter.Model.Apply.Kept.{unwritten, apply_query-unwritten}
use openwrt_sub_converter.Model.Apply.Tables.{
  selected, securities, transport_of, tls_of, if_ws, if_ws-is_ws_transport,
  parse_transport-selected, parse_security-selected,
}
use openwrt_sub_converter.Model.Apply.Writes.{
  WritesOver, last_value, modes_keep, query_last, over_last, over_other, sni-Writes, fp-Writes,
  reality_pbk-Writes, reality_sid-Writes, alpn-Writes, grpc_service-Writes, xhttp_mode-Writes,
  ws_path-WritesOver, ws_host-WritesOver, xhttp_path-WritesOver, xhttp_host-WritesOver,
  apply_fields-transport, apply_fields-tls,
}
use openwrt_sub_converter.Model.Apply.{
  is_text, parse_security, is_ws_transport, apply_mode, apply_modes, apply_query,
}
use openwrt_sub_converter.Model.Query.{KvPair}
use openwrt_sub_converter.Model.{ProxyNode, NodeTransport, NodeTls}

transport_of-last :
    (k : Bytes) (pairs : List KvPair) (o : Option Bytes) (old : NodeTransport)
    → transport_of (last_value k pairs o) old
      ≡ transport_of (last_value k pairs none) (transport_of o old)
unfolding last_value transport_of
transport_of-last k [] none old = refl
transport_of-last k [] (some v) old = refl
transport_of-last k (kv ∷ pairs) o old = elim (Bool-cases (is_text kv.key k)) [
  | inl same ↦ rw same (
      transport_of-last k pairs (some kv.value) old
      ∙ sym (transport_of-last k pairs (some kv.value) (transport_of o old)))
  | inr differ ↦ rw differ (transport_of-last k pairs o old)
]

tls_of-last :
    (k : Bytes) (pairs : List KvPair) (o : Option Bytes) (old : NodeTls)
    → tls_of (last_value k pairs o) old ≡ tls_of (last_value k pairs none) (tls_of o old)
unfolding last_value tls_of
tls_of-last k [] none old = refl
tls_of-last k [] (some v) old = refl
tls_of-last k (kv ∷ pairs) o old = elim (Bool-cases (is_text kv.key k)) [
  | inl same ↦ rw same (
      tls_of-last k pairs (some kv.value) old
      ∙ sym (tls_of-last k pairs (some kv.value) (tls_of o old)))
  | inr differ ↦ rw differ (tls_of-last k pairs o old)
]

mode-transport :
    (n : ProxyNode) (kv : KvPair)
    → (apply_mode n kv).transport
      ≡ transport_of (if is_text kv.key (codes "type") then some kv.value else none) n.transport
unfolding apply_mode transport_of
mode-transport n kv = elim (Bool-cases (is_text kv.key (codes "type"))) [
  | inl same ↦ rw same (parse_transport-selected kv.value)
  | inr differ ↦ rw differ (ground arith)
]

mode-tls :
    (n : ProxyNode) (kv : KvPair)
    → (apply_mode n kv).tls
      ≡ tls_of (if is_text kv.key (codes "security") then some kv.value else none) n.tls
unfolding apply_mode tls_of
mode-tls n kv = elim (Bool-cases (is_text kv.key (codes "security"))) [
  | inl same ↦
      ap (λ key. (apply_mode n (record { key = key; value = kv.value })).tls)
        ((equal_iff kv.key (codes "security")).0 same)
      ∙ security_hit n kv.value
      ∙ parse_security-selected kv.value
      ∙ sym (chosen same)
  | inr differ ↦ rw differ (ground arith)
]
  where
    security_hit :
        (n : ProxyNode) (v : Bytes)
        → (apply_mode n (record { key = codes "security"; value = v })).tls ≡ parse_security v
    security_hit n v = unfold equal in refl

    chosen :
        is_text kv.key (codes "security") ≡ true
        → tls_of (if is_text kv.key (codes "security") then some kv.value else none) n.tls
          ≡ selected securities NodeTls.no_tls kv.value
    chosen same = rw same

modes-transport :
    (pairs : List KvPair) (n : ProxyNode)
    → (apply_modes n pairs).transport
      ≡ transport_of (last_value (codes "type") pairs none) n.transport
unfolding apply_modes
modes-transport [] n = unfold last_value transport_of in refl
modes-transport (kv ∷ pairs) n =
    modes-transport pairs (apply_mode n kv)
    ∙ ap (transport_of (last_value (codes "type") pairs none)) (mode-transport n kv)
    ∙ (unfold last_value in sym (transport_of-last (codes "type") pairs _ n.transport))

modes-tls :
    (pairs : List KvPair) (n : ProxyNode)
    → (apply_modes n pairs).tls ≡ tls_of (last_value (codes "security") pairs none) n.tls
unfolding apply_modes
modes-tls [] n = unfold last_value tls_of in refl
modes-tls (kv ∷ pairs) n =
    modes-tls pairs (apply_mode n kv)
    ∙ ap (tls_of (last_value (codes "security") pairs none)) (mode-tls n kv)
    ∙ (unfold last_value in sym (tls_of-last (codes "security") pairs _ n.tls))

-- A field for WebSocket after the second pass.
over_ws_field :
    (over_ws : Bool) {k : Bytes} {field : ProxyNode → Option Bytes}
    → WritesOver true k field
    → (pairs : List KvPair) (n : ProxyNode)
    → is_ws_transport (apply_modes n pairs).transport ≡ over_ws
    → field (apply_query pairs n) ≡ (if over_ws then last_value k pairs (field n) else field n)
unfolding apply_query
over_ws_field true {k} w pairs n h =
    over_last w pairs (apply_modes n pairs) h ∙ ap (last_value k pairs) (modes_keep w.mode pairs n)
over_ws_field false w pairs n h =
    over_other w pairs (apply_modes n pairs) h ∙ modes_keep w.mode pairs n

-- A field for the other transports.
over_other_field :
    (over_ws : Bool) {k : Bytes} {field : ProxyNode → Option Bytes}
    → WritesOver false k field
    → (pairs : List KvPair) (n : ProxyNode)
    → is_ws_transport (apply_modes n pairs).transport ≡ over_ws
    → field (apply_query pairs n) ≡ (if over_ws then field n else last_value k pairs (field n))
unfolding apply_query
over_other_field true w pairs n h =
    over_other w pairs (apply_modes n pairs) h ∙ modes_keep w.mode pairs n
over_other_field false {k} w pairs n h =
    over_last w pairs (apply_modes n pairs) h ∙ ap (last_value k pairs) (modes_keep w.mode pairs n)

-- The node that `apply_query` makes of `n`, field by field.
pub record IsApplied (pairs : List KvPair) (n r : ProxyNode) : Type 0 where
  pub transport : r.transport ≡ transport_of (last_value (codes "type") pairs none) n.transport
  pub tls : r.tls ≡ tls_of (last_value (codes "security") pairs none) n.tls
  pub ws_path : r.ws_path ≡ if_ws r.transport (last_value (codes "path") pairs n.ws_path) n.ws_path
  pub ws_host : r.ws_host ≡ if_ws r.transport (last_value (codes "host") pairs n.ws_host) n.ws_host
  pub xhttp_path :
      r.xhttp_path ≡ if_ws r.transport n.xhttp_path (last_value (codes "path") pairs n.xhttp_path)
  pub xhttp_host :
      r.xhttp_host ≡ if_ws r.transport n.xhttp_host (last_value (codes "host") pairs n.xhttp_host)
  pub xhttp_mode : r.xhttp_mode ≡ last_value (codes "mode") pairs n.xhttp_mode
  pub sni : r.sni ≡ last_value (codes "sni") pairs n.sni
  pub fp : r.fp ≡ last_value (codes "fp") pairs n.fp
  pub reality_pbk : r.reality_pbk ≡ last_value (codes "pbk") pairs n.reality_pbk
  pub reality_sid : r.reality_sid ≡ last_value (codes "sid") pairs n.reality_sid
  pub alpn : r.alpn ≡ last_value (codes "alpn") pairs n.alpn
  pub grpc_service : r.grpc_service ≡ last_value (codes "serviceName") pairs n.grpc_service
  pub others : unwritten r ≡ unwritten n

same_transport :
    (pairs : List KvPair) (n : ProxyNode)
    → (apply_query pairs n).transport ≡ (apply_modes n pairs).transport
unfolding apply_query
same_transport pairs n = apply_fields-transport pairs (apply_modes n pairs)

same_tls :
    (pairs : List KvPair) (n : ProxyNode) → (apply_query pairs n).tls ≡ (apply_modes n pairs).tls
unfolding apply_query
same_tls pairs n = apply_fields-tls pairs (apply_modes n pairs)

-- `apply_query` sets each field to the last value of its key, and leaves it where the key is
-- missing; the transport and the kind of TLS are those that the tables have for the last `type` and
-- `security`; `path` and `host` go to the WebSocket fields exactly if the transport is then
-- WebSocket, wherever `type` stands in the query, and to the other pair of fields otherwise; the
-- fields that no key is for are kept.
pub apply_query-IsApplied :
    (pairs : List KvPair) (n : ProxyNode) → IsApplied pairs n (apply_query pairs n)
apply_query-IsApplied pairs n = record {
  transport = same_transport pairs n ∙ modes-transport pairs n;
  tls = same_tls pairs n ∙ modes-tls pairs n;
  ws_path = over_ws_field ws ws_path-WritesOver pairs n same ∙ if_ws-is_ws_transport _ _ _;
  ws_host = over_ws_field ws ws_host-WritesOver pairs n same ∙ if_ws-is_ws_transport _ _ _;
  xhttp_path = over_other_field ws xhttp_path-WritesOver pairs n same ∙ if_ws-is_ws_transport _ _ _;
  xhttp_host = over_other_field ws xhttp_host-WritesOver pairs n same ∙ if_ws-is_ws_transport _ _ _;
  xhttp_mode = query_last xhttp_mode-Writes pairs n;
  sni = query_last sni-Writes pairs n;
  fp = query_last fp-Writes pairs n;
  reality_pbk = query_last reality_pbk-Writes pairs n;
  reality_sid = query_last reality_sid-Writes pairs n;
  alpn = query_last alpn-Writes pairs n;
  grpc_service = query_last grpc_service-Writes pairs n;
  others = apply_query-unwritten pairs n;
}
  where
    ws : Bool
    ws = is_ws_transport (apply_query pairs n).transport

    same : is_ws_transport (apply_modes n pairs).transport ≡ ws
    same = ap is_ws_transport (sym (same_transport pairs n))
