-- ===== src/Model/Apply/Writes.antt =====
-- What `apply_query` leaves in each field, described with no loop over the node: the last value of
-- the field's key.
use openwrt_sub_converter.Common.{
  Bool, true, false, not, List, [], ◌∷◌, Option, some, ◌≡◌, inl, inr, refl, ◌∙◌, ap, arith, Bytes,
  codes, equal, equal_iff, if◌then◌else◌, Bool-cases,
}
use openwrt_sub_converter.Model.Apply.{
  is_text, is_ws_transport, apply_mode, apply_modes, apply_field, apply_fields, apply_query,
}
use openwrt_sub_converter.Model.Query.{KvPair}
use openwrt_sub_converter.Model.{ProxyNode}

-- The value of the last pair with the key, or else the old one.
unfoldable pub last_value : Bytes → List KvPair → Option Bytes → Option Bytes
last_value k [] old = old
last_value k (kv ∷ pairs) old = last_value k pairs (if is_text kv.key k then some kv.value else old)

-- A key and the field that it writes on every transport.
pub record Writes (k : Bytes) (field : ProxyNode → Option Bytes) : Type 0 where
  pub hit :
      (n : ProxyNode) (v : Bytes) → field (apply_field n (record { key = k; value = v })) ≡ some v
  pub miss :
      (n : ProxyNode) (kv : KvPair) → is_text kv.key k ≡ false → field (apply_field n kv) ≡ field n
  pub mode : (n : ProxyNode) (kv : KvPair) → field (apply_mode n kv) ≡ field n

pub sni-Writes : Writes (codes "sni") (λ n. n.sni)
unfolding apply_field apply_mode
sni-Writes = record {
  hit = λ n v. unfold equal in refl;
  miss = λ n kv h. ground arith;
  mode = λ n kv. ground arith;
}

pub fp-Writes : Writes (codes "fp") (λ n. n.fp)
unfolding apply_field apply_mode
fp-Writes = record {
  hit = λ n v. unfold equal in refl;
  miss = λ n kv h. ground arith;
  mode = λ n kv. ground arith;
}

pub reality_pbk-Writes : Writes (codes "pbk") (λ n. n.reality_pbk)
unfolding apply_field apply_mode
reality_pbk-Writes = record {
  hit = λ n v. unfold equal in refl;
  miss = λ n kv h. ground arith;
  mode = λ n kv. ground arith;
}

pub reality_sid-Writes : Writes (codes "sid") (λ n. n.reality_sid)
unfolding apply_field apply_mode
reality_sid-Writes = record {
  hit = λ n v. unfold equal in refl;
  miss = λ n kv h. ground arith;
  mode = λ n kv. ground arith;
}

pub alpn-Writes : Writes (codes "alpn") (λ n. n.alpn)
unfolding apply_field apply_mode
alpn-Writes = record {
  hit = λ n v. unfold equal in refl;
  miss = λ n kv h. ground arith;
  mode = λ n kv. ground arith;
}

pub grpc_service-Writes : Writes (codes "serviceName") (λ n. n.grpc_service)
unfolding apply_field apply_mode
grpc_service-Writes = record {
  hit = λ n v. unfold equal in refl;
  miss = λ n kv h. ground arith;
  mode = λ n kv. ground arith;
}

pub xhttp_mode-Writes : Writes (codes "mode") (λ n. n.xhttp_mode)
unfolding apply_field apply_mode
xhttp_mode-Writes = record {
  hit = λ n v. unfold equal in refl;
  miss = λ n kv h. ground arith;
  mode = λ n kv. ground arith;
}

-- A key whose field depends on whether the transport is WebSocket.
pub record WritesOver (over_ws : Bool) (k : Bytes) (field : ProxyNode → Option Bytes) : Type 0 where
  pub hit :
      (n : ProxyNode) (v : Bytes)
      → is_ws_transport n.transport ≡ over_ws
      → field (apply_field n (record { key = k; value = v })) ≡ some v
  pub miss :
      (n : ProxyNode) (kv : KvPair) → is_text kv.key k ≡ false → field (apply_field n kv) ≡ field n
  pub other :
      (n : ProxyNode) (kv : KvPair)
      → is_ws_transport n.transport ≡ not over_ws
      → field (apply_field n kv) ≡ field n
  pub mode : (n : ProxyNode) (kv : KvPair) → field (apply_mode n kv) ≡ field n

pub ws_path-WritesOver : WritesOver true (codes "path") (λ n. n.ws_path)
unfolding apply_field apply_mode
ws_path-WritesOver = record {
  hit = λ n v h. unfold equal in rw h;
  miss = λ n kv h. ground arith;
  other = λ n kv h. ground arith;
  mode = λ n kv. ground arith;
}

pub ws_host-WritesOver : WritesOver true (codes "host") (λ n. n.ws_host)
unfolding apply_field apply_mode
ws_host-WritesOver = record {
  hit = λ n v h. unfold equal in rw h;
  miss = λ n kv h. ground arith;
  other = λ n kv h. ground arith;
  mode = λ n kv. ground arith;
}

pub xhttp_path-WritesOver : WritesOver false (codes "path") (λ n. n.xhttp_path)
unfolding apply_field apply_mode
xhttp_path-WritesOver = record {
  hit = λ n v h. unfold equal in rw h;
  miss = λ n kv h. ground arith;
  other = λ n kv h. ground arith;
  mode = λ n kv. ground arith;
}

pub xhttp_host-WritesOver : WritesOver false (codes "host") (λ n. n.xhttp_host)
unfolding apply_field apply_mode
xhttp_host-WritesOver = record {
  hit = λ n v h. unfold equal in rw h;
  miss = λ n kv h. ground arith;
  other = λ n kv h. ground arith;
  mode = λ n kv. ground arith;
}

pub apply_field-transport :
    (n : ProxyNode) (kv : KvPair) → (apply_field n kv).transport ≡ n.transport
unfolding apply_field
apply_field-transport n kv = ground arith

pub apply_field-tls : (n : ProxyNode) (kv : KvPair) → (apply_field n kv).tls ≡ n.tls
unfolding apply_field
apply_field-tls n kv = ground arith

pub apply_fields-transport :
    (pairs : List KvPair) (n : ProxyNode) → (apply_fields n pairs).transport ≡ n.transport
unfolding apply_fields
apply_fields-transport [] n = refl
apply_fields-transport (kv ∷ pairs) n =
    apply_fields-transport pairs (apply_field n kv) ∙ apply_field-transport n kv

pub apply_fields-tls : (pairs : List KvPair) (n : ProxyNode) → (apply_fields n pairs).tls ≡ n.tls
unfolding apply_fields
apply_fields-tls [] n = refl
apply_fields-tls (kv ∷ pairs) n = apply_fields-tls pairs (apply_field n kv) ∙ apply_field-tls n kv

pub modes_keep :
    {field : ProxyNode → Option Bytes}
    → ((n : ProxyNode) (kv : KvPair) → field (apply_mode n kv) ≡ field n)
    → (pairs : List KvPair) (n : ProxyNode) → field (apply_modes n pairs) ≡ field n
unfolding apply_modes
modes_keep keep [] n = refl
modes_keep keep (kv ∷ pairs) n = modes_keep keep pairs (apply_mode n kv) ∙ keep n kv

module _ {k : Bytes} {field : ProxyNode → Option Bytes} where
  field_step :
      Writes k field
      → (n : ProxyNode) (kv : KvPair)
      → field (apply_field n kv) ≡ (if is_text kv.key k then some kv.value else field n)
  field_step w n kv = elim (Bool-cases (is_text kv.key k)) [
    | inl same ↦ rw same (
        ap (λ key. field (apply_field n (record { key = key; value = kv.value })))
          ((equal_iff kv.key k).0 same)
        ∙ w.hit n kv.value)
    | inr differ ↦ rw differ (w.miss n kv differ)
  ]

  fields_last :
      Writes k field
      → (pairs : List KvPair) (n : ProxyNode)
      → field (apply_fields n pairs) ≡ last_value k pairs (field n)
  unfolding apply_fields last_value
  fields_last w [] n = refl
  fields_last w (kv ∷ pairs) n =
      fields_last w pairs (apply_field n kv) ∙ ap (last_value k pairs) (field_step w n kv)

  pub query_last :
      Writes k field
      → (pairs : List KvPair) (n : ProxyNode)
      → field (apply_query pairs n) ≡ last_value k pairs (field n)
  unfolding apply_query
  query_last w pairs n =
      fields_last w pairs (apply_modes n pairs)
      ∙ ap (last_value k pairs) (modes_keep w.mode pairs n)

module _ {over_ws : Bool} {k : Bytes} {field : ProxyNode → Option Bytes} where
  over_step :
      WritesOver over_ws k field
      → (n : ProxyNode) (kv : KvPair) → is_ws_transport n.transport ≡ over_ws
      → field (apply_field n kv) ≡ (if is_text kv.key k then some kv.value else field n)
  over_step w n kv h = elim (Bool-cases (is_text kv.key k)) [
    | inl same ↦ rw same (
        ap (λ key. field (apply_field n (record { key = key; value = kv.value })))
          ((equal_iff kv.key k).0 same)
        ∙ w.hit n kv.value h)
    | inr differ ↦ rw differ (w.miss n kv differ)
  ]

  pub over_last :
      WritesOver over_ws k field
      → (pairs : List KvPair) (n : ProxyNode) → is_ws_transport n.transport ≡ over_ws
      → field (apply_fields n pairs) ≡ last_value k pairs (field n)
  unfolding apply_fields last_value
  over_last w [] n h = refl
  over_last w (kv ∷ pairs) n h =
      over_last w pairs (apply_field n kv) (ap is_ws_transport (apply_field-transport n kv) ∙ h)
      ∙ ap (last_value k pairs) (over_step w n kv h)

  pub over_other :
      WritesOver over_ws k field
      → (pairs : List KvPair) (n : ProxyNode) → is_ws_transport n.transport ≡ not over_ws
      → field (apply_fields n pairs) ≡ field n
  unfolding apply_fields
  over_other w [] n h = refl
  over_other w (kv ∷ pairs) n h =
      over_other w pairs (apply_field n kv) (ap is_ws_transport (apply_field-transport n kv) ∙ h)
      ∙ w.other n kv h
