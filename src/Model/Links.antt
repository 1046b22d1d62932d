-- ===== src/Model/Links.antt =====
-- The links of the forms `vless://`, `trojan://` and `ss://`, sub-converter/src/model.c. A failed
-- call leaves a partly filled node to `node_parse_share`, which frees it, so no node is kept.
pub mod Delimiters
pub mod RoundTrip
use openwrt_sub_converter.Common.{
  ℕ, ◌+◌, ◌-◌, ◌%◌, ◌^◌, Bool, true, false, ◌||◌, List, [], ◌∷◌, Option, none, some, Bytes, length,
  take, drop, c_str, if◌then◌else◌, ◌==◌, ltb, Outcome, done, failed, fault, ◌>>=◌,
}
use openwrt_sub_converter.Base64.{base64_decode, base64_decode_url}
use openwrt_sub_converter.Buffer.{Buffer, contents, dup_data}
use openwrt_sub_converter.Libc.{pos}
use openwrt_sub_converter.Model.Apply.{apply_query, apply_ss_query}
use openwrt_sub_converter.Model.HostPort.{parse_host_port}
use openwrt_sub_converter.Model.Name.{set_name}
use openwrt_sub_converter.Model.Query.{KvPair, slice, parse_query}
use openwrt_sub_converter.Model.{ProxyNode, NodeType, NodeTls}
use openwrt_sub_converter.Url.{url_decode}

-- The first index of `c` below `limit`, counted from `i`, or else the default.
unfoldable pub find_from : ℕ → Bytes → ℕ → ℕ → ℕ → ℕ
find_from c [] i limit default = default
find_from c (d ∷ rest) i limit default =
    let further = find_from c rest (i + 1) limit default in
    if ltb i limit then if d == c then i else further else default

-- for (i = 0; i < limit; i++) if (s[i] == c) { …; break; }
unfoldable pub find_before : ℕ → Bytes → ℕ → ℕ → ℕ
unfolding find_from
find_before c s limit default = find_from c s 0 limit default

-- a - b, as a `size_t` of 64 bits.
abbrev pub sub_size : ℕ → ℕ → ℕ
sub_size a b = (a + 2 ^ 64 - b) % 2 ^ 64

unfoldable pub is_trojan : NodeType → Bool
is_trojan NodeType.trojan = true
is_trojan _ = false

unfoldable pub start_node : NodeType → ProxyNode → ProxyNode
unfolding is_trojan
start_node type n = record n {
  type = type;
  udp = pos 1;
  tls = if is_trojan type then NodeTls.tls else n.tls;
}

unfoldable pub set_credential : NodeType → Bytes → ProxyNode → ProxyNode
unfolding is_trojan
set_credential type text n =
    if is_trojan type then record n { password = some text } else record n { uuid = some text }

-- The query between `?` and `#`, when there is one.
unfoldable pub apply_link_query :
    (List KvPair → ProxyNode → ProxyNode) → Bytes → ℕ → ℕ → ProxyNode → Outcome ProxyNode
apply_link_query apply s query frag n =
    if ltb query frag
    then (do pairs ← parse_query (slice s (query + 1) (frag - query - 1)); done (apply pairs n))
    else done n

-- What follows once the delimiters are found. If `@` was found behind `#`, the length that is
-- passed for the address wraps around.
unfoldable pub vless_at : Bytes → NodeType → ProxyNode → ℕ → ℕ → ℕ → Outcome ProxyNode
unfolding start_node set_credential apply_link_query
vless_at s type n frag query at = do
  sb ← url_decode (take at s) none
  text ← dup_data sb
  address ←
      parse_host_port (drop (at + 1) s) (sub_size (if ltb query frag then query else frag) (at + 1))
  let n' = record (set_credential type text (start_node type n)) {
    server = some address.0;
    port = pos address.1;
  }
  n'' ← apply_link_query apply_query s query frag n'
  set_name s frag n''

unfoldable pub parse_vless_like : Bytes → NodeType → ProxyNode → Outcome ProxyNode
unfolding vless_at
parse_vless_like s type n =
    let len = length s in
    let frag = find_before b'#' s len len in
    let query = find_before b'?' s frag len in
    let at = find_before b'@' s query len in
    if at == len then failed else vless_at s type n frag query at

unfoldable pub contains : ℕ → Bytes → Bool
contains c [] = false
contains c (d ∷ s) = d == c || contains c s

-- The decoded segment if it decodes and holds a colon, or else the segment itself.
unfoldable pub method_body : Bytes → Outcome Buffer → Bytes
unfolding contains
method_body seg (done dec) = if contains b':' (contents dec) then contents dec else seg
method_body seg failed = seg
method_body seg fault = seg

unfoldable pub parse_method_pass : Bytes → Outcome (Bytes × Bytes)
unfolding method_body
parse_method_pass seg =
    let body = method_body seg (base64_decode seg none) in
    let colon = find_before b':' body (length body) (length body) in
    if colon == length body || colon == 0
    then failed
    else done (c_str (take colon body), c_str (drop (colon + 1) body))

-- The last index of `c`.
unfoldable pub find_last : ℕ → Bytes → ℕ → Option ℕ → Option ℕ
find_last c [] i last = last
find_last c (d ∷ s) i last = find_last c s (i + 1) (if d == c then some i else last)

-- The method, the password and the address of one of the two forms.
pub record SsParts : Type 0 where
  pub method : Bytes
  pub password : Bytes
  pub server : Bytes
  pub port : ℕ

unfoldable pub read_parts : Bytes → Bytes → ℕ → Outcome SsParts
read_parts credentials mem len = do
  m ← parse_method_pass credentials
  a ← parse_host_port mem len
  done (record { method = m.0; password = m.1; server = a.0; port = a.1 })

unfoldable pub split_encoded : Bytes → Option ℕ → Outcome SsParts
unfolding read_parts
split_encoded d none = failed
split_encoded d (some last_at) =
    if last_at == 0
    then failed
    else read_parts (take last_at d) (drop (last_at + 1) d) (length d - last_at - 1)

-- `method:password@host:port`, the whole of it encoded.
unfoldable pub ss_encoded : Bytes → Outcome SsParts
unfolding split_encoded find_last
ss_encoded text = do
  sb ← base64_decode_url text none
  split_encoded (contents sb) (find_last b'@' (contents sb) 0 none)

unfoldable pub ss_parts : Bytes → ℕ → ℕ → Outcome SsParts
unfolding ss_encoded
ss_parts s at limit =
    if ltb at (length s)
    then read_parts (take at s) (drop (at + 1) s) (limit - at - 1)
    else ss_encoded (take limit s)

unfoldable pub parse_ss : Bytes → ProxyNode → Outcome ProxyNode
unfolding ss_parts apply_link_query
parse_ss s n =
    let len = length s in
    let frag = find_before b'#' s len len in
    let query = find_before b'?' s frag len in
    let limit = if ltb query frag then query else frag in
    let at = find_before b'@' s limit len in
    do
      p ← ss_parts s at limit
      let n' = record n {
        type = NodeType.shadowsocks;
        udp = pos 1;
        cipher = some p.method;
        password = some p.password;
        server = some p.server;
        port = pos p.port;
      }
      n'' ← apply_link_query apply_ss_query s query frag n'
      set_name s frag n''
