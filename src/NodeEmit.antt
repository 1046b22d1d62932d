-- ===== src/NodeEmit.antt =====
-- sub-converter/src/node_emit.c: a node as an entry of the list of proxies.
use openwrt_sub_converter.Common.{
  ℕ, Bool, true, false, not, ◌&&◌, ◌||◌, [], ◌∷◌, Option, none, some, Bytes, codes, if◌then◌else◌,
  ◌==◌, Outcome, done, failed,
}
use openwrt_sub_converter.Buffer.{Buffer}
use openwrt_sub_converter.Libc.{ℤ, pos, negsuc}
use openwrt_sub_converter.Model.{ProxyNode, NodeType, NodeTransport, NodeTls}
use openwrt_sub_converter.Yaml.Emit.{
  yaml_emit_kv, yaml_emit_kv_int, yaml_emit_kv_bool, yaml_emit_dash_kv,
}

nvl : Option Bytes → Bytes
nvl none = []
nvl (some s) = s

unfoldable pub network_name : NodeTransport → Bytes
network_name NodeTransport.ws = codes "ws"
network_name NodeTransport.xhttp = codes "xhttp"
network_name NodeTransport.grpc = codes "grpc"
network_name NodeTransport.http = codes "http"
network_name NodeTransport.plain = codes "tcp"

-- p && p[0]
unfoldable pub is_set : Option Bytes → Bool
is_set none = false
is_set (some []) = false
is_set (some (c ∷ s)) = true

-- n->tls != NODE_TLS_NONE
unfoldable pub has_tls : NodeTls → Bool
has_tls NodeTls.no_tls = false
has_tls NodeTls.tls = true
has_tls NodeTls.reality = true

unfoldable pub is_reality : NodeTls → Bool
is_reality NodeTls.reality = true
is_reality _ = false

unfoldable pub is_ws : NodeTransport → Bool
is_ws NodeTransport.ws = true
is_ws _ = false

unfoldable pub is_xhttp : NodeTransport → Bool
is_xhttp NodeTransport.xhttp = true
is_xhttp _ = false

is_nonzero : ℤ → Bool
is_nonzero (pos n) = not (n == 0)
is_nonzero (negsuc n) = true

-- A key with a text.
emit_text : Buffer → ℕ → Bytes → Option Bytes → Buffer
unfolding nvl
emit_text out indent key value = yaml_emit_kv out indent key (some (nvl value))

emit_ws_opts : Buffer → ProxyNode → Buffer
unfolding emit_text
emit_ws_opts out n =
    let out = yaml_emit_kv out 4 (codes "ws-opts") none in
    let out = emit_text out 6 (codes "path") n.ws_path in
    let out = yaml_emit_kv out 6 (codes "headers") none in emit_text out 8 (codes "Host") n.ws_host

emit_xhttp_opts : Buffer → ProxyNode → Buffer
unfolding emit_text
emit_xhttp_opts out n =
    let out = yaml_emit_kv out 4 (codes "xhttp-opts") none in
    let out = emit_text out 6 (codes "host") n.xhttp_host in
    let out = emit_text out 6 (codes "path") n.xhttp_path in
    emit_text out 6 (codes "mode") n.xhttp_mode

-- A key only for a value that is not NULL.
emit_if_some : Buffer → ℕ → Bytes → Option Bytes → Buffer
emit_if_some out indent key none = out
emit_if_some out indent key (some v) = yaml_emit_kv out indent key (some v)

-- A key only for a value that is neither NULL nor empty.
emit_if_set : Buffer → ℕ → Bytes → Option Bytes → Buffer
unfolding is_set
emit_if_set out indent key value = if is_set value then yaml_emit_kv out indent key value else out

is_some : Option Bytes → Bool
is_some none = false
is_some (some v) = true

emit_reality : Buffer → ProxyNode → Buffer
unfolding emit_if_set emit_if_some is_some
emit_reality out n =
    let out = emit_if_set out 4 (codes "client-fingerprint") n.fp in
    if is_some n.reality_pbk || is_some n.reality_sid
    then emit_if_some
        (emit_if_some (yaml_emit_kv out 4 (codes "reality-opts") none) 6 (codes "public-key")
          n.reality_pbk)
        6 (codes "short-id") n.reality_sid
    else out

-- The server name, under the key that the type gives it.
emit_sni : Buffer → Bytes → ProxyNode → Buffer
unfolding has_tls is_set
emit_sni out key n = if has_tls n.tls && is_set n.sni then yaml_emit_kv out 4 key n.sni else out

-- The lines that every type begins with.
emit_head : Buffer → Bytes → ProxyNode → Buffer
unfolding nvl emit_text
emit_head out type_name n =
    let out = yaml_emit_dash_kv out 2 (codes "name") (nvl n.name) in
    let out = yaml_emit_kv out 4 (codes "type") (some type_name) in
    let out = emit_text out 4 (codes "server") n.server in
    yaml_emit_kv_int out 4 (codes "port") n.port

emit_udp : Buffer → ProxyNode → Buffer
unfolding is_nonzero
emit_udp out n = yaml_emit_kv_bool out 4 (codes "udp") (is_nonzero n.udp)

emit_network : Buffer → ProxyNode → Buffer
unfolding network_name
emit_network out n = yaml_emit_kv out 4 (codes "network") (some (network_name n.transport))

emit_tls : Buffer → ProxyNode → Buffer
unfolding has_tls
emit_tls out n = yaml_emit_kv_bool out 4 (codes "tls") (has_tls n.tls)

emit_vless : Buffer → ProxyNode → Buffer
unfolding emit_head emit_text emit_udp emit_network emit_tls emit_sni emit_reality emit_ws_opts
    emit_xhttp_opts is_reality is_ws is_xhttp
emit_vless out n =
    let out = emit_head out (codes "vless") n in
    let out = emit_text out 4 (codes "uuid") n.uuid in
    let out = emit_tls (emit_network (emit_udp out n) n) n in
    let out = emit_sni out (codes "servername") n in
    let out = if is_reality n.tls then emit_reality out n else out in
    let out = if is_ws n.transport then emit_ws_opts out n else out in
    if is_xhttp n.transport then emit_xhttp_opts out n else out

emit_vmess : Buffer → ProxyNode → Buffer
unfolding emit_head emit_text emit_udp emit_network emit_tls emit_sni emit_ws_opts is_set is_ws
emit_vmess out n =
    let out = emit_head out (codes "vmess") n in
    let out = emit_text out 4 (codes "uuid") n.uuid in
    let out = yaml_emit_kv_int out 4 (codes "alterId") n.alter_id in
    let out =
      yaml_emit_kv out 4 (codes "cipher")
        (if is_set n.cipher then n.cipher else some (codes "auto")) in
    let out = emit_tls (emit_network (emit_udp out n) n) n in
    let out = emit_sni out (codes "servername") n in
    if is_ws n.transport then emit_ws_opts out n else out

emit_ss : Buffer → ProxyNode → Buffer
unfolding emit_head emit_text emit_udp emit_if_set
emit_ss out n =
    let out = emit_head out (codes "ss") n in
    let out = emit_text out 4 (codes "cipher") n.cipher in
    let out = emit_udp (emit_text out 4 (codes "password") n.password) n in
    emit_if_set (emit_if_set out 4 (codes "plugin") n.plugin) 4 (codes "plugin-opts") n.plugin_opts

emit_trojan : Buffer → ProxyNode → Buffer
unfolding emit_head emit_text emit_udp emit_network emit_tls emit_sni emit_reality emit_ws_opts
    is_reality is_ws
emit_trojan out n =
    let out = emit_head out (codes "trojan") n in
    let out = emit_text out 4 (codes "password") n.password in
    let out = emit_tls (emit_sni (emit_network (emit_udp out n) n) (codes "sni") n) n in
    let out = if is_reality n.tls then emit_reality out n else out in
    if is_ws n.transport then emit_ws_opts out n else out

unfoldable pub emit_type : NodeType → Buffer → ProxyNode → Outcome Buffer
unfolding emit_vless emit_vmess emit_ss emit_trojan
emit_type NodeType.vless out n = done (emit_vless out n)
emit_type NodeType.vmess out n = done (emit_vmess out n)
emit_type NodeType.shadowsocks out n = done (emit_ss out n)
emit_type NodeType.trojan out n = done (emit_trojan out n)
emit_type _ out n = failed

unfoldable pub node_emit_yaml : Buffer → ProxyNode → Outcome Buffer
unfolding emit_type
node_emit_yaml out n = emit_type n.type out n
