-- ===== src/ConvSingbox/Outbound.antt =====
-- parse_vless_outbound of sub-converter/src/conv_singbox.c: one outbound of a configuration.
use openwrt_sub_converter.Common.{
  [], Option, none, some, Bytes, codes, if◌then◌else◌, Outcome, done, ◌>>=◌, ◌>>◌, require, guard,
}
use openwrt_sub_converter.Model.Apply.{is_text}
use openwrt_sub_converter.Model.Json.{
  JsonC, jsonx_get_string, jsonx_get_obj, jsonx_get_int, jsonx_obj_get, jsonx_arr_get,
  jsonx_is_array, object_of, string_of,
}
use openwrt_sub_converter.Libc.{ℤ, pos}
use openwrt_sub_converter.Model.Vmess.{to_int}
use openwrt_sub_converter.Model.{ProxyNode, NodeType, NodeTransport, NodeTls, node_init}

-- A text that stays as it was when the key is missing or no string.
abbrev pub or_empty : Option Bytes → Bytes
or_empty none = []
or_empty (some s) = s

unfoldable pub set_security : Option Bytes → ProxyNode → ProxyNode
set_security none n = n
set_security (some security) n =
    if is_text security (codes "reality")
    then record n { tls = NodeTls.reality }
    else if is_text security (codes "tls")
    then record n { tls = NodeTls.tls }
    else n

unfoldable pub set_network : Option Bytes → ProxyNode → ProxyNode
set_network none n = n
set_network (some network) n =
    if is_text network (codes "ws")
    then record n { transport = NodeTransport.ws }
    else if is_text network (codes "xhttp")
    then record n { transport = NodeTransport.xhttp }
    else n

-- The port is cut down to an `int`, with no test of its range.
unfoldable pub vless_node : Bytes → ℤ → Bytes → ProxyNode
unfolding to_int
vless_node address port id = record node_init {
  type = NodeType.vless;
  udp = pos 1;
  server = some address;
  port = to_int port;
  uuid = some id;
}

module _ (lib : JsonC) where
  open lib use {Json}

  -- x && jsonx_is_array(x), and its first item if that is an object.
  unfoldable pub first_object : Option Json → Option Json
  unfolding jsonx_is_array jsonx_arr_get object_of
  first_object arr =
      if jsonx_is_array lib arr then object_of lib (jsonx_arr_get lib arr 0) else none

  -- headers.Host, where `headers` is an object.
  unfoldable pub host_header : Option Json → Bytes
  unfolding jsonx_get_string
  host_header none = []
  host_header (some hdrs) = or_empty (jsonx_get_string lib hdrs (codes "Host"))

  unfoldable pub set_ws : Option Json → ProxyNode → ProxyNode
  unfolding string_of jsonx_obj_get object_of host_header
  set_ws none n = n
  set_ws (some ws) n = record n {
    ws_path = some (or_empty (string_of lib (jsonx_obj_get lib ws (codes "path"))));
    ws_host = some (host_header (object_of lib (jsonx_obj_get lib ws (codes "headers"))));
  }

  unfoldable pub set_xhttp : Option Json → ProxyNode → ProxyNode
  unfolding jsonx_get_string
  set_xhttp none n = n
  set_xhttp (some xh) n = record n {
    xhttp_host = some (or_empty (jsonx_get_string lib xh (codes "host")));
    xhttp_path = some (or_empty (jsonx_get_string lib xh (codes "path")));
    xhttp_mode = some (or_empty (jsonx_get_string lib xh (codes "mode")));
  }

  unfoldable pub set_reality : Option Json → ProxyNode → ProxyNode
  unfolding jsonx_get_string
  set_reality none n = n
  set_reality (some re) n = record n {
    sni = some (or_empty (jsonx_get_string lib re (codes "serverName")));
    reality_pbk = some (or_empty (jsonx_get_string lib re (codes "publicKey")));
    reality_sid = some (or_empty (jsonx_get_string lib re (codes "shortId")));
    fp = some (or_empty (jsonx_get_string lib re (codes "fingerprint")));
  }

  -- It stands behind `realitySettings`, whose server name it replaces.
  unfoldable pub set_tls : Option Json → ProxyNode → ProxyNode
  unfolding jsonx_get_string
  set_tls none n = n
  set_tls (some tls) n = record n {
    sni = some (or_empty (jsonx_get_string lib tls (codes "serverName")));
  }

  -- `streamSettings`, if it is an object.
  unfoldable pub set_stream : Option Json → ProxyNode → ProxyNode
  unfolding set_security set_network set_ws set_xhttp set_reality set_tls jsonx_get_string
      jsonx_get_obj
  set_stream none n = n
  set_stream (some ss) n =
      let n = set_security (jsonx_get_string lib ss (codes "security")) n in
      let n = set_network (jsonx_get_string lib ss (codes "network")) n in
      let n = set_ws (jsonx_get_obj lib ss (codes "wsSettings")) n in
      let n = set_xhttp (jsonx_get_obj lib ss (codes "xhttpSettings")) n in
      let n = set_reality (jsonx_get_obj lib ss (codes "realitySettings")) n in
      set_tls (jsonx_get_obj lib ss (codes "tlsSettings")) n

  -- The node with its options and the tag, `none` for a tag that is missing or no string.
  unfoldable pub outbound_node : Json → Bytes → ℤ → Bytes → ProxyNode × Option Bytes
  unfolding set_stream vless_node object_of jsonx_obj_get jsonx_get_string
  outbound_node ob address port id = (
    set_stream (object_of lib (jsonx_obj_get lib ob (codes "streamSettings")))
        (vless_node address port id),
    jsonx_get_string lib ob (codes "tag"),
  )

  unfoldable pub parse_vless_outbound : Json → Outcome (ProxyNode × Option Bytes)
  unfolding first_object outbound_node jsonx_get_string jsonx_get_obj jsonx_get_int jsonx_obj_get
  parse_vless_outbound ob = do
    proto ← require (jsonx_get_string lib ob (codes "protocol"))
    guard (is_text proto (codes "vless"))
    settings ← require (jsonx_get_obj lib ob (codes "settings"))
    v0 ← require (first_object (jsonx_obj_get lib settings (codes "vnext")))
    address ← require (jsonx_get_string lib v0 (codes "address"))
    port ← require (jsonx_get_int lib v0 (codes "port"))
    u0 ← require (first_object (jsonx_obj_get lib v0 (codes "users")))
    id ← require (jsonx_get_string lib u0 (codes "id"))
    done (outbound_node ob address port id)
