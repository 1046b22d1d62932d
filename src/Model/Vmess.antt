-- ===== src/Model/Vmess.antt =====
-- The links of the form `vmess://`, sub-converter/src/model.c: a JSON object in base 64, or the
-- form of `parse_vless_like` when there is an `@` before the fragment.
use openwrt_sub_converter.Common.{
  ℕ, ◌-◌, ◌%◌, ◌^◌, ◌||◌, [], ◌∷◌, Option, none, some, Bytes, codes, length, take, if◌then◌else◌,
  ltb, Outcome, done, failed, fault, ◌>>=◌,
}
use openwrt_sub_converter.Base64.{base64_decode}
use openwrt_sub_converter.Buffer.{Buffer, dup_data}
use openwrt_sub_converter.Libc.{ℤ, pos, negsuc, strtol}
use openwrt_sub_converter.Model.Apply.{is_text, parse_transport, is_ws_transport}
use openwrt_sub_converter.Model.Json.{
  JsonC, jsonx_parse, jsonx_is_string, jsonx_is_int, jsonx_obj_get, jsonx_str, jsonx_int,
  jsonx_get_string,
}
use openwrt_sub_converter.Model.Links.{find_before, parse_vless_like}
use openwrt_sub_converter.Model.Name.{set_name_fallback}
use openwrt_sub_converter.Model.{ProxyNode, NodeType, NodeTransport, NodeTls}
use openwrt_sub_converter.Url.{url_decode}

-- The bit pattern of an `int` as the integer that it stands for.
abbrev int_of_word : ℕ → ℤ
int_of_word m = if ltb m (2 ^ 31) then pos m else negsuc (2 ^ 32 - m - 1)

-- (int)v for an `int64_t`
unfoldable pub to_int : ℤ → ℤ
to_int (pos n) = int_of_word (n % 2 ^ 32)
to_int (negsuc n) = int_of_word (2 ^ 32 - 1 - n % 2 ^ 32)

-- `strtol` with the test that the whole text was read.
unfoldable pub whole_number : Option (ℤ × Bytes) → Option ℤ
whole_number none = none
whole_number (some (v, [])) = some v
whole_number (some (v, c ∷ rest)) = none

-- A field that is written only when there is a value.
unfoldable pub or_old : Option Bytes → Option Bytes → Option Bytes
or_old none old = old
or_old (some v) old = some v

unfoldable pub vmess_transport : Option Bytes → NodeTransport → NodeTransport
vmess_transport none old = old
vmess_transport (some net) old = parse_transport net

-- Unlike `security` in a query, another text leaves the field as it is.
unfoldable pub vmess_tls : Option Bytes → NodeTls → NodeTls
vmess_tls none old = old
vmess_tls (some t) old =
    if is_text t (codes "tls")
    then NodeTls.tls
    else if is_text t (codes "reality")
    then NodeTls.reality
    else old

-- `ps`, decoded if it is a well-formed text; an empty one is a copy through NULL.
unfoldable pub decoded_or_raw : Outcome Buffer → Bytes → Outcome Bytes
decoded_or_raw (done nbuf) ps = dup_data nbuf
decoded_or_raw failed ps = done ps
decoded_or_raw fault ps = fault

unfoldable pub vmess_name : Option Bytes → ProxyNode → Outcome ProxyNode
unfolding decoded_or_raw
vmess_name none n = set_name_fallback n
vmess_name (some ps) n = do
  name ← decoded_or_raw (url_decode ps none) ps
  done (record n { name = some name })

-- The test on `iv` before it becomes the port.
unfoldable pub vmess_port : ℤ → Option ℕ
vmess_port (negsuc n) = none
vmess_port (pos n) = if ltb n 1 || ltb 65535 n then none else some n

module _ (lib : JsonC) where
  open lib use {Json}

  -- The text of a field that is a string.
  unfoldable pub text_field : Json → Bytes → Option Bytes
  unfolding jsonx_obj_get jsonx_is_string jsonx_str
  text_field obj key = elim (jsonx_obj_get lib obj key) [
    | none ↦ none
    | some v ↦ if jsonx_is_string lib (some v) then some (jsonx_str lib v) else none
  ]

  -- An integer, or a string that spells one.
  unfoldable pub json_int_field : Json → Bytes → Option ℤ
  unfolding jsonx_obj_get jsonx_is_string jsonx_is_int jsonx_str jsonx_int whole_number
  json_int_field obj key = elim (jsonx_obj_get lib obj key) [
    | none ↦ none
    | some v ↦
        if jsonx_is_int lib (some v)
        then some (jsonx_int lib v)
        else if jsonx_is_string lib (some v)
        then whole_number (strtol (jsonx_str lib v))
        else none
  ]

  -- The port is read as `json_int_field` reads a field, with -1 for what it refuses.
  unfoldable pub read_vmess_port : Json → Option ℕ
  unfolding json_int_field vmess_port
  read_vmess_port obj = elim (json_int_field obj (codes "port")) [
    | none ↦ vmess_port (negsuc 0)
    | some iv ↦ vmess_port iv
  ]

  unfoldable pub vmess_options : Json → ProxyNode → ProxyNode
  unfolding text_field or_old vmess_transport vmess_tls is_ws_transport
  vmess_options obj n =
      let transport = vmess_transport (text_field obj (codes "net")) n.transport in
      let over_ws = is_ws_transport transport in
      let host = text_field obj (codes "host") in
      let path = text_field obj (codes "path") in
      record n {
        uuid = or_old (jsonx_get_string lib obj (codes "id")) n.uuid;
        alter_id = elim (json_int_field obj (codes "aid")) [
          | none ↦ n.alter_id
          | some iv ↦ to_int iv
        ];
        cipher = or_old (text_field obj (codes "scy")) n.cipher;
        transport = transport;
        tls = vmess_tls (text_field obj (codes "tls")) n.tls;
        ws_host = if over_ws then or_old host n.ws_host else n.ws_host;
        xhttp_host = if over_ws then n.xhttp_host else or_old host n.xhttp_host;
        ws_path = if over_ws then or_old path n.ws_path else n.ws_path;
        xhttp_path = if over_ws then n.xhttp_path else or_old path n.xhttp_path;
        sni = or_old (text_field obj (codes "sni")) n.sni;
        alpn = or_old (text_field obj (codes "alpn")) n.alpn;
        fp = or_old (text_field obj (codes "fp")) n.fp;
        grpc_service = or_old (text_field obj (codes "serviceName")) n.grpc_service;
      }

  -- The object's fields: without a server and a valid port the link is refused.
  unfoldable pub vmess_fields : Json → Option Bytes → Option ℕ → ProxyNode → Outcome ProxyNode
  unfolding vmess_options vmess_name
  vmess_fields obj (some server) (some port) n = vmess_name (text_field obj (codes "ps")) (
      vmess_options obj (record n {
        type = NodeType.vmess;
        udp = pos 1;
        cipher = some (codes "auto");
        server = some server;
        port = pos port;
      }))
  vmess_fields obj none port n = failed
  vmess_fields obj server none n = failed

  unfoldable pub parse_vmess_json : Bytes → ProxyNode → Outcome ProxyNode
  unfolding vmess_fields jsonx_parse jsonx_get_string read_vmess_port or_old
  parse_vmess_json s n = do
    sb ← base64_decode s none
    elim (jsonx_parse lib sb) [
      | none ↦ failed
      | some obj ↦
          vmess_fields obj (or_old (jsonx_get_string lib obj (codes "add")) n.server)
            (read_vmess_port obj) n
    ]

  -- An `@` before the fragment decides between the two forms.
  unfoldable pub parse_vmess : Bytes → ProxyNode → Outcome ProxyNode
  unfolding parse_vmess_json
  parse_vmess s n =
      let frag = find_before b'#' s (length s) (length s) in
      if ltb (find_before b'@' s frag (length s)) (length s)
      then (do
        n' ← parse_vless_like s NodeType.vmess n
        done (record n' { cipher = some (codes "auto") }))
      else parse_vmess_json (take frag s) n
