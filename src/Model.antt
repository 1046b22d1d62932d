-- ===== src/Model.antt =====
-- sub-converter/src/model.h and the head of model.c: the proxy node and its names. A `char *`
-- field is an optional C string, `none` for NULL; the bytes of such a string hold no NUL.
pub mod Query
pub mod HostPort
pub mod Apply
pub mod Name
pub mod Links
pub mod Json
pub mod Vmess
pub mod Share
use openwrt_sub_converter.Common.{Bytes, Option, none, some, codes}
use openwrt_sub_converter.Libc.{ℤ, pos}

pub data NodeType : Type 0 where
  unknown vless vmess shadowsocks trojan socks5 http_proxy hysteria2 : NodeType

pub data NodeTransport : Type 0 where
  plain ws xhttp grpc http : NodeTransport

pub data NodeTls : Type 0 where
  no_tls tls reality : NodeTls

pub record ProxyNode : Type 0 where
  pub type : NodeType
  pub name : Option Bytes
  pub server : Option Bytes
  pub port : ℤ
  pub uuid : Option Bytes
  pub password : Option Bytes
  pub cipher : Option Bytes
  pub alter_id : ℤ
  pub udp : ℤ
  pub transport : NodeTransport
  pub tls : NodeTls
  pub sni : Option Bytes
  pub alpn : Option Bytes
  pub fp : Option Bytes
  pub reality_pbk : Option Bytes
  pub reality_sid : Option Bytes
  pub ws_path : Option Bytes
  pub ws_host : Option Bytes
  pub xhttp_host : Option Bytes
  pub xhttp_path : Option Bytes
  pub xhttp_mode : Option Bytes
  pub grpc_service : Option Bytes
  pub plugin : Option Bytes
  pub plugin_opts : Option Bytes

-- `memset` to zero.
abbrev pub node_init : ProxyNode
node_init = record {
  type = NodeType.unknown;
  name = none;
  server = none;
  port = pos 0;
  uuid = none;
  password = none;
  cipher = none;
  alter_id = pos 0;
  udp = pos 0;
  transport = NodeTransport.plain;
  tls = NodeTls.no_tls;
  sni = none;
  alpn = none;
  fp = none;
  reality_pbk = none;
  reality_sid = none;
  ws_path = none;
  ws_host = none;
  xhttp_host = none;
  xhttp_path = none;
  xhttp_mode = none;
  grpc_service = none;
  plugin = none;
  plugin_opts = none;
}

pub node_type_name : NodeType → Bytes
node_type_name NodeType.vless = codes "vless"
node_type_name NodeType.vmess = codes "vmess"
node_type_name NodeType.shadowsocks = codes "shadowsocks"
node_type_name NodeType.trojan = codes "trojan"
node_type_name NodeType.socks5 = codes "socks5"
node_type_name NodeType.http_proxy = codes "http"
node_type_name NodeType.hysteria2 = codes "hysteria2"
node_type_name NodeType.unknown = codes "unknown"

pub node_transport_name : NodeTransport → Bytes
node_transport_name NodeTransport.ws = codes "ws"
node_transport_name NodeTransport.xhttp = codes "xhttp"
node_transport_name NodeTransport.grpc = codes "grpc"
node_transport_name NodeTransport.http = codes "http"
node_transport_name NodeTransport.plain = codes "none"
