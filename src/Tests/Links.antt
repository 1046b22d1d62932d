-- ===== src/Tests/Links.antt =====
-- Links through `node_parse_share`, some of them from sub-converter/tests/unit/test_model.c.
use openwrt_sub_converter.Common.{
  false, [], none, some, ◌≡◌, refl, codes, equal, c_str, done, fault,
}
use openwrt_sub_converter.Base64.{base64_decode}
use openwrt_sub_converter.Libc.{pos, strtol}
use openwrt_sub_converter.Model.HostPort
use openwrt_sub_converter.Model.Links
use openwrt_sub_converter.Model.Query
use openwrt_sub_converter.Model.Name
use openwrt_sub_converter.Model.Apply
use openwrt_sub_converter.Url
use openwrt_sub_converter.Model.Json.{JsonC}
use openwrt_sub_converter.Model.Share.{node_parse_share}
use openwrt_sub_converter.Model.{NodeType, NodeTransport, node_init}

-- A JSON library that knows no JSON.
abbrev pub no_json : JsonC
no_json = record {
  Json = Unit {0};
  parse_ex = λ s. record { value = none; success = false; parse_end = 0 };
  is_type = λ v t. false;
  get_ex = λ v k. none;
  get_int64 = λ v. pos 0;
  get_string = λ v. [];
  get_boolean = λ v. false;
  array_length = λ v. 0;
  array_get_idx = λ v i. none;
  entries = λ v. [];
  to_json_string = λ v. none;
}

ipv6_node :
    node_parse_share no_json
      (codes "vless://uuid-1@[2001:db8::1]:8443?type=ws&path=%2Fx#IPv6%20Node")
    ≡ done (record node_init {
      type = NodeType.vless;
      name = some (codes "IPv6 Node");
      server = some (codes "2001:db8::1");
      port = pos 8443;
      uuid = some (codes "uuid-1");
      udp = pos 1;
      transport = NodeTransport.ws;
      ws_path = some (codes "/x");
    })
unfolding node_parse_share equal Links.parse_vless_like Links.parse_ss Links.find_before
    Links.parse_method_pass base64_decode HostPort.parse_host_port strtol c_str Query.parse_query
    Name.set_name Name.name_from_fragment Url.url_decode Apply.apply_query Apply.parse_transport
ipv6_node = refl

ss_node :
    node_parse_share no_json (codes "ss://aes-256-gcm:secret@1.2.3.4:8388#SS%20Node\r\n")
    ≡ done (record node_init {
      type = NodeType.shadowsocks;
      name = some (codes "SS Node");
      server = some (codes "1.2.3.4");
      port = pos 8388;
      cipher = some (codes "aes-256-gcm");
      password = some (codes "secret");
      udp = pos 1;
    })
unfolding node_parse_share equal Links.parse_vless_like Links.parse_ss Links.find_before
    Links.parse_method_pass base64_decode HostPort.parse_host_port strtol c_str Query.parse_query
    Name.set_name Name.name_from_fragment Url.url_decode Apply.apply_query Apply.parse_transport
ss_node = refl

-- Links that make the parser read through NULL or outside the line.
faults :
    (node_parse_share no_json (codes "vless://u@h:1?type=") ≡ fault)
    × (node_parse_share no_json (codes "vless://u@h:1#") ≡ fault)
    × (node_parse_share no_json (codes "trojan://@h:1") ≡ fault)
    × (node_parse_share no_json (codes "vless://x#a@b") ≡ fault)
unfolding node_parse_share equal Links.parse_vless_like Links.parse_ss Links.find_before
    Links.parse_method_pass base64_decode HostPort.parse_host_port strtol c_str Query.parse_query
    Name.set_name Name.name_from_fragment Url.url_decode Apply.apply_query Apply.parse_transport
faults = (refl, refl, refl, refl)
