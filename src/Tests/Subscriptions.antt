-- ===== src/Tests/Subscriptions.antt =====
-- A subscription with one element and one outbound, through the sing-box converter.
use openwrt_sub_converter.Common.{
  ℕ, zero, ◌-◌, Bool, true, false, List, [], ◌∷◌, Option, none, some, ◌≡◌, ◌≢◌, refl, Bytes, codes,
  length, equal, c_str, if◌then◌else◌, done, fault,
}
use openwrt_sub_converter.ConvSingbox.Document.{
  IsConverted, conv_singbox_run-ne-fault, conv_singbox_run_total,
}
use openwrt_sub_converter.ConvSingbox.Outbound.{
  first_object, set_stream, outbound_node, parse_vless_outbound, set_security, set_network, set_ws,
  set_xhttp, set_reality, set_tls,
}
use openwrt_sub_converter.ConvSingbox.Outbound
use openwrt_sub_converter.ConvSingbox.{
  Meta, Found, add_outbound, items, add_object, read_outbounds, read_routing, read_elem, read_elems,
  conv_singbox_run,
}
use openwrt_sub_converter.Libc.{pos}
use openwrt_sub_converter.Model.Json.{
  JsonC, JsonType, jsonx_parse, jsonx_is_array, jsonx_arr_get, jsonx_arr_len, jsonx_obj_get,
  string_of, jsonx_str, jsonx_get_string, int_of, jsonx_get_int, object_of, jsonx_get_obj,
}
use openwrt_sub_converter.Model.Vmess.{to_int}
use openwrt_sub_converter.Model.{NodeType, node_init}
use openwrt_sub_converter.Tests.Links.{no_json}

-- The values of one document.
data Value : Type 0 where
  elements element outbounds outbound settings vnext server users user port : Value
  text : Bytes → Value

kind : Value → JsonType
kind Value.elements = JsonType.array
kind Value.element = JsonType.object
kind Value.outbounds = JsonType.array
kind Value.outbound = JsonType.object
kind Value.settings = JsonType.object
kind Value.vnext = JsonType.array
kind Value.server = JsonType.object
kind Value.users = JsonType.array
kind Value.user = JsonType.object
kind Value.port = JsonType.int
kind (Value.text s) = JsonType.string

same_type : JsonType → JsonType → Bool
same_type JsonType.array JsonType.array = true
same_type JsonType.object JsonType.object = true
same_type JsonType.int JsonType.int = true
same_type JsonType.string JsonType.string = true
same_type t u = false

member : Value → Bytes → Option Value
unfolding equal
member Value.element key =
    if equal key (codes "outbounds")
    then some Value.outbounds
    else if equal key (codes "remarks")
    then some (Value.text (codes "G"))
    else none
member Value.outbound key =
    if equal key (codes "protocol")
    then some (Value.text (codes "vless"))
    else if equal key (codes "settings")
    then some Value.settings
    else if equal key (codes "tag")
    then some (Value.text (codes "t"))
    else none
member Value.settings key = if equal key (codes "vnext") then some Value.vnext else none
member Value.server key =
    if equal key (codes "address")
    then some (Value.text (codes "h"))
    else if equal key (codes "port")
    then some Value.port
    else if equal key (codes "users")
    then some Value.users
    else none
member Value.user key = if equal key (codes "id") then some (Value.text (codes "u")) else none
member v key = none

first_item : Value → ℕ → Option Value
first_item Value.elements zero = some Value.element
first_item Value.outbounds zero = some Value.outbound
first_item Value.vnext zero = some Value.server
first_item Value.users zero = some Value.user
first_item v i = none

text_of : Value → Bytes
text_of (Value.text s) = s
text_of v = []

abbrev one_outbound : JsonC
one_outbound = record {
  Json = Value;
  parse_ex = λ s. record { value = some Value.elements; success = true; parse_end = length s - 1 };
  is_type = λ v t. same_type (kind v) t;
  get_ex = member;
  get_int64 = λ v. pos 443;
  get_string = text_of;
  get_boolean = λ v. false;
  array_length = λ v. 1;
  array_get_idx = first_item;
  entries = λ v. [];
  to_json_string = λ v. none;
}

abbrev found : Found
found = record {
  nodes =
      record node_init {
        type = NodeType.vless;
        udp = pos 1;
        server = some (codes "h");
        port = pos 443;
        uuid = some (codes "u");
      }
      ∷ [];
  tags = codes "t" ∷ [];
}

abbrev metas : List Meta
metas = record { first = 0; count = 1; group_name = some (codes "G"); balancer_tag = none } ∷ []

parsed : jsonx_parse one_outbound (some (codes "[]")) ≡ some Value.elements
unfolding jsonx_parse
parsed = refl

is_array : jsonx_is_array one_outbound (some Value.elements) ≡ true
unfolding jsonx_is_array same_type kind
is_array = refl

elements_read :
    read_elems one_outbound
      (items one_outbound (some Value.elements))
      (record { nodes = []; tags = [] })
    ≡ done (metas, found)
unfolding read_elems items read_elem read_outbounds add_object add_outbound parse_vless_outbound
    read_routing first_object outbound_node set_stream Outbound.vless_node to_int jsonx_get_string
    jsonx_get_obj jsonx_get_int jsonx_obj_get jsonx_is_array jsonx_arr_get jsonx_arr_len string_of
    int_of object_of jsonx_str c_str kind same_type member first_item text_of equal
elements_read = refl

conv_singbox_run_total_example :
    (doc : Bytes) × IsConverted metas found doc
    × (conv_singbox_run one_outbound (codes "[]") ≡ done doc)
conv_singbox_run_total_example =
    conv_singbox_run_total one_outbound (codes "[]") (some Value.elements) metas found parsed
      is_array elements_read (cc)

conv_singbox_run-ne-fault_example : conv_singbox_run no_json (codes "[]") ≢ fault
conv_singbox_run-ne-fault_example = conv_singbox_run-ne-fault no_json (codes "[]")
