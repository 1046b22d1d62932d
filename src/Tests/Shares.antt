-- ===== src/Tests/Shares.antt =====
-- Each theorem on links and subscriptions at an input of its own.
use openwrt_sub_converter.Common.{
  ◌<◌, ◌^◌, arith, All, List, [], ◌∷◌, ◌++◌, some, ◌≡◌, refl, Bytes, codes, length, take, equal,
  c_str, done, Returns,
}
use openwrt_sub_converter.Base64.{base64_decode, base64_looks_like}
use openwrt_sub_converter.ConvBase64.Document.{conv_base64_run_total}
use openwrt_sub_converter.ConvBase64.{
  source_text, split_lines, push_node, line_blank, collect_nodes, conv_base64_run,
}
use openwrt_sub_converter.Libc.{strtol, pos}
use openwrt_sub_converter.Model.Apply
use openwrt_sub_converter.Model.Apply.Fields.{IsApplied}
use openwrt_sub_converter.Model.HostPort
use openwrt_sub_converter.Model.Links
use openwrt_sub_converter.Libc.{decimal}
use openwrt_sub_converter.Model.Links.RoundTrip.{
  IsAddress, link_text, link_node, parse_vless_like-link_text,
}
use openwrt_sub_converter.Model.Query.RoundTrip.{IsText, IsPair, render_query}
use openwrt_sub_converter.Model.Query.{KvPair}
use openwrt_sub_converter.Url.RoundTrip.{escape}
use openwrt_sub_converter.Url.{is_unreserved}
use openwrt_sub_converter.Model.Name
use openwrt_sub_converter.Model.Query
use openwrt_sub_converter.Model.Share.Address.{IsShared}
use openwrt_sub_converter.Model.Share.Scheme.{IsLinkNode, node_parse_share-IsLinkNode}
use openwrt_sub_converter.Model.Share.Valid.{parse_vless_like-IsShared, parse_ss-IsShared}
use openwrt_sub_converter.Model.Share.{node_parse_share, trim_crlf}
use openwrt_sub_converter.Model.{ProxyNode, NodeType, NodeTls, node_init}
use openwrt_sub_converter.Tests.Links.{no_json}
use openwrt_sub_converter.Url

abbrev pub line : Bytes
line = codes "trojan://pw@h:443?sni=s#n\r\n"

abbrev pub line_node : ProxyNode
line_node = record node_init {
  type = NodeType.trojan;
  name = some (codes "n");
  server = some (codes "h");
  port = pos 443;
  password = some (codes "pw");
  udp = pos 1;
  tls = NodeTls.tls;
  sni = some (codes "s");
}

line_parses : node_parse_share no_json line ≡ done line_node
unfolding node_parse_share equal Links.parse_vless_like Links.parse_ss Links.find_before
    Links.parse_method_pass base64_decode HostPort.parse_host_port strtol c_str Query.parse_query
    Name.set_name Name.name_from_fragment Url.url_decode Apply.apply_query Apply.parse_transport
line_parses = refl

node_parse_share-IsLinkNode_example :
    IsLinkNode (take (trim_crlf line (length line)) line) line_node
node_parse_share-IsLinkNode_example = node_parse_share-IsLinkNode no_json line line_parses

parse_vless_like-IsShared_example :
    Returns
      (IsShared NodeType.vless)
      (Links.parse_vless_like (codes "u@h:1?type=ws#n") NodeType.vless node_init)
parse_vless_like-IsShared_example =
    parse_vless_like-IsShared (codes "u@h:1?type=ws#n") NodeType.vless node_init

parse_ss-IsShared_example :
    Returns (IsShared NodeType.shadowsocks) (Links.parse_ss (codes "m:p@h:1#n") node_init)
parse_ss-IsShared_example = parse_ss-IsShared (codes "m:p@h:1#n") node_init

abbrev pub two_lines : Bytes
two_lines = codes "# no link\n" ++ line

pub source_plain : source_text two_lines ≡ done two_lines
unfolding source_text base64_looks_like c_str
source_plain = refl

pub one_node : collect_nodes no_json (split_lines [] two_lines) ≡ done (line_node ∷ [])
unfolding node_parse_share equal Links.parse_vless_like Links.parse_ss Links.find_before
    Links.parse_method_pass base64_decode HostPort.parse_host_port strtol c_str Query.parse_query
    Name.set_name Name.name_from_fragment Url.url_decode Apply.apply_query Apply.parse_transport
    collect_nodes split_lines push_node line_blank
one_node = refl

conv_base64_run_total_example : (doc : Bytes) × (conv_base64_run no_json two_lines ≡ done doc)
conv_base64_run_total_example =
    conv_base64_run_total no_json two_lines two_lines (line_node ∷ []) source_plain one_node (cc)

abbrev credential : Bytes
credential = codes "u@"

abbrev link_name : Bytes
link_name = codes "n#"

credential-IsText : IsText credential
credential-IsText = record {
  nonempty = cc;
  bytes = (omega arith, (omega arith, tt));
  no_nul = (omega arith, (omega arith, tt));
}

link_name-IsText : IsText link_name
link_name-IsText = record {
  nonempty = cc;
  bytes = (omega arith, (omega arith, tt));
  no_nul = (omega arith, (omega arith, tt));
}

abbrev link_pairs : List KvPair
link_pairs = record { key = credential; value = link_name } ∷ []

link_pairs-IsPair : All IsPair link_pairs
link_pairs-IsPair = ((credential-IsText, link_name-IsText), tt)

link-IsAddress : IsAddress (codes "h") 443
link-IsAddress = record {
  plain = omega arith;
  no_nul = (omega arith, tt);
  no_query = (omega arith, tt);
  no_fragment = (omega arith, tt);
  port = (omega arith, omega arith);
}

link_fits :
    length (
      link_text
        (escape credential)
        (codes "h" ++ b':' ∷ decimal 443)
        (render_query link_pairs)
        (escape link_name))
    < 2 ^ 64
unfolding is_unreserved decimal
link_fits = omega arith

parse_vless_like-link_text_example :
    (r : ProxyNode) × (Links.parse_vless_like
        (link_text
          (escape credential)
          (codes "h" ++ b':' ∷ decimal 443)
          (render_query link_pairs)
          (escape link_name))
        NodeType.vless
        node_init
      ≡ done (record r { name = some link_name }))
    × IsApplied link_pairs (link_node NodeType.vless node_init credential (codes "h") 443) r
parse_vless_like-link_text_example =
    parse_vless_like-link_text NodeType.vless node_init credential (codes "h") 443 link_pairs
      link_name credential-IsText link-IsAddress link_pairs-IsPair link_name-IsText link_fits
