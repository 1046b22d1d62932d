-- ===== src/Tests/Nodes.antt =====
-- Each theorem on queries, fields, names and scalars at an input of its own.
use openwrt_sub_converter.Common.{
  List, [], ◌∷◌, ◌++◌, none, some, ◌≡◌, ◌≢◌, is_space, is_digit, equal, true, inr, refl, arith,
  Bytes, All, codes, done, failed, fault, ◌>>=◌,
}
use openwrt_sub_converter.Buffer.{contents}
use openwrt_sub_converter.ConvBase64.Names.{
  IsFirstUnused, IsRenamed, HasUnusedName, HaveDistinctNames, assign_unique_name_total,
  assign_names_total,
}
use openwrt_sub_converter.ConvBase64.{assign_unique_name, assign_names}
use openwrt_sub_converter.Model.Apply.Fields.{IsApplied, apply_query-IsApplied}
use openwrt_sub_converter.Model.Apply.{apply_query}
use openwrt_sub_converter.Model.Query.EmptyValue.{parse_query_empty_value}
use openwrt_sub_converter.Model.Query.Fuel.{parse_query_fuel}
use openwrt_sub_converter.Model.Query.RoundTrip.{IsText, render_query, parse_query-render_query}
use openwrt_sub_converter.Model.Query.{KvPair, query_loop, parse_query}
use openwrt_sub_converter.Model.{ProxyNode, node_init}
use openwrt_sub_converter.Url.RoundTrip.{escape}
use openwrt_sub_converter.Yaml.Quote.{yaml_quote}
use openwrt_sub_converter.Yaml.{
  is_leading_indicator, is_yaml_number, is_yaml_date, is_resolved_word, has_control, has_mark,
  memchr, last_or, yaml_plain_safe,
}
use openwrt_sub_converter.Yaml.Reader.{read_scalar}
use openwrt_sub_converter.Yaml.RoundTrip.{read_scalar-yaml_quote, read_scalar-yaml_quote_colon}

abbrev key_text : Bytes
key_text = codes "ty"

abbrev value_text : Bytes
value_text = codes "&="

key-IsText : IsText key_text
key-IsText = record {
  nonempty = cc;
  bytes = (omega arith, (omega arith, tt));
  no_nul = (omega arith, (omega arith, tt));
}

value-IsText : IsText value_text
value-IsText = record {
  nonempty = cc;
  bytes = (omega arith, (omega arith, tt));
  no_nul = (omega arith, (omega arith, tt));
}

abbrev two_pairs : List KvPair
two_pairs =
    record { key = key_text; value = value_text }
    ∷ record { key = value_text; value = key_text }
    ∷ []

parse_query-render_query_example : parse_query (render_query two_pairs) ≡ done two_pairs
parse_query-render_query_example =
    parse_query-render_query two_pairs
      ((key-IsText, value-IsText), ((value-IsText, key-IsText), tt))

parse_query_fuel_example : parse_query (codes "a=b&c=d") ≡ (
    query_loop failed 11 (codes "a=b&c=d") 0 (record { pairs = []; ksb = none; vsb = none })
    >>= λ st. done st.pairs)
parse_query_fuel_example = parse_query_fuel (codes "a=b&c=d") failed 10 (omega arith)

parse_query_empty_value_example : parse_query (escape key_text ++ b'=' ∷ codes "&a=b") ≡ fault
parse_query_empty_value_example =
    parse_query_empty_value key_text (codes "&a=b") key-IsText (inr (codes "a=b", refl))

abbrev ws_pairs : List KvPair
ws_pairs =
    record { key = codes "path"; value = codes "/p" }
    ∷ record { key = codes "type"; value = codes "ws" }
    ∷ []

apply_query-IsApplied_example : IsApplied ws_pairs node_init (apply_query ws_pairs node_init)
apply_query-IsApplied_example = apply_query-IsApplied ws_pairs node_init

assign_unique_name_total_example :
    (name : Bytes) × (assign_unique_name (codes "a" ∷ codes "a - 2" ∷ []) (codes "a")
      ≡ some (name, (codes "a" ∷ codes "a - 2" ∷ []) ++ name ∷ []))
    × IsFirstUnused (codes "a" ∷ codes "a - 2" ∷ []) (codes "a") name
assign_unique_name_total_example =
    assign_unique_name_total (codes "a" ∷ codes "a - 2" ∷ []) (codes "a")

abbrev three_nodes : List ProxyNode
three_nodes =
    record node_init { name = some (codes "a") }
    ∷ record node_init { name = some (codes "a") }
    ∷ node_init
    ∷ []

assign_names_total_example :
    (out : List ProxyNode) × (assign_names [] three_nodes ≡ some out)
    × IsRenamed three_nodes out
    × All (HasUnusedName []) out
    × HaveDistinctNames out
assign_names_total_example = assign_names_total [] three_nodes

last_byte : last_or 0 (b'"' ∷ b'\\' ∷ 1 ∷ []) ≢ b':'
unfolding last_or
last_byte = omega arith

read_scalar-yaml_quote_example :
    read_scalar (contents (yaml_quote (b'"' ∷ b'\\' ∷ 1 ∷ []) none) ++ b'\n' ∷ codes "x")
    ≡ some (b'"' ∷ b'\\' ∷ 1 ∷ [], b'\n' ∷ codes "x")
read_scalar-yaml_quote_example =
    read_scalar-yaml_quote (b'"' ∷ b'\\' ∷ 1 ∷ []) (codes "x")
      (omega arith, (omega arith, (omega arith, tt))) last_byte

abbrev key_like : Bytes
key_like = codes "node:"

key_like-plain : yaml_plain_safe b'n' (codes "ode:") ≡ true
unfolding yaml_plain_safe is_space is_leading_indicator has_control has_mark memchr last_or equal
    is_yaml_number is_resolved_word is_yaml_date is_digit
key_like-plain = refl

key_like-colon : last_or b'n' (codes "ode:") ≡ b':'
unfolding last_or
key_like-colon = refl

read_scalar-yaml_quote_colon_example :
    read_scalar (contents (yaml_quote key_like none) ++ b'\n' ∷ codes "x") ≡ none
read_scalar-yaml_quote_colon_example =
    read_scalar-yaml_quote_colon b'n' (codes "ode:") (codes "x") key_like-plain key_like-colon
