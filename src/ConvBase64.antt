-- ===== src/ConvBase64.antt =====
-- sub-converter/src/conv_base64.c: the lines of a subscription, the nodes that parse, and names
-- made unique by a suffix. The loop that looks for a free name has fuel, one round for each used
-- name and one more (`Suffixes` shows that this is enough).
pub mod Suffixes
pub mod Names
pub mod Document
use openwrt_sub_converter.Common.{
  ℕ, zero, suc, ◌+◌, ◌-◌, ◌*◌, ◌/◌, ◌%◌, ◌^◌, ◌<◌, ◌≤◌, Bool, true, false, not, ◌&&◌, ◌||◌, List,
  [], ◌∷◌, ◌++◌, append_assoc, append-nil, Option, none, some, ◌≡◌, ◌≢◌, ◌↔◌, ◌⊎◌, inl, inr, refl,
  sym, subst, fun_ext, ◌∙◌, ap, arith, Bytes, IsBytes, Lacks, All, All-append, codes, get_or,
  length, take, drop, length-append, length-take, length-drop, take-length-append, take-length,
  drop_behind, take-append-drop, drop-length-append, replicate, length-replicate, equal, equal_iff,
  c_str, c_str-Lacks, Lacks-c_str, is_space, is_digit, if◌then◌else◌, ◌==◌, ltb, leb, ==_iff,
  Bool-cases, Option-cases, all_below, all_below_sound, all_below_sound₂, Outcome, done, failed,
  fault, ◌>>=◌, ◌>>◌, >>=-eq-done, >>=-ne-fault, Returns, Ensures, Returns->>=, Ensures->>=,
  Returns-done, Ensures-ne-fault, Returns-Ensures,
}
use openwrt_sub_converter.Base64.{base64_decode, base64_looks_like}
use openwrt_sub_converter.Buffer.{Buffer, dup_data}
use openwrt_sub_converter.Libc.{decimal}
use openwrt_sub_converter.Model.Json.{JsonC}
use openwrt_sub_converter.Model.Share.{node_parse_share}
use openwrt_sub_converter.Model.{ProxyNode}
use openwrt_sub_converter.NodeEmit.{node_emit_yaml}
use openwrt_sub_converter.Yaml.Emit.{yaml_emit_kv, yaml_emit_dash, yaml_emit_dash_kv}

unfoldable pub name_used : List Bytes → Bytes → Bool
name_used [] name = false
name_used (u ∷ used) name = equal u name || name_used used name

-- "%s - %d"
unfoldable pub with_suffix : Bytes → ℕ → Bytes
with_suffix base k = base ++ (codes " - " ++ decimal k)

-- The `while` loop, with the candidate and the next suffix.
unfoldable pub find_free : ℕ → List Bytes → Bytes → Bytes → ℕ → Option Bytes
find_free zero used base cand suffix = none
find_free (suc f) used base cand suffix =
    let further = find_free f used base (with_suffix base suffix) (suffix + 1) in
    if name_used used cand then further else some cand

take_name : List Bytes → Option Bytes → Option (Bytes × List Bytes)
take_name used none = none
take_name used (some cand) = some (cand, used ++ cand ∷ [])

-- The free name, which joins the used ones.
unfoldable pub assign_unique_name : List Bytes → Bytes → Option (Bytes × List Bytes)
unfolding find_free name_used take_name
assign_unique_name used base = take_name used (find_free (suc (length used)) used base base 2)

-- nodes[i].name ? nodes[i].name : ""
unfoldable pub base_name : Option Bytes → Bytes
base_name none = []
base_name (some s) = s

-- The loop over the nodes that replaces each name.
unfoldable pub assign_names : List Bytes → List ProxyNode → Option (List ProxyNode)
unfolding base_name
assign_names used [] = some []
assign_names used (n ∷ nodes) =
    let further = λ (used' : List Bytes). assign_names used' nodes in
    elim (assign_unique_name used (base_name n.name)) [
      | none ↦ none
      | some (name, used') ↦ elim (further used') [
        | none ↦ none
        | some rest ↦ some (record n { name = some name } ∷ rest)
      ]
    ]

unfoldable pub line_blank : Bytes → Bool
unfolding is_space
line_blank [] = true
line_blank (c ∷ s) = is_space c && line_blank s

-- The segments of the loop over the text up to its terminator; an empty one is passed over.
unfoldable pub split_lines : Bytes → Bytes → List Bytes
split_lines line [] = if length line == 0 then [] else line ∷ []
split_lines line (c ∷ s) =
    let further = split_lines (if c == b'\n' then [] else line ++ c ∷ []) s in
    if c == b'\n' && not (length line == 0) then line ∷ further else further

-- A node that parses joins the ones behind it; a line that does not parse is passed over.
unfoldable pub push_node : Outcome ProxyNode → Outcome (List ProxyNode) → Outcome (List ProxyNode)
push_node (done n) rest = do nodes ← rest; done (n ∷ nodes)
push_node failed rest = rest
push_node fault rest = fault

-- The text to read, up to its terminator: the decoded data, if the data looks encoded.
unfoldable pub source_text : Bytes → Outcome Bytes
source_text data_bytes =
    if base64_looks_like data_bytes
    then (do work ← base64_decode data_bytes none; dup_data work)
    else done (c_str data_bytes)

module _ (lib : JsonC) where
  -- The nodes of the lines that are not blank and that parse.
  unfoldable pub collect_nodes : List Bytes → Outcome (List ProxyNode)
  unfolding push_node line_blank
  collect_nodes [] = done []
  collect_nodes (line ∷ lines) =
      let rest = collect_nodes lines in
      if line_blank line then rest else push_node (node_parse_share lib line) rest

-- The loop that writes the proxies.
unfoldable pub emit_nodes : Buffer → List ProxyNode → Outcome Buffer
emit_nodes out [] = done out
emit_nodes out (n ∷ nodes) = do out' ← node_emit_yaml out n; emit_nodes out' nodes

-- The loop that writes their names; every node has one by then.
unfoldable pub emit_names : Buffer → List ProxyNode → Buffer
unfolding base_name
emit_names out [] = out
emit_names out (n ∷ nodes) = emit_names (yaml_emit_dash out 6 (base_name n.name)) nodes

unfoldable pub emit_groups : Buffer → List ProxyNode → Buffer
unfolding emit_names
emit_groups sb nodes =
    let sb = yaml_emit_kv sb 0 (codes "proxy-groups") none in
    let sb = yaml_emit_dash_kv sb 2 (codes "name") (codes "PROXY") in
    let sb = yaml_emit_kv sb 4 (codes "type") (some (codes "select")) in
    let sb = yaml_emit_kv sb 4 (codes "proxies") none in
    yaml_emit_dash (emit_names sb nodes) 6 (codes "DIRECT")

-- The document for nodes whose names are unique.
unfoldable pub write_document : List ProxyNode → Outcome Bytes
unfolding emit_nodes emit_groups
write_document nodes = do
  sb ← emit_nodes (yaml_emit_kv none 0 (codes "proxies") none) nodes
  dup_data (emit_groups sb nodes)

-- `none` of the names would be fuel that ran out.
unfoldable pub write_named : Option (List ProxyNode) → Outcome Bytes
unfolding write_document
write_named none = fault
write_named (some named) = write_document named

-- From the collected nodes to the document.
unfoldable pub convert_nodes : List ProxyNode → Outcome Bytes
unfolding assign_names write_named
convert_nodes [] = failed
convert_nodes (n ∷ nodes) = write_named (assign_names [] (n ∷ nodes))

module _ (lib : JsonC) where
  unfoldable pub conv_base64_run : Bytes → Outcome Bytes
  unfolding source_text split_lines collect_nodes convert_nodes
  conv_base64_run data_bytes = do
    text ← source_text data_bytes
    nodes ← collect_nodes lib (split_lines [] text)
    convert_nodes nodes
