-- ===== src/ConvSingbox.antt =====
-- sub-converter/src/conv_singbox.c: the elements of a JSON array as groups of nodes. The array
-- `meta` is a list of `Meta`, and the arrays `nodes` and `tags` are the two lists of `Found`; a loop
-- over the nodes of a group is a loop over that range of the list, which must lie inside.
pub mod Outbound
pub mod Reading
pub mod Naming
pub mod Groups
pub mod Document
use openwrt_sub_converter.Common.{
  ℕ, zero, suc, ◌+◌, ◌-◌, ◌*◌, ◌/◌, ◌%◌, ◌^◌, ◌<◌, ◌≤◌, Bool, true, false, not, ◌&&◌, ◌||◌, List,
  [], ◌∷◌, ◌++◌, append_assoc, append-nil, Option, none, some, ◌≡◌, ◌≢◌, ◌↔◌, ◌⊎◌, inl, inr, refl,
  sym, subst, fun_ext, ◌∙◌, ap, arith, Bytes, IsBytes, Lacks, All, All-append, codes, get_or,
  length, get_elem?, take, drop, length-append, length-take, length-drop, take-length-append,
  take-length, drop_behind, take-append-drop, drop-length-append, replicate, length-replicate,
  equal, equal_iff, c_str, c_str-Lacks, Lacks-c_str, is_space, is_digit, if◌then◌else◌, ◌==◌, ltb,
  leb, ==_iff, Bool-cases, Option-cases, all_below, all_below_sound, all_below_sound₂, Outcome,
  done, failed, fault, ◌>>=◌, ◌>>◌, >>=-eq-done, >>=-ne-fault, require, guard, Returns, Ensures,
  Returns->>=, Ensures->>=, Returns-done, Ensures-ne-fault, Returns-Ensures,
}
use mathlib.Core.List.{map}
use openwrt_sub_converter.Buffer.{Buffer, dup_data}
use openwrt_sub_converter.ConvBase64
use openwrt_sub_converter.ConvSingbox.Outbound.{or_empty, parse_vless_outbound}
use openwrt_sub_converter.Libc.{pos}
use openwrt_sub_converter.Model.Apply.{is_text}
use openwrt_sub_converter.Model.Json.{
  JsonC, jsonx_parse, jsonx_get_string, jsonx_get_obj, jsonx_obj_get, jsonx_arr_get, jsonx_arr_len,
  jsonx_is_array, object_of,
}
use openwrt_sub_converter.Model.{ProxyNode}
use openwrt_sub_converter.NodeEmit.{node_emit_yaml}
use openwrt_sub_converter.Yaml.Emit.{
  yaml_emit_kv, yaml_emit_kv_int, yaml_emit_dash, yaml_emit_dash_kv,
}

-- `elem_meta`. `balancer_tag` is none while `has_balancer` is 0.
pub record Meta : Type 0 where
  pub first : ℕ
  pub count : ℕ
  pub group_name : Option Bytes
  pub balancer_tag : Option Bytes

pub record Found : Type 0 where
  pub nodes : List ProxyNode
  pub tags : List Bytes

-- What `calloc` leaves.
abbrev no_meta : Meta
no_meta = record { first = 0; count = 0; group_name = none; balancer_tag = none }

-- An outbound that does not parse is passed over.
unfoldable pub add_outbound : Outcome (ProxyNode × Option Bytes) → Found → Outcome Found
add_outbound (done (node, tag)) st =
    done (record { nodes = st.nodes ++ node ∷ []; tags = st.tags ++ or_empty tag ∷ [] })
add_outbound failed st = done st
add_outbound fault st = fault

module _ (lib : JsonC) where
  open lib use {Json}

  items_from : Option Json → ℕ → ℕ → List (Option Json)
  unfolding jsonx_arr_get
  items_from arr index zero = []
  items_from arr index (suc n) = jsonx_arr_get lib arr index ∷ items_from arr (index + 1) n

  -- The items of `x && jsonx_is_array(x)`, counted up to `jsonx_arr_len`.
  unfoldable pub items : Option Json → List (Option Json)
  unfolding items_from jsonx_arr_len jsonx_is_array
  items arr = if jsonx_is_array lib arr then items_from arr 0 (jsonx_arr_len lib arr) else []

  -- What is no object is passed over.
  unfoldable pub add_object : Option Json → Found → Outcome Found
  unfolding add_outbound
  add_object none st = done st
  add_object (some v) st = add_outbound (parse_vless_outbound lib v) st

  unfoldable pub read_outbounds : List (Option Json) → Found → Outcome Found
  unfolding add_object object_of
  read_outbounds [] st = done st
  read_outbounds (ob ∷ obs) st = do st' ← add_object (object_of lib ob) st; read_outbounds obs st'

  -- The tag of a balancer whose strategy is `leastPing`.
  unfoldable pub least_ping_tag : Option Json → Option Bytes
  unfolding object_of jsonx_get_obj jsonx_get_string
  least_ping_tag b = elim (object_of lib b) [
    | none ↦ none
    | some v ↦ elim (jsonx_get_obj lib v (codes "strategy")) [
      | none ↦ none
      | some strategy ↦ elim (jsonx_get_string lib strategy (codes "type")) [
        | none ↦ none
        | some type ↦
            if is_text type (codes "leastPing")
            then some (or_empty (jsonx_get_string lib v (codes "tag")))
            else none
      ]
    ]
  ]

  -- The first such balancer ends the loop.
  unfoldable pub find_balancer : List (Option Json) → Option Bytes
  unfolding least_ping_tag
  find_balancer [] = none
  find_balancer (b ∷ bs) =
      let further = find_balancer bs in
      elim (least_ping_tag b) [ none ↦ further | some tag ↦ some tag ]

  unfoldable pub read_routing : Option Json → Option Bytes
  unfolding find_balancer items jsonx_obj_get
  read_routing none = none
  read_routing (some routing) =
      find_balancer (items (jsonx_obj_get lib routing (codes "balancers")))

  -- One round of the loop over the elements; what is no object is passed over.
  unfoldable pub read_elem : Option Json → Found → Outcome (Meta × Found)
  unfolding read_outbounds items read_routing jsonx_obj_get jsonx_get_string jsonx_get_obj
  read_elem none st = done (no_meta, st)
  read_elem (some v) st = do
    st' ← read_outbounds (items (jsonx_obj_get lib v (codes "outbounds"))) st
    done (
      record {
        first = length st.nodes;
        count = length st'.nodes - length st.nodes;
        group_name = some (or_empty (jsonx_get_string lib v (codes "remarks")));
        balancer_tag = read_routing (jsonx_get_obj lib v (codes "routing"));
      },
      st',
    )

  unfoldable pub read_elems : List (Option Json) → Found → Outcome (List Meta × Found)
  unfolding read_elem object_of
  read_elems [] st = done ([], st)
  read_elems (elem ∷ elems) st = do
    r ← read_elem (object_of lib elem) st
    rest ← read_elems elems r.1
    done (r.0 ∷ rest.0, rest.1)

-- `count` entries of an array from `first` on.
unfoldable pub range {ℓ} : {A : Type ℓ} → List A → ℕ → ℕ → Outcome (List A)
range xs first count =
    if leb (first + count) (length xs) then done (take count (drop first xs)) else fault

-- The copy in this file of the loop that looks for a free name.
unfoldable pub assign_unique_name : List Bytes → Bytes → Option (Bytes × List Bytes)
unfolding ConvBase64.assign_unique_name
assign_unique_name used base = ConvBase64.assign_unique_name used base

-- A node with the name that was found, in front of the nodes that follow; `none` would be fuel
-- that ran out.
unfoldable pub name_next :
    ProxyNode
    → Option (Bytes × List Bytes)
    → (List Bytes → Outcome (List ProxyNode × List Bytes))
    → Outcome (List ProxyNode × List Bytes)
name_next n none further = fault
name_next n (some (name, used')) further = do
  rest ← further used'
  done (record n { name = some name } ∷ rest.0, rest.1)

-- Names for nodes, each from its own base.
unfoldable pub name_members :
    List Bytes → List Bytes → List ProxyNode → Outcome (List ProxyNode × List Bytes)
unfolding name_next
name_members used bases [] = done ([], used)
name_members used [] (n ∷ nodes) = fault
name_members used (base ∷ bases) (n ∷ nodes) =
    name_next n (assign_unique_name used base) (λ used'. name_members used' bases nodes)

-- "%s - %s"
unfoldable pub joined : Bytes → Bytes → Bytes
joined group tag = group ++ (codes " - " ++ tag)

-- The bases for the names of a group: the group's own name for a single node, or else that with
-- the tag of each node.
unfoldable pub group_bases : Bytes → ℕ → Outcome (List Bytes) → Outcome (List Bytes)
unfolding joined
group_bases group count tags =
    if count == 1 then done (group ∷ []) else do ts ← tags; done (map (joined group) ts)

-- A pointer that must not be NULL where it is read.
abbrev pub non_null {ℓ} : {A : Type ℓ} → Option Bytes → (Bytes → Outcome A) → Outcome A
non_null none f = fault
non_null (some s) f = f s

-- The nodes `nodes[first .. first + count - 1]` get names.
unfoldable pub name_range :
    Bytes → ℕ → ℕ → List Bytes → List Bytes → List ProxyNode → Outcome (List ProxyNode × List Bytes)
unfolding range group_bases name_members
name_range group first count tags used nodes = do
  members ← range nodes first count
  bases ← group_bases group count (range tags first count)
  r ← name_members used bases members
  done (take first nodes ++ (r.0 ++ drop (first + count) nodes), r.1)

-- One round of the loop that names the nodes.
unfoldable pub name_group :
    Meta → List Bytes → List Bytes → List ProxyNode → Outcome (List ProxyNode × List Bytes)
unfolding name_range
name_group m tags used nodes =
    if m.count == 0
    then done (nodes, used)
    else non_null m.group_name (λ group. name_range group m.first m.count tags used nodes)

unfoldable pub name_groups :
    List Meta → List Bytes → List Bytes → List ProxyNode → Outcome (List ProxyNode)
unfolding name_group
name_groups [] tags used nodes = done nodes
name_groups (m ∷ metas) tags used nodes = do
  r ← name_group m tags used nodes
  name_groups metas tags r.1 r.0

-- The result of the emitter is not looked at; it fails before it writes.
unfoldable pub emitted_or : Outcome Buffer → Buffer → Outcome Buffer
emitted_or (done out') out = done out'
emitted_or failed out = done out
emitted_or fault out = fault

unfoldable pub emit_proxies : Buffer → List ProxyNode → Outcome Buffer
unfolding emitted_or
emit_proxies out [] = done out
emit_proxies out (n ∷ nodes) = do
  out' ← emitted_or (node_emit_yaml out n) out
  emit_proxies out' nodes

unfoldable pub emit_members : Buffer → List ProxyNode → Outcome Buffer
emit_members out [] = done out
emit_members out (n ∷ nodes) = do
  out' ← non_null n.name (λ name. done (yaml_emit_dash out 6 name))
  emit_members out' nodes

abbrev pub emit_group_head : Buffer → Bytes → Bytes → Buffer
emit_group_head sb name type =
    yaml_emit_kv (yaml_emit_dash_kv sb 2 (codes "name") name) 4 (codes "type") (some type)

-- The group that picks the fastest node, for an element with a balancer.
unfoldable pub emit_balancer : Buffer → Bytes → Option Bytes → List ProxyNode → Outcome Buffer
unfolding emit_members joined
emit_balancer sb group none members = done sb
emit_balancer sb group (some tag) members =
    let sb = emit_group_head sb (joined group tag) (codes "url-test") in
    let sb = yaml_emit_kv sb 4 (codes "url") (some (codes "http://www.gstatic.com/generate_204")) in
    let sb = yaml_emit_kv_int sb 4 (codes "interval") (pos 300) in
    let sb = yaml_emit_kv_int sb 4 (codes "tolerance") (pos 50) in
    emit_members (yaml_emit_kv sb 4 (codes "proxies") none) members

-- The lines of a group for its members.
unfoldable pub emit_named_group : Buffer → Bytes → Option Bytes → List ProxyNode → Outcome Buffer
unfolding emit_members emit_balancer
emit_named_group sb group balancer members = do
  let sb' = yaml_emit_kv (emit_group_head sb group (codes "select")) 4 (codes "proxies") none
  listed ← emit_members sb' members
  emit_balancer (yaml_emit_dash listed 6 (codes "DIRECT")) group balancer members

-- One round of the loop over the groups.
unfoldable pub emit_group : Buffer → List ProxyNode → Meta → Outcome Buffer
unfolding emit_named_group range
emit_group sb nodes m =
    if m.count == 0
    then done sb
    else non_null m.group_name λ group. do
      members ← range nodes m.first m.count
      emit_named_group sb group m.balancer_tag members

unfoldable pub emit_groups : Buffer → List ProxyNode → List Meta → Outcome Buffer
unfolding emit_group
emit_groups sb nodes [] = done sb
emit_groups sb nodes (m ∷ metas) = do sb' ← emit_group sb nodes m; emit_groups sb' nodes metas

-- The names of the groups that hold nodes.
unfoldable pub emit_group_names : Buffer → List Meta → Outcome Buffer
emit_group_names sb [] = done sb
emit_group_names sb (m ∷ metas) = do
  sb' ←
      if m.count == 0
      then done sb
      else non_null m.group_name (λ name. done (yaml_emit_dash sb 6 name))
  emit_group_names sb' metas

unfoldable pub write_document : List Meta → List ProxyNode → Outcome Bytes
unfolding emit_proxies emit_groups emit_group_names
write_document metas nodes = do
  sb ← emit_proxies (yaml_emit_kv none 0 (codes "proxies") none) nodes
  groups ← emit_groups (yaml_emit_kv sb 0 (codes "proxy-groups") none) nodes metas
  let sb' = emit_group_head groups (codes "PROXY") (codes "select")
  names ← emit_group_names (yaml_emit_kv sb' 4 (codes "proxies") none) metas
  dup_data (yaml_emit_dash names 6 (codes "DIRECT"))

-- From the nodes and the groups to the document; no node at all is a failure.
unfoldable pub convert_found : List Meta → Found → Outcome Bytes
unfolding name_groups write_document
convert_found metas st =
    if length st.nodes == 0
    then failed
    else do nodes ← name_groups metas st.tags [] st.nodes; write_document metas nodes

module _ (lib : JsonC) where
  open lib use {Json}

  -- The elements of the root, which must be an array.
  unfoldable pub convert_root : Option Json → Outcome Bytes
  unfolding jsonx_is_array items read_elems convert_found
  convert_root root = do
    guard (jsonx_is_array lib root)
    r ← read_elems lib (items lib root) (record { nodes = []; tags = [] })
    convert_found r.0 r.1

  unfoldable pub conv_singbox_run : Bytes → Outcome Bytes
  unfolding jsonx_parse convert_root
  conv_singbox_run data_bytes = convert_root (jsonx_parse lib (some data_bytes))
