-- ===== src/ConvSingbox/Reading.antt =====
-- What reading the configuration leaves: ranges of nodes that follow one another.
use openwrt_sub_converter.Common.{
  Ensures-mono, ℕ, ◌+◌, ◌≤◌, Bool, true, false, List, [], ◌∷◌, Option, none, some, ◌≡◌, ◌≢◌, refl,
  sym, subst, ◌∙◌, arith, Bytes, All, All-append, codes, length, length-append, Outcome, done,
  failed, fault, ◌>>=◌, require, guard, Ensures, Ensures->>=,
}
use openwrt_sub_converter.ConvSingbox.Outbound.{
  or_empty, set_security, set_network, set_ws, set_xhttp, set_reality, set_tls, set_stream,
  first_object, vless_node, outbound_node, parse_vless_outbound,
}
use openwrt_sub_converter.ConvSingbox.{
  Meta, Found, add_outbound, add_object, read_outbounds, read_elem, read_elems, items,
}
use openwrt_sub_converter.Libc.{ℤ}
use openwrt_sub_converter.Model.Apply.{is_text}
use openwrt_sub_converter.Model.Json.{
  JsonC, object_of, jsonx_get_string, jsonx_get_obj, jsonx_get_int, jsonx_obj_get,
}
use openwrt_sub_converter.Model.{ProxyNode, NodeType}

abbrev pub IsVless : ProxyNode → Type 0
IsVless n = n.type ≡ NodeType.vless

-- `Ensures`, wrapped so that the steps of a `do` block are read off the goal.
record Sure {ℓ} {A : Type ℓ} (P : A → Type 0) (o : Outcome A) : Type 0 where
  holds : Ensures P o

Sure-require {ℓ κ} :
    {A : Type ℓ} {B : Type κ} (P : B → Type 0) (o : Option A) (f : A → Outcome B)
    → ((a : A) → Sure P (f a))
    → Sure P (require o >>= f)
Sure-require P none f h = record { holds = tt }
Sure-require P (some a) f h = h a

Sure-guard {κ} :
    {B : Type κ} (P : B → Type 0) (b : Bool) (f : Unit {0} → Outcome B)
    → Sure P (f tt)
    → Sure P (guard b >>= f)
Sure-guard P true f h = h
Sure-guard P false f h = record { holds = tt }

set_security-type : (o : Option Bytes) (n : ProxyNode) → (set_security o n).type ≡ n.type
unfolding set_security
set_security-type none n = refl
set_security-type (some s) n = ground arith

set_network-type : (o : Option Bytes) (n : ProxyNode) → (set_network o n).type ≡ n.type
unfolding set_network
set_network-type none n = refl
set_network-type (some s) n = ground arith

module _ (lib : JsonC) where
  open lib use {Json}

  set_ws-type : (o : Option Json) (n : ProxyNode) → (set_ws lib o n).type ≡ n.type
  unfolding set_ws
  set_ws-type none n = refl
  set_ws-type (some v) n = refl

  set_xhttp-type : (o : Option Json) (n : ProxyNode) → (set_xhttp lib o n).type ≡ n.type
  unfolding set_xhttp
  set_xhttp-type none n = refl
  set_xhttp-type (some v) n = refl

  set_reality-type : (o : Option Json) (n : ProxyNode) → (set_reality lib o n).type ≡ n.type
  unfolding set_reality
  set_reality-type none n = refl
  set_reality-type (some v) n = refl

  set_tls-type : (o : Option Json) (n : ProxyNode) → (set_tls lib o n).type ≡ n.type
  unfolding set_tls
  set_tls-type none n = refl
  set_tls-type (some v) n = refl

  set_stream-type : (o : Option Json) (n : ProxyNode) → (set_stream lib o n).type ≡ n.type
  set_stream-type none n = unfold set_stream in refl
  set_stream-type (some ss) n =
      unfold set_stream in
      (set_tls-type _ _
        ∙ set_reality-type _ _
        ∙ set_xhttp-type _ _
        ∙ set_ws-type _ _
        ∙ set_network-type _ _
        ∙ set_security-type _ n)

  outbound_node-IsVless :
      (ob : Json) (address : Bytes) (port : ℤ) (id : Bytes)
      → IsVless (outbound_node lib ob address port id).0
  unfolding outbound_node vless_node
  outbound_node-IsVless ob address port id =
      set_stream-type (object_of lib (jsonx_obj_get lib ob (codes "streamSettings")))
        (vless_node address port id)

  parse_vless_outbound-Sure : (ob : Json) → Sure (λ r. IsVless r.0) (parse_vless_outbound lib ob)
  unfolding parse_vless_outbound
  parse_vless_outbound-Sure ob =
      Sure-require P (jsonx_get_string lib ob (codes "protocol")) _ λ proto.
        Sure-guard P (is_text proto (codes "vless")) _ (
          Sure-require P (jsonx_get_obj lib ob (codes "settings")) _ λ settings.
            Sure-require P (first_object lib (jsonx_obj_get lib settings (codes "vnext"))) _ λ v0.
              Sure-require P (jsonx_get_string lib v0 (codes "address")) _ λ address.
                Sure-require P (jsonx_get_int lib v0 (codes "port")) _ λ port.
                  Sure-require P (first_object lib (jsonx_obj_get lib v0 (codes "users"))) _ λ u0.
                    Sure-require P (jsonx_get_string lib u0 (codes "id")) _
                      λ id. record { holds = outbound_node-IsVless ob address port id })
    where
      P : ProxyNode × Option Bytes → Type 0
      P r = IsVless r.0

  parse_vless_outbound-IsVless :
      (ob : Json) → Ensures (λ r. IsVless r.0) (parse_vless_outbound lib ob)
  parse_vless_outbound-IsVless ob = (parse_vless_outbound-Sure ob).holds

-- Every node is a VLESS node, and has a tag.
pub record IsFound (st : Found) : Type 0 where
  pub types : All IsVless st.nodes
  pub tagged : length st.tags ≡ length st.nodes

-- The ranges of the groups that hold nodes follow one another, from `k` up to `total`, and these
-- groups have names.
abbrev pub Tile : ℕ → List Meta → ℕ → Type 0
Tile k [] total = k ≡ total
Tile k (m ∷ metas) total =
    (m.count ≢ 0 → (m.first ≡ k) × ((group : Bytes) × (m.group_name ≡ some group)))
    × Tile (k + m.count) metas total

-- What a step adds to the nodes.
Grows : Found → Found → Type 0
Grows st st' = IsFound st' × (length st.nodes ≤ length st'.nodes)

add_outbound-Grows :
    (o : Outcome (ProxyNode × Option Bytes)) (st : Found)
    → Ensures (λ r. IsVless r.0) o
    → IsFound st
    → Ensures (Grows st) (add_outbound o st)
unfolding add_outbound Grows
add_outbound-Grows (done (n, tag)) st v h = (
  record {
    types = All-append IsVless st.nodes (n ∷ []) h.types (v, tt);
    tagged = omega (
      arith,
      h.tagged,
      length-append st.tags (or_empty tag ∷ []),
      length-append st.nodes (n ∷ []),
    );
  },
  omega (arith, length-append st.nodes (n ∷ [])),
)
add_outbound-Grows failed st v h = (h, omega arith)
add_outbound-Grows fault st v h = absurd v

Grows-trans : (a b c : Found) → Grows a b → Grows b c → Grows a c
unfolding Grows
Grows-trans a b c p q = (q.0, omega arith)

-- Every node is a VLESS node with a tag, none is lost, and the groups tile what was added.
abbrev pub IsAllRead : Found → List Meta × Found → Type 0
IsAllRead st r =
    IsFound r.1
    × (length st.nodes ≤ length r.1.nodes)
    × Tile (length st.nodes) r.0 (length r.1.nodes)

module _ (lib : JsonC) where
  open lib use {Json}

  add_object-Grows :
      (ob : Option Json) (st : Found) → IsFound st → Ensures (Grows st) (add_object lib ob st)
  unfolding add_object
  add_object-Grows none st h = unfold Grows in (h, omega arith)
  add_object-Grows (some v) st h =
      add_outbound-Grows (parse_vless_outbound lib v) st (parse_vless_outbound-IsVless lib v) h

  read_outbounds-Grows :
      (obs : List (Option Json)) (st : Found)
      → IsFound st
      → Ensures (Grows st) (read_outbounds lib obs st)
  unfolding read_outbounds Grows
  read_outbounds-Grows [] st h = (h, omega arith)
  read_outbounds-Grows (ob ∷ obs) st h =
      let ih = λ (a : Found) (g : IsFound a). read_outbounds-Grows obs a g in
      Ensures->>= (Grows st) (Grows st) (add_object lib (object_of lib ob) st) _
        (add_object-Grows (object_of lib ob) st h)
        λ a g.
          Ensures-mono (Grows a) (Grows st) (read_outbounds lib obs a) (ih a g.0)
            (λ b g'. Grows-trans st a b g g')

  IsRead : Found → Meta × Found → Type 0
  IsRead st r = Grows st r.1 × Tile (length st.nodes) (r.0 ∷ []) (length r.1.nodes)

  read_elem-IsRead :
      (elem : Option Json) (st : Found) → IsFound st → Ensures (IsRead st) (read_elem lib elem st)
  unfolding read_elem IsRead Grows
  read_elem-IsRead none st h = ((h, omega arith), ((λ ne. absurd (ne refl)), omega arith))
  read_elem-IsRead (some v) st h =
      Ensures->>= (Grows st) (IsRead st)
        (read_outbounds lib (items lib (jsonx_obj_get lib v (codes "outbounds"))) st) _
        (read_outbounds-Grows (items lib (jsonx_obj_get lib v (codes "outbounds"))) st h)
        λ st' g. (g, ((λ _. (refl, (_, refl))), omega (arith, g.1)))

  pub read_elems-IsAllRead :
      (elems : List (Option Json)) (st : Found)
      → IsFound st
      → Ensures (IsAllRead st) (read_elems lib elems st)
  unfolding read_elems
  read_elems-IsAllRead [] st h = (h, omega arith, refl)
  read_elems-IsAllRead (elem ∷ elems) st h =
      let ih = λ (a : Found) (g : IsFound a). read_elems-IsAllRead elems a g in
      Ensures->>= (IsRead st) (IsAllRead st) (read_elem lib (object_of lib elem) st) _
        (read_elem-IsRead (object_of lib elem) st h)
        λ r g. tile_step r g (read_elems lib elems r.1) (ih r.1 (unfold IsRead Grows in g.0.0))
    where
      tile_step :
          (r : Meta × Found)
          → IsRead st r
          → (o : Outcome (List Meta × Found)) → Ensures (IsAllRead r.1) o
          → Ensures (IsAllRead st) (o >>= λ rest. done (r.0 ∷ rest.0, rest.1))
      tile_step r g (done q) (found, le, tile) =
          unfold IsRead Grows in
          (
            found,
            omega (arith, g.0.1, le),
            (g.1.0, subst (λ x. Tile x q.0 (length q.1.nodes)) (sym g.1.1) tile),
          )
      tile_step r g failed k = tt
      tile_step r g fault k = k
