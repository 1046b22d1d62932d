-- ===== src/Model/Name.antt =====
-- The name of a node, sub-converter/src/model.c: from the fragment of the link, or else from the
-- address.
use openwrt_sub_converter.Common.{
  ℕ, ◌+◌, ◌-◌, ◌^◌, ltb, ◌∷◌, ◌++◌, none, some, Bytes, length, if◌then◌else◌, leb, Outcome, done,
  failed, fault, ◌>>=◌,
}
use openwrt_sub_converter.Buffer.{dup_data}
use openwrt_sub_converter.Libc.{format_int}
use openwrt_sub_converter.Model.Query.{slice}
use openwrt_sub_converter.Model.{ProxyNode}
use openwrt_sub_converter.Url.{url_decode}

-- An empty fragment leaves the buffer without a block, and the copy reads through NULL.
unfoldable pub name_from_fragment : Bytes → ℕ → Outcome Bytes
name_from_fragment s frag =
    if leb (length s) frag
    then failed
    else do sb ← url_decode (slice s (frag + 1) (length s - frag - 1)) none; dup_data sb

-- A text longer than an `int` holds is refused by `vsnprintf`, which leaves the buffer without a
-- block.
unfoldable pub copy_formatted : Bytes → ProxyNode → Outcome ProxyNode
copy_formatted text n =
    if ltb (length text) (2 ^ 31) then done (record n { name = some text }) else fault

-- "%s:%d"; a NULL server is undefined behaviour.
unfoldable pub set_name_fallback : ProxyNode → Outcome ProxyNode
unfolding copy_formatted
set_name_fallback n = elim n.server [
  | none ↦ fault
  | some server ↦ copy_formatted (server ++ b':' ∷ format_int n.port) n
]

unfoldable pub name_or_fallback : Outcome Bytes → ProxyNode → Outcome ProxyNode
name_or_fallback (done name) n = done (record n { name = some name })
name_or_fallback failed n = set_name_fallback n
name_or_fallback fault n = fault

-- The last step of `parse_vless_like` and of `parse_ss`.
unfoldable pub set_name : Bytes → ℕ → ProxyNode → Outcome ProxyNode
unfolding name_or_fallback
set_name s frag n = name_or_fallback (name_from_fragment s frag) n
