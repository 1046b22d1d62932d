-- ===== src/Model/Share.antt =====
-- `node_parse_share` of sub-converter/src/model.c, which chooses the parser by the scheme of the
-- line. The return code -1, `failed`, leaves the caller's node as `node_clear` makes it.
pub mod Address
pub mod Valid
pub mod Scheme
use openwrt_sub_converter.Common.{
  ℕ, zero, suc, ◌+◌, ◌-◌, ◌*◌, ◌/◌, ◌%◌, ◌^◌, ◌<◌, ◌≤◌, Bool, true, false, not, ◌&&◌, ◌||◌, List,
  [], ◌∷◌, ◌++◌, append_assoc, append-nil, Option, none, some, ◌≡◌, ◌≢◌, ◌↔◌, ◌⊎◌, inl, inr, refl,
  sym, subst, fun_ext, ◌∙◌, ap, arith, Bytes, IsBytes, Lacks, All, All-append, codes, get_or,
  length, take, drop, length-append, length-take, length-drop, take-length-append, take-length,
  drop_behind, drop-length-append, replicate, length-replicate, equal, equal_iff, c_str,
  c_str-Lacks, Lacks-c_str, is_space, is_digit, if◌then◌else◌, ◌==◌, ltb, leb, ==_iff, Bool-cases,
  Option-cases, all_below, all_below_sound, all_below_sound₂, Outcome, done, failed, fault, ◌>>=◌,
  ◌>>◌, >>=-eq-done, >>=-ne-fault, Returns, Ensures, Returns->>=, Ensures->>=, Returns-done,
  Ensures-ne-fault, Returns-Ensures,
}
use openwrt_sub_converter.Model.Json.{JsonC}
use openwrt_sub_converter.Model.Links.{parse_vless_like, parse_ss}
use openwrt_sub_converter.Model.Vmess.{parse_vmess}
use openwrt_sub_converter.Model.{ProxyNode, NodeType, node_init}

-- The length that `trim_crlf` leaves of the first `len` bytes.
unfoldable pub trim_crlf : Bytes → ℕ → ℕ
trim_crlf line zero = 0
trim_crlf line (suc len) =
    let shorter = trim_crlf line len in
    if get_or line len 0 == b'\n' || get_or line len 0 == b'\r' then shorter else suc len

unfoldable pub prefix_match : Bytes → Bytes → Bool
prefix_match line scheme =
    leb (length scheme) (length line) && equal (take (length scheme) line) scheme

module _ (lib : JsonC) where
  unfoldable pub parse_scheme : Bytes → Outcome ProxyNode
  unfolding prefix_match
  parse_scheme line =
      if prefix_match line (codes "vless://")
      then parse_vless_like (drop 8 line) NodeType.vless node_init
      else if prefix_match line (codes "trojan://")
      then parse_vless_like (drop 9 line) NodeType.trojan node_init
      else if prefix_match line (codes "vmess://")
      then parse_vmess lib (drop 8 line) node_init
      else if prefix_match line (codes "ss://")
      then parse_ss (drop 5 line) node_init
      else failed

  unfoldable pub node_parse_share : Bytes → Outcome ProxyNode
  unfolding parse_scheme trim_crlf
  node_parse_share line = parse_scheme (take (trim_crlf line (length line)) line)
