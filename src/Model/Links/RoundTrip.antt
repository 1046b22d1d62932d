-- ===== src/Model/Links/RoundTrip.antt =====
-- A link of the vless form, written with percent-encoding, is read back.
use openwrt_sub_converter.Common.{
  ℕ, ◌+◌, ◌-◌, ◌^◌, ◌<◌, true, false, List, ◌∷◌, ◌++◌, append_assoc, none, some, ◌≡◌, ◌≢◌, refl,
  sym, ◌∙◌, ap, arith, Bytes, Lacks, All, All-append, length, take, drop, length-append,
  take-length-append, take-length, c_str-Lacks, is_digit, if◌then◌else◌, ◌==◌, ltb, leb, done,
  ◌>>=◌,
}
use openwrt_sub_converter.Buffer.{append_chars-clear, dup_data}
use openwrt_sub_converter.Libc.Decimal.{decimal-IsDigit, Lacks-IsDigit}
use openwrt_sub_converter.Libc.{pos, decimal}
use openwrt_sub_converter.Model.Apply.{apply_query}
use openwrt_sub_converter.Model.Apply.Fields.{IsApplied, apply_query-IsApplied}
use openwrt_sub_converter.Model.HostPort.Bounds.{IsPort}
use openwrt_sub_converter.Model.HostPort.RoundTrip.{IsPlainHost, parse_host_port-plain}
use openwrt_sub_converter.Model.HostPort.{parse_host_port}
use openwrt_sub_converter.Model.Links.{
  find_before, sub_size, start_node, set_credential, apply_link_query, vless_at, parse_vless_like,
  is_trojan,
}
use openwrt_sub_converter.Model.Name.{name_from_fragment, set_name, name_or_fallback}
use openwrt_sub_converter.Model.Query.RoundTrip.{
  IsText, IsPair, render_query, escape-Lacks, parse_query-render_query,
}
use openwrt_sub_converter.Model.Query.{KvPair, slice, parse_query}
use openwrt_sub_converter.Model.{ProxyNode, NodeType, NodeTls}
use openwrt_sub_converter.Url.RoundTrip.{escape, decode-escape}
use openwrt_sub_converter.Url.{is_unreserved, url_decode}
use openwrt_sub_converter.Model.Links.Delimiters.{
  find_before-append, render_query-Lacks, drop_at, decoded_copy,
}

-- The parts of a link: the credential, the address, the query and the name.
abbrev pub link_text : Bytes → Bytes → Bytes → Bytes → Bytes
link_text credential address query name =
    credential ++ b'@' ∷ (address ++ b'?' ∷ (query ++ b'#' ∷ name))

-- An address that can stand in a link.
pub record IsAddress (host : Bytes) (p : ℕ) : Type 0 where
  pub plain : IsPlainHost host
  pub no_nul : Lacks 0 host
  pub no_query : Lacks b'?' host
  pub no_fragment : Lacks b'#' host
  pub port : IsPort p

-- The node of a link before its query: a trojan link has TLS and a password, any other a UUID.
pub link_node : NodeType → ProxyNode → Bytes → Bytes → ℕ → ProxyNode
link_node NodeType.trojan n credential host p = record n {
  type = NodeType.trojan;
  udp = pos 1;
  tls = NodeTls.tls;
  password = some credential;
  server = some host;
  port = pos p;
}
link_node type n credential host p = record n {
  type = type;
  udp = pos 1;
  uuid = some credential;
  server = some host;
  port = pos p;
}

set_credential-link_node :
    (type : NodeType) (n : ProxyNode) (credential host : Bytes) (p : ℕ)
    → record (set_credential type credential (start_node type n)) {
      server = some host;
      port = pos p;
    }
      ≡ link_node type n credential host p
unfolding set_credential start_node is_trojan link_node
set_credential-link_node NodeType.unknown n credential host p = refl
set_credential-link_node NodeType.vless n credential host p = refl
set_credential-link_node NodeType.vmess n credential host p = refl
set_credential-link_node NodeType.trojan n credential host p = refl
set_credential-link_node NodeType.shadowsocks n credential host p = refl
set_credential-link_node NodeType.socks5 n credential host p = refl
set_credential-link_node NodeType.http_proxy n credential host p = refl
set_credential-link_node NodeType.hysteria2 n credential host p = refl

module _ (type : NodeType) (n : ProxyNode) (credential host : Bytes) (p : ℕ) (pairs : List KvPair)
    (name : Bytes) (cred_ok : IsText credential) (address : IsAddress host p)
    (pairs_ok : All IsPair pairs) (name_ok : IsText name) where
  a : Bytes
  a = escape credential

  hp : Bytes
  hp = host ++ b':' ∷ decimal p

  q : Bytes
  q = render_query pairs

  link : Bytes
  unfolding a hp q
  link = link_text a hp q (escape name)

  before_query : Bytes
  unfolding a hp
  before_query = a ++ b'@' ∷ hp

  before_name : Bytes
  unfolding before_query q
  before_name = before_query ++ b'?' ∷ q

  link-query : link ≡ before_query ++ b'?' ∷ (q ++ b'#' ∷ escape name)
  unfolding link before_query
  link-query = sym (append_assoc a (b'@' ∷ hp) (b'?' ∷ (q ++ b'#' ∷ escape name)))

  link-name : link ≡ before_name ++ b'#' ∷ escape name
  unfolding before_name
  link-name = link-query ∙ sym (append_assoc before_query (b'?' ∷ q) (b'#' ∷ escape name))

  hp-Lacks : (b : ℕ) → is_digit b ≡ false → b ≢ b':' → Lacks b host → Lacks b hp
  unfolding hp
  hp-Lacks b d c h =
      All-append (λ x. x ≢ b) host (b':' ∷ decimal p) h
        ((λ e. c (sym e)), Lacks-IsDigit b (decimal p) d (decimal-IsDigit p))

  query-Lacks :
      (b : ℕ)
      → is_unreserved b ≡ false
      → b ≢ b'%'
      → b ≢ b'@'
      → is_digit b ≡ false
      → b ≢ b':'
      → Lacks b host
      → Lacks b before_query
  unfolding before_query a
  query-Lacks b u e at d c h =
      All-append (λ x. x ≢ b) a (b'@' ∷ hp) (escape-Lacks b credential u e cred_ok.bytes)
        ((λ x. at (sym x)), hp-Lacks b d c h)

  name-Lacks : Lacks b'#' before_name
  unfolding before_name q
  name-Lacks =
      All-append (λ x. x ≢ b'#') before_query (b'?' ∷ q)
        (query-Lacks b'#' (unfold is_unreserved in refl) (omega arith) (omega arith)
          (unfold is_digit in refl) (omega arith) address.no_fragment)
        (
          omega arith,
          render_query-Lacks b'#' pairs (unfold is_unreserved in refl) (omega arith) (omega arith)
              (omega arith) pairs_ok,
        )

  length_name : length link ≡ length before_name + 1 + length (escape name)
  length_name = ap length link-name ∙ omega (arith, length-append before_name (b'#' ∷ escape name))

  length_query : length before_name ≡ length before_query + 1 + length q
  unfolding before_name
  length_query = omega (arith, length-append before_query (b'?' ∷ q))

  length_at : length before_query ≡ length a + 1 + length hp
  unfolding before_query
  length_at = omega (arith, length-append a (b'@' ∷ hp))

  frag_at : find_before b'#' link (length link) (length link) ≡ length before_name
  frag_at =
      ap (λ s. find_before b'#' s (length link) (length link)) link-name
      ∙ find_before-append b'#' before_name (escape name) (length link) (length link)
          (omega (arith, length_name)) name-Lacks

  query_at : find_before b'?' link (length before_name) (length link) ≡ length before_query
  query_at =
      ap (λ s. find_before b'?' s (length before_name) (length link)) link-query
      ∙ find_before-append b'?' before_query (q ++ b'#' ∷ escape name) (length before_name)
          (length link) (omega (arith, length_query))
          (query-Lacks b'?' (unfold is_unreserved in refl) (omega arith) (omega arith)
            (unfold is_digit in refl) (omega arith) address.no_query)

  at_at : find_before b'@' link (length before_query) (length link) ≡ length a
  unfolding link a
  at_at =
      find_before-append b'@' a (hp ++ b'?' ∷ (q ++ b'#' ∷ escape name)) (length before_query)
        (length link) (omega (arith, length_at))
        (escape-Lacks b'@' credential (unfold is_unreserved in refl) (omega arith) cred_ok.bytes)

  query_text :
      slice link (length before_query + 1) (length before_name - length before_query - 1) ≡ q
  query_text =
      ap (λ s. slice s (length before_query + 1) (length before_name - length before_query - 1))
        link-query
      ∙ ap (take (length before_name - length before_query - 1))
          (drop_at before_query (q ++ b'#' ∷ escape name) b'?')
      ∙ ap (λ k. take k (q ++ b'#' ∷ escape name)) (omega (arith, length_query))
      ∙ take-length-append q (b'#' ∷ escape name)

  fragment_text :
      slice link (length before_name + 1) (length link - length before_name - 1) ≡ escape name
  fragment_text =
      ap (λ s. slice s (length before_name + 1) (length link - length before_name - 1)) link-name
      ∙ ap (take (length link - length before_name - 1)) (drop_at before_name (escape name) b'#')
      ∙ ap (λ k. take k (escape name)) (omega (arith, length_name))
      ∙ take-length (escape name)

  name_text : name_from_fragment link (length before_name) ≡ done name
  unfolding name_from_fragment
  name_text =
      let total = length_name in
      let test : leb (length link) (length before_name) ≡ false = ground arith in
      rw test (
        ap (λ t. url_decode t none >>= λ sb. dup_data sb) fragment_text ∙ decoded_copy name name_ok)

  behind : Bytes
  behind = b'?' ∷ (q ++ b'#' ∷ escape name)

  address_text :
      length link < 2 ^ 64
      → parse_host_port (drop (length a + 1) link) (sub_size (length before_query) (length a + 1))
        ≡ done (host, p)
  address_text fits =
      ap (λ m. parse_host_port m (sub_size (length before_query) (length a + 1))) memory
      ∙ ap (parse_host_port (host ++ b':' ∷ (decimal p ++ behind))) size
      ∙ parse_host_port-plain host p behind address.plain address.no_nul address.port
    where
      memory : drop (length a + 1) link ≡ host ++ b':' ∷ (decimal p ++ behind)
      memory =
          unfold link hp behind in
          (drop_at a ((host ++ b':' ∷ decimal p) ++ b'?' ∷ (q ++ b'#' ∷ escape name)) b'@'
            ∙ append_assoc host (b':' ∷ decimal p) (b'?' ∷ (q ++ b'#' ∷ escape name)))

      size_hp : length hp ≡ length host + 1 + length (decimal p)
      size_hp = unfold hp in omega (arith, length-append host (b':' ∷ decimal p))

      size : sub_size (length before_query) (length a + 1) ≡ length host + 1 + length (decimal p)
      size = omega (arith, length_at, size_hp, length_query, length_name, fits)

  credential_text : take (length a) link ≡ escape credential
  unfolding link a
  credential_text = take-length-append (escape credential) _

  parsed_query : parse_query q ≡ done pairs
  unfolding q
  parsed_query = parse_query-render_query pairs pairs_ok

  cred_decoded : url_decode (take (length a) link) none ≡ done (some credential)
  cred_decoded =
      ap (λ t. url_decode t none) credential_text
      ∙ decode-escape credential none cred_ok.bytes
      ∙ ap done (append_chars-clear none credential cred_ok.nonempty)

  query_applied :
      (m : ProxyNode)
      → apply_link_query apply_query link (length before_query) (length before_name) m
        ≡ done (apply_query pairs m)
  unfolding apply_link_query
  query_applied m =
      let longer = length_query in
      let test : ltb (length before_query) (length before_name) ≡ true = ground arith in
      rw test (
        ap (λ t. parse_query t >>= λ r. done (apply_query r m)) query_text
        ∙ ap (λ o. o >>= λ r. done (apply_query r m)) parsed_query)

  named :
      (m : ProxyNode) → set_name link (length before_name) m ≡ done (record m { name = some name })
  unfolding set_name name_or_fallback
  named m = ap (λ o. name_or_fallback o m) name_text

  vless_at-link :
      length link < 2 ^ 64
      → vless_at link type n (length before_name) (length before_query) (length a)
        ≡ done
            (record (apply_query pairs
              (record (set_credential type credential (start_node type n)) {
                server = some host;
                port = pos p;
              })) { name = some name })
  unfolding vless_at
  vless_at-link fits =
      let longer = length_query in
      let limit : (if ltb (length before_query) (length before_name)
            then length before_query
            else length before_name)
          ≡ length before_query =
        ground arith in
      rw cred_decoded (
        rw (c_str-Lacks credential cred_ok.no_nul) (
          rw limit (
            rw (address_text fits) (
              ap (λ o. o >>= λ m. set_name link (length before_name) m) (query_applied _)
              ∙ named _))))

  at_inside : (length a == length link) ≡ false
  at_inside = let l0 = length_at in let l1 = length_query in let l2 = length_name in ground arith

  parse_link :
      length link < 2 ^ 64
      → parse_vless_like link type n
        ≡ done
            (record (apply_query pairs
              (record (set_credential type credential (start_node type n)) {
                server = some host;
                port = pos p;
              })) { name = some name })
  unfolding parse_vless_like
  parse_link fits = rw frag_at (rw query_at (rw at_at (rw at_inside (vless_at-link fits))))

  parse_link_text :
      length link < 2 ^ 64
      → parse_vless_like link type n
        ≡ done
            (record (apply_query pairs (link_node type n credential host p)) { name = some name })
  parse_link_text fits =
      parse_link fits
      ∙ ap (λ (x : ProxyNode). done (record (apply_query pairs x) { name = some name }))
          (set_credential-link_node type n credential host p)

  -- A link written from its parts is read back into a node that has them: the credential as the
  -- password of a trojan link and as the UUID of any other, the address, UDP, the name, and in the
  -- other fields what the pairs of the query make of them, as `IsApplied` says. The credential, the
  -- query and the name are percent-encoded, the address is as it is, without NUL, `?` and `#` and
  -- with no bracket in front, the port between 1 and 65535, and the whole shorter than 2^64 bytes.
  pub parse_vless_like-link_text :
      length (
          link_text
            (escape credential)
            (host ++ b':' ∷ decimal p)
            (render_query pairs)
            (escape name))
        < 2 ^ 64
      → (r : ProxyNode) × (parse_vless_like
            (link_text
              (escape credential)
              (host ++ b':' ∷ decimal p)
              (render_query pairs)
              (escape name))
            type
            n
          ≡ done (record r { name = some name }))
        × IsApplied pairs (link_node type n credential host p) r
  parse_vless_like-link_text fits = (
    apply_query pairs (link_node type n credential host p),
    unfold link a hp q in parse_link_text fits,
    apply_query-IsApplied pairs (link_node type n credential host p),
  )
