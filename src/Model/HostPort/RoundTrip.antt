-- ===== src/Model/HostPort/RoundTrip.antt =====
-- Addresses that `parse_host_port` reads back.
use openwrt_sub_converter.Common.{
  ℕ, suc, ◌+◌, ◌-◌, ◌<◌, true, false, ◌&&◌, ◌||◌, [], ◌∷◌, ◌++◌, append_assoc, append-nil, Option,
  none, some, ◌≡◌, ◌≢◌, refl, ◌∙◌, ap, arith, Bytes, Lacks, length, length-append,
  take-length-append, drop_behind, c_str, c_str-Lacks, is_digit, if◌then◌else◌, ◌==◌, ltb, leb,
  done,
}
use openwrt_sub_converter.Libc.{pos, decimal}
use openwrt_sub_converter.Libc.Decimal.{
  strtol-decimal, decimal-IsDigit, Lacks-IsDigit, decimal-length, decimal-nonempty,
}
use openwrt_sub_converter.Model.HostPort.Bounds.{IsPort}
use openwrt_sub_converter.Model.HostPort.{
  after_bracket, find_bracket, find_colon, split_at_colon, split_plain, split_host_port, read_port,
  check_port, finish_host_port, parse_host_port,
}

read_port-append : (s after : Bytes) → read_port (s ++ after) (length s) ≡ done s
unfolding read_port
read_port-append s after =
    let total = length-append s after in
    let test : leb (length s) (length (s ++ after)) ≡ true = ground arith in
    rw test (rw (take-length-append s after))

finish_decimal :
    (host : Bytes) (p : ℕ) (after : Bytes)
    → 0 < length host
    → Lacks 0 host
    → IsPort p
    → finish_host_port
        (record { host = host; port_mem = decimal p ++ after; port_len = length (decimal p) })
      ≡ done (host, p)
unfolding finish_host_port
finish_decimal host p after nonempty clean (lo, hi) =
    let short = decimal-length 4 p (omega arith) in
    let some_digit = decimal-nonempty p in
    let test : (length host == 0 || (length (decimal p) == 0 || leb 16 (length (decimal p))))
        ≡ false =
      ground arith in
    let whole : c_str (decimal p) ≡ decimal p =
      c_str-Lacks (decimal p)
        (Lacks-IsDigit 0 (decimal p) (unfold is_digit in refl) (decimal-IsDigit p)) in
    let checked : check_port (some (pos p, [])) ≡ done p = unfold check_port in ground arith in
    rw (test, read_port-append (decimal p) after)
      (rw (whole, strtol-decimal p (omega arith)) (rw (checked, c_str-Lacks host clean)))

find_colon_end :
    (after : Bytes) (i len : ℕ) (last : Option ℕ)
    → len ≡ i
    → find_colon after i len last ≡ done last
unfolding find_colon
find_colon_end [] i len last h = ground arith
find_colon_end (c ∷ after) i len last h = ground arith

find_colon-Lacks :
    (s after : Bytes) (i len : ℕ) (last : Option ℕ)
    → len ≡ i + length s
    → Lacks b':' s
    → find_colon (s ++ after) i len last ≡ done last
unfolding find_colon
find_colon-Lacks [] after i len last h k = find_colon_end after i len last (omega arith)
find_colon-Lacks (c ∷ s) after i len last h k =
    ground (arith, find_colon-Lacks s after (i + 1) len last)

find_colon-append :
    (host s after : Bytes) (i len : ℕ) (last : Option ℕ)
    → len ≡ i + length host + 1 + length s
    → Lacks b':' s
    → find_colon (host ++ b':' ∷ (s ++ after)) i len last ≡ done (some (i + length host))
unfolding find_colon
find_colon-append [] s after i len last h k =
    ground (arith, find_colon-Lacks s after (i + 1) len (some i))
find_colon-append (c ∷ host) s after i len last h k =
    ground (arith, find_colon-append host s after (i + 1) len (if c == b':' then some i else last))

find_bracket-append :
    (before host mem : Bytes) (i len k : ℕ)
    → len ≡ i + length host + 2 + k
    → Lacks b']' host
    → find_bracket before (host ++ b']' ∷ b':' ∷ mem) i len
      ≡ done (record { host = before ++ host; port_mem = mem; port_len = k })
unfolding find_bracket after_bracket
find_bracket-append before [] mem i len k h l = ground (arith, append-nil before)
find_bracket-append before (c ∷ host) mem i len k h l = ground (
  arith,
  find_bracket-append (before ++ c ∷ []) host mem (i + 1) len k,
  append_assoc before (c ∷ []) host,
)

-- No bracket in front.
abbrev pub IsPlainHost : Bytes → Type 0
IsPlainHost [] = ⊥
IsPlainHost (c ∷ host) = c ≢ b'['

split_plain-append :
    (host s after : Bytes) (len : ℕ)
    → len ≡ length host + 1 + length s
    → Lacks b':' s
    → split_plain (host ++ b':' ∷ (s ++ after)) len
      ≡ done (record { host = host; port_mem = s ++ after; port_len = length s })
unfolding split_plain split_at_colon
split_plain-append host s after len h no_colon =
    let rest : len - length host - 1 ≡ length s = omega arith in
    let behind : length host + 1 ≡ suc (length host) = omega arith in
    let found : find_colon (host ++ b':' ∷ (s ++ after)) 0 len none ≡ done (some (length host)) =
      find_colon-append host s after 0 len none (omega arith) no_colon
      ∙ ap (λ k. done (some k)) (omega arith) in
    rw found (
      rw (
        rest,
        behind,
        take-length-append host (b':' ∷ (s ++ after)),
        drop_behind host (s ++ after) b':',
      ))

split_host_port-plain :
    (host mem : Bytes) (len : ℕ)
    → IsPlainHost host
    → split_host_port (host ++ mem) len ≡ split_plain (host ++ mem) len
unfolding split_host_port
split_host_port-plain [] mem len h = absurd h
split_host_port-plain (c ∷ host) mem len h = ground arith

IsPlainHost-nonempty : (host : Bytes) → IsPlainHost host → 0 < length host
IsPlainHost-nonempty [] h = absurd h
IsPlainHost-nonempty (c ∷ host) h = omega arith

-- A host of any bytes but NUL, that does not start with a bracket, with a colon and a port between
-- 1 and 65535 in decimal, is read back, whatever stands in memory behind it: the host may itself
-- hold colons, since the last one counts.
pub parse_host_port-plain :
    (host : Bytes) (p : ℕ) (after : Bytes)
    → IsPlainHost host
    → Lacks 0 host
    → IsPort p
    → parse_host_port (host ++ b':' ∷ (decimal p ++ after)) (length host + 1 + length (decimal p))
      ≡ done (host, p)
unfolding parse_host_port
parse_host_port-plain host p after plain clean ok =
    let no_colon = Lacks-IsDigit b':' (decimal p) (unfold is_digit in refl) (decimal-IsDigit p) in
    rw
      (split_host_port-plain host (b':' ∷ (decimal p ++ after))
        (length host + 1 + length (decimal p)) plain)
      (rw (split_plain-append host (decimal p) after _ refl no_colon)
        (finish_decimal host p after (IsPlainHost-nonempty host plain) clean ok))

-- An IPv6 address in brackets, with a colon and a port between 1 and 65535 in decimal, is read
-- back without its brackets, whatever stands in memory behind it.
pub parse_host_port_bracketed :
    (host : Bytes) (p : ℕ) (after : Bytes)
    → host ≢ []
    → Lacks b']' host
    → Lacks 0 host
    → IsPort p
    → parse_host_port
        (b'[' ∷ (host ++ b']' ∷ b':' ∷ (decimal p ++ after)))
        (1 + length host + 2 + length (decimal p))
      ≡ done (host, p)
unfolding parse_host_port split_host_port
parse_host_port_bracketed host p after ne close clean ok =
    let len = 1 + length host + 2 + length (decimal p) in
    let test : (ltb 0 len && true) ≡ true = ground arith in
    rw test (
      rw
        (find_bracket-append [] host (decimal p ++ after) 1 len (length (decimal p)) (omega arith)
          close)
        (finish_decimal host p after (nonempty host ne) clean ok))
  where
    nonempty : (host : Bytes) → host ≢ [] → 0 < length host
    nonempty [] h = absurd (h refl)
    nonempty (c ∷ host) h = omega arith
