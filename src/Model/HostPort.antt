-- ===== src/Model/HostPort.antt =====
-- `parse_host_port` of sub-converter/src/model.c. The argument `mem` is the memory from `s` on, as
-- far as the caller's line goes, and `len` the length that is passed: a caller may pass more than
-- there is, so a read behind the end of `mem` is a fault. The loops recur on the memory.
pub mod Bounds
pub mod RoundTrip
use openwrt_sub_converter.Common.{
  ℕ, zero, suc, ◌+◌, ◌-◌, ◌*◌, ◌/◌, ◌%◌, ◌^◌, ◌<◌, ◌≤◌, Bool, true, false, not, ◌&&◌, ◌||◌, List,
  [], ◌∷◌, ◌++◌, append_assoc, append-nil, Option, none, some, ◌≡◌, ◌≢◌, ◌↔◌, ◌⊎◌, inl, inr, refl,
  sym, fun_ext, ◌∙◌, ap, arith, Bytes, IsBytes, Lacks, All, All-append, codes, get_or, length, take,
  drop, length-append, length-take, length-drop, take-length-append, drop-length-append, replicate,
  length-replicate, equal, equal_iff, c_str, c_str-Lacks, Lacks-c_str, is_space, is_digit,
  if◌then◌else◌, ◌==◌, ltb, leb, ==_iff, Bool-cases, Option-cases, all_below, all_below_sound,
  all_below_sound₂, Outcome, done, failed, fault, ◌>>=◌, ◌>>◌, >>=-eq-done, >>=-ne-fault,
}
use openwrt_sub_converter.Libc.{ℤ, pos, negsuc, strtol}

-- Where the host and the port stand.
pub record Split : Type 0 where
  pub host : Bytes
  pub port_mem : Bytes
  pub port_len : ℕ

-- `s[i + 1]` behind a `]` at `i`: the test `i + 1 >= len`, and the colon.
after_bracket : Bytes → Bytes → ℕ → ℕ → Outcome Split
after_bracket host rest i len = if leb len (i + 1) then failed else elim rest [
  | [] ↦ fault
  | d ∷ r ↦
      if d == b':'
      then done (record { host = host; port_mem = r; port_len = len - i - 2 })
      else failed
]

-- The loop for `]` from index `i` on; `host` is what stands between the bracket and `i`.
find_bracket : Bytes → Bytes → ℕ → ℕ → Outcome Split
unfolding after_bracket
find_bracket host [] i len = if ltb i len then fault else failed
find_bracket host (c ∷ rest) i len =
    let further = find_bracket (host ++ c ∷ []) rest (i + 1) len in
    if ltb i len then if c == b']' then after_bracket host rest i len else further else failed

-- The loop for the last colon.
find_colon : Bytes → ℕ → ℕ → Option ℕ → Outcome (Option ℕ)
find_colon [] i len last = if ltb i len then fault else done last
find_colon (c ∷ rest) i len last =
    let further = find_colon rest (i + 1) len (if c == b':' then some i else last) in
    if ltb i len then further else done last

split_at_colon : Bytes → ℕ → Option ℕ → Outcome Split
split_at_colon mem len none = failed
split_at_colon mem len (some colon) =
    done (record {
      host = take colon mem;
      port_mem = drop (colon + 1) mem;
      port_len = len - colon - 1;
    })

split_plain : Bytes → ℕ → Outcome Split
unfolding find_colon split_at_colon
split_plain mem len = do last ← find_colon mem 0 len none; split_at_colon mem len last

split_host_port : Bytes → ℕ → Outcome Split
unfolding find_bracket split_plain
split_host_port [] len = if ltb 0 len then fault else split_plain [] len
split_host_port (c ∷ rest) len =
    if ltb 0 len && c == b'[' then find_bracket [] rest 1 len else split_plain (c ∷ rest) len

-- `memcpy` of the port into the buffer of 16 bytes.
read_port : Bytes → ℕ → Outcome Bytes
read_port mem n = if leb n (length mem) then done (take n mem) else fault

-- The tests on what `strtol` returns.
check_port : Option (ℤ × Bytes) → Outcome ℕ
check_port none = failed
check_port (some (negsuc n, rest)) = failed
check_port (some (pos n, c ∷ rest)) = failed
check_port (some (pos n, [])) = if ltb n 1 || ltb 65535 n then failed else done n

finish_host_port : Split → Outcome (Bytes × ℕ)
unfolding read_port check_port
finish_host_port r =
    if length r.host == 0 || (r.port_len == 0 || leb 16 r.port_len) then failed else do
      portbuf ← read_port r.port_mem r.port_len
      port ← check_port (strtol (c_str portbuf))
      done (c_str r.host, port)

unfoldable pub parse_host_port : Bytes → ℕ → Outcome (Bytes × ℕ)
unfolding split_host_port finish_host_port
parse_host_port mem len = do r ← split_host_port mem len; finish_host_port r
