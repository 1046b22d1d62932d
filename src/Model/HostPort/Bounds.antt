-- ===== src/Model/HostPort/Bounds.antt =====
-- What every successful call of `parse_host_port` returns, and that it stays inside its bytes.
use openwrt_sub_converter.Common.{
  ℕ, ◌+◌, ◌<◌, ◌≤◌, false, ◌&&◌, ◌||◌, [], ◌∷◌, ◌++◌, Option, none, some, ◌≡◌, inl, inr, arith,
  Bytes, Lacks, length, length-drop, c_str, Lacks-c_str, if◌then◌else◌, ◌==◌, ltb, leb, Bool-cases,
  Outcome, done, Returns, Ensures, Returns->>=, Ensures->>=, Returns-Ensures,
}
use openwrt_sub_converter.Libc.{ℤ, pos, negsuc, strtol}
use openwrt_sub_converter.Model.HostPort.{
  Split, after_bracket, find_bracket, find_colon, split_at_colon, split_plain, split_host_port,
  read_port, check_port, finish_host_port, parse_host_port,
}

-- A valid port.
abbrev pub IsPort : ℕ → Type 0
IsPort p = (1 ≤ p) × (p ≤ 65535)

-- What `parse_host_port` promises of its results.
abbrev pub IsHostPort : Bytes × ℕ → Type 0
IsHostPort r = IsPort r.1 × Lacks 0 r.0

check_port-IsPort : (o : Option (ℤ × Bytes)) → Ensures IsPort (check_port o)
unfolding check_port
check_port-IsPort none = tt
check_port-IsPort (some (negsuc n, rest)) = tt
check_port-IsPort (some (pos n, c ∷ rest)) = tt
check_port-IsPort (some (pos n, [])) = ground arith

-- The port lies inside the memory.
abbrev IsInside : Split → Type 0
IsInside r = r.port_len ≤ length r.port_mem

read_port_safe : (mem : Bytes) (n : ℕ) → n ≤ length mem → Ensures (λ _. Unit {0}) (read_port mem n)
unfolding read_port
read_port_safe mem n h = ground arith

finish-IsHostPort : (r : Split) → IsInside r → Ensures IsHostPort (finish_host_port r)
unfolding finish_host_port
finish-IsHostPort r h =
    elim (Bool-cases (length r.host == 0 || (r.port_len == 0 || leb 16 r.port_len))) [
      | inl bad ↦ rw bad tt
      | inr good ↦ rw good (
          Ensures->>= (λ _. Unit {0}) IsHostPort (read_port r.port_mem r.port_len) _
            (read_port_safe r.port_mem r.port_len h)
            λ portbuf _.
              Ensures->>= IsPort IsHostPort (check_port (strtol (c_str portbuf))) _
                (check_port-IsPort (strtol (c_str portbuf))) λ port ok. (ok, Lacks-c_str r.host))
    ]

find_bracket_safe :
    (host rest : Bytes) (i len : ℕ)
    → len ≤ i + length rest
    → Ensures IsInside (find_bracket host rest i len)
unfolding find_bracket after_bracket
find_bracket_safe host [] i len h = ground arith
find_bracket_safe host (c ∷ []) i len h =
    ground (arith, find_bracket_safe (host ++ c ∷ []) [] (i + 1) len)
find_bracket_safe host (c ∷ d ∷ rest) i len h =
    ground (arith, find_bracket_safe (host ++ c ∷ []) (d ∷ rest) (i + 1) len)

-- The last colon lies before the bound.
IsBefore : ℕ → Option ℕ → Type 0
IsBefore len none = Unit
IsBefore len (some i) = i < len

find_colon_safe :
    (rest : Bytes) (i len : ℕ) (last : Option ℕ)
    → len ≤ i + length rest
    → IsBefore len last
    → Ensures (IsBefore len) (find_colon rest i len last)
unfolding find_colon IsBefore
find_colon_safe [] i len last h k = ground arith
find_colon_safe (c ∷ rest) i len last h k =
    ground (arith, find_colon_safe rest (i + 1) len (if c == b':' then some i else last))

split_plain_safe :
    (mem : Bytes) (len : ℕ) → len ≤ length mem → Ensures IsInside (split_plain mem len)
unfolding split_plain
split_plain_safe mem len fits =
    Ensures->>= (IsBefore len) IsInside (find_colon mem 0 len none) _
      (find_colon_safe mem 0 len none (omega arith) (unfold IsBefore in tt)) split_at
  where
    split_at :
        (last : Option ℕ) → IsBefore len last → Ensures IsInside (split_at_colon mem len last)
    split_at none h = unfold split_at_colon in tt
    split_at (some i) h = unfold split_at_colon IsBefore in omega (arith, length-drop (i + 1) mem)

split_safe : (mem : Bytes) (len : ℕ) → len ≤ length mem → Ensures IsInside (split_host_port mem len)
split_safe [] len fits =
    let none_left : ltb 0 len ≡ false = ground arith in unfold split_host_port in rw none_left tt
split_safe (c ∷ rest) len fits =
    let bracket = find_bracket_safe [] rest 1 len (omega arith) in
    let plain = split_plain_safe (c ∷ rest) len fits in
    elim (Bool-cases (ltb 0 len && c == b'[')) [
      | inl b ↦ unfold split_host_port in rw b bracket
      | inr p ↦ unfold split_host_port in rw p plain
    ]

-- Called with a length that the memory has, `parse_host_port` reads nothing behind the memory; if
-- it succeeds, the port lies between 1 and 65535 and the server is a C string.
pub parse_host_port-IsHostPort :
    (mem : Bytes) (len : ℕ) → len ≤ length mem → Ensures IsHostPort (parse_host_port mem len)
unfolding parse_host_port
parse_host_port-IsHostPort mem len fits =
    Ensures->>= IsInside IsHostPort (split_host_port mem len) finish_host_port
      (split_safe mem len fits) finish-IsHostPort

finish-Returns : (r : Split) → Returns IsHostPort (finish_host_port r)
unfolding finish_host_port
finish-Returns r =
    elim (Bool-cases (length r.host == 0 || (r.port_len == 0 || leb 16 r.port_len))) [
      | inl bad ↦ rw bad tt
      | inr good ↦ rw good (
          Returns->>= (λ _. Unit {0}) IsHostPort (read_port r.port_mem r.port_len) _ anything
            λ portbuf _.
              Returns->>= IsPort IsHostPort (check_port (strtol (c_str portbuf))) _
                (Returns-Ensures IsPort _ (check_port-IsPort (strtol (c_str portbuf))))
                λ port ok. (ok, Lacks-c_str r.host))
    ]
  where
    anything : Returns (λ _. Unit {0}) (read_port r.port_mem r.port_len)
    anything = unfold read_port in ground arith

-- The same of the result, whatever length is passed with the memory.
pub parse_host_port-Returns : (mem : Bytes) (len : ℕ) → Returns IsHostPort (parse_host_port mem len)
unfolding parse_host_port
parse_host_port-Returns mem len =
    Returns->>= (λ _. Unit {0}) IsHostPort (split_host_port mem len) finish_host_port
      (Returns-any (split_host_port mem len)) (λ r _. finish-Returns r)
  where
    Returns-any : (o : Outcome Split) → Returns (λ _. Unit {0}) o
    Returns-any (done a) = tt
    Returns-any _ = tt
