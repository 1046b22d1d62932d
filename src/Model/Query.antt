-- ===== src/Model/Query.antt =====
-- `parse_query` of sub-converter/src/model.c. The loop over the segments has fuel, one round for
-- each byte and one more (`Fuel` shows that this is enough); `none` of an index is 0, as in the
-- source, so an index 0 that is found counts as missing.
pub mod Fuel
pub mod RoundTrip
pub mod EmptyValue
use openwrt_sub_converter.Common.{
  ℕ, zero, suc, ◌+◌, ◌-◌, ◌*◌, ◌/◌, ◌%◌, ◌^◌, ◌<◌, ◌≤◌, Bool, true, false, not, ◌&&◌, ◌||◌, List,
  [], ◌∷◌, ◌++◌, append_assoc, append-nil, Option, none, some, ◌≡◌, ◌≢◌, ◌↔◌, ◌⊎◌, inl, inr, refl,
  sym, subst, fun_ext, ◌∙◌, ap, arith, Bytes, IsBytes, Lacks, All, All-append, codes, get_or,
  length, take, drop, length-append, length-take, length-drop, take-length-append, take-length,
  drop_behind, drop-length-append, replicate, length-replicate, equal, equal_iff, c_str,
  c_str-Lacks, Lacks-c_str, is_space, is_digit, if◌then◌else◌, ◌==◌, ltb, leb, ==_iff, Bool-cases,
  Option-cases, all_below, all_below_sound, all_below_sound₂, Outcome, done, failed, fault, ◌>>=◌,
  ◌>>◌, >>=-eq-done, >>=-ne-fault, Returns, Ensures, Returns->>=, Ensures->>=, Returns-done,
  Ensures-ne-fault, Returns-Ensures,
}
use openwrt_sub_converter.Buffer.{Buffer, clear, dup_data}
use openwrt_sub_converter.Url.{url_decode}

pub record KvPair : Type 0 where
  pub key : Bytes
  pub value : Bytes

pub record QueryState : Type 0 where
  pub pairs : List KvPair
  pub ksb : Buffer
  pub vsb : Buffer

-- `n` bytes from `off` on.
abbrev pub slice : Bytes → ℕ → ℕ → Bytes
slice s off n = take n (drop off s)

-- The first index of `c` in a text that starts at index `i`, or 0.
unfoldable pub find_or_zero : ℕ → Bytes → ℕ → ℕ
find_or_zero c [] i = 0
find_or_zero c (d ∷ rest) i =
    let further = find_or_zero c rest (i + 1) in if d == c then i else further

unfoldable pub store_pair : Bytes → ℕ → ℕ → ℕ → QueryState → Outcome QueryState
store_pair s i eq seg_end st = do
  ksb ← url_decode (slice s i (eq - i)) (clear st.ksb)
  vsb ← url_decode (slice s (eq + 1) (seg_end - eq - 1)) (clear st.vsb)
  key ← dup_data ksb
  value ← dup_data vsb
  done (record {
    pairs = st.pairs ++ record { key = key; value = value } ∷ [];
    ksb = ksb;
    vsb = vsb;
  })

unfoldable pub query_segment : Bytes → ℕ → ℕ → ℕ → QueryState → Outcome QueryState
unfolding store_pair
query_segment s i eq seg_end st =
    if not (eq == 0) && ltb eq seg_end then store_pair s i eq seg_end st else done st

-- `stuck` stands for what becomes of a loop that is not at its end when the rounds are used up.
unfoldable pub query_loop : Outcome QueryState → ℕ → Bytes → ℕ → QueryState → Outcome QueryState
unfolding find_or_zero query_segment
query_loop stuck zero s i st = stuck
query_loop stuck (suc f) s i st =
    let eq = find_or_zero b'=' (drop i s) i in
    let amp = find_or_zero b'&' (drop i s) i in
    let seg_end = if amp == 0 then length s else amp in
    let next = λ (st' : QueryState). query_loop stuck f s (amp + 1) st' in
    if ltb i (length s)
    then (do st' ← query_segment s i eq seg_end st; if amp == 0 then done st' else next st')
    else done st

unfoldable pub parse_query : Bytes → Outcome (List KvPair)
unfolding query_loop
parse_query s = do
  st ← query_loop fault (suc (length s)) s 0 (record { pairs = []; ksb = none; vsb = none })
  done st.pairs
