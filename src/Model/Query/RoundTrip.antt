-- ===== src/Model/Query/RoundTrip.antt =====
-- Queries that `parse_query` reads back, and those that make it read through NULL.
use mathlib.Core.Bool.{false≢true}
use openwrt_sub_converter.Common.{
  fault, ℕ, zero, suc, ◌+◌, ◌-◌, ◌<◌, ◌≤◌, true, false, not, ◌&&◌, List, [], ◌∷◌, ◌++◌,
  append_assoc, append-nil, none, some, ◌≡◌, ◌≢◌, inl, inr, refl, sym, ◌∙◌, ap, arith, Bytes,
  IsBytes, Lacks, All, All-append, length, drop, length-append, take-length-append,
  drop-length-append, c_str-Lacks, ◌==◌, ltb, Bool-cases, done, ◌>>=◌,
}
use openwrt_sub_converter.Buffer.{Buffer, clear, append_chars-clear}
use openwrt_sub_converter.Url.RoundTrip.{escape, IsUrlChar, decode-escape, escape-IsUrlChar}
use openwrt_sub_converter.Url.{url_decode, is_unreserved}
use openwrt_sub_converter.Model.Query.Fuel.{query_loop_step}
use openwrt_sub_converter.Model.Query.{
  KvPair, QueryState, slice, find_or_zero, store_pair, query_segment, query_loop, parse_query,
}

-- `key=value`, percent-encoded.
abbrev pub pair_text : KvPair → Bytes
pair_text kv = escape kv.key ++ b'=' ∷ escape kv.value

-- The pairs with `&` between them.
abbrev pub render_query : List KvPair → Bytes
render_query [] = []
render_query (kv ∷ []) = pair_text kv
render_query (kv ∷ kv' ∷ pairs) = pair_text kv ++ b'&' ∷ render_query (kv' ∷ pairs)

-- A C string of at least one byte.
pub record IsText (s : Bytes) : Type 0 where
  pub nonempty : s ≢ []
  pub bytes : IsBytes s
  pub no_nul : Lacks 0 s

abbrev pub IsPair : KvPair → Type 0
IsPair kv = IsText kv.key × IsText kv.value

Lacks-IsUrlChar :
    (b : ℕ) (s : Bytes) → is_unreserved b ≡ false → b ≢ b'%' → All IsUrlChar s → Lacks b s
Lacks-IsUrlChar b [] u p h = tt
Lacks-IsUrlChar b (c ∷ s) u p (hc, hs) = (differ hc, Lacks-IsUrlChar b s u p hs)
  where
    differ : IsUrlChar c → c ≢ b
    differ (inl v) e = false≢true (sym u ∙ ap is_unreserved (sym e) ∙ v)
    differ (inr q) e = p (sym e ∙ q)

pub escape-Lacks :
    (b : ℕ) (s : Bytes) → is_unreserved b ≡ false → b ≢ b'%' → IsBytes s → Lacks b (escape s)
escape-Lacks b s u p h = Lacks-IsUrlChar b (escape s) u p (escape-IsUrlChar s h)

pub escape_nonempty : (s : Bytes) → s ≢ [] → 0 < length (escape s)
escape_nonempty [] h = absurd (h refl)
escape_nonempty (c ∷ s) h = elim (Bool-cases (is_unreserved c)) [
  | inl u ↦ rw u (omega arith)
  | inr e ↦ rw e (omega arith)
]

pub find_or_zero-append :
    (c : ℕ) (s rest : Bytes) (i : ℕ) → Lacks c s → find_or_zero c (s ++ c ∷ rest) i ≡ i + length s
unfolding find_or_zero
find_or_zero-append c [] rest i h = ground arith
find_or_zero-append c (d ∷ s) rest i h = ground (arith, find_or_zero-append c s rest (i + 1))

pub find_or_zero-Lacks : (c : ℕ) (s : Bytes) (i : ℕ) → Lacks c s → find_or_zero c s i ≡ 0
unfolding find_or_zero
find_or_zero-Lacks c [] i h = refl
find_or_zero-Lacks c (d ∷ s) i h = ground (arith, find_or_zero-Lacks c s (i + 1))

pub slice-append :
    (before s after : Bytes) → slice (before ++ (s ++ after)) (length before) (length s) ≡ s
slice-append before s after =
    rw (drop-length-append before (s ++ after)) (take-length-append s after)

decode_text : (s : Bytes) (b : Buffer) → IsText s → url_decode (escape s) (clear b) ≡ done (some s)
decode_text s b h = decode-escape s (clear b) h.bytes ∙ ap done (append_chars-clear b s h.nonempty)

-- One segment: the two slices are the texts of a pair.
store-pair :
    (s : Bytes) (i eq seg_end : ℕ) (st : QueryState) (kv : KvPair)
    → slice s i (eq - i) ≡ escape kv.key
    → slice s (eq + 1) (seg_end - eq - 1) ≡ escape kv.value
    → IsPair kv
    → store_pair s i eq seg_end st
      ≡ done (record { pairs = st.pairs ++ kv ∷ []; ksb = some kv.key; vsb = some kv.value })
unfolding store_pair
store-pair s i eq seg_end st kv hk hv (k, v) =
    rw (hk, hv)
      (rw (decode_text kv.key st.ksb k, decode_text kv.value st.vsb v)
        (rw (c_str-Lacks kv.key k.no_nul, c_str-Lacks kv.value v.no_nul)))

-- A segment behind `before`, with `t` behind its value.
segment-pair :
    (before t : Bytes) (kv : KvPair) (st : QueryState) (s : Bytes) (eq seg_end : ℕ)
    → s ≡ before ++ (escape kv.key ++ b'=' ∷ (escape kv.value ++ t))
    → eq ≡ length before + length (escape kv.key)
    → seg_end ≡ eq + 1 + length (escape kv.value)
    → IsPair kv
    → query_segment s (length before) eq seg_end st
      ≡ done (record { pairs = st.pairs ++ kv ∷ []; ksb = some kv.key; vsb = some kv.value })
unfolding query_segment
segment-pair before t kv st s eq seg_end whole he hs (k, v) =
    let some_key = escape_nonempty kv.key k.nonempty in
    let test : (not (eq == 0) && ltb eq seg_end) ≡ true = ground arith in
    rw test (store-pair s (length before) eq seg_end st kv key_slice value_slice (k, v))
  where
    ek : Bytes
    ek = escape kv.key

    ev : Bytes
    ev = escape kv.value

    key_slice : slice s (length before) (eq - length before) ≡ escape kv.key
    key_slice =
        let n : eq - length before ≡ length ek = omega arith in
        rw (whole, n) (slice-append before ek (b'=' ∷ (ev ++ t)))

    split : s ≡ (before ++ (ek ++ b'=' ∷ [])) ++ (ev ++ t)
    split = whole ∙ simp append_assoc

    value_slice : slice s (eq + 1) (seg_end - eq - 1) ≡ escape kv.value
    value_slice =
        let m : eq + 1 ≡ length (before ++ (ek ++ b'=' ∷ [])) =
          omega (arith, length-append before (ek ++ b'=' ∷ []), length-append ek (b'=' ∷ [])) in
        let n : seg_end - eq - 1 ≡ length ev = omega arith in
        rw (m, n) (rw split (slice-append (before ++ (ek ++ b'=' ∷ [])) ev t))

key-Lacks :
    (b : ℕ) (kv : KvPair)
    → is_unreserved b ≡ false
    → b ≢ b'%'
    → b ≢ b'='
    → IsPair kv
    → Lacks b (pair_text kv)
key-Lacks b kv u p q (k, v) =
    All-append (λ c. c ≢ b) (escape kv.key) (b'=' ∷ escape kv.value)
      (escape-Lacks b kv.key u p k.bytes) ((λ e. q (sym e)), escape-Lacks b kv.value u p v.bytes)

-- A pair's text, split where the value ends.
pair_split :
    (before t : Bytes) (kv : KvPair)
    → before ++ (pair_text kv ++ t) ≡ before ++ (escape kv.key ++ b'=' ∷ (escape kv.value ++ t))
pair_split before t kv = rw (append_assoc (escape kv.key) (b'=' ∷ escape kv.value) t)

pair-nonempty : (kv : KvPair) (t : Bytes) → 0 < length (pair_text kv ++ t)
pair-nonempty kv t =
    omega (
      arith,
      length-append (pair_text kv) t,
      length-append (escape kv.key) (b'=' ∷ escape kv.value),
    )

-- The round for the last pair.
loop_last :
    (f : ℕ) (before : Bytes) (kv : KvPair) (st : QueryState)
    → IsPair kv
    → query_loop fault (suc f) (before ++ pair_text kv) (length before) st
      ≡ done (record { pairs = st.pairs ++ kv ∷ []; ksb = some kv.key; vsb = some kv.value })
loop_last f before kv st ok =
    query_loop_step fault f s (length before) st inside
    ∙ rw (at_start, no_amp) (rw eq_at (rw stored))
  where
    s : Bytes
    s = before ++ pair_text kv

    whole : s ≡ before ++ (escape kv.key ++ b'=' ∷ (escape kv.value ++ []))
    whole = ap (λ v. before ++ (escape kv.key ++ b'=' ∷ v)) (sym (append-nil (escape kv.value)))

    inside : ltb (length before) (length s) ≡ true
    inside =
        let some_text = pair-nonempty kv [] in
        let same = ap length (append-nil (pair_text kv)) in
        let total = length-append before (pair_text kv) in ground arith

    at_start : drop (length before) s ≡ pair_text kv
    at_start = drop-length-append before (pair_text kv)

    no_amp : find_or_zero b'&' (pair_text kv) (length before) ≡ 0
    no_amp =
        find_or_zero-Lacks b'&' (pair_text kv) (length before)
          (key-Lacks b'&' kv (unfold is_unreserved in refl) (omega arith) (omega arith) ok)

    eq_at :
        find_or_zero b'=' (pair_text kv) (length before) ≡ length before + length (escape kv.key)
    eq_at =
        find_or_zero-append b'=' (escape kv.key) (escape kv.value) (length before)
          (escape-Lacks b'=' kv.key (unfold is_unreserved in refl) (omega arith) ok.0.bytes)

    stored :
        query_segment s (length before) (length before + length (escape kv.key)) (length s) st
        ≡ done (record { pairs = st.pairs ++ kv ∷ []; ksb = some kv.key; vsb = some kv.value })
    stored =
        segment-pair before [] kv st s (length before + length (escape kv.key)) (length s) whole
          refl
          (omega (
            arith,
            length-append before (pair_text kv),
            length-append (escape kv.key) (b'=' ∷ escape kv.value),
          ))
          ok

-- The round for a pair with another behind it.
loop_next :
    (f : ℕ) (before rest : Bytes) (kv : KvPair) (st : QueryState)
    → IsPair kv
    → query_loop fault (suc f) (before ++ (pair_text kv ++ b'&' ∷ rest)) (length before) st
      ≡ query_loop fault f
          ((before ++ (pair_text kv ++ b'&' ∷ [])) ++ rest)
          (length (before ++ (pair_text kv ++ b'&' ∷ [])))
          (record { pairs = st.pairs ++ kv ∷ []; ksb = some kv.key; vsb = some kv.value })
loop_next f before rest kv st ok =
    query_loop_step fault f s (length before) st inside
    ∙ rw at_start (rw (amp_at, eq_at) (rw (found, stored) (rw (next, regroup))))
  where
    s : Bytes
    s = before ++ (pair_text kv ++ b'&' ∷ rest)

    amp : ℕ
    amp = length before + length (pair_text kv)

    text_length : length (pair_text kv) ≡ length (escape kv.key) + suc (length (escape kv.value))
    text_length = length-append (escape kv.key) (b'=' ∷ escape kv.value)

    inside : ltb (length before) (length s) ≡ true
    inside =
        let some_text = pair-nonempty kv (b'&' ∷ rest) in
        let total = length-append before (pair_text kv ++ b'&' ∷ rest) in ground arith

    at_start : drop (length before) s ≡ pair_text kv ++ b'&' ∷ rest
    at_start = drop-length-append before (pair_text kv ++ b'&' ∷ rest)

    amp_at : find_or_zero b'&' (pair_text kv ++ b'&' ∷ rest) (length before) ≡ amp
    amp_at =
        find_or_zero-append b'&' (pair_text kv) rest (length before)
          (key-Lacks b'&' kv (unfold is_unreserved in refl) (omega arith) (omega arith) ok)

    eq_at :
        find_or_zero b'=' (pair_text kv ++ b'&' ∷ rest) (length before)
        ≡ length before + length (escape kv.key)
    eq_at =
        ap (λ t. find_or_zero b'=' t (length before))
          (append_assoc (escape kv.key) (b'=' ∷ escape kv.value) (b'&' ∷ rest))
        ∙ find_or_zero-append b'=' (escape kv.key) (escape kv.value ++ b'&' ∷ rest) (length before)
            (escape-Lacks b'=' kv.key (unfold is_unreserved in refl) (omega arith) ok.0.bytes)

    found : (amp == 0) ≡ false
    found = ground (arith, text_length)

    stored :
        query_segment s (length before) (length before + length (escape kv.key)) amp st
        ≡ done (record { pairs = st.pairs ++ kv ∷ []; ksb = some kv.key; vsb = some kv.value })
    stored =
        segment-pair before (b'&' ∷ rest) kv st s (length before + length (escape kv.key)) amp
          (pair_split before (b'&' ∷ rest) kv) refl (omega (arith, text_length)) ok

    next : amp + 1 ≡ length (before ++ (pair_text kv ++ b'&' ∷ []))
    next = omega (
      arith,
      length-append before (pair_text kv ++ b'&' ∷ []),
      length-append (pair_text kv) (b'&' ∷ []),
    )

    regroup : s ≡ (before ++ (pair_text kv ++ b'&' ∷ [])) ++ rest
    regroup = simp append_assoc

loop_render :
    (f : ℕ) (before : Bytes) (kv : KvPair) (pairs : List KvPair) (st : QueryState)
    → length pairs ≤ f
    → IsPair kv
    → All IsPair pairs
    → (query_loop fault (suc f) (before ++ render_query (kv ∷ pairs)) (length before) st >>= λ st'.
        done st'.pairs)
      ≡ done (st.pairs ++ kv ∷ pairs)
loop_render f before kv [] st h ok oks = rw (loop_last f before kv st ok)
loop_render zero before kv (kv' ∷ pairs) st h ok oks = absurd (omega arith)
loop_render (suc f) before kv (kv' ∷ pairs) st h ok (ok', oks) =
    rw (loop_next (suc f) before (render_query (kv' ∷ pairs)) kv st ok) (
      loop_render f (before ++ (pair_text kv ++ b'&' ∷ [])) kv' pairs
        (record { pairs = st.pairs ++ kv ∷ []; ksb = some kv.key; vsb = some kv.value })
        (omega arith) ok' oks
      ∙ ap done (append_assoc st.pairs (kv ∷ []) (kv' ∷ pairs)))

pairs-le-render : (pairs : List KvPair) → length pairs ≤ length (render_query pairs) + 1
pairs-le-render [] = omega arith
pairs-le-render (kv ∷ []) = omega arith
pairs-le-render (kv ∷ kv' ∷ pairs) = omega (
  arith,
  pairs-le-render (kv' ∷ pairs),
  length-append (pair_text kv) (b'&' ∷ render_query (kv' ∷ pairs)),
  length-append (escape kv.key) (b'=' ∷ escape kv.value),
)

-- Pairs of non-empty C strings, percent-encoded and joined by `=` and `&`, are read back in order.
pub parse_query-render_query :
    (pairs : List KvPair) → All IsPair pairs → parse_query (render_query pairs) ≡ done pairs
unfolding parse_query
parse_query-render_query [] h = refl
parse_query-render_query (kv ∷ pairs) (ok, oks) =
    loop_render (length (render_query (kv ∷ pairs))) [] kv pairs
      (record { pairs = []; ksb = none; vsb = none }) (omega (arith, pairs-le-render (kv ∷ pairs)))
      ok oks
