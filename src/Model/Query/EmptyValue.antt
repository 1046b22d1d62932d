-- ===== src/Model/Query/EmptyValue.antt =====
-- Queries whose first value is empty: the buffer of the value has no block yet.
use openwrt_sub_converter.Common.{
  ℕ, suc, ◌+◌, ◌-◌, ◌<◌, true, false, not, ◌&&◌, [], ◌∷◌, ◌++◌, append_assoc, none, ◌≡◌, ◌≢◌, ◌⊎◌,
  inl, inr, refl, sym, ◌∙◌, ap, arith, Bytes, Lacks, All-append, length, length-append,
  if◌then◌else◌, ◌==◌, ltb, done, fault, ◌>>=◌,
}
use openwrt_sub_converter.Buffer.{append_chars-clear}
use openwrt_sub_converter.Url.RoundTrip.{escape, decode-escape}
use openwrt_sub_converter.Url.{url_decode, is_unreserved}
use openwrt_sub_converter.Model.Query.Fuel.{query_loop_step}
use openwrt_sub_converter.Model.Query.RoundTrip.{
  IsText, escape-Lacks, find_or_zero-append, find_or_zero-Lacks, slice-append, escape_nonempty,
}
use openwrt_sub_converter.Model.Query.{
  find_or_zero, store_pair, query_segment, query_loop, parse_query,
}

-- What may stand behind the empty value: nothing, or another segment.
abbrev pub IsTail : Bytes → Type 0
IsTail t = (t ≡ []) ⊎ ((rest : Bytes) × (t ≡ b'&' ∷ rest))

module _ (key t : Bytes) (text : IsText key) (tail : IsTail t) where
  s : Bytes
  s = escape key ++ b'=' ∷ t

  seg_end : ℕ
  seg_end = if find_or_zero b'&' s 0 == 0 then length s else find_or_zero b'&' s 0

  seg_end_at : seg_end ≡ length (escape key) + 1
  unfolding seg_end s
  seg_end_at = go tail
    where
      clean : Lacks b'&' (escape key ++ b'=' ∷ [])
      clean =
          All-append (λ c. c ≢ b'&') (escape key) (b'=' ∷ [])
            (escape-Lacks b'&' key (unfold is_unreserved in refl) (omega arith) text.bytes)
            ((omega arith), tt)

      before : length (escape key ++ b'=' ∷ []) ≡ length (escape key) + 1
      before = length-append (escape key) (b'=' ∷ [])

      go : IsTail t → seg_end ≡ length (escape key) + 1
      go (inl e) = rw e (rw (find_or_zero-Lacks b'&' (escape key ++ b'=' ∷ []) 0 clean) before)
      go (inr (rest, e)) =
          let at : find_or_zero b'&' (escape key ++ b'=' ∷ b'&' ∷ rest) 0
              ≡ length (escape key) + 1 =
            ap (λ u. find_or_zero b'&' u 0)
              (sym (append_assoc (escape key) (b'=' ∷ []) (b'&' ∷ rest)))
            ∙ find_or_zero-append b'&' (escape key ++ b'=' ∷ []) rest 0 clean
            ∙ omega (arith, before) in
          let test : (length (escape key) + 1 == 0) ≡ false = ground arith in rw e (rw at (rw test))

  nonempty_key : 0 < length (escape key)
  nonempty_key = escape_nonempty key text.nonempty

  eq_at : find_or_zero b'=' s 0 ≡ length (escape key)
  unfolding s
  eq_at =
      find_or_zero-append b'=' (escape key) t 0
        (escape-Lacks b'=' key (unfold is_unreserved in refl) (omega arith) text.bytes)
      ∙ omega arith

  store_fault :
      store_pair s 0
        (length (escape key))
        (length (escape key) + 1)
        (record { pairs = []; ksb = none; vsb = none })
      ≡ fault
  unfolding store_pair s
  store_fault =
      let n : length (escape key) - 0 ≡ length (escape key) = omega arith in
      let z : length (escape key) + 1 - length (escape key) - 1 ≡ 0 = omega arith in
      rw (n, z, slice-append [] (escape key) (b'=' ∷ t), decode-escape key none text.bytes)
        (rw (append_chars-clear none key text.nonempty) (unfold url_decode in refl))

  segment_fault :
      query_segment s 0
        (length (escape key))
        (length (escape key) + 1)
        (record { pairs = []; ksb = none; vsb = none })
      ≡ fault
  unfolding query_segment
  segment_fault =
      let pos_key = nonempty_key in
      let test : (not (length (escape key) == 0)
            && ltb (length (escape key)) (length (escape key) + 1))
          ≡ true =
        ground arith in
      rw test store_fault

  inside : ltb 0 (length s) ≡ true
  unfolding s
  inside =
      let some_key = nonempty_key in
      let total = length-append (escape key) (b'=' ∷ t) in ground arith

  loop_fault :
      query_loop fault (suc (length s)) s 0 (record { pairs = []; ksb = none; vsb = none }) ≡ fault
  unfolding seg_end
  loop_fault =
      query_loop_step fault (length s) s 0 (record { pairs = []; ksb = none; vsb = none }) inside
      ∙ rw (eq_at, seg_end_at) (rw segment_fault)

  -- A query whose first segment is a non-empty key with an empty value makes `parse_query` copy
  -- through NULL, whatever segments stand behind it.
  pub parse_query_empty_value : parse_query (escape key ++ b'=' ∷ t) ≡ fault
  unfolding parse_query s
  parse_query_empty_value = ap (λ r. r >>= λ st. done st.pairs) loop_fault
