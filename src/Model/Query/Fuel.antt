-- ===== src/Model/Query/Fuel.antt =====
-- The rounds of `parse_query`.
use openwrt_sub_converter.Common.{
  ℕ, zero, suc, ◌+◌, ◌≤◌, true, false, [], ◌∷◌, none, ◌≡◌, ◌⊎◌, inl, inr, refl, sym, fun_ext, ◌∙◌,
  ap, arith, Bytes, length, drop, if◌then◌else◌, ◌==◌, ltb, Bool-cases, Outcome, done, fault, ◌>>=◌,
}
use openwrt_sub_converter.Model.Query.{
  QueryState, find_or_zero, query_segment, query_loop, parse_query,
}

find_or_zero-ge : (c : ℕ) (s : Bytes) (i : ℕ) → (find_or_zero c s i ≡ 0) ⊎ (i ≤ find_or_zero c s i)
unfolding find_or_zero
find_or_zero-ge c [] i = inl refl
find_or_zero-ge c (d ∷ s) i = ground (arith, find_or_zero-ge c s (i + 1))

-- What a round does inside the text.
pub query_loop_step :
    (stuck : Outcome QueryState) (f : ℕ) (s : Bytes) (i : ℕ) (st : QueryState)
    → ltb i (length s) ≡ true
    → query_loop stuck (suc f) s i st ≡ (
        query_segment s i
          (find_or_zero b'=' (drop i s) i)
          (if find_or_zero b'&' (drop i s) i == 0 then length s else find_or_zero b'&' (drop i s) i)
          st
        >>= λ st'.
            if find_or_zero b'&' (drop i s) i == 0
            then done st'
            else query_loop stuck f s (find_or_zero b'&' (drop i s) i + 1) st')
unfolding query_loop
query_loop_step stuck f s i st h = rw h

query_loop_past :
    (stuck : Outcome QueryState) (f : ℕ) (s : Bytes) (i : ℕ) (st : QueryState)
    → ltb i (length s) ≡ false
    → query_loop stuck (suc f) s i st ≡ done st
unfolding query_loop
query_loop_past stuck f s i st h = rw h

-- One round is enough behind the end, and each round moves on, so it is of no matter what a loop
-- without rounds gives.
query_loop_fuel :
    (o p : Outcome QueryState) (f g : ℕ) (s : Bytes) (i : ℕ) (st : QueryState)
    → length s ≤ i + f
    → length s ≤ i + g
    → query_loop o (suc f) s i st ≡ query_loop p (suc g) s i st
query_loop_fuel o p zero g s i st hf hg =
    let past : ltb i (length s) ≡ false = ground arith in
    query_loop_past o zero s i st past ∙ sym (query_loop_past p g s i st past)
query_loop_fuel o p (suc f) zero s i st hf hg =
    let past : ltb i (length s) ≡ false = ground arith in
    query_loop_past o (suc f) s i st past ∙ sym (query_loop_past p zero s i st past)
query_loop_fuel o p (suc f) (suc g) s i st hf hg = elim (Bool-cases (ltb i (length s))) [
  | inr past ↦ query_loop_past o (suc f) s i st past ∙ sym (query_loop_past p (suc g) s i st past)
  | inl inside ↦
      query_loop_step o (suc f) s i st inside
      ∙ ap (λ k. query_segment s i (find_or_zero b'=' (drop i s) i) seg_end st >>= k)
          (fun_ext λ st'.
            go st' (Bool-cases (amp == 0)) (find_or_zero-ge b'&' (drop i s) i)
              (λ a b. query_loop_fuel o p f g s (amp + 1) st' a b))
      ∙ sym (query_loop_step p (suc g) s i st inside)
]
  where
    amp : ℕ
    amp = find_or_zero b'&' (drop i s) i

    seg_end : ℕ
    seg_end = if amp == 0 then length s else amp

    go :
        (st' : QueryState)
        → ((amp == 0) ≡ true) ⊎ ((amp == 0) ≡ false)
        → (amp ≡ 0) ⊎ (i ≤ amp)
        → (length s ≤ (amp + 1) + f
            → length s ≤ (amp + 1) + g
            → query_loop o (suc f) s (amp + 1) st' ≡ query_loop p (suc g) s (amp + 1) st')
        → (if amp == 0 then done st' else query_loop o (suc f) s (amp + 1) st')
          ≡ (if amp == 0 then done st' else query_loop p (suc g) s (amp + 1) st')
    go st' (inl z) _ ih = rw z
    go st' (inr nz) (inl z) ih = absurd (ground arith)
    go st' (inr nz) (inr ge) ih = rw nz (ih (omega arith) (omega arith))

-- The loop of `parse_query` ends by its own tests within one round for each byte and one more: for
-- any greater number of rounds, and whatever a loop gives that uses them up, the result is the
-- same.
pub parse_query_fuel :
    (s : Bytes) (stuck : Outcome QueryState) (f : ℕ)
    → length s ≤ f
    → parse_query s ≡ (
        query_loop stuck (suc f) s 0 (record { pairs = []; ksb = none; vsb = none }) >>= λ st.
        done st.pairs)
unfolding parse_query
parse_query_fuel s stuck f h =
    ap (λ r. r >>= λ st. done st.pairs)
      (query_loop_fuel fault stuck (length s) f s 0 (record { pairs = []; ksb = none; vsb = none })
        (omega arith) (omega arith))
