-- ===== src/Model/Links/Delimiters.antt =====
-- Where the delimiters of a link stand, and the texts between them.
use openwrt_sub_converter.Common.{
  ℕ, suc, ◌+◌, ◌<◌, false, List, [], ◌∷◌, ◌++◌, none, ◌≡◌, ◌≢◌, sym, ◌∙◌, ap, arith, Bytes, Lacks,
  All, All-append, length, drop, drop_behind, c_str-Lacks, done, ◌>>=◌,
}
use openwrt_sub_converter.Buffer.{append_chars-clear, dup_data}
use openwrt_sub_converter.Model.Links.{find_from, find_before}
use openwrt_sub_converter.Model.Query.RoundTrip.{
  IsText, IsPair, pair_text, render_query, escape-Lacks,
}
use openwrt_sub_converter.Model.Query.{KvPair}
use openwrt_sub_converter.Url.RoundTrip.{escape, decode-escape}
use openwrt_sub_converter.Url.{is_unreserved, url_decode}

find_from-append :
    (c : ℕ) (s rest : Bytes) (i limit default : ℕ)
    → i + length s < limit
    → Lacks c s
    → find_from c (s ++ c ∷ rest) i limit default ≡ i + length s
unfolding find_from
find_from-append c [] rest i limit default h l = ground arith
find_from-append c (d ∷ s) rest i limit default h l =
    ground (arith, find_from-append c s rest (i + 1) limit default)

pub find_before-append :
    (c : ℕ) (s rest : Bytes) (limit default : ℕ)
    → length s < limit
    → Lacks c s
    → find_before c (s ++ c ∷ rest) limit default ≡ length s
unfolding find_before
find_before-append c s rest limit default h l =
    find_from-append c s rest 0 limit default (omega arith) l ∙ omega arith

pair-Lacks :
    (b : ℕ) (kv : KvPair)
    → is_unreserved b ≡ false
    → b ≢ b'%'
    → b ≢ b'='
    → IsText kv.key
    → IsText kv.value
    → Lacks b (pair_text kv)
pair-Lacks b kv u p e k v =
    All-append (λ c. c ≢ b) (escape kv.key) (b'=' ∷ escape kv.value)
      (escape-Lacks b kv.key u p k.bytes) ((λ q. e (sym q)), escape-Lacks b kv.value u p v.bytes)

pub render_query-Lacks :
    (b : ℕ) (pairs : List KvPair)
    → is_unreserved b ≡ false
    → b ≢ b'%'
    → b ≢ b'='
    → b ≢ b'&'
    → All IsPair pairs
    → Lacks b (render_query pairs)
render_query-Lacks b [] u p e a h = tt
render_query-Lacks b (kv ∷ []) u p e a ((k, v), _) = pair-Lacks b kv u p e k v
render_query-Lacks b (kv ∷ kv' ∷ pairs) u p e a ((k, v), hs) =
    All-append (λ c. c ≢ b) (pair_text kv) (b'&' ∷ render_query (kv' ∷ pairs))
      (pair-Lacks b kv u p e k v) ((λ q. a (sym q)), render_query-Lacks b (kv' ∷ pairs) u p e a hs)

pub drop_at : (s t : Bytes) (x : ℕ) → drop (length s + 1) (s ++ x ∷ t) ≡ t
drop_at s t x =
    let next : length s + 1 ≡ suc (length s) = omega arith in
    ap (λ k. drop k (s ++ x ∷ t)) next ∙ drop_behind s t x

-- A percent-encoded text, decoded into a fresh buffer and copied.
pub decoded_copy :
    (s : Bytes) → IsText s → (url_decode (escape s) none >>= λ sb. dup_data sb) ≡ done s
decoded_copy s h =
    ap (λ o. o >>= λ sb. dup_data sb)
      (decode-escape s none h.bytes ∙ ap done (append_chars-clear none s h.nonempty))
    ∙ ap done (c_str-Lacks s h.no_nul)
