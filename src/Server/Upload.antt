-- ===== src/Server/Upload.antt =====
-- The calls that libmicrohttpd makes for one request, and the buffer that they fill.
use openwrt_sub_converter.Common.{
  ℕ, ◌+◌, ◌^◌, ◌<◌, true, List, [], ◌∷◌, ◌++◌, Option, none, some, ◌≡◌, ◌≢◌, refl, ◌∙◌, ap, arith,
  Bytes, All, length, length-append, ltb, Outcome, done, failed, fault, ◌>>=◌,
}
use openwrt_sub_converter.Buffer
use openwrt_sub_converter.Buffer.{Buffer}
use openwrt_sub_converter.Server.{
  Services, Connection, Answer, ConCls, Called, handle_upload, handler_cb, route_request,
}
use openwrt_sub_converter.Strbuf.Refine.{IsValid, strbuf_init-IsValid, length-view}
use openwrt_sub_converter.Strbuf.Total.{strbuf_append_bytes_total}
use openwrt_sub_converter.Strbuf.{Strbuf, view, strbuf_init}

proceed : (ConCls → Outcome Answer) → Called → Outcome Answer
proceed further (Called.taken cls) = further cls
proceed further (Called.answered answer) = done answer

-- The calls with these uploads, until one answers; `fault` if none does.
calls : Services → Connection → Bytes → Bytes → List Bytes → ConCls → Outcome Answer
unfolding proceed
calls s con url method [] cls = fault
calls s con url method (upload ∷ uploads) cls =
    let further = calls s con url method uploads in
    handler_cb s con url method upload cls >>= proceed further

answer-proceed :
    (further : ConCls → Outcome Answer) (m : Outcome Answer)
    → ((m >>= λ answer. done (Called.answered answer)) >>= proceed further) ≡ m
unfolding proceed
answer-proceed further (done answer) = refl
answer-proceed further failed = refl
answer-proceed further fault = refl

-- One request: a first call, one for each part of the body, and one with no bytes at the end.
pub serve : Services → Connection → Bytes → Bytes → List Bytes → Outcome Answer
unfolding calls
serve s con url method chunks = calls s con url method ([] ∷ (chunks ++ [] ∷ [])) none

abbrev pub all_appended : Buffer → List Bytes → Buffer
all_appended b [] = b
all_appended b (chunk ∷ chunks) = all_appended (Buffer.append_bytes b chunk) chunks

abbrev pub total_length : List Bytes → ℕ
total_length [] = 0
total_length (chunk ∷ chunks) = length chunk + total_length chunks

module _ (s : Services)
    (plenty : (old : Option Bytes) (n : ℕ) → (Services.heap s).realloc old n ≢ none)
    (con : Connection) (url method : Bytes) where
  calls-all_appended :
      (chunks : List Bytes) (sb : Strbuf)
      → IsValid sb
      → All (λ chunk. chunk ≢ []) chunks
      → length (Buffer.contents (view sb)) + total_length chunks < 2 ^ 63
      → calls s con url method (chunks ++ [] ∷ []) (some sb)
        ≡ route_request s con url method (all_appended (view sb) chunks)
  unfolding calls handler_cb handle_upload proceed
  calls-all_appended [] sb v h k =
      answer-proceed (calls s con url method []) (route_request s con url method (view sb))
  calls-all_appended ([] ∷ chunks) sb v h k = absurd (h.0 refl)
  calls-all_appended ((c ∷ chunk) ∷ chunks) sb v h k =
      let n = length-view sb.len sb.cap sb.block v.shape in
      let (r, run, q) = strbuf_append_bytes_total s.heap plenty sb (c ∷ chunk) v (omega arith) in
      let some_bytes : (ltb 0 (length (c ∷ chunk)) ≡ true) = ground arith in
      let n' = ap (λ (b : Buffer). length (Buffer.contents b)) q.1 in
      let n'' = length-append (Buffer.contents (view sb)) (c ∷ chunk) in
      rw (some_bytes, run)
        (calls-all_appended chunks r q.0 h.1 (omega arith)
          ∙ ap (λ b. route_request s con url method (all_appended b chunks)) q.1)

  -- While memory lasts, a request whose body arrives in non-empty parts, of fewer than 2 ^ 63 bytes
  -- in all, is answered as its route answers
  -- for the buffer with all the parts in order; with no body at all the buffer is unallocated.
  pub serve-route_request :
      (chunks : List Bytes)
      → All (λ chunk. chunk ≢ []) chunks
      → total_length chunks < 2 ^ 63
      → serve s con url method chunks ≡ route_request s con url method (all_appended none chunks)
  unfolding serve calls handler_cb proceed
  serve-route_request chunks h k =
      calls-all_appended chunks strbuf_init strbuf_init-IsValid h (omega arith)
