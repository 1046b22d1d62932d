-- ===== src/Server/Convert.antt =====
-- When a conversion is answered with a document, and with which.
use openwrt_sub_converter.Common.{
  ℕ, ◌^◌, ◌<◌, Bool, true, List, [], Option, none, some, ◌≡◌, ◌≢◌, inl, inr, refl, sym, ◌∙◌, ap,
  arith, Bytes, codes, length, equal, equal_iff, c_str, if◌then◌else◌, Bool-cases, Outcome, done,
  failed, fault, ◌>>=◌, >>=-eq-done,
}
use openwrt_sub_converter.Buffer
use openwrt_sub_converter.Buffer.{Buffer}
use openwrt_sub_converter.Converter.{Converter, converter_find}
use openwrt_sub_converter.Httpc.Request.{all_bodies, httpc_request_total}
use openwrt_sub_converter.Httpc.{
  HttpcResponse, HttpcStatus, CurlCode, Transfer, httpc_request, status_of, at_least_400, setup_of,
}
use openwrt_sub_converter.Libc.{ℤ, pos}
use openwrt_sub_converter.Server.{
  Services, Connection, Answer, Response, send_response, method_not_allowed, bad_request, json_type,
  handle_convert, convert_type, convert_found_type, convert_url, fetch, convert_request,
  convert_response, wanted_headers, send_converted, upstream_status, is_200,
}
use openwrt_sub_converter.Strbuf.{view}

-- A response that is queued has the status, the type and the text that were given.
queued-eq :
    (con : Connection) (status : ℕ) (ctype body : Bytes) (r : Response) (b : Bool)
    → send_response con status ctype body ≡ Answer.queued r b
    → r ≡ record { status = status; content_type = ctype; body = c_str body }
unfolding send_response
queued-eq con status ctype body r b h = elim (Bool-cases (con.creates (c_str body))) [
  | inl e ↦ let h' = (rw e at h) in cc
  | inr e ↦ let h' = (rw e at h) in cc
]

other_status :
    (con : Connection) (status : ℕ) (ctype body : Bytes) (r : Response) (b : Bool)
    → done (send_response con status ctype body) ≡ done (Answer.queued r b)
    → status ≢ 200
    → r.status ≢ 200
other_status con status ctype body r b h n e =
    n (sym (ap Response.status (queued-eq con status ctype body r b (cc))) ∙ e)

bad_request_status :
    (con : Connection) (error : Bytes) (r : Response) (b : Bool)
    → done (bad_request con error) ≡ done (Answer.queued r b)
    → r.status ≢ 200
unfolding bad_request
bad_request_status con error r b h = other_status con 400 json_type _ r b h (omega arith)

upstream_status_status :
    (con : Connection) (status : ℤ) (r : Response) (b : Bool)
    → done (upstream_status con status) ≡ done (Answer.queued r b)
    → r.status ≢ 200
unfolding upstream_status
upstream_status_status con status r b h = other_status con 502 json_type _ r b h (omega arith)

-- The document that a conversion gives is what is sent.
record IsSent (conv : Converter) (resp : HttpcResponse) (r : Response) : Type 0 where
  yaml : Bytes
  converted : conv.run (view resp.body) ≡ done yaml
  sent : r ≡ record { status = 200; content_type = codes "application/yaml"; body = c_str yaml }

send_converted-IsSent :
    (con : Connection) (conv : Converter) (resp : HttpcResponse) (o : Outcome Bytes) (r : Response)
    (b : Bool)
    → conv.run (view resp.body) ≡ o
    → send_converted con o ≡ done (Answer.queued r b)
    → r.status ≡ 200
    → IsSent conv resp r
unfolding send_converted
send_converted-IsSent con conv resp (done yaml) r b e h k = record {
  yaml = yaml;
  converted = e;
  sent = queued-eq con 200 (codes "application/yaml") yaml r b (cc);
}
send_converted-IsSent con conv resp failed r b e h k =
    absurd (other_status con 422 json_type _ r b h (omega arith) k)
send_converted-IsSent con conv resp fault r b e h k = absurd (let h' = h in cc)

convert_response-IsSent :
    (con : Connection) (conv : Converter) (st : HttpcStatus) (resp : HttpcResponse) (r : Response)
    (b : Bool)
    → convert_response con conv st resp ≡ done (Answer.queued r b)
    → r.status ≡ 200
    → (st ≡ HttpcStatus.ok) × (is_200 resp.status ≡ true) × IsSent conv resp r
unfolding convert_response
convert_response-IsSent con conv HttpcStatus.ok resp r b h k =
    elim (Bool-cases (is_200 resp.status)) [
      | inl e ↦ (
        refl,
        e,
        send_converted-IsSent con conv resp (conv.run (view resp.body)) r b refl (rw e at h) k,
      )
      | inr e ↦ absurd (upstream_status_status con resp.status r b (rw e at h) k)
    ]
convert_response-IsSent con conv HttpcStatus.err resp r b h k =
    absurd (other_status con 502 json_type _ r b h (omega arith) k)
convert_response-IsSent con conv HttpcStatus.timeout resp r b h k =
    absurd (other_status con 504 json_type _ r b h (omega arith) k)
convert_response-IsSent con conv HttpcStatus.http_error resp r b h k =
    absurd (upstream_status_status con resp.status r b h k)

-- What stands behind a document: the request to the server upstream, with status 200, and the
-- conversion of its body.
pub record IsFetched (s : Services) (conv : Converter) (url : Bytes) (lines : List Bytes)
    (r : Response) : Type 0 where
  pub response : HttpcResponse
  pub yaml : Bytes
  pub fetched :
      httpc_request s.heap s.curl (convert_request url lines) ≡ done (HttpcStatus.ok, response)
  pub status : is_200 response.status ≡ true
  pub converted : conv.run (view response.body) ≡ done yaml
  pub sent : r ≡ record { status = 200; content_type = codes "application/yaml"; body = c_str yaml }

fetch-IsFetched :
    (s : Services) (con : Connection) (conv : Converter) (url : Bytes) (lines : List Bytes)
    (r : Response) (b : Bool)
    → fetch s con conv url (some lines) ≡ done (Answer.queued r b)
    → r.status ≡ 200
    → IsFetched s conv url lines r
unfolding fetch
fetch-IsFetched s con conv url lines r b h k =
    let ((st, resp), run, h') =
      >>=-eq-done (httpc_request s.heap s.curl (convert_request url lines))
        (λ (q : HttpcStatus × HttpcResponse). convert_response con conv q.0 q.1) h in
    let (ok, is200, sent) = convert_response-IsSent con conv st resp r b h' k in
    record {
      response = resp;
      yaml = sent.yaml;
      fetched = run ∙ ap (λ (c : HttpcStatus). done (c, resp)) ok;
      status = is200;
      converted = sent.converted;
      sent = sent.sent;
    }

-- The arguments of the URL name a converter and an upstream URL, with headers that can be read, and
-- the document is what that converter makes of the body that was fetched.
pub record IsConverted (s : Services) (con : Connection) (r : Response) : Type 0 where
  pub type : Bytes
  pub conv : Converter
  pub url : Bytes
  pub lines : List Bytes
  pub type_given : con.argument (codes "type") ≡ some type
  pub found : converter_find s.json (some type) ≡ some conv
  pub url_given : con.argument (codes "url") ≡ some url
  pub headers : wanted_headers s.json (con.argument (codes "headers")) ≡ some lines
  pub fetched : IsFetched s conv url lines r

module _ (s : Services) (con : Connection) (r : Response) (b : Bool) (k : r.status ≡ 200) where
  fetch-lines :
      (conv : Converter) (url : Bytes) (o : Option (List Bytes))
      → fetch s con conv url o ≡ done (Answer.queued r b)
      → (lines : List Bytes) × (o ≡ some lines) × IsFetched s conv url lines r
  fetch-lines conv url none h =
      absurd (bad_request_status con (codes "invalid headers JSON") r b (unfold fetch in h) k)
  fetch-lines conv url (some lines) h = (lines, refl, fetch-IsFetched s con conv url lines r b h k)

  convert_url-lines :
      (conv : Converter) (o : Option Bytes)
      → convert_url s con conv o ≡ done (Answer.queued r b)
      → (url : Bytes) × (lines : List Bytes) × (o ≡ some url)
        × (wanted_headers s.json (con.argument (codes "headers")) ≡ some lines)
        × IsFetched s conv url lines r
  unfolding convert_url
  convert_url-lines conv none h = absurd (bad_request_status con (codes "missing 'url'") r b h k)
  convert_url-lines conv (some url) h =
      let (lines, e, f) =
        fetch-lines conv url (wanted_headers s.json (con.argument (codes "headers"))) h in
      (url, lines, refl, e, f)

  convert_found_type-IsConverted :
      (type : Bytes) (o : Option Converter)
      → con.argument (codes "type") ≡ some type
      → converter_find s.json (some type) ≡ o
      → convert_found_type s con o ≡ done (Answer.queued r b)
      → IsConverted s con r
  unfolding convert_found_type
  convert_found_type-IsConverted type none e e' h =
      absurd (bad_request_status con (codes "unknown converter") r b h k)
  convert_found_type-IsConverted type (some conv) e e' h =
      let (url, lines, u, l, f) = convert_url-lines conv (con.argument (codes "url")) h in
      record {
        type = type;
        conv = conv;
        url = url;
        lines = lines;
        type_given = e;
        found = e';
        url_given = u;
        headers = l;
        fetched = f;
      }

  convert_type-IsConverted :
      (o : Option Bytes)
      → con.argument (codes "type") ≡ o
      → convert_type s con o ≡ done (Answer.queued r b)
      → IsConverted s con r
  unfolding convert_type
  convert_type-IsConverted none e h =
      absurd (bad_request_status con (codes "missing 'type' or 'source'") r b h k)
  convert_type-IsConverted (some type) e h =
      convert_found_type-IsConverted type (converter_find s.json (some type)) e refl h

-- A conversion that is answered with 200 was asked for by GET, with a known type, a URL and headers
-- that can be read; the server upstream answered with 200, and the text that is sent is the document
-- that the converter of that type makes of its body.
pub handle_convert-IsConverted :
    (s : Services) (con : Connection) (method : Bytes) (r : Response) (b : Bool)
    → handle_convert s con method ≡ done (Answer.queued r b)
    → r.status ≡ 200
    → (method ≡ codes "GET") × IsConverted s con r
unfolding handle_convert method_not_allowed
handle_convert-IsConverted s con method r b h k = elim (Bool-cases (equal method (codes "GET"))) [
  | inl e ↦ (
    (equal_iff method (codes "GET")).0 e,
    convert_type-IsConverted s con r b k (con.argument (codes "type")) refl (rw e at h),
  )
  | inr e ↦ absurd (other_status con 405 json_type _ r b (rw e at h) (omega arith) k)
]

contents-some : (b : Buffer) (s : Bytes) → s ≢ [] → Buffer.contents b ≡ s → b ≡ some s
contents-some none s n h = absurd (n (sym h))
contents-some (some u) s n h = ap some h

-- The document as it is sent.
abbrev pub document : Bytes → Response
document yaml = record { status = 200; content_type = codes "application/yaml"; body = c_str yaml }

abbrev pub transfer_for : Services → Bytes → List Bytes → Transfer
transfer_for s url lines = s.curl.perform (setup_of (convert_request url lines) url)

convert_response-document :
    (con : Connection) (conv : Converter) (resp : HttpcResponse) (body yaml : Bytes)
    → resp.status ≡ pos 200
    → view resp.body ≡ some body
    → conv.run (some body) ≡ done yaml
    → con.creates (c_str yaml) ≡ true
    → convert_response con conv HttpcStatus.ok resp
      ≡ done (Answer.queued (document yaml) (con.queues (document yaml)))
unfolding convert_response is_200 send_converted send_response
convert_response-document con conv resp body yaml st v run c =
    ap
      (λ (z : ℤ).
        if is_200 z
        then send_converted con (conv.run (view resp.body))
        else done (upstream_status con z))
      st
    ∙ ap (λ (u : Option Bytes). send_converted con (conv.run u)) v
    ∙ ap (send_converted con) run
    ∙ ap
        (λ (x : Bool).
          done (
            if x
            then Answer.queued (document yaml) (con.queues (document yaml))
            else Answer.unsent))
        c

-- A GET for a conversion with a known type, a URL and headers that can be read is answered with the
-- document that the converter makes of the bytes which the transfer delivers, if libcurl is ready,
-- the transfer ends with 200, its bytes are some and fewer than 2 ^ 63, the converter succeeds, the
-- response can be created, and memory lasts.
pub handle_convert_total :
    (s : Services)
    → ((old : Option Bytes) (n : ℕ) → (Services.heap s).realloc old n ≢ none)
    → (con : Connection) (type url : Bytes) (lines : List Bytes) (conv : Converter) (yaml : Bytes)
    → con.argument (codes "type") ≡ some type
    → converter_find s.json (some type) ≡ some conv
    → con.argument (codes "url") ≡ some url
    → wanted_headers s.json (con.argument (codes "headers")) ≡ some lines
    → (Services.curl s).ready ≡ true
    → (transfer_for s url lines).code ≡ CurlCode.ok
    → (transfer_for s url lines).status ≡ pos 200
    → all_bodies (transfer_for s url lines).deliveries ≢ []
    → length (all_bodies (transfer_for s url lines).deliveries) < 2 ^ 63
    → conv.run (some (all_bodies (transfer_for s url lines).deliveries)) ≡ done yaml
    → con.creates (c_str yaml) ≡ true
    → handle_convert s con (codes "GET")
      ≡ done (Answer.queued (document yaml) (con.queues (document yaml)))
unfolding handle_convert convert_type convert_found_type convert_url fetch equal status_of
    at_least_400
handle_convert_total s plenty con type url lines conv yaml has_type found has_url headers ready code
      status some_body small run creates =
    let t = transfer_for s url lines in
    let (resp, got, k) =
      httpc_request_total s.heap plenty s.curl (convert_request url lines) url ready refl small in
    let ended : (done (status_of true t.code t.status, resp) ≡ done (HttpcStatus.ok, resp)) =
      ap (λ (c : CurlCode). done (status_of true c t.status, resp)) code
      ∙ ap (λ (z : ℤ). done (status_of true CurlCode.ok z, resp)) status in
    ap (convert_type s con) has_type
    ∙ ap (convert_found_type s con) found
    ∙ ap (convert_url s con conv) has_url
    ∙ ap (fetch s con conv url) headers
    ∙ ap
        (λ (o : Outcome (HttpcStatus × HttpcResponse)).
          o >>= λ (q : HttpcStatus × HttpcResponse). convert_response con conv q.0 q.1)
        (got ∙ ended)
    ∙ convert_response-document con conv resp (all_bodies t.deliveries) yaml (k.status ∙ status)
        (contents-some (view resp.body) (all_bodies t.deliveries) some_body k.body.text) run creates
