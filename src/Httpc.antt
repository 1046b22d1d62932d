-- ===== src/Httpc.antt =====
-- sub-converter/src/httpc.c: the callbacks that collect a response, and the request around them.
-- libcurl is a parameter: what a transfer delivers and how it ends. `body_buf` has the fields of
-- `strbuf`; the list of the headers is one without capacity, since memory that runs out is left
-- out there.

pub mod Body
pub mod Fields
pub mod Request
use openwrt_sub_converter.Common.{
  ℕ, zero, suc, ◌+◌, ◌-◌, ◌*◌, ◌/◌, ◌%◌, ◌^◌, ◌<◌, ◌≤◌, Bool, true, false, not, ◌&&◌, ◌||◌, List,
  [], ◌∷◌, ◌++◌, append_assoc, append-nil, Option, none, some, ◌≡◌, ◌≢◌, ◌↔◌, ◌⊎◌, inl, inr, refl,
  sym, subst, fun_ext, ◌∙◌, ap, arith, Bytes, IsBytes, Lacks, All, All-append, codes, get_or,
  length, get_elem?, take, drop, length-append, length-take, length-drop, take-length-append,
  take-length, drop_behind, take-append-drop, drop-length-append, replicate, length-replicate,
  equal, equal_iff, c_str, c_str-Lacks, Lacks-c_str, is_space, is_digit, if◌then◌else◌, ◌==◌, ltb,
  leb, ==_iff, Bool-cases, Option-cases, all_below, all_below_sound, all_below_sound₂, Outcome,
  done, failed, fault, ◌>>=◌, ◌>>◌, >>=-eq-done, >>=-ne-fault, require, guard, Returns, Ensures,
  Returns->>=, Ensures->>=, Returns-done, Ensures-ne-fault, Returns-Ensures, Ensures-mono,
  Ensures-done, >>=-ne-failed,
}
use mathlib.Core.Option
use openwrt_sub_converter.Text.{drop_while, drop_end}
use openwrt_sub_converter.Libc.{ℤ, pos, negsuc}
use openwrt_sub_converter.Strbuf.{Strbuf, Heap, not_null, store_text, strbuf_init}

pub data HttpcStatus : Type 0 where
  ok err timeout http_error : HttpcStatus

pub record HttpcHeader : Type 0 where
  pub name : Bytes
  pub value : Bytes

pub record HttpcResponse : Type 0 where
  pub status : ℤ
  pub body : Strbuf
  pub headers : List HttpcHeader

-- `nheaders` is the length of `headers`. The bytes behind `body` are those that may be read.
pub record HttpcReq : Type 0 where
  pub url : Option Bytes
  pub method : Option Bytes
  pub body : Option Bytes
  pub body_len : ℕ
  pub headers : List Bytes
  pub timeout_ms : ℤ
  pub max_response : ℤ

-- `while (ncap < need) ncap *= 2;` on a `size_t`, with a round for each of its bits.
unfoldable pub wrap_until : ℕ → ℕ → ℕ → Outcome ℕ
wrap_until zero ncap need = fault
wrap_until (suc f) ncap need =
    let further = wrap_until f (ncap * 2 % 2 ^ 64) need in
    if ltb ncap need then further else done ncap

-- Room for `need` bytes; `none` is a `realloc` that gives NULL.
unfoldable pub body_room : Heap → Strbuf → ℕ → Outcome (Option Strbuf)
unfolding wrap_until
body_room heap buf need = if leb need buf.cap then done (some buf) else do
  ncap ← wrap_until 65 (if buf.cap == 0 then 1024 else buf.cap) need
  done (
      Option.map (λ nd. record { block = some nd; len = buf.len; cap = ncap })
        (heap.realloc buf.block ncap))

unfoldable pub body_store : Option Strbuf → Strbuf → Bytes → Outcome (ℕ × Strbuf)
unfolding store_text
body_store none buf chunk = done (0, buf)
body_store (some r) buf chunk = do
  b ← not_null r.block
  b' ← store_text b r.len chunk
  done (length chunk, record { block = some b'; len = r.len + length chunk; cap = r.cap })

-- The number of bytes taken, and the buffer. `chunk` are the `size * nmemb` bytes behind `ptr`.
unfoldable pub body_write_cb : Heap → Bytes → Strbuf → Outcome (ℕ × Strbuf)
unfolding body_room body_store
body_write_cb heap chunk buf =
    if length chunk == 0
    then done (0, buf)
    else do r ← body_room heap buf ((buf.len + length chunk + 1) % 2 ^ 64); body_store r buf chunk

unfoldable pub dup_trimmed : Bytes → Bytes
unfolding drop_end
dup_trimmed s = drop_end is_space (drop_while is_space s)

-- The bytes in front of the first `c` and those behind it, in a C string.
unfoldable pub strchr_split : ℕ → Bytes → Option (Bytes × Bytes)
strchr_split c [] = none
strchr_split c (x ∷ s) =
    let further = Option.map (λ (r : Bytes × Bytes). (x ∷ r.0, r.1)) (strchr_split c s) in
    if x == c then some ([], s) else if x == 0 then none else further

unfoldable pub is_line_end : ℕ → Bool
is_line_end c = c == b'\r' || c == b'\n'

-- A line without a colon is passed over.
unfoldable pub add_header : Option (Bytes × Bytes) → List HttpcHeader → List HttpcHeader
unfolding dup_trimmed
add_header none hdrs = hdrs
add_header (some (name, value)) hdrs =
    hdrs ++ record { name = dup_trimmed name; value = dup_trimmed value } ∷ []

-- The number of bytes taken, and the headers.
unfoldable pub header_write_cb : Bytes → List HttpcHeader → ℕ × List HttpcHeader
unfolding add_header drop_end strchr_split is_line_end
header_write_cb line hdrs =
    if length line == 0
    then (0, hdrs)
    else (length line, add_header (strchr_split b':' (drop_end is_line_end line)) hdrs)

-- What the easy handle is set to. The other options are constants: five redirects are followed,
-- and the user agent is `sub-converter/0.1`.
pub data Method : Type 0 where
  get : Method
  post : Option Bytes → Method

pub record Setup : Type 0 where
  pub url : Bytes
  pub timeout_ms : Option ℤ
  pub max_size : Option ℤ
  pub headers : List Bytes
  pub method : Method

pub data CurlCode : Type 0 where
  ok timedout http_returned_error other : CurlCode

-- A call of one of the two callbacks.
pub data Delivery : Type 0 where
  header : Bytes → Delivery
  body : Bytes → Delivery

-- What a transfer delivers, in order, how it ends, and the response code.
pub record Transfer : Type 0 where
  pub deliveries : List Delivery
  pub code : CurlCode
  pub status : ℤ

-- `ready` is a `curl_easy_init` that does not give NULL.
pub record Curl : Type 0 where
  pub ready : Bool
  pub perform : Setup → Transfer

unfoldable pub positive : ℤ → Option ℤ
positive (pos zero) = none
positive (pos (suc n)) = some (pos (suc n))
positive (negsuc n) = none

-- The bytes to post: `body_len` of them, or up to the first NUL where that is 0.
unfoldable pub post_data : Option Bytes → ℕ → Option Bytes
post_data none body_len = none
post_data (some b) body_len =
    let text = if body_len == 0 then c_str b else take body_len b in
    if length text == 0 then none else some text

unfoldable pub is_post : Option Bytes → Bool
is_post none = false
is_post (some method) = equal method (codes "POST")

unfoldable pub setup_of : HttpcReq → Bytes → Setup
unfolding positive post_data is_post
setup_of req url = record {
  url = url;
  timeout_ms = positive req.timeout_ms;
  max_size = positive req.max_response;
  headers = req.headers;
  method = if is_post req.method then Method.post (post_data req.body req.body_len) else Method.get;
}

-- What the callbacks keep, and whether libcurl goes on: it stops at one that takes less than it
-- was given.
pub record Collected : Type 0 where
  pub buf : Strbuf
  pub hdrs : List HttpcHeader
  pub complete : Bool

module _ (heap : Heap) where
  unfoldable pub deliver : Delivery → Collected → Outcome Collected
  unfolding body_write_cb header_write_cb
  deliver (Delivery.header line) c =
      let r = header_write_cb line c.hdrs in
      done (record c { hdrs = r.1; complete = r.0 == length line })
  deliver (Delivery.body chunk) c = do
    r ← body_write_cb heap chunk c.buf
    done (record c { buf = r.1; complete = r.0 == length chunk })

  unfoldable pub deliver_all : List Delivery → Collected → Outcome Collected
  unfolding deliver
  deliver_all [] c = done c
  deliver_all (d ∷ ds) c =
      let further = λ (c' : Collected). deliver_all ds c' in
      deliver d c >>= λ c'. (if c'.complete then further c' else done c')

unfoldable pub at_least_400 : ℤ → Bool
at_least_400 (pos n) = leb 400 n
at_least_400 (negsuc n) = false

-- The return value of `httpc_request` behind `curl_easy_perform`. A transfer that was stopped ends
-- with `CURLE_WRITE_ERROR`.
unfoldable pub status_of : Bool → CurlCode → ℤ → HttpcStatus
unfolding at_least_400
status_of false code status = HttpcStatus.err
status_of true CurlCode.ok status =
    if at_least_400 status then HttpcStatus.http_error else HttpcStatus.ok
status_of true CurlCode.timedout status = HttpcStatus.timeout
status_of true CurlCode.http_returned_error status = HttpcStatus.http_error
status_of true CurlCode.other status = HttpcStatus.err

-- What `calloc` leaves.
abbrev pub no_response : HttpcResponse
no_response = record { status = pos 0; body = strbuf_init; headers = [] }

abbrev pub nothing_collected : Collected
nothing_collected = record { buf = strbuf_init; hdrs = []; complete = true }

unfoldable pub run_transfer : Heap → Transfer → Outcome (HttpcStatus × HttpcResponse)
unfolding deliver_all status_of
run_transfer heap t = do
  c ← deliver_all heap t.deliveries nothing_collected
  done (
    status_of c.complete t.code t.status,
    record { status = t.status; body = c.buf; headers = c.hdrs },
  )

unfoldable pub perform_at :
    Heap → Curl → HttpcReq → Option Bytes → Outcome (HttpcStatus × HttpcResponse)
unfolding run_transfer setup_of
perform_at heap curl req none = done (HttpcStatus.err, no_response)
perform_at heap curl req (some url) =
    if curl.ready
    then run_transfer heap (curl.perform (setup_of req url))
    else done (HttpcStatus.err, no_response)

unfoldable pub httpc_request : Heap → Curl → HttpcReq → Outcome (HttpcStatus × HttpcResponse)
unfolding perform_at
httpc_request heap curl req = perform_at heap curl req req.url

-- The codes 0, -1, -2 and -3.
unfoldable pub httpc_strerror : ℤ → Bytes
httpc_strerror (pos zero) = codes "ok"
httpc_strerror (negsuc zero) = codes "network error"
httpc_strerror (negsuc (suc zero)) = codes "timeout"
httpc_strerror (negsuc (suc (suc zero))) = codes "http error"
httpc_strerror other_status = codes "unknown"
