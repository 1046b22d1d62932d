-- ===== src/Server.antt =====
-- sub-converter/src/server.c: the routes, the handlers and the callback that collects a request.
-- libmicrohttpd and libcurl are parameters; the version comes from the build.
pub mod Headers
pub mod Routes
pub mod Convert
pub mod Upload
use openwrt_sub_converter.Common.{
  ℕ, zero, suc, ◌+◌, ◌-◌, ◌*◌, ◌/◌, ◌%◌, ◌^◌, ◌<◌, ◌≤◌, Bool, true, false, not, ◌&&◌, ◌||◌, List,
  [], ◌∷◌, ◌++◌, append_assoc, append-nil, Option, none, some, ◌≡◌, ◌≢◌, ◌↔◌, ◌⊎◌, inl, inr, refl,
  sym, subst, fun_ext, ◌∙◌, ap, arith, Bytes, IsBytes, Lacks, All, All-append, codes, get_or,
  length, get_elem?, take, drop, length-append, length-take, length-drop, take-length-append,
  take-length, drop_behind, take-append-drop, drop-length-append, replicate, length-replicate,
  equal, equal_iff, c_str, c_str-Lacks, Lacks-c_str, is_space, is_digit, if◌then◌else◌, ◌==◌, ltb,
  leb, ==_iff, Bool-cases, Option-cases, all_below, all_below_sound, all_below_sound₂, Outcome,
  done, failed, fault, ◌>>=◌, ◌>>◌, >>=-eq-done, >>=-ne-fault, require, guard, Returns, Ensures,
  Returns->>=, Ensures->>=, Returns-done, Ensures-ne-fault, Returns-Ensures, Ensures-mono,
  Ensures-done, >>=-ne-failed,
}
use mathlib.Core.List.{map}
use openwrt_sub_converter.Buffer.{Buffer, append_bytes, append_char, contents}
use openwrt_sub_converter.Converter.{Converter, converter_all, converter_find}
use openwrt_sub_converter.Httpc.{Curl, HttpcReq, HttpcResponse, HttpcStatus, httpc_request}
use openwrt_sub_converter.Libc.{ℤ, pos, negsuc, format_int}
use openwrt_sub_converter.Model.Json.{
  JsonC, jsonx_parse, jsonx_is_object, jsonx_obj_entries, string_of,
}
use openwrt_sub_converter.Strbuf.{Strbuf, Heap, view, strbuf_init, strbuf_append_bytes}

-- `none` while `data` is NULL gives an empty string. The buffer is none afterwards.
unfoldable pub strbuf_detach : Buffer → Bytes
strbuf_detach none = []
strbuf_detach (some b) = b

pub record Response : Type 0 where
  pub status : ℕ
  pub content_type : Bytes
  pub body : Bytes

-- What a handler returns: `MHD_NO` with no response, or the result of `MHD_queue_response`.
pub data Answer : Type 0 where
  unsent : Answer
  queued : Response → Bool → Answer

-- A connection of libmicrohttpd: whether `MHD_create_response_from_buffer` gives a response for a
-- body, the result of `MHD_queue_response`, and the arguments of the URL.
pub record Connection : Type 0 where
  pub creates : Bytes → Bool
  pub queues : Response → Bool
  pub argument : Bytes → Option Bytes

-- What a server runs over: memory, libcurl, json-c, and the text of `SUB_CONVERTER_VERSION`.
pub record Services : Type 1 where
  pub heap : Heap
  pub curl : Curl
  pub json : JsonC
  pub version : Bytes

-- The length of the body is that of a C string.
unfoldable pub send_response : Connection → ℕ → Bytes → Bytes → Answer
send_response con status ctype body =
    let r : Response = record { status = status; content_type = ctype; body = c_str body } in
    if con.creates (c_str body) then Answer.queued r (con.queues r) else Answer.unsent

abbrev pub json_type : Bytes
json_type = codes "application/json"

unfoldable pub method_not_allowed : Connection → Answer
unfolding send_response
method_not_allowed con =
    send_response con 405 json_type
      (codes "{\"error\":\"method not allowed\",\"code\":\"method_not_allowed\"}")

unfoldable pub bad_request : Connection → Bytes → Answer
unfolding send_response
bad_request con error =
    send_response con 400 json_type
      (codes "{\"error\":\"" ++ (error ++ codes "\",\"code\":\"bad_request\"}"))

-- The names of the converters between commas, `first` for `i == 0`.
unfoldable pub append_names : Bool → List Converter → Buffer → Buffer
append_names first [] sb = sb
append_names first (c ∷ cs) sb =
    let sb' = if first then sb else append_char sb b',' in
    append_names false cs (append_bytes sb' (codes "\"" ++ (c.name ++ codes "\"")))

unfoldable pub handle_root : Services → Connection → Bytes → Answer
unfolding method_not_allowed append_names strbuf_detach send_response equal
handle_root s con method =
    if not (equal method (codes "GET"))
    then method_not_allowed con
    else let sb = append_bytes none (
        codes "{\"service\":\"openwrt-sub-converter\",\"version\":\""
        ++ (s.version ++ codes "\",\"converters\":[")) in
      let sb = append_names true (converter_all s.json) sb in
      let sb =
        append_bytes sb (codes "],\"endpoints\":[\"/health\",\"/convert\",\"/convert/manual\"]}") in
      send_response con 200 json_type (strbuf_detach sb)

unfoldable pub handle_health : Services → Connection → Bytes → Answer
unfolding method_not_allowed strbuf_detach send_response equal
handle_health s con method =
    if not (equal method (codes "GET"))
    then method_not_allowed con
    else let sb =
        append_bytes none
          (codes "{\"status\":\"ok\",\"version\":\"" ++ (s.version ++ codes "\"}")) in
      send_response con 200 json_type (strbuf_detach sb)

-- `strcasecmp(s, t) == 0`, in the C locale.
unfoldable pub lower : ℕ → ℕ
lower c = if leb b'A' c && leb c b'Z' then c + 32 else c

unfoldable pub same_word : Bytes → Bytes → Bool
unfolding lower equal
same_word s t = equal (map lower s) (map lower t)

-- A header that libcurl sets itself.
unfoldable pub is_reserved : Bytes → Bool
unfolding same_word
is_reserved key =
    same_word key (codes "host")
    || same_word key (codes "content-length")
    || same_word key (codes "transfer-encoding")

module _ (lib : JsonC) where
  open lib use {Json}

  -- The line of an entry, unless its value is no string or its key is reserved.
  unfoldable pub header_line : Bytes → Option Bytes → Option Bytes
  unfolding is_reserved
  header_line key none = none
  header_line key (some v) = if is_reserved key then none else some (key ++ (codes ": " ++ v))

  unfoldable pub push_line : Option Bytes → List Bytes → List Bytes
  push_line none lines = lines
  push_line (some line) lines = line ∷ lines

  unfoldable pub header_lines : List (Bytes × Option Json) → List Bytes
  unfolding header_line push_line string_of
  header_lines [] = []
  header_lines ((key, val) ∷ entries) =
      push_line (header_line key (string_of lib val)) (header_lines entries)

  -- The array stays NULL while no line is added.
  unfoldable pub non_empty : List Bytes → Option (List Bytes)
  non_empty [] = none
  non_empty (line ∷ lines) = some (line ∷ lines)

  unfoldable pub header_array : Option Json → Option (List Bytes)
  unfolding non_empty header_lines jsonx_is_object
  header_array none = none
  header_array (some obj) =
      if jsonx_is_object lib (some obj) then non_empty (header_lines (lib.entries obj)) else none

  unfoldable pub parse_headers : Bytes → Option (List Bytes)
  unfolding header_array jsonx_parse
  parse_headers json = header_array (jsonx_parse lib (some json))

-- `headers && *headers`: an argument that is missing or empty stands for no headers.
unfoldable pub wanted_headers : JsonC → Option Bytes → Option (List Bytes)
unfolding parse_headers
wanted_headers lib none = some []
wanted_headers lib (some []) = some []
wanted_headers lib (some (c ∷ json)) = parse_headers lib (c ∷ json)

unfoldable pub upstream_status : Connection → ℤ → Answer
unfolding strbuf_detach send_response
upstream_status con status =
    let sb = append_bytes none (
      codes "{\"error\":\"upstream returned HTTP "
      ++ (format_int status ++ codes "\",\"code\":\"bad_gateway\"}")) in
    send_response con 502 json_type (strbuf_detach sb)

unfoldable pub send_converted : Connection → Outcome Bytes → Outcome Answer
unfolding send_response
send_converted con (done yaml) = done (send_response con 200 (codes "application/yaml") yaml)
send_converted con failed = done (
    send_response con 422 json_type
      (codes "{\"error\":\"source data is not convertible\",\"code\":\"unprocessable\"}"))
send_converted con fault = fault

unfoldable pub is_200 : ℤ → Bool
is_200 (pos n) = n == 200
is_200 (negsuc n) = false

-- What is sent for a response of the upstream server.
unfoldable pub convert_response :
    Connection → Converter → HttpcStatus → HttpcResponse → Outcome Answer
unfolding send_response upstream_status send_converted is_200
convert_response con conv HttpcStatus.timeout resp = done (
    send_response con 504 json_type (codes "{\"error\":\"upstream timeout\",\"code\":\"timeout\"}"))
convert_response con conv HttpcStatus.err resp = done (
    send_response con 502 json_type
      (codes "{\"error\":\"upstream fetch failed\",\"code\":\"bad_gateway\"}"))
convert_response con conv HttpcStatus.http_error resp = done (upstream_status con resp.status)
convert_response con conv HttpcStatus.ok resp =
    if is_200 resp.status
    then send_converted con (conv.run (view resp.body))
    else done (upstream_status con resp.status)

abbrev pub convert_request : Bytes → List Bytes → HttpcReq
convert_request url lines = record {
  url = some url;
  method = some (codes "GET");
  body = none;
  body_len = 0;
  headers = lines;
  timeout_ms = pos 30000;
  max_response = pos 2097152;
}

unfoldable pub fetch :
    Services → Connection → Converter → Bytes → Option (List Bytes) → Outcome Answer
unfolding bad_request convert_response
fetch s con conv url none = done (bad_request con (codes "invalid headers JSON"))
fetch s con conv url (some lines) = do
  r ← httpc_request s.heap s.curl (convert_request url lines)
  convert_response con conv r.0 r.1

unfoldable pub convert_url : Services → Connection → Converter → Option Bytes → Outcome Answer
unfolding bad_request fetch wanted_headers
convert_url s con conv none = done (bad_request con (codes "missing 'url'"))
convert_url s con conv (some url) =
    fetch s con conv url (wanted_headers s.json (con.argument (codes "headers")))

unfoldable pub convert_found_type : Services → Connection → Option Converter → Outcome Answer
unfolding bad_request convert_url
convert_found_type s con none = done (bad_request con (codes "unknown converter"))
convert_found_type s con (some conv) = convert_url s con conv (con.argument (codes "url"))

unfoldable pub convert_type : Services → Connection → Option Bytes → Outcome Answer
unfolding bad_request convert_found_type
convert_type s con none = done (bad_request con (codes "missing 'type' or 'source'"))
convert_type s con (some type) = convert_found_type s con (converter_find s.json (some type))

unfoldable pub handle_convert : Services → Connection → Bytes → Outcome Answer
unfolding method_not_allowed convert_type equal
handle_convert s con method =
    if not (equal method (codes "GET"))
    then done (method_not_allowed con)
    else convert_type s con (con.argument (codes "type"))

-- The body is sent back if it is JSON.
unfoldable pub echo_body {ℓ} : {Json : Type ℓ} → Connection → Buffer → Option Json → Answer
unfolding bad_request strbuf_detach send_response
echo_body con sb none = bad_request con (codes "invalid JSON body")
echo_body con sb (some obj) = send_response con 200 json_type (strbuf_detach sb)

unfoldable pub handle_convert_manual : Services → Connection → Bytes → Buffer → Answer
unfolding method_not_allowed echo_body jsonx_parse equal
handle_convert_manual s con method sb =
    if not (equal method (codes "POST"))
    then method_not_allowed con
    else echo_body con sb (jsonx_parse s.json (some (contents sb)))

-- `q ? q - url : strlen(url)`: the bytes in front of the query.
unfoldable pub path_of : Bytes → Bytes
path_of [] = []
path_of (c ∷ url) = let further = c ∷ path_of url in if c == b'?' then [] else further

unfoldable pub route_request : Services → Connection → Bytes → Bytes → Buffer → Outcome Answer
unfolding path_of handle_root handle_health handle_convert handle_convert_manual send_response equal
route_request s con url method sb =
    let path = path_of url in
    if equal path (codes "/")
    then done (handle_root s con method)
    else if equal path (codes "/health")
    then done (handle_health s con method)
    else if equal path (codes "/convert")
    then handle_convert s con method
    else if equal path (codes "/convert/manual")
    then done (handle_convert_manual s con method sb)
    else done
        (send_response con 404 json_type (codes "{\"error\":\"not found\",\"code\":\"not_found\"}"))

-- `*con_cls`: none for NULL, or the buffer of the request.
abbrev pub ConCls : Type 0
ConCls = Option Strbuf

-- What one call of the callback comes to: `MHD_YES` with the upload taken, or the answer.
pub data Called : Type 0 where
  taken : ConCls → Called
  answered : Answer → Called

-- A call for a request that has a buffer.
unfoldable pub handle_upload :
    Services → Connection → Bytes → Bytes → Bytes → Strbuf → Outcome Called
unfolding route_request
handle_upload s con url method upload sb =
    if ltb 0 (length upload)
    then (do sb' ← strbuf_append_bytes s.heap sb upload; done (Called.taken (some sb')))
    else (do answer ← route_request s con url method (view sb); done (Called.answered answer))

unfoldable pub handler_cb : Services → Connection → Bytes → Bytes → Bytes → ConCls → Outcome Called
unfolding handle_upload
handler_cb s con url method upload none = done (Called.taken (some strbuf_init))
handler_cb s con url method upload (some sb) = handle_upload s con url method upload sb

pub record ServerConfig : Type 0 where
  pub listen_host : Option Bytes
  pub port : ℤ

pub record Server : Type 0 where
  pub host : Bytes
  pub port : ℤ

unfoldable pub host_or_any : Option Bytes → Bytes
host_or_any none = codes "0.0.0.0"
host_or_any (some host) = host

unfoldable pub server_create : Option ServerConfig → Server
unfolding host_or_any
server_create none = record { host = codes "0.0.0.0"; port = pos 0 }
server_create (some cfg) = record { host = host_or_any cfg.listen_host; port = cfg.port }
