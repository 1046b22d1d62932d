-- ===== src/Tests/Servers.antt =====
-- A conversion through the server, for a known response of the upstream server.
use openwrt_sub_converter.Common.{
  ◌-◌, true, false, not, List, [], ◌∷◌, Option, none, some, ◌≡◌, ◌≢◌, ◌↔◌, ◌⊎◌, inl, inr, refl, sym,
  ◌∙◌, arith, Bytes, codes, length, equal, equal_iff, if◌then◌else◌, done,
}
use openwrt_sub_converter.ConvBase64.Document.{conv_base64_run_total}
use openwrt_sub_converter.ConvBase64.{conv_base64_run}
use openwrt_sub_converter.Converter.Find.{converter_find_iff}
use openwrt_sub_converter.Converter.{with_data, converter_find, conv_base64, conv_singbox}
use openwrt_sub_converter.Httpc.{Curl, CurlCode, Delivery, Transfer}
use openwrt_sub_converter.Libc.{pos}
use openwrt_sub_converter.Model.Json.{JsonC, JsonType}
use openwrt_sub_converter.Server.Convert.{
  IsConverted, document, handle_convert_total, handle_convert-IsConverted,
}
use openwrt_sub_converter.Server.Routes.{IsEndpoint, HasPath, IsRefusal, route_request-IsRefusal}
use openwrt_sub_converter.Server.Upload.{serve, serve-route_request}
use openwrt_sub_converter.Server.{
  Services, Connection, Response, Answer, handle_convert, route_request, wanted_headers,
}
use openwrt_sub_converter.Tests.Links.{no_json}
use openwrt_sub_converter.Tests.Memory.{big_heap, big_heap_plenty}
use openwrt_sub_converter.Tests.Shares.{two_lines, line_node, source_plain, one_node}

abbrev upstream : Transfer
upstream = record {
  deliveries = Delivery.header (codes "Server: s\r\n") ∷ Delivery.body two_lines ∷ [];
  code = CurlCode.ok;
  status = pos 200;
}

abbrev curl : Curl
curl = record { ready = true; perform = λ setup. upstream }

abbrev services : Services
services = record { heap = big_heap; curl = curl; json = no_json; version = codes "0.1" }

abbrev arguments : Bytes → Option Bytes
arguments key =
    if equal key (codes "type")
    then some (codes "base64")
    else if equal key (codes "url")
    then some (codes "http://u/")
    else none

abbrev con : Connection
con = record { creates = λ body. true; queues = λ r. true; argument = arguments }

yaml_of : (doc : Bytes) × (conv_base64_run no_json two_lines ≡ done doc)
yaml_of =
    conv_base64_run_total no_json two_lines two_lines (line_node ∷ []) source_plain one_node (cc)

abbrev yaml : Bytes
yaml = yaml_of.0

type_given : arguments (codes "type") ≡ some (codes "base64")
unfolding equal
type_given = refl

url_given : arguments (codes "url") ≡ some (codes "http://u/")
unfolding equal
url_given = refl

no_headers : wanted_headers no_json (arguments (codes "headers")) ≡ some []
unfolding equal wanted_headers
no_headers = refl

base64_found : converter_find no_json (some (codes "base64")) ≡ some (conv_base64 no_json)
base64_found =
    (converter_find_iff no_json (codes "base64") (conv_base64 no_json)).1 (refl, inr refl)

base64_runs : (conv_base64 no_json).run (some two_lines) ≡ done yaml
unfolding with_data
base64_runs = yaml_of.1

handle_convert_total_example :
    handle_convert services con (codes "GET") ≡ done (Answer.queued (document yaml) true)
handle_convert_total_example =
    handle_convert_total services big_heap_plenty con (codes "base64") (codes "http://u/") []
      (conv_base64 no_json) yaml type_given base64_found url_given no_headers refl refl refl (cc)
      (omega arith) base64_runs refl

handle_convert-IsConverted_example :
    (◌≡◌ {A = Bytes} (codes "GET") (codes "GET")) × IsConverted services con (document yaml)
handle_convert-IsConverted_example =
    handle_convert-IsConverted services con (codes "GET") (document yaml) true
      handle_convert_total_example refl

converter_find_iff_example :
    (converter_find no_json (some (codes "base64")) ≡ some (conv_base64 no_json)) ↔ (
      ((conv_base64 no_json).name ≡ codes "base64")
      × ((conv_base64 no_json ≡ conv_singbox no_json)
          ⊎ (conv_base64 no_json ≡ conv_base64 no_json)))
converter_find_iff_example = converter_find_iff no_json (codes "base64") (conv_base64 no_json)

serve-route_request_example :
    serve services con (codes "/convert/manual") (codes "POST") (codes "[1" ∷ codes "]" ∷ [])
    ≡ route_request services con (codes "/convert/manual") (codes "POST") (some (codes "[1]"))
serve-route_request_example =
    serve-route_request services big_heap_plenty con (codes "/convert/manual") (codes "POST")
      (codes "[1" ∷ codes "]" ∷ []) ((cc), ((cc), tt)) (omega arith)

unequal : (s t : Bytes) → equal s t ≡ false → s ≢ t
unequal s t h e = let h' : (true ≡ false) = sym ((equal_iff s t).1 e) ∙ h in cc

put_ne_get : codes "PUT" ≢ codes "GET"
unfolding equal
put_ne_get = unequal (codes "PUT") (codes "GET") refl

health-IsEndpoint : ¬ IsEndpoint (codes "/health") (codes "PUT")
unfolding equal
health-IsEndpoint (inl (e, m)) = put_ne_get m
health-IsEndpoint (inr (inl (e, m))) = put_ne_get m
health-IsEndpoint (inr (inr (inl (e, m)))) = put_ne_get m
health-IsEndpoint (inr (inr (inr (e, m)))) =
    unequal (codes "/health") (codes "/convert/manual") refl e

health_url-HasPath : HasPath (codes "/health") (codes "/health?x")
health_url-HasPath = (omega arith, inr (codes "x", refl))

route_request-IsRefusal_example :
    (r : Response) × (route_request services con (codes "/health?x") (codes "PUT") none
      ≡ done (Answer.queued r true))
    × IsRefusal (codes "/health") r
route_request-IsRefusal_example =
    route_request-IsRefusal services con (codes "/health") (codes "/health?x") (codes "PUT") none
      health_url-HasPath health-IsEndpoint (λ body. refl)

-- A JSON library that knows one object.
abbrev headers_json : List (Bytes × Option Bytes) → JsonC
headers_json entries = record no_json {
  Json = Bytes;
  parse_ex = λ s. record { value = some []; success = true; parse_end = length s - 1 };
  is_type = λ v t. elim t [
    | JsonType.object ↦ equal v []
    | JsonType.string ↦ not (equal v [])
    | _ ↦ false
  ];
  get_ex = λ v k. none;
  get_int64 = λ v. pos 0;
  get_string = λ v. v;
  get_boolean = λ v. false;
  array_length = λ v. 0;
  array_get_idx = λ v i. none;
  entries = λ v. entries;
  to_json_string = λ v. none;
}

abbrev two_headers : List (Bytes × Option Bytes)
two_headers = (codes "HOST", some (codes "evil")) ∷ (codes "X-Id", some (codes "7")) ∷ []
