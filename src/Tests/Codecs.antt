-- ===== src/Tests/Codecs.antt =====
-- Each theorem at an input of its own.
use openwrt_sub_converter.Common.{
  ◌%◌, ◌+◌, ◌≤◌, true, [], ◌∷◌, ◌++◌, none, some, ◌≡◌, ◌≢◌, ◌↔◌, inl, inr, refl, arith, Bytes,
  IsBytes, All, codes, length, done, fault, Ensures,
}
use openwrt_sub_converter.Base64.Recognise.{
  IsAccepted, count_solid, base64_looks_like-encode, base64_looks_like_iff, Thins,
  base64_decode-Thins,
}
use openwrt_sub_converter.Base64.RoundTrip.{base64_decode-encode, base64_decode_url-encode_url}
use openwrt_sub_converter.Base64.{
  base64_encode, base64_decode, base64_encode_url, base64_decode_url, base64_looks_like,
}
use openwrt_sub_converter.Buffer.{contents, append_chars}
use openwrt_sub_converter.Libc.{decimal}
use openwrt_sub_converter.Model.HostPort.Bounds.{IsHostPort, parse_host_port-IsHostPort}
use openwrt_sub_converter.Model.HostPort.RoundTrip.{
  parse_host_port-plain, parse_host_port_bracketed,
}
use openwrt_sub_converter.Model.HostPort.{parse_host_port}
use openwrt_sub_converter.Url.Grammar.{Decodes, url_decode_iff, url_decode-ne-fault}
use openwrt_sub_converter.Url.RoundTrip.{url_decode-url_encode}
use openwrt_sub_converter.Url.{url_encode, url_decode}

abbrev three_bytes : Bytes
three_bytes = 0 ∷ 255 ∷ 62 ∷ []

three_bytes-IsBytes : IsBytes three_bytes
three_bytes-IsBytes = (omega arith, (omega arith, (omega arith, tt)))

base64_decode-encode_example :
    base64_decode (contents (base64_encode three_bytes none)) (some (b'x' ∷ []))
    ≡ done (append_chars (some (b'x' ∷ [])) three_bytes)
base64_decode-encode_example =
    base64_decode-encode three_bytes (some (b'x' ∷ [])) three_bytes-IsBytes

base64_decode_url-encode_url_example :
    base64_decode_url (contents (base64_encode_url three_bytes none)) none
    ≡ done (append_chars none three_bytes)
base64_decode_url-encode_url_example =
    base64_decode_url-encode_url three_bytes none three_bytes-IsBytes

base64_looks_like-encode_example :
    base64_looks_like (contents (base64_encode three_bytes none)) ≡ true
base64_looks_like-encode_example = base64_looks_like-encode three_bytes three_bytes-IsBytes (cc)

base64_looks_like_iff_example : (base64_looks_like (codes "AP8 +\n") ≡ true) ↔ (
    All IsAccepted (codes "AP8 +\n")
    × (4 ≤ count_solid (codes "AP8 +\n"))
    × (count_solid (codes "AP8 +\n") % 4 ≡ 0))
base64_looks_like_iff_example = base64_looks_like_iff (codes "AP8 +\n")

lines_thinned : Thins (codes "AP \r8+") (codes "AP8+")
lines_thinned = Thins.keep _ _ _ (
    Thins.keep _ _ _ (
      Thins.skip _ _ _ (inl refl) (
        Thins.skip _ _ _ (inr (omega arith, omega arith))
          (Thins.keep _ _ _ (Thins.keep _ _ _ Thins.end)))))

base64_decode-Thins_example :
    base64_decode (codes "AP \r8+") none ≡ base64_decode (codes "AP8+") none
base64_decode-Thins_example =
    base64_decode-Thins (codes "AP \r8+") (codes "AP8+") none lines_thinned

url_decode-url_encode_example :
    url_decode (contents (url_encode three_bytes none)) none ≡ done (append_chars none three_bytes)
url_decode-url_encode_example = url_decode-url_encode three_bytes none three_bytes-IsBytes

url_decode_iff_example :
    (url_decode (codes "a%2Fb%4") none ≡ done none)
    ↔ ((t : Bytes) × Decodes (codes "a%2Fb%4") t × (none ≡ append_chars none t))
url_decode_iff_example = url_decode_iff (codes "a%2Fb%4") none none

url_decode-ne-fault_example : url_decode (codes "a%2Fb%4") none ≢ fault
url_decode-ne-fault_example = url_decode-ne-fault (codes "a%2Fb%4") none

parse_host_port-IsHostPort_example : Ensures IsHostPort (parse_host_port (codes "h:65536/") 7)
parse_host_port-IsHostPort_example = parse_host_port-IsHostPort (codes "h:65536/") 7 (omega arith)

parse_host_port-plain_example :
    parse_host_port
      (codes "a:b" ++ b':' ∷ (decimal 443 ++ codes "?x=1"))
      (3 + 1 + length (decimal 443))
    ≡ done (codes "a:b", 443)
parse_host_port-plain_example =
    parse_host_port-plain (codes "a:b") 443 (codes "?x=1") (omega arith)
      (omega arith, (omega arith, (omega arith, tt))) (omega arith, omega arith)

parse_host_port_bracketed_example :
    parse_host_port
      (b'[' ∷ (codes "::1" ++ b']' ∷ b':' ∷ (decimal 443 ++ codes "#n")))
      (1 + 3 + 2 + length (decimal 443))
    ≡ done (codes "::1", 443)
parse_host_port_bracketed_example =
    parse_host_port_bracketed (codes "::1") 443 (codes "#n") (cc)
      (omega arith, (omega arith, (omega arith, tt)))
      (omega arith, (omega arith, (omega arith, tt))) (omega arith, omega arith)
