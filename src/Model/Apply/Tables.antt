-- ===== src/Model/Apply/Tables.antt =====
-- The texts of the keys `type` and `security`, as tables that stand apart from the source's tests.
use openwrt_sub_converter.Common.{
  List, [], ◌∷◌, Option, none, some, ◌≡◌, refl, arith, Bytes, codes, equal, if◌then◌else◌,
}
use openwrt_sub_converter.Model.Apply.{parse_transport, parse_security, is_ws_transport}
use openwrt_sub_converter.Model.{NodeTransport, NodeTls}

-- What the table has for a text.
unfoldable pub selected {ℓ} : {A : Type ℓ} → List (Bytes × A) → A → Bytes → A
selected [] other v = other
selected ((name, x) ∷ rest) other v = if equal v name then x else selected rest other v

-- The names of the transports and of the kinds of TLS.
abbrev pub transports : List (Bytes × NodeTransport)
transports =
    (codes "ws", NodeTransport.ws)
    ∷ (codes "xhttp", NodeTransport.xhttp)
    ∷ (codes "grpc", NodeTransport.grpc)
    ∷ (codes "http", NodeTransport.http)
    ∷ (codes "h2", NodeTransport.http)
    ∷ []

abbrev pub securities : List (Bytes × NodeTls)
securities = (codes "tls", NodeTls.tls) ∷ (codes "reality", NodeTls.reality) ∷ []

-- The transport that a text, if there is one, names, `plain` for any other text.
unfoldable pub transport_of : Option Bytes → NodeTransport → NodeTransport
transport_of none old = old
transport_of (some v) old = selected transports NodeTransport.plain v

unfoldable pub tls_of : Option Bytes → NodeTls → NodeTls
tls_of none old = old
tls_of (some v) old = selected securities NodeTls.no_tls v

-- One value for WebSocket, the other for every other transport.
pub if_ws {ℓ} : {A : Type ℓ} → NodeTransport → A → A → A
if_ws NodeTransport.ws a b = a
if_ws NodeTransport.plain a b = b
if_ws NodeTransport.xhttp a b = b
if_ws NodeTransport.grpc a b = b
if_ws NodeTransport.http a b = b

pub if_ws-is_ws_transport :
    (t : NodeTransport) (a b : Option Bytes) → (if is_ws_transport t then a else b) ≡ if_ws t a b
unfolding is_ws_transport if_ws
if_ws-is_ws_transport NodeTransport.ws a b = refl
if_ws-is_ws_transport NodeTransport.plain a b = refl
if_ws-is_ws_transport NodeTransport.xhttp a b = refl
if_ws-is_ws_transport NodeTransport.grpc a b = refl
if_ws-is_ws_transport NodeTransport.http a b = refl

pub parse_transport-selected :
    (v : Bytes) → parse_transport v ≡ selected transports NodeTransport.plain v
unfolding parse_transport selected
parse_transport-selected v = ground arith

pub parse_security-selected : (v : Bytes) → parse_security v ≡ selected securities NodeTls.no_tls v
unfolding parse_security selected
parse_security-selected v = ground arith
