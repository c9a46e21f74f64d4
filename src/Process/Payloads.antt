-- ===== src/Process/Payloads.antt =====
-- src/payloadmgr.cpp: the payloads of the packets that the model sends.
pub mod Cached
use Prim.Native.String.{String}
use Prim.Native.Char.{code}
use text.Mathlib.TextBridge.{to_list}
use neo.Base.{
  ℕ, Bool, true, false, not, ◌&&◌, ◌==◌, List, [], ◌∷◌, ◌++◌, map, Option, none, some,
  if◌then◌else◌, length, bit_and, ◌/◌, ◌^◌,
}
use neo.Base.Partial.{◌>>=◌}
use neo.Ip.Address.{IPv4Address}
use neo.Ec.Range.{EcPtr}
use neo.Payload.{Payload, of_bytes, concat}
use neo.Packet.{Packet}
use neo.Model.{State, current}

-- The protocol state is of 8 bits here.
pub record PayloadKey : Type 0 where
  pub dst_ip_ec : EcPtr
  pub dst_port : ℕ
  pub proto_state : ℕ

abbrev pub same_key : PayloadKey → PayloadKey → Bool
same_key a b =
    a.dst_ip_ec == b.dst_ip_ec && a.dst_port == b.dst_port && a.proto_state == b.proto_state

abbrev pub key_of : State → PayloadKey
key_of s =
    let c = current s in
    record {
      dst_ip_ec = c.dst_ip_ec;
      dst_port = c.dst_port;
      proto_state = bit_and c.proto_state 255;
    }

pub record Entry : Type 0 where
  pub key : PayloadKey
  pub payload : Payload

-- `state_to_pl_map`.
unfoldable pub find_payload : PayloadKey → List Entry → Option Payload
find_payload k [] = none
find_payload k (e ∷ es) =
    let rest = find_payload k es in if same_key k e.key then some e.payload else rest

-- The bytes of a string of the source, in ASCII.
abbrev pub ascii : String → List ℕ
ascii s = map code (to_list s)

-- `std::to_string` of a number, and the lower bound of a class.
module _ (to_string : ℕ → List ℕ) (representative_addr : EcPtr → Option IPv4Address) where
  abbrev pub address : IPv4Address → List ℕ
  address a =
      to_string (bit_and (a / 2 ^ 24) 255)
      ++ ascii "."
      ++ to_string (bit_and (a / 2 ^ 16) 255)
      ++ ascii "."
      ++ to_string (bit_and (a / 2 ^ 8) 255)
      ++ ascii "."
      ++ to_string (bit_and a 255)

  abbrev pub request : IPv4Address → ℕ → List ℕ
  request a port =
      ascii "GET / HTTP/1.1\r\nHost: "
      ++ address a
      ++ ascii ":"
      ++ to_string port
      ++ ascii "\r\n\r\n"

  abbrev pub http : List ℕ
  http = ascii "<!DOCTYPE html><html><head><title>Reply</title></head><body>Reply</body></html>\r\n"

  -- The length of the page is given, and the page is left out.
  abbrev pub reply : List ℕ
  reply =
      ascii "HTTP/1.1 200 OK\r\nServer: plankton\r\nContent-Type: text/html\r\nContent-Length: "
      ++ to_string (length http)
      ++ ascii "\r\n\r\n"

  -- The payload that is made for a key with a payload, the request's or the reply's.
  unfoldable pub make_payload : PayloadKey → Option Payload
  make_payload k =
      let asked = representative_addr k.dst_ip_ec >>= λ a. some (some (request a k.dst_port)) in
      if k.proto_state == 4 then asked else some (some reply)

  abbrev pub or_make : PayloadKey → List Entry → Option Payload → Option (Payload × List Entry)
  or_make k es (some p) = some (p, es)
  or_make k es none = make_payload k >>= λ p. some (p, record { key = k; payload = p } ∷ es)

  unfoldable pub get_payload_from_model : State → List Entry → Option (Payload × List Entry)
  unfolding find_payload make_payload
  get_payload_from_model s es =
      let k = key_of s in
      let found = or_make k es (find_payload k es) in
      if not (k.proto_state == 4) && not (k.proto_state == 6) then some (none, es) else found
