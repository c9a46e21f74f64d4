-- ===== src/Net/Wire.antt =====
-- src/lib/net.cpp: `deserialize`, which reads a frame.
pub mod Kinds
use neo.Base.{
  ℕ, zero, suc, Bool, true, false, not, ◌&&◌, ltb, leb, ◌==◌, List, [], ◌∷◌, Option, none, some,
  if◌then◌else◌, ◌+◌, ◌-◌, ◌*◌, ◌/◌, ◌%◌, length, get_elem?, bit_and,
}
use neo.Base.Partial.{◌>>=◌}
use neo.Objects.{Interface}
use neo.Payload.{Payload}
use neo.Packet.{Packet, clear, empty}
use neo.Net.Flags.{unconverted}

-- The bytes of a frame; a byte past its end is undefined.
abbrev pub Frame : Type 0
Frame = List ℕ

-- Numbers of 16 and 32 bits in network order.
unfoldable pub read16 : Frame → ℕ → Option ℕ
read16 b i = get_elem? b i >>= λ hi. get_elem? b (i + 1) >>= λ lo. some (hi * 256 + lo)

unfoldable pub read32 : Frame → ℕ → Option ℕ
unfolding read16
read32 b i = read16 b i >>= λ hi. read16 b (i + 2) >>= λ lo. some (hi * 65536 + lo)

abbrev pub drop : ℕ → Frame → Frame
drop zero b = b
drop (suc n) [] = []
drop (suc n) (x ∷ b) = drop n b

abbrev pub take : ℕ → Frame → Frame
take zero b = []
take (suc n) [] = []
take (suc n) (x ∷ b) = x ∷ take n b

abbrev pub id_mac : Frame
id_mac = 170 ∷ 187 ∷ 204 ∷ 221 ∷ 238 ∷ 255 ∷ []

-- `memcmp` with the address that marks the frames of this program.
unfoldable pub starts_with : Frame → Frame → Option Bool
starts_with [] b = some true
starts_with (x ∷ xs) [] = none
starts_with (x ∷ xs) (y ∷ b) = let rest = starts_with xs b in if x == y then rest else some false

-- The payload at an offset; a length that runs past the end is undefined.
unfoldable pub read_payload : Frame → ℕ → ℕ → Option Payload
read_payload b off len =
    if len == 0
    then some none
    else if leb (off + len) (length b)
    then some (some (take len (drop off b)))
    else none

unfoldable pub read_tcp : Frame → Packet → Option Packet
unfolding read16 read32 read_payload
read_tcp b p = read16 b 34 >>= λ src_port. read16 b 36 >>= λ dst_port. read32 b 38 >>= λ seq.
    read32 b 42 >>= λ ack. get_elem? b 46 >>= λ byte. read16 b 46 >>= λ flags.
    let off = 34 + byte / 16 * 4 in
    let rest = read_payload b off (length b - off) in
    (if ltb (length b) off then none else rest) >>= λ pl. some (record p {
      src_port = src_port;
      dst_port = dst_port;
      seq = seq;
      ack = ack;
      proto_state = unconverted (bit_and flags 4095);
      payload = pl;
    })

abbrev pub min16 : ℕ → ℕ → ℕ
min16 a b = if ltb b a then b else a

-- The lengths are of 16 bits and wrap.
unfoldable pub read_udp : Frame → Packet → Option Packet
unfolding read16 read_payload
read_udp b p = read16 b 34 >>= λ src_port. read16 b 36 >>= λ dst_port. read16 b 38 >>= λ len.
    read_payload b 42 (min16 ((len + 65528) % 65536) ((length b + 65494) % 65536)) >>= λ pl.
    some (record p { src_port = src_port; dst_port = dst_port; proto_state = 11; payload = pl })

-- An echo request or reply; another type is a bad packet.
unfoldable pub read_icmp : Frame → Packet → Option Packet
read_icmp b p = get_elem? b 34 >>= λ type_. get_elem? b 35 >>= λ code. some (
    if type_ == 8
    then record p { proto_state = 13 }
    else if type_ == 0
    then record p { proto_state = 14 }
    else clear p)

unfoldable pub read_ip : Frame → Packet → Option Packet
unfolding read_tcp read_udp read_icmp
read_ip b p = read32 b 26 >>= λ src. read32 b 30 >>= λ dst. get_elem? b 23 >>= λ proto.
    let q = record p { src_ip = src; dst_ip = dst } in
    let tcp = read_tcp b q in
    let udp = read_udp b q in
    let icmp = read_icmp b q in
    if proto == 6
    then tcp
    else if proto == 17
    then udp
    else if proto == 1
    then icmp
    else some (clear q)

-- A frame of neither address, or not of IPv4, is a bad packet.
unfoldable pub deserialize : Frame → Packet → Option Packet
unfolding starts_with read_ip
deserialize b p =
    let source = starts_with id_mac (drop 6 b) in
    let body = read16 b 12 >>= λ ethertype.
    if ethertype == 2048 then read_ip b (clear p) else some (clear p) in
    starts_with id_mac b >>= λ to_id.
    (if to_id then some true else source) >>= λ ours. if ours then body else some (clear p)

-- The overload on a packet buffer.
unfoldable pub deserialize_at : Interface → Frame → Packet → Option Packet
unfolding deserialize
deserialize_at intf b p =
    deserialize b p >>= λ q. some (if empty q then q else record q { interface = intf })
