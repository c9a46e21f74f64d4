-- ===== src/Net/Segments.antt =====
-- src/lib/net.cpp: `reassemble_segments`, which merges TCP segments that follow each other.
-- The groups by interface are in the order in which the interfaces came up; the order of the
-- std::unordered_map is not specified.
pub mod Bytes
use neo.Base.{
  ℕ, Bool, true, false, not, ◌&&◌, ◌==◌, List, [], ◌∷◌, ◌++◌, Option, none, some, if◌then◌else◌,
  ◌+◌,
}
use neo.Base.Partial.{◌>>=◌}
use neo.Objects.{Interface}
use neo.Payload.{Payload, payload_size, concat}
use neo.Packet.{Packet}
use neo.Net.Flags.{is_tcp_ack_or_psh_ack}

-- The packets of an interface, the last one first.
pub record Group : Type 0 where
  pub interface : Interface
  pub packets : List Packet

-- The tests that are made without calls.
unfoldable pub same_addresses : Packet → Packet → Bool
same_addresses lp p =
    lp.src_ip == p.src_ip
    && lp.dst_ip == p.dst_ip
    && lp.src_port == p.src_port
    && lp.dst_port == p.dst_port

-- The sum is one of size_t, so it does not wrap.
unfoldable pub follows : Packet → Packet → Bool
follows lp p = lp.seq + payload_size lp.payload == p.seq && lp.ack == p.ack

-- Whether the packet goes on with the last one of its interface. `&&` stops at the first test that
-- fails, so the assertion of `is_tcp_ack_or_psh_ack` is of packets with the same addresses.
unfoldable pub continues : Packet → Packet → Option Bool
unfolding same_addresses
continues lp p =
    let both = is_tcp_ack_or_psh_ack lp >>= λ a.
    let second = is_tcp_ack_or_psh_ack p >>= λ b. some (b && follows lp p) in
    if a then second else some false in
    if same_addresses lp p then both else some false

abbrev pub merged : Packet → Packet → Packet
merged lp p = record lp { payload = concat lp.payload p.payload }

-- The packets of an interface with one more.
unfoldable pub add_segment : Packet → List Packet → Option (List Packet)
unfolding continues
add_segment p [] = some (p ∷ [])
add_segment p (lp ∷ ps) = continues lp p >>= λ b. some (if b then merged lp p ∷ ps else p ∷ lp ∷ ps)

unfoldable pub add_to_group : Packet → List Group → Option (List Group)
unfolding add_segment
add_to_group p [] =
    add_segment p [] >>= λ ps. some (record { interface = p.interface; packets = ps } ∷ [])
add_to_group p (g ∷ gs) =
    let here = add_segment p g.packets >>= λ ps. some (record g { packets = ps } ∷ gs) in
    let rest = add_to_group p gs >>= λ hs. some (g ∷ hs) in
    if p.interface == g.interface then here else rest

unfoldable pub add_all : List Packet → List Group → Option (List Group)
unfolding add_to_group
add_all [] gs = some gs
add_all (p ∷ ps) gs = add_to_group p gs >>= λ hs. add_all ps hs

abbrev pub reversed : List Packet → List Packet
reversed [] = []
reversed (p ∷ ps) = reversed ps ++ p ∷ []

abbrev pub joined : List Group → List Packet
joined [] = []
joined (g ∷ gs) = reversed g.packets ++ joined gs

unfoldable pub reassemble_segments : List Packet → Option (List Packet)
unfolding add_all
reassemble_segments ps = add_all ps [] >>= λ gs. some (joined gs)
