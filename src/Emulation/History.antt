-- ===== src/Emulation/History.antt =====
-- src/pkt-hist.cpp: the packets that a node has received. A packet is the pointer to it in the unique
-- storage, which keeps one object for each value, and a history is the list of its packets, the last
-- one first. The null history is empty.
use neo.Base.{ℕ, Bool, true, false, ◌&&◌, ltb, ◌==◌, List, [], ◌∷◌, if◌then◌else◌}

abbrev pub PacketPtr : Type 0
PacketPtr = ℕ

abbrev pub History : Type 0
History = List PacketPtr

-- Equal histories are one object, so this compares pointers.
abbrev pub same : History → History → Bool
same [] [] = true
same (p ∷ h) (q ∷ k) = p == q && same h k
same _ _ = false

unfoldable pub contains : History → History → Bool
contains [] other = same [] other
contains (p ∷ h) other = let rest = contains h other in if same (p ∷ h) other then true else rest

-- The loop of `get_packets`, with what it has collected.
abbrev pub packets_onto : History → List PacketPtr → List PacketPtr
packets_onto [] packets = packets
packets_onto (p ∷ h) packets = packets_onto h (p ∷ packets)

unfoldable pub get_packets : History → List PacketPtr
get_packets h = packets_onto h []

-- The loop of `get_packets_since`.
abbrev pub since_onto : History → History → List PacketPtr → List PacketPtr
since_onto [] start packets = packets
since_onto (p ∷ h) start packets =
    let rest = since_onto h start (p ∷ packets) in if same (p ∷ h) start then packets else rest

unfoldable pub get_packets_since : History → History → List PacketPtr
get_packets_since h start = since_onto h start []

-- The first packets that differ decide, and then the lengths.
abbrev pub packets_precede : List PacketPtr → List PacketPtr → Bool
packets_precede (p ∷ ps) (q ∷ qs) =
    let rest = packets_precede ps qs in if p == q then rest else ltb p q
packets_precede [] (q ∷ qs) = true
packets_precede _ [] = false

-- `NodePacketHistoryComp`.
unfoldable pub precedes : History → History → Bool
unfolding get_packets
precedes a b = if same a b then false else packets_precede (get_packets a) (get_packets b)
