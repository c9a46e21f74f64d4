-- ===== src/Net/Numbers/Agree.antt =====
-- src/lib/net.cpp and src/process/forwarding.cpp: each computes the next numbers, and they are the same.
use neo.Base.{
  ℕ, Bool, true, false, ◌&&◌, ◌==◌, some, if◌then◌else◌, ◌≡◌, ◌<◌, ◌↔◌, ◌%◌, refl, arith, ==-refl,
}
use neo.Base.Partial.{guard}
use neo.Proto.{is_tcp}
use neo.Payload.{Payload}
use neo.Packet.{Packet}
use neo.Model.{State, current}
use neo.Process.Interface.{Network}
use neo.Process.Numbers.{next_seq}
use neo.Process.Forwarding.{number}
use neo.Net.Numbers.{expected_seq, check_seq_ack}

expected_seq-next_seq : (s : State) → (current s).proto_state < 256 → expected_seq s ≡ next_seq s
unfolding expected_seq next_seq
expected_seq-next_seq s lt =
    let narrow : (current s).proto_state % 256 ≡ (current s).proto_state = omega (arith, lt) in
    rw narrow refl

both-equal : (a b c d : ℕ) → (guard (a == b && c == d) ≡ some tt) ↔ ((a ≡ b) × (c ≡ d))
both-equal a b c d = ground arith

-- The numbers of the next phase, in either direction.
next_phase-number :
    (net : Network) (d : Bool) (seq ack : ℕ) (s : State)
    → is_tcp (current s).proto_state ≡ true
    → (current s).proto_state < 256
    → (guard (
          if d
          then seq == (current s).ack && ack == expected_seq s
          else seq == expected_seq s && ack == (current s).ack)
        ≡ some tt)
      ↔ ((seq ≡ (current (number net d s)).seq) × (ack ≡ (current (number net d s)).ack))
unfolding number
next_phase-number net true seq ack s u lt =
    rw (u, ==-refl s.conn, expected_seq-next_seq s lt)
      (both-equal seq (current s).ack ack (next_seq s))
next_phase-number net false seq ack s u lt =
    rw (u, ==-refl s.conn, expected_seq-next_seq s lt)
      (both-equal seq (next_seq s) ack (current s).ack)

-- For a TCP connection whose state fits into 8 bits, a received packet of the next phase passes the check exactly if it has the
-- numbers that the forwarding process computes when it starts that phase itself, in the direction
-- that the packet has.
pub check_seq_ack-number :
    (net : Network) (same_payload : Payload → Payload → Bool) (pkt : Packet) (s : State)
    → is_tcp pkt.proto_state ≡ true
    → is_tcp (current s).proto_state ≡ true
    → (current s).proto_state < 256
    → pkt.conn ≡ some s.conn
    → pkt.is_new ≡ false
    → pkt.next_phase ≡ true
    → (check_seq_ack same_payload pkt s ≡ some tt) ↔ (
        (pkt.seq ≡ (current (number net pkt.opposite_dir s)).seq)
        × (pkt.ack ≡ (current (number net pkt.opposite_dir s)).ack))
unfolding check_seq_ack
check_seq_ack-number net same_payload pkt s t u lt c n p =
    rw (t, c, n, p) (next_phase-number net pkt.opposite_dir pkt.seq pkt.ack s u lt)
