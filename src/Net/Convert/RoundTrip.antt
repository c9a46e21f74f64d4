-- ===== src/Net/Convert/RoundTrip.antt =====
-- src/lib/net.cpp: a packet that `build_tcp` makes is understood by `convert_proto_state`.
use neo.Base.{
  ℕ, Bool, true, false, not, ◌||◌, ltb, ◌==◌, some, if◌then◌else◌, ◌≡◌, refl, ◌≤◌, arith, suc, ◌∙◌,
}
use neo.Proto.{ProtoState}
use neo.Payload.{payload_size}
use neo.Packet.{Packet}
use neo.Net.Flags.{ctrl_flags, is_unconverted, unconverted, flags_of}
use neo.Net.Convert.{converted, convert_flags}

-- The states whose packets carry a payload.
abbrev pub has_payload : ProtoState → Bool
has_payload p = p == 4 || p == 6

-- The phase after `p` answers, except that the request follows the handshake, and the reply the
-- acknowledgement of the request, in the direction of the packet before. A termination may start in
-- either direction.
abbrev pub answers : ProtoState → Bool
answers p = not (p == 3 || p == 5)

-- The packet is built for the TCP state `p` and received in a known connection.
pub record Received (p : ProtoState) (pkt : Packet) : Type 0 where
  pub flags : pkt.proto_state ≡ unconverted (ctrl_flags p)
  pub known : pkt.is_new ≡ false
  pub carries : ltb 0 (payload_size pkt.payload) ≡ has_payload p

if_ind {ℓ} : (P : ℕ → Type ℓ) (b : Bool) (x y : ℕ) → P x → P y → P (if b then x else y)
if_ind P true x y hx hy = hx
if_ind P false x y hx hy = hy

-- What holds of each combination of flags that is built.
ctrl_flags_ind {ℓ} :
    (P : ℕ → Type ℓ) → P 2 → P 18 → P 16 → P 24 → P 17 → P 0 → (p : ProtoState) → P (ctrl_flags p)
unfolding ctrl_flags
ctrl_flags_ind P a b c d e f p =
    if_ind P _ _ _ a (if_ind P _ _ _ b (if_ind P _ _ _ c (if_ind P _ _ _ d (if_ind P _ _ _ e f))))

-- The flags come back out of the stored state.
flags_kept :
    (p : ProtoState)
    → (is_unconverted (unconverted (ctrl_flags p)) ≡ true)
      × (flags_of (unconverted (ctrl_flags p)) ≡ ctrl_flags p)
flags_kept =
    ctrl_flags_ind (λ f. (is_unconverted (unconverted f) ≡ true) × (flags_of (unconverted f) ≡ f))
      (refl, refl) (refl, refl) (refl, refl) (refl, refl) (refl, refl) (refl, refl)

converted-Received :
    (p old : ProtoState) (pkt : Packet)
    → Received p pkt
    → converted pkt old
      ≡ convert_flags old (ctrl_flags p) (payload_size pkt.payload) pkt.opposite_dir
unfolding converted
converted-Received p old pkt r = rw (r.flags, (flags_kept p).0, (flags_kept p).1, r.known) refl

same_phase :
    (p len : ℕ)
    → 1 ≤ p
    → p ≤ 10
    → ltb 0 len ≡ has_payload p
    → convert_flags p (ctrl_flags p) len false ≡ some p
unfolding convert_flags ctrl_flags
same_phase p len h k c = ground arith

next_phase :
    (p len : ℕ)
    → 1 ≤ p
    → p ≤ 9
    → ltb 0 len ≡ has_payload (suc p)
    → convert_flags p (ctrl_flags (suc p)) len (answers p) ≡ some (suc p)
unfolding convert_flags ctrl_flags
next_phase p len h k c = ground arith

-- A packet that is built for a TCP state, and received in the connection's direction while the
-- connection is in that state, is understood as being of that state.
pub converted-same :
    (p : ProtoState) (pkt : Packet)
    → 1 ≤ p
    → p ≤ 10
    → Received p pkt
    → pkt.opposite_dir ≡ false
    → converted pkt p ≡ some p
converted-same p pkt h k r d = converted-Received p p pkt r ∙ rw d (same_phase p _ h k r.carries)

-- A packet that is built for the TCP state after the connection's, and received in the direction of
-- that phase, is understood as being of its own state.
pub converted-next :
    (p : ProtoState) (pkt : Packet)
    → 1 ≤ p
    → p ≤ 9
    → Received (suc p) pkt
    → pkt.opposite_dir ≡ answers p
    → converted pkt p ≡ some (suc p)
converted-next p pkt h k r d =
    converted-Received (suc p) p pkt r ∙ rw d (next_phase p _ h k r.carries)
