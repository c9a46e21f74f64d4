-- ===== src/Net/Wire/Kinds.antt =====
-- src/lib/net.cpp: the states that `deserialize` gives.
use neo.Base.{
  ℕ, Bool, true, false, ltb, ◌==◌, ◌+◌, ◌-◌, ◌/◌, ◌*◌, ◌%◌, Option, none, some, if◌then◌else◌,
  get_elem?, length, bit_and, ◌≡◌, refl, sym, ap, subst, inl, inr, ◌⊎◌,
}
use neo.Base.Partial.{>>=-eq-some}
use neo.Packet.{Packet, clear}
use neo.Net.Flags.{unconverted}
use neo.Net.Wire.{
  Frame, read16, read32, read_payload, read_tcp, read_udp, read_icmp, read_ip, starts_with, drop,
  deserialize, min16, id_mac,
}

-- TCP flags, a UDP request, an echo request or reply, or nothing.
abbrev pub Kind : ℕ → Type 0
Kind state =
    ((flags : ℕ) × (state ≡ unconverted (bit_and flags 4095)))
    ⊎ (state ≡ 11)
    ⊎ (state ≡ 13)
    ⊎ (state ≡ 14)
    ⊎ (state ≡ 0)

some-inj : (a b : Packet) → some a ≡ some b → a ≡ b
some-inj a b e = cc

if_some :
    (b : Bool) (x y : Option Packet) (q : Packet)
    → (if b then x else y) ≡ some q
    → (x ≡ some q) ⊎ (y ≡ some q)
if_some true x y q e = inl e
if_some false x y q e = inr e

pick :
    (b : Bool) (x y : Packet)
    → Kind x.proto_state
    → Kind y.proto_state
    → Kind (if b then x else y).proto_state
pick true x y h k = h
pick false x y h k = k

Kind-clear : (p : Packet) → Kind (clear p).proto_state
unfolding clear
Kind-clear p = inr (inr (inr (inr refl)))

Kind-read_tcp : (b : Frame) (p q : Packet) → read_tcp b p ≡ some q → Kind q.proto_state
unfolding read_tcp
Kind-read_tcp b p q e =
    let (_, _, e1) = >>=-eq-some (read16 b 34) _ e in
    let (_, _, e2) = >>=-eq-some (read16 b 36) _ e1 in
    let (_, _, e3) = >>=-eq-some (read32 b 38) _ e2 in
    let (_, _, e4) = >>=-eq-some (read32 b 42) _ e3 in
    let (byte, _, e5) = >>=-eq-some (get_elem? b 46) _ e4 in
    let (flags, _, e6) = >>=-eq-some (read16 b 46) _ e5 in
    let off = 34 + byte / 16 * 4 in
    let (_, _, e7) =
      >>=-eq-some (if ltb (length b) off then none else read_payload b off (length b - off)) _ e6 in
    inl (flags, sym (ap (λ x. x.proto_state) (some-inj _ q e7)))

Kind-read_udp : (b : Frame) (p q : Packet) → read_udp b p ≡ some q → Kind q.proto_state
unfolding read_udp
Kind-read_udp b p q e =
    let (_, _, e1) = >>=-eq-some (read16 b 34) _ e in
    let (_, _, e2) = >>=-eq-some (read16 b 36) _ e1 in
    let (len, _, e3) = >>=-eq-some (read16 b 38) _ e2 in
    let (_, _, e4) =
      >>=-eq-some (read_payload b 42 (min16 ((len + 65528) % 65536) ((length b + 65494) % 65536))) _
        e3 in
    inr (inl (sym (ap (λ x. x.proto_state) (some-inj _ q e4))))

Kind-read_icmp : (b : Frame) (p q : Packet) → read_icmp b p ≡ some q → Kind q.proto_state
unfolding read_icmp
Kind-read_icmp b p q e =
    let (type_, _, e1) = >>=-eq-some (get_elem? b 34) _ e in
    let (_, _, e2) = >>=-eq-some (get_elem? b 35) _ e1 in
    subst (λ x. Kind x.proto_state) (some-inj _ q e2)
      (pick (type_ == 8) (record p { proto_state = 13 }) _ (inr (inr (inl refl)))
        (pick (type_ == 0) (record p { proto_state = 14 }) (clear p) (inr (inr (inr (inl refl))))
          (Kind-clear p)))

Kind-read_ip : (b : Frame) (p q : Packet) → read_ip b p ≡ some q → Kind q.proto_state
unfolding read_ip
Kind-read_ip b p q e =
    let (src, _, e1) = >>=-eq-some (read32 b 26) _ e in
    let (dst, _, e2) = >>=-eq-some (read32 b 30) _ e1 in
    let (proto, _, e3) = >>=-eq-some (get_elem? b 23) _ e2 in
    let r : Packet = record p { src_ip = src; dst_ip = dst } in
    elim (if_some (proto == 6) (read_tcp b r) _ q e3) [
      | inl f ↦ Kind-read_tcp b r q f
      | inr f ↦ elim (if_some (proto == 17) (read_udp b r) _ q f) [
        | inl g ↦ Kind-read_udp b r q g
        | inr g ↦ elim (if_some (proto == 1) (read_icmp b r) _ q g) [
          | inl h ↦ Kind-read_icmp b r q h
          | inr h ↦ subst (λ x. Kind x.proto_state) (some-inj (clear r) q h) (Kind-clear r)
        ]
      ]
    ]

-- A frame gives a TCP packet with its flags as the state, a UDP packet in the state of a request, an
-- echo request or reply, or a packet without a state.
pub Kind-deserialize : (b : Frame) (p q : Packet) → deserialize b p ≡ some q → Kind q.proto_state
unfolding deserialize
Kind-deserialize b p q e =
    let (to_id, _, e1) = >>=-eq-some (starts_with id_mac b) _ e in
    let (ours, _, e2) =
      >>=-eq-some (if to_id then some true else starts_with id_mac (drop 6 b)) _ e1 in
    elim (if_some ours _ _ q e2) [
      | inl f ↦
          let (ethertype, _, g) = >>=-eq-some (read16 b 12) _ f in
          elim (if_some (ethertype == 2048) (read_ip b (clear p)) _ q g) [
            | inl h ↦ Kind-read_ip b (clear p) q h
            | inr h ↦ subst (λ x. Kind x.proto_state) (some-inj (clear p) q h) (Kind-clear p)
          ]
      | inr f ↦ subst (λ x. Kind x.proto_state) (some-inj (clear p) q f) (Kind-clear p)
    ]
