-- ===== src/Emulation/Order.antt =====
-- src/pkt-hist.cpp: the order of the histories.
use neo.Base.{
  true, false, List, [], ◌∷◌, if◌then◌else◌, ◌≡◌, ◌⊎◌, inl, inr, refl, sym, ap, ◌∙◌, subst, arith,
  Bool-cases, ==-refl,
}
use neo.Emulation.History.{
  PacketPtr, History, same, packets_onto, get_packets, packets_precede, precedes,
}
use neo.Emulation.Replay.{same→eq, received}

same_refl : (h : History) → same h h ≡ true
same_refl [] = refl
same_refl (p ∷ h) = ground (arith, ==-refl p, same_refl h)

packets_precede_trans :
    (a b c : List PacketPtr)
    → packets_precede a b ≡ true
    → packets_precede b c ≡ true
    → packets_precede a c ≡ true
packets_precede_trans [] [] c h k = absurd cc
packets_precede_trans [] (q ∷ b) [] h k = absurd cc
packets_precede_trans [] (q ∷ b) (r ∷ c) h k = refl
packets_precede_trans (p ∷ a) [] c h k = absurd cc
packets_precede_trans (p ∷ a) (q ∷ b) [] h k = absurd cc
packets_precede_trans (p ∷ a) (q ∷ b) (r ∷ c) h k = ground (arith, packets_precede_trans a b c)

packets_precede_irrefl : (a : List PacketPtr) → packets_precede a a ≡ false
packets_precede_irrefl [] = refl
packets_precede_irrefl (p ∷ a) = ground (arith, ==-refl p, packets_precede_irrefl a)

packets_precede_total :
    (a b : List PacketPtr) → (packets_precede a b ≡ true) ⊎ ((packets_precede b a ≡ true) ⊎ (a ≡ b))
packets_precede_total [] [] = inr (inr refl)
packets_precede_total [] (q ∷ b) = inl refl
packets_precede_total (p ∷ a) [] = inr (inl refl)
packets_precede_total (p ∷ a) (q ∷ b) = ground (arith, packets_precede_total a b)

received-packets_onto :
    (h : History) (acc : List PacketPtr) → received (packets_onto h acc) [] ≡ received acc h
received-packets_onto [] acc = refl
received-packets_onto (p ∷ h) acc = received-packets_onto h (p ∷ acc)

get_packets_inj : (a b : History) → get_packets a ≡ get_packets b → a ≡ b
unfolding get_packets
get_packets_inj a b e =
    sym (received-packets_onto a []) ∙ ap (λ ps. received ps []) e ∙ received-packets_onto b []

-- The order of the packets decides, as equal histories have equal packets.
precedes_lem : (a b : History) → precedes a b ≡ packets_precede (get_packets a) (get_packets b)
unfolding precedes
precedes_lem a b = elim (Bool-cases (same a b)) [
  | inl e ↦
      subst
        (λ x.
          (if same a x then false else packets_precede (get_packets a) (get_packets x))
          ≡ packets_precede (get_packets a) (get_packets x))
        (same→eq a b e) (rw (same_refl a) (sym (packets_precede_irrefl (get_packets a))))
  | inr e ↦ rw e refl
]

-- The order of the histories is a strict total order, as the map that is keyed by them requires.
pub precedes-total_order :
    (a b c : History)
    → (precedes a a ≡ false)
      × (precedes a b ≡ true → precedes b c ≡ true → precedes a c ≡ true)
      × ((precedes a b ≡ true) ⊎ ((precedes b a ≡ true) ⊎ (a ≡ b)))
precedes-total_order a b c = (
  precedes_lem a a ∙ packets_precede_irrefl (get_packets a),
  λ h k.
      precedes_lem a c
      ∙ packets_precede_trans (get_packets a) (get_packets b) (get_packets c)
          (sym (precedes_lem a b) ∙ h) (sym (precedes_lem b c) ∙ k),
  elim (packets_precede_total (get_packets a) (get_packets b)) [
    | inl h ↦ inl (precedes_lem a b ∙ h)
    | inr t ↦ elim t [
      | inl h ↦ inr (inl (precedes_lem b a ∙ h))
      | inr e ↦ inr (inr (get_packets_inj a b e))
    ]
  ],
)
