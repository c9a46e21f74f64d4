-- ===== src/Process/Forwarding/Edges.antt =====
-- src/process/forwarding.cpp: where a forwarding step takes the packet.
use neo.Base.{
  Bool, true, false, ltb, Option, some, if◌then◌else◌, ◌≡◌, ◌≢◌, refl, ◌⊎◌, inl, inr, arith,
  Bool-cases, sym, ap, ◌∙◌, subst, ==-refl, length,
}
use neo.Base.Partial.{>>=-eq-some}
use neo.Model.{FibIpnh, State, collect_nhops, accepted, current}
use neo.Process.Interface.{Network}
use neo.Process.Forwarding.{chosen, remember, move_to, add_choice, forward_packet_step}

-- The next hop is where the packet is, and it is delivered there; or it is another node, the packet is
-- there, and that node then collects its own next hops.
abbrev pub Moves : FibIpnh → State → State → Type 0
Moves h s t =
    ((h.l3_node ≡ (current s).pkt_location)
      × ((current t).fwd_mode ≡ accepted)
      × ((current t).pkt_location ≡ (current s).pkt_location))
    ⊎ ((h.l3_node ≢ (current s).pkt_location)
        × ((current t).fwd_mode ≡ collect_nhops)
        × ((current t).pkt_location ≡ h.l3_node)
        × ((current t).ingress_intf ≡ h.l3_intf))

some-inj : (s t : State) → some s ≡ some t → s ≡ t
some-inj s t h = cc

pick-true :
    (x y : Option State) {z : Option State} (b : Bool) → b ≡ true → (if b then x else y) ≡ z → x ≡ z
pick-true x y b e h = ground arith

pick-false :
    (x y : Option State) {z : Option State} (b : Bool)
    → b ≡ false
    → (if b then x else y) ≡ z
    → y ≡ z
pick-false x y b e h = ground arith

Moves-from :
    (h : FibIpnh) (s u t : State)
    → (current u).pkt_location ≡ (current s).pkt_location
    → Moves h u t
    → Moves h s t
Moves-from h s u t l (inl (a, b, c)) = inl (a ∙ l, b, c ∙ l)
Moves-from h s u t l (inr (n, a, b, c)) = inr (λ e. n (e ∙ sym l), a, b, c)

module _ (net : Network) where
  move_to-Moves : (h : FibIpnh) (s : State) → Moves h s (move_to net h s)
  unfolding move_to
  move_to-Moves h s = ground (arith, ==-refl s.conn)

  remember-location :
      (h : FibIpnh) (s t : State)
      → remember net h s ≡ some t
      → (current t).pkt_location ≡ (current s).pkt_location
  unfolding remember
  remember-location h s t e =
      let (cs, _, e1) = >>=-eq-some (current s).candidates _ e in
      elim (Bool-cases (ltb 1 (length cs))) [
        | inl b ↦
            let (tbl, _, e2) =
              >>=-eq-some
                (add_choice (current s).dst_ip_ec (current s).pkt_location h
                  (current s).path_choices)
                _ (pick-true _ _ (ltb 1 (length cs)) b e1) in
            subst (λ u. (current u).pkt_location ≡ (current s).pkt_location) (some-inj _ t e2)
              (rw (==-refl s.conn) refl)
        | inr b ↦
            ap (λ u. (current u).pkt_location)
              (sym (some-inj s t (pick-false _ _ (ltb 1 (length cs)) b e1)))
      ]

  -- A forwarding step of a packet takes the candidate at the choice: the packet is delivered if that
  -- is its own node, and moves there otherwise.
  pub forward_packet_step-Moves :
      (s t : State)
      → forward_packet_step net s ≡ some t
      → (h : FibIpnh) × (chosen net s ≡ some h) × Moves h s t
  unfolding forward_packet_step
  forward_packet_step-Moves s t e =
      let (h, c, e1) = >>=-eq-some (chosen net s) _ e in
      let (u, r, e2) = >>=-eq-some (remember net h s) _ e1 in
      let m : Moves h u (move_to net h u) = move_to-Moves h u in
      let l = remember-location h s u r in
      (
        h,
        c,
        subst (Moves h s) (some-inj (move_to net h u) t e2)
            (Moves-from h s u (move_to net h u) l m),
      )
