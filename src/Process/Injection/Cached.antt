-- ===== src/Process/Injection/Cached.antt =====
-- src/process/forwarding.cpp: what `inject_packet` records of the packet and its results.
use neo.Base.{
  Bool, true, ◌==◌, List, [], ◌∷◌, Option, none, some, length, ◌≡◌, refl, ap, ◌∙◌, subst, ==-refl,
  Bool-cases, inl, inr,
}
use neo.Base.Partial.{>>=-eq-some}
use neo.Payload.{Payload}
use neo.Packet.{Packet, same_packet}
use neo.Model.{Node, InjectionResult, HistEntry, CacheEntry, choose_inj_res, State, current}
use neo.Process.Interface.{Network}
use neo.Process.Injection.{
  node_hist, set_node_hist, same_hist, cached, cache, packet_of, injected, inject_packet,
}

node_hist-set_node_hist :
    (n : Node) (h : List Packet) (es : List HistEntry) → node_hist n (set_node_hist n h es) ≡ some h
unfolding node_hist set_node_hist
node_hist-set_node_hist n h [] = rw (==-refl n) refl
node_hist-set_node_hist n h (e ∷ es) = elim (Bool-cases (n == e.node)) [
  | inl c ↦ rw (c, ==-refl n) refl
  | inr c ↦ rw (c, c) (node_hist-set_node_hist n h es)
]

module _ (same : Payload → Payload → Bool) (same_refl : (p : Payload) → same p p ≡ true) where
  same_packet_refl : (p : Packet) → same_packet same p p ≡ true
  unfolding same_packet
  same_packet_refl p =
      rw
        (
          ==-refl p.interface,
          ==-refl p.src_ip,
          ==-refl p.dst_ip,
          ==-refl p.src_port,
          ==-refl p.dst_port,
          ==-refl p.seq,
          ==-refl p.ack,
          ==-refl p.proto_state,
        )
        (same_refl p.payload)

  same_hist_refl : (h : List Packet) → same_hist same h h ≡ true
  unfolding same_hist
  same_hist_refl [] = refl
  same_hist_refl (p ∷ ps) = rw (same_packet_refl p, same_hist_refl ps) refl

  cached-cache :
      (n : Node) (h : List Packet) (rs : List InjectionResult) (es : List CacheEntry)
      → cached same n h (cache n h rs es) ≡ some rs
  unfolding cached
  cached-cache n h rs es = rw (==-refl n, same_hist_refl h) refl

module _ (net : Network) (same_refl : (p : Payload) → net.same_payload p p ≡ true) where
  -- The results that the state has are cached for the history.
  abbrev pub Recorded : Node → List Packet → State → Type 0
  Recorded mb h t =
      (rs : List InjectionResult) × ((current t).inj_results ≡ some rs)
      × (cached net.same_payload mb h t.injection_cache ≡ some rs)
      × (t.choice_count ≡ length rs)
      × ((current t).fwd_mode ≡ choose_inj_res)

  injected-Recorded :
      (mb : Node) (hist : List Packet) (pkt : Packet) (s : State)
      (o : Option (List InjectionResult))
      → cached net.same_payload mb (pkt ∷ hist) s.injection_cache ≡ o
      → Recorded mb (pkt ∷ hist) (injected net mb hist pkt s o)
  injected-Recorded mb hist pkt s (some rs) e =
      (rs, rw (==-refl s.conn) refl, e, refl, rw (==-refl s.conn) refl)
  injected-Recorded mb hist pkt s none e =
      let rs = net.send_pkt mb hist pkt in
      (
        rs,
        rw (==-refl s.conn) refl,
        cached-cache net.same_payload same_refl mb (pkt ∷ hist) rs s.injection_cache,
        refl,
        rw (==-refl s.conn) refl,
      )

  pkt_hist-injected :
      (mb : Node) (hist : List Packet) (pkt : Packet) (s : State)
      (o : Option (List InjectionResult))
      → (injected net mb hist pkt s o).pkt_hist ≡ s.pkt_hist
  pkt_hist-injected mb hist pkt s (some rs) = refl
  pkt_hist-injected mb hist pkt s none = refl

  -- An injection adds the packet of the connection to the history of the middlebox, and gives the choice
  -- of one of its results, which are then cached for that history.
  pub inject_packet-Recorded :
      (mb : Node) (s t : State)
      → inject_packet net mb s ≡ some t
      → (hist : List Packet) × (pkt : Packet) × (node_hist mb s.pkt_hist ≡ some hist)
        × (packet_of net s ≡ some pkt)
        × (node_hist mb t.pkt_hist ≡ some (pkt ∷ hist))
        × Recorded mb (pkt ∷ hist) t
  unfolding inject_packet
  inject_packet-Recorded mb s t e =
      let (hist, eh, e1) = >>=-eq-some (node_hist mb s.pkt_hist) _ e in
      let (pkt, ep, e2) = >>=-eq-some (packet_of net s) _ e1 in
      let u : State = record s { pkt_hist = set_node_hist mb (pkt ∷ hist) s.pkt_hist } in
      let o = cached net.same_payload mb (pkt ∷ hist) s.injection_cache in
      let done : injected net mb hist pkt u o ≡ t = some-inj _ t e2 in
      (
        hist,
        pkt,
        eh,
        ep,
        subst (λ x. node_hist mb x.pkt_hist ≡ some (pkt ∷ hist)) done
            (ap (node_hist mb) (pkt_hist-injected mb hist pkt u o)
              ∙ node_hist-set_node_hist mb (pkt ∷ hist) s.pkt_hist),
        subst (Recorded mb (pkt ∷ hist)) done (injected-Recorded mb hist pkt u o refl),
      )
    where
      some-inj : (a b : State) → some a ≡ some b → a ≡ b
      some-inj a b h = cc
