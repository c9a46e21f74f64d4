-- ===== src/Process/Injection/Outcome.antt =====
-- src/process/forwarding.cpp: what an injection leaves in the state.
use neo.Base.{
  Bool, true, not, ◌&&◌, List, [], ◌∷◌, some, length, ◌≤◌, ◌<◌, ◌≡◌, ◌⊎◌, inl, inr, refl, sym, ◌∙◌,
  subst, ==-refl, Bool-cases, arith,
}
use neo.Base.Partial.{>>=-eq-some, guard}
use neo.Model.{Node, FibIpnh, InjectionResult, dropped, State, current}
use neo.Process.Interface.{Network, drop_conn}
use neo.Process.Injection.{
  Progress, receive_all, with_candidates, conclude, itself, delivered, has_packets, start,
  update_model_from_injection_result,
}
use neo.Process.Injection.Kept.{
  Waiting, some-inj, if_then, if_else, if_split, false-true, receive_all-Kept,
}

module _ (net : Network) where
  -- The connection is dropped, or it waits with as many choices as it has next hops.
  abbrev pub Settled : State → Type 0
  Settled t =
      (((current t).fwd_mode ≡ dropped) × ((current t).executable ≡ 0))
      ⊎ (Waiting (current t)
          × (cs : List FibIpnh) × ((current t).candidates ≡ some cs)
          × (t.choice_count ≡ length cs)
          × (0 < length cs))

  drop_conn-Settled : (s : State) → Settled (drop_conn s)
  drop_conn-Settled s = inl (rw (==-refl s.conn) (refl, refl))

  with_candidates-Settled :
      (s : State) (cs : List FibIpnh)
      → (current s).candidates ≡ some cs
      → Waiting (current s)
      → Settled (with_candidates s cs)
  with_candidates-Settled s [] e w = drop_conn-Settled s
  with_candidates-Settled s (c ∷ cs) e w = inr (w, c ∷ cs, e, refl, omega arith)

  -- The connections stay as many, and the same one is current, of the same sub-invariant.
  abbrev Concluded : State → State → Type 0
  Concluded s t =
      Settled t
      × (t.num_conns ≡ s.num_conns)
      × (t.conn ≡ s.conn)
      × (t.correlated_inv_idx ≡ s.correlated_inv_idx)

  with_candidates-Concluded :
      (s : State) (cs : List FibIpnh)
      → (current s).candidates ≡ some cs
      → Waiting (current s)
      → Concluded s (with_candidates s cs)
  with_candidates-Concluded s [] e w = (drop_conn-Settled s, refl, refl, refl)
  with_candidates-Concluded s (c ∷ cs) e w =
      (with_candidates-Settled s (c ∷ cs) e w, refl, refl, refl)

  delivered-Settled : (mb : Node) (s : State) → Settled (delivered mb s)
  delivered-Settled mb s =
      inr (
        rw (==-refl s.conn) (inr refl),
        itself mb ∷ [],
        rw (==-refl s.conn) refl,
        refl,
        omega arith,
      )

  conclude-Concluded :
      (mb : Node) (drop : Bool) (g : Progress) (t : State)
      → (g.current_conn_updated ≡ true → Waiting (current g.state))
      → conclude mb drop g ≡ some t
      → Concluded g.state t
  unfolding conclude
  conclude-Concluded mb drop g t k e =
      let dropped_conn : some (drop_conn g.state) ≡ some t → Concluded g.state t = λ f.
        subst (Concluded g.state) (some-inj (drop_conn g.state) t f)
          (drop_conn-Settled g.state, refl, refl, refl) in
      elim (Bool-cases g.current_conn_updated) [
        | inl c ↦
            let (cs, ec, f) =
              >>=-eq-some (current g.state).candidates _
                (if_then g.current_conn_updated _ _ t c e) in
            subst (Concluded g.state) (some-inj _ t f)
              (with_candidates-Concluded g.state cs ec (k c))
        | inr c ↦ elim (if_split drop _ _ t (if_else g.current_conn_updated _ _ t c e)) [
          | inl f ↦ dropped_conn f
          | inr f ↦ elim (if_split g.other_conns_updated _ _ t f) [
            | inl h ↦
                subst (Concluded g.state) (some-inj (delivered mb g.state) t h)
                  (delivered-Settled mb g.state, refl, refl, refl)
            | inr h ↦ dropped_conn h
          ]
        ]
      ]

  -- Where an injection result is processed, and the connections fit the limit, they still do, and none
  -- is lost. The same connection and sub-invariant are current. It is either dropped, with the flag 0, or it waits to be forwarded, with
  -- next hops and as many choices as next hops.
  pub update_model_from_injection_result-Settled :
      (mb : Node) (r : InjectionResult) (s t : State)
      → s.num_conns ≤ net.max_conns
      → update_model_from_injection_result net mb r s ≡ some t
      → (s.num_conns ≤ t.num_conns)
        × (t.num_conns ≤ net.max_conns)
        × (t.conn ≡ s.conn)
        × (t.correlated_inv_idx ≡ s.correlated_inv_idx)
        × ((((current t).fwd_mode ≡ dropped) × ((current t).executable ≡ 0))
            ⊎ (Waiting (current t)
                × (cs : List FibIpnh) × ((current t).candidates ≡ some cs)
                × (t.choice_count ≡ length cs)
                × (0 < length cs)))
  unfolding update_model_from_injection_result
  update_model_from_injection_result-Settled mb r s t le e =
      let (_, _, e1) = >>=-eq-some (guard (not (r.explicit_drop && has_packets r.recv_pkts))) _ e in
      let (g, eg, e2) = >>=-eq-some (receive_all net mb r.recv_pkts (start s)) _ e1 in
      let k =
        receive_all-Kept net mb r.recv_pkts s.conn s (start s) g
          (refl, le, λ f. absurd (false-true f), omega arith, refl) eg in
      let here : g.current_conn_updated ≡ true → Waiting (current g.state) =
        λ c. subst (λ i. Waiting (g.state.conn_state i)) (sym k.0) (k.2 c) in
      let c = conclude-Concluded mb r.explicit_drop g t here e2 in
      let bound = k.1 in
      let low = k.3 in
      let count = c.1 in
      (omega (arith, low, count), omega (arith, bound, count), c.2 ∙ k.0, c.3 ∙ k.4, c.0)
