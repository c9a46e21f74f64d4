-- ===== src/Process/Openflow/Counts.antt =====
-- src/process/openflow.cpp: how many updates are installed.
use neo.Base.{
  ℕ, zero, suc, Bool, true, false, ◌==◌, List, [], ◌∷◌, Option, some, if◌then◌else◌, ◌<◌, length,
  get_elem?, set, ◌≡◌, ◌↔◌, refl, sym, subst, ap, ◌∙◌, arith,
}
use neo.Base.Partial.{>>=-eq-some}
use neo.Ec.Range.{EcPtr}
use neo.Ec.Class.{EqClass}
use neo.Routing.Route.{Route}
use neo.Objects.{Node}
use neo.Model.{State, current}
use neo.Topology.{World}
use neo.Process.Openflow.{
  Updates, position, next_choices, updated_hops, install_at, install_update,
  num_of_installed_updates, install_update_at,
}

some-inj {ℓ} : {A : Type ℓ} (a b : A) → some a ≡ some b → a ≡ b
some-inj a b e = cc

get_elem?-set :
    (ks : List ℕ) (i k v : ℕ) → get_elem? ks i ≡ some k → get_elem? (set ks i v) i ≡ some v
get_elem?-set [] i k v h = absurd (ground arith)
get_elem?-set (x ∷ ks) zero k v h = refl
get_elem?-set (x ∷ ks) (suc i) k v h = get_elem?-set ks i k v h

get_elem?-lt {ℓ} :
    {A : Type ℓ} (xs : List A) (i : ℕ) (v : A) → get_elem? xs i ≡ some v → i < length xs
get_elem?-lt [] i v h = absurd (ground arith)
get_elem?-lt (x ∷ xs) zero v h = omega arith
get_elem?-lt (x ∷ xs) (suc i) v h = let ih = get_elem?-lt xs i v h in omega (arith, ih)

-- One more update of the node at the position is installed.
abbrev pub Installs : ℕ × List Route → State → State → Type 0
Installs p s t =
    (k : ℕ) × (get_elem? s.openflow_update_state p.0 ≡ some k)
    × (k < length p.1)
    × (t.openflow_update_state ≡ set s.openflow_update_state p.0 (suc k))
    × (t.choice_count ≡ next_choices k p.1)

get_elem?-below {ℓ} :
    {A : Type ℓ} (xs : List A) (i : ℕ) → i < length xs → (v : A) × (get_elem? xs i ≡ some v)
get_elem?-below [] i h = absurd (omega (arith, h))
get_elem?-below (x ∷ xs) zero h = (x, refl)
get_elem?-below (x ∷ xs) (suc i) h = get_elem?-below xs i (omega (arith, h))

-- The node has an update at its count.
abbrev pub NextUpdate : Updates → Node → State → Type 0
NextUpdate us n t =
    (p : ℕ × List Route) × (k : ℕ) × (r : Route) × (position n 0 us ≡ some p)
    × (get_elem? t.openflow_update_state p.0 ≡ some k)
    × (get_elem? p.1 k ≡ some r)

two_choices : (k : ℕ) (rs : List Route) → next_choices k rs ≡ 2 → suc k < length rs
two_choices k rs h = ground arith

choices-NextUpdate :
    (us : Updates) (n : Node) (t : State) (p : ℕ × List Route) (k : ℕ)
    → position n 0 us ≡ some p
    → get_elem? t.openflow_update_state p.0 ≡ some (suc k)
    → t.choice_count ≡ next_choices k p.1
    → (t.choice_count ≡ 2) ↔ NextUpdate us n t
choices-NextUpdate us n t p k e at c = (there, back)
  where
    there : t.choice_count ≡ 2 → NextUpdate us n t
    there h =
        let (r, er) = get_elem?-below p.1 (suc k) (two_choices k p.1 (sym c ∙ h)) in
        (p, suc k, r, e, at, er)

    back : NextUpdate us n t → t.choice_count ≡ 2
    back (q, j, r, eq, ej, er) =
        let same : p ≡ q = some-inj p q (sym e ∙ eq) in
        let at_q = subst (λ x. get_elem? t.openflow_update_state x.0 ≡ some (suc k)) same at in
        let count : suc k ≡ j = some-inj (suc k) j (sym at_q ∙ ej) in
        let lt = get_elem?-lt q.1 j r er in
        let len : length p.1 ≡ length q.1 = ap (λ x. length x.1) same in
        c ∙ ground (arith, lt, len, count)

module _ (w : World) (is_emulated : Node → Bool) (class_of : EcPtr → EqClass) (us : Updates) where
  install_at-Installs :
      (n : Node) (p : ℕ × List Route) (s t : State)
      → install_at w is_emulated class_of us n p s ≡ some t
      → Installs p s t
  unfolding install_at
  install_at-Installs n p s t h =
      let (k, ek, h1) = >>=-eq-some (num_of_installed_updates p.0 s.openflow_update_state) _ h in
      let (counts, ec, h2) = >>=-eq-some (install_update_at p.0 s.openflow_update_state) _ h1 in
      let (r, er, h3) = >>=-eq-some (get_elem? p.1 k) _ h2 in
      let (hops, eh, h4) =
        >>=-eq-some
          (updated_hops w is_emulated class_of us n k p.1 r (class_of (current s).dst_ip_ec)) _
          h3 in
      let (k2, ek2, ec2) = >>=-eq-some (get_elem? s.openflow_update_state p.0) _ ec in
      let same : k ≡ k2 = some-inj k k2 (sym ek ∙ ek2) in
      let new : counts ≡ set s.openflow_update_state p.0 (suc k) = sym (
        some-inj _ counts (
          subst (λ x. some (set s.openflow_update_state p.0 (suc x)) ≡ some counts) (sym same)
            ec2)) in
      let done = some-inj _ t h4 in
      (
        k,
        ek,
        get_elem?-lt p.1 k r er,
        ap (λ u. u.openflow_update_state) (sym done) ∙ new,
        ap (λ u. u.choice_count) (sym done),
      )

  if_false :
      (b : Bool) (x y : Option State) (t : State)
      → b ≡ false
      → (if b then x else y) ≡ some t
      → y ≡ some t
  if_false true x y t e h = absurd cc
  if_false false x y t e h = h

  install_update-Installs :
      (s t : State)
      → (s.choice == 0) ≡ false
      → install_update w is_emulated class_of us s ≡ some t
      → (p : ℕ × List Route) × (position (current s).pkt_location 0 us ≡ some p) × Installs p s t
  unfolding install_update
  install_update-Installs s t c h =
      let n = (current s).pkt_location in
      let (p, ep, h1) = >>=-eq-some (position n 0 us) _ (if_false (s.choice == 0) _ _ t c h) in
      (p, ep, install_at-Installs n p s t h1)

  -- After an update the count of its node is one more. The process is given the choice of another
  -- one exactly if the node has an update at the new count, so that the choice does not read past the
  -- end of the updates.
  pub install_update-NextUpdate :
      (s t : State)
      → (s.choice == 0) ≡ false
      → install_update w is_emulated class_of us s ≡ some t
      → ((p : ℕ × List Route) × (k : ℕ) × (position (current s).pkt_location 0 us ≡ some p)
          × (get_elem? s.openflow_update_state p.0 ≡ some k)
          × (get_elem? t.openflow_update_state p.0 ≡ some (suc k)))
        × ((t.choice_count ≡ 2) ↔ NextUpdate us (current s).pkt_location t)
  install_update-NextUpdate s t c h =
      let (p, e, i) = install_update-Installs s t c h in
      let (k, ek, lt, new, choices) = i in
      let at : get_elem? t.openflow_update_state p.0 ≡ some (suc k) =
        ap (λ ks. get_elem? ks p.0) new ∙ get_elem?-set s.openflow_update_state p.0 k (suc k) ek in
      ((p, k, e, ek, at), choices-NextUpdate us (current s).pkt_location t p k e at choices)
