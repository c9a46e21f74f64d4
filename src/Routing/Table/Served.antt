-- ===== src/Routing/Table/Served.antt =====
-- src/routingtable.cpp: the networks that a table has routes to, after an insertion.
use neo.Base.{
  Bool, true, false, not, ltb, List, [], ◌∷◌, any, All, Memᴰ, if◌then◌else◌, keep, ◌≡◌, ◌≤◌, ◌<◌,
  inl, inr, arith, refl, sym, ap, ◌∙◌, subst, Bool-cases,
}
use neo.Routing.Route.{Route, lt, has_same_path}
use neo.Routing.Table.{
  RoutingTable, equivalent, multiset_insert, equal_range, erase, insert_at, insert,
}
use neo.Routing.Table.Order.{IsValid, keep-true, keep-false}

-- A route of the table goes to the network of the given one, at a distance that is not worse.
abbrev pub Serves : RoutingTable → Route → Type 0
Serves tbl r = (s : Route) × Memᴰ s tbl × (equivalent s r ≡ true) × (s.adm_dist ≤ r.adm_dist)

module _ {A : Type 0} (p : A → Bool) (x : A) where
  Memᴰ-keep : (xs : List A) → Memᴰ x xs → p x ≡ true → Memᴰ x (keep p xs)
  Memᴰ-keep [] m e = elim m [ ]
  Memᴰ-keep (y ∷ ys) (Memᴰ.head q) e =
      subst (Memᴰ x) (sym (keep-true p y ys (ap p (sym q) ∙ e))) (Memᴰ.head q)
  Memᴰ-keep (y ∷ ys) (Memᴰ.tail m) e = elim (Bool-cases (p y)) [
    | inl f ↦ subst (Memᴰ x) (sym (keep-true p y ys f)) (Memᴰ.tail (Memᴰ-keep ys m e))
    | inr f ↦ subst (Memᴰ x) (sym (keep-false p y ys f)) (Memᴰ-keep ys m e)
  ]

  kept-Memᴰ : (xs : List A) → Memᴰ x (keep p xs) → Memᴰ x xs × (p x ≡ true)
  kept-Memᴰ [] m = elim m [ ]
  kept-Memᴰ (y ∷ ys) m = elim (Bool-cases (p y)) [
    | inl f ↦ at_head f (subst (Memᴰ x) (keep-true p y ys f) m) (kept-Memᴰ ys)
    | inr f ↦ let (n, e) = kept-Memᴰ ys (subst (Memᴰ x) (keep-false p y ys f) m) in (Memᴰ.tail n, e)
  ]
    where
      at_head :
          p y ≡ true
          → Memᴰ x (y ∷ keep p ys)
          → (Memᴰ x (keep p ys) → Memᴰ x ys × (p x ≡ true))
          → Memᴰ x (y ∷ ys) × (p x ≡ true)
      at_head f (Memᴰ.head q) k = (Memᴰ.head q, ap p q ∙ f)
      at_head f (Memᴰ.tail n) k = let (l, e) = k n in (Memᴰ.tail l, e)

if_Memᴰ :
    (r : Route) (b : Bool) (xs ys : RoutingTable)
    → Memᴰ r xs
    → Memᴰ r ys
    → Memᴰ r (if b then xs else ys)
if_Memᴰ r true xs ys h k = h
if_Memᴰ r false xs ys h k = k

at-Memᴰ : (P : Route → Type 0) (xs : RoutingTable) (x : Route) → All P xs → Memᴰ x xs → P x
at-Memᴰ P [] x h m = elim m [ ]
at-Memᴰ P (y ∷ ys) x h (Memᴰ.head q) = subst P (sym q) h.0
at-Memᴰ P (y ∷ ys) x h (Memᴰ.tail m) = at-Memᴰ P ys x h.1 m

equivalent-sym : (a b : Route) → equivalent a b ≡ true → equivalent b a ≡ true
equivalent-sym a b h = ground arith

equivalent_trans :
    (a b c : Route) → equivalent a b ≡ true → equivalent b c ≡ true → equivalent a c ≡ true
equivalent_trans a b c h k = ground arith

IsValid-same :
    (tbl : RoutingTable) (a b : Route)
    → IsValid tbl
    → Memᴰ a tbl
    → Memᴰ b tbl
    → equivalent a b ≡ true
    → a.adm_dist ≡ b.adm_dist
IsValid-same [] a b v m n e = elim m [ ]
IsValid-same (x ∷ xs) a b v (Memᴰ.head p) (Memᴰ.head q) e = ap (λ r. r.adm_dist) (p ∙ sym q)
IsValid-same (x ∷ xs) a b v (Memᴰ.head p) (Memᴰ.tail n) e =
    ap (λ r. r.adm_dist) p ∙ (at-Memᴰ _ xs b v.0 n).1 (subst (λ r. equivalent r b ≡ true) p e)
IsValid-same (x ∷ xs) a b v (Memᴰ.tail m) (Memᴰ.head q) e =
    sym ((at-Memᴰ _ xs a v.0 m).1 (equivalent-sym a x (subst (λ r. equivalent a r ≡ true) q e)))
    ∙ ap (λ r. r.adm_dist) (sym q)
IsValid-same (x ∷ xs) a b v (Memᴰ.tail m) (Memᴰ.tail n) e = IsValid-same xs a b v.1 m n e

module _ (r : Route) where
  multiset_insert-Memᴰ : (tbl : RoutingTable) → Memᴰ r (multiset_insert r tbl)
  unfolding multiset_insert
  multiset_insert-Memᴰ [] = Memᴰ.head refl
  multiset_insert-Memᴰ (s ∷ tbl) =
      if_Memᴰ r (lt r s) _ _ (Memᴰ.head refl) (Memᴰ.tail (multiset_insert-Memᴰ tbl))

  Memᴰ-multiset_insert :
      (s : Route) (tbl : RoutingTable) → Memᴰ s tbl → Memᴰ s (multiset_insert r tbl)
  unfolding multiset_insert
  Memᴰ-multiset_insert s [] m = elim m [ ]
  Memᴰ-multiset_insert s (t ∷ tbl) (Memᴰ.head q) =
      if_Memᴰ s (lt r t) _ _ (Memᴰ.tail (Memᴰ.head q)) (Memᴰ.head q)
  Memᴰ-multiset_insert s (t ∷ tbl) (Memᴰ.tail n) =
      if_Memᴰ s (lt r t) _ _ (Memᴰ.tail (Memᴰ.tail n)) (Memᴰ.tail (Memᴰ-multiset_insert s tbl n))

  equivalent_refl : equivalent r r ≡ true
  equivalent_refl = ground arith

  added : (tbl : RoutingTable) → Serves (multiset_insert r tbl) r
  added tbl = (r, multiset_insert-Memᴰ tbl, equivalent_refl, omega arith)

  still : (x : Route) (tbl : RoutingTable) → Serves tbl x → Serves (multiset_insert r tbl) x
  still x tbl (s, m, e, le) = (s, Memᴰ-multiset_insert s tbl m, e, le)

  -- A better distance takes the place of the routes to the network.
  replaced :
      (tbl : RoutingTable) (first x : Route)
      → IsValid tbl
      → Memᴰ first tbl
      → equivalent first r ≡ true
      → r.adm_dist < first.adm_dist
      → Serves tbl x
      → Serves (multiset_insert r (erase r tbl)) x
  replaced tbl first x v f q lt (s, m, e, le) = elim (Bool-cases (equivalent s r)) [
    | inl k ↦
        let same =
          IsValid-same tbl first s v f m (equivalent_trans first r s q (equivalent-sym s r k)) in
        (
          r,
          multiset_insert-Memᴰ (erase r tbl),
          equivalent_trans r s x (equivalent-sym s r k) e,
          omega (arith, same, lt, le),
        )
    | inr k ↦ still x (erase r tbl) (s, Memᴰ-keep _ s tbl m (ap not k), e, le)
  ]

  insert_at-Serves :
      (range tbl : RoutingTable)
      → IsValid tbl
      → equal_range r tbl ≡ range
      → (x : Route)
      → Serves (insert_at range r tbl) r × (Serves tbl x → Serves (insert_at range r tbl) x)
  unfolding insert_at
  insert_at-Serves [] tbl v e x = (added tbl, still x tbl)
  insert_at-Serves (first ∷ others) tbl v e x =
      let (m, q) = kept-Memᴰ _ first tbl (subst (Memᴰ first) (sym e) (Memᴰ.head refl)) in
      elim (Bool-cases (ltb first.adm_dist r.adm_dist)) [
        | inl a ↦ rw a ((first, m, q, ground (arith, a)), λ h. h)
        | inr a ↦ elim (Bool-cases (ltb r.adm_dist first.adm_dist)) [
          | inl b ↦ rw (a, b) (added (erase r tbl), replaced tbl first x v m q (ground (arith, b)))
          | inr b ↦ elim (Bool-cases (any (λ s. has_same_path s r) (first ∷ others))) [
            | inl c ↦ rw (a, b, c) ((first, m, q, ground (arith, a, b)), λ h. h)
            | inr c ↦ rw (a, b, c) (added tbl, still x tbl)
          ]
        ]
      ]

  -- After an insertion the table has a route to the network of the new route, and to each network that
  -- it had one to, at distances that are not worse.
  pub insert-Serves :
      (tbl : RoutingTable) (x : Route)
      → IsValid tbl
      → Serves (insert r tbl) r × (Serves tbl x → Serves (insert r tbl) x)
  unfolding insert
  insert-Serves tbl x v = insert_at-Serves (equal_range r tbl) tbl v refl x
