-- ===== src/Ec/Initial/Atoms.antt =====
-- src/eqclassmgr.cpp: what the classes are after `compute_initial_ecs`.
use neo.Base.{
  ℕ, zero, suc, Bool, false, List, [], ◌∷◌, ◌++◌, Option, none, some, All, All-append, count_if,
  ◌≡◌, ◌↔◌, ◌⊎◌, inl, inr, ◌≤◌, ◌+◌, refl, sym, ◌∙◌, arith, Bool-cases, Option-cases,
}
use neo.Base.Partial.{◌>>=◌}
use neo.Ip.Address.{IPv4Address}
use neo.Ec.Range.{EcRange, EcPtr, contains}
use neo.Ec.RangeSet.{owner}
use neo.Ec.Mgr.{EqClassMgr}
use neo.Ec.Mgr.Add.{add_ec}
use neo.Ec.Mgr.Inv.{IsValid}
use neo.Ec.Mgr.Cut.{IsProper}
use neo.Ec.Mgr.AddEc.{add_ec-Separates}

abbrev pub last_addr : IPv4Address
last_addr = 4294967295

abbrev pub has_last : EcRange → Bool
has_last r = contains r last_addr

-- The manager after the ranges are added to one before.
pub record Adds (rs : List EcRange) (m m' : EqClassMgr) : Type 0 where
  pub valid : IsValid m'
  pub covers :
      (a : IPv4Address)
      → (owner a m'.allranges ≡ none)
        ↔ ((owner a m.allranges ≡ none) × All (λ r. contains r a ≡ false) rs)
  pub refines :
      (a b : IPv4Address) (e : EcPtr)
      → owner a m'.allranges ≡ some e
      → owner b m'.allranges ≡ some e
      → (owner a m.allranges ≡ owner b m.allranges) × All (λ r. contains r a ≡ contains r b) rs

-- No two of the ranges and of those before have the last address.
abbrev pub Free : List EcRange → EqClassMgr → Type 0
Free rs m =
    (count_if has_last rs ≡ 0) ⊎ ((owner last_addr m.allranges ≡ none) × (count_if has_last rs ≤ 1))

-- The code adds the ranges.
abbrev pub Does : List EcRange → (EqClassMgr → Option EqClassMgr) → Type 0
Does rs f =
    (m : EqClassMgr) → IsValid m → Free rs m → (m' : EqClassMgr) × (f m ≡ some m') × Adds rs m m'

pub Does-add_ec : (r : EcRange) (owned : Bool) → IsProper r → Does (r ∷ []) (add_ec r owned)
Does-add_ec r owned w m v free =
    let (m', e, s) = add_ec-Separates m r owned v w (λ h. ground (arith, free, h)) in
    (
      m',
      e,
      record {
        valid = s.valid;
        covers = λ a.
            (λ h. let k = (s.covers a).0 h in (k.0, (k.1, tt)), λ h. (s.covers a).1 (h.0, h.1.0));
        refines = λ a b x ha hb. let q = s.refines a b x ha hb in (q.0, (q.1, tt));
      },
    )

pub Does-none : Does [] (λ m. some m)
Does-none m v free = (
  m,
  refl,
  record {
    valid = v;
    covers = λ a. (λ h. (h, tt), λ h. h.0);
    refines = λ a b x ha hb. (ha ∙ sym hb, tt);
  },
)

All-first {ℓ κ} : {A : Type ℓ} (P : A → Type κ) (xs ys : List A) → All P (xs ++ ys) → All P xs
All-first P [] ys h = tt
All-first P (x ∷ xs) ys h = (h.0, All-first P xs ys h.1)

All-second {ℓ κ} : {A : Type ℓ} (P : A → Type κ) (xs ys : List A) → All P (xs ++ ys) → All P ys
All-second P [] ys h = h
All-second P (x ∷ xs) ys h = All-second P xs ys h.1

count_if-append :
    (p : EcRange → Bool) (rs ss : List EcRange)
    → count_if p (rs ++ ss) ≡ count_if p rs + count_if p ss
count_if-append p [] ss = omega arith
count_if-append p (r ∷ rs) ss = ground (arith, count_if-append p rs ss)

none_of-count :
    (p : EcRange → Bool) (rs : List EcRange) → count_if p rs ≡ 0 → All (λ r. p r ≡ false) rs
none_of-count p [] h = tt
none_of-count p (r ∷ rs) h = elim (Bool-cases (p r)) [
  | inl e ↦ absurd (ground arith)
  | inr e ↦ (e, none_of-count p rs (ground arith))
]

-- What is still free once the first ranges are added.
Free-rest :
    (rs ss : List EcRange) (m m' : EqClassMgr) → Free (rs ++ ss) m → Adds rs m m' → Free ss m'
Free-rest rs ss m m' (inl z) h = inl (let c = count_if-append has_last rs ss in omega (arith, z, c))
Free-rest rs ss m m' (inr (o, le)) h = by_count (count_if has_last rs) refl
  where
    by_count : (n : ℕ) → count_if has_last rs ≡ n → Free ss m'
    by_count zero e =
        let c = count_if-append has_last rs ss in
        inr ((h.covers last_addr).1 (o, none_of-count has_last rs e), omega (arith, le, c, e))
    by_count (suc n) e = let c = count_if-append has_last rs ss in inl (omega (arith, le, c, e))

Free-first : (rs ss : List EcRange) (m : EqClassMgr) → Free (rs ++ ss) m → Free rs m
Free-first rs ss m (inl z) = inl (let c = count_if-append has_last rs ss in omega (arith, z, c))
Free-first rs ss m (inr (o, le)) =
    inr (o, let c = count_if-append has_last rs ss in omega (arith, le, c))

both_outside :
    (a b : IPv4Address) (rs : List EcRange)
    → All (λ r. contains r a ≡ false) rs
    → All (λ r. contains r b ≡ false) rs
    → All (λ r. contains r a ≡ contains r b) rs
both_outside a b [] h k = tt
both_outside a b (r ∷ rs) h k = (h.0 ∙ sym k.0, both_outside a b rs h.1 k.1)

-- Uncovered addresses are in no range, too.
refines_before :
    (rs : List EcRange) (m m1 : EqClassMgr) (h : Adds rs m m1) (a b : IPv4Address)
    → owner a m1.allranges ≡ owner b m1.allranges
    → (owner a m.allranges ≡ owner b m.allranges) × All (λ r. contains r a ≡ contains r b) rs
refines_before rs m m1 h a b o = elim (Option-cases (owner a m1.allranges)) [
  | inl z ↦
      let (a0, na) = (h.covers a).0 z in
      let (b0, nb) = (h.covers b).0 (sym o ∙ z) in (a0 ∙ sym b0, both_outside a b rs na nb)
  | inr (x, e) ↦ h.refines a b x e (sym o ∙ e)
]

Adds-trans :
    (rs ss : List EcRange) (m m1 m2 : EqClassMgr)
    → Adds rs m m1
    → Adds ss m1 m2
    → Adds (rs ++ ss) m m2
Adds-trans rs ss m m1 m2 h k = record {
  valid = k.valid;
  covers = λ a. (
    λ e.
        let (e1, n2) = (k.covers a).0 e in
        let (e0, n1) = (h.covers a).0 e1 in
        (e0, All-append (λ r. contains r a ≡ false) rs ss n1 n2),
    λ e. (k.covers a).1 (
      (h.covers a).1 (e.0, All-first (λ r. contains r a ≡ false) rs ss e.1),
      All-second (λ r. contains r a ≡ false) rs ss e.1,
    ),
  );
  refines = λ a b x ha hb.
      let (o, s) = k.refines a b x ha hb in
      let (o0, s0) = refines_before rs m m1 h a b o in
      (o0, All-append (λ r. contains r a ≡ contains r b) rs ss s0 s);
}

pub Does-seq :
    (rs ss : List EcRange) (f g : EqClassMgr → Option EqClassMgr)
    → Does rs f
    → Does ss g
    → Does (rs ++ ss) (λ m. f m >>= g)
Does-seq rs ss f g df dg m v free =
    let (m1, e1, a1) = df m v (Free-first rs ss m free) in
    let (m2, e2, a2) = dg m1 a1.valid (Free-rest rs ss m m1 free a1) in
    (m2, rw (e1, e2) refl, Adds-trans rs ss m m1 m2 a1 a2)
