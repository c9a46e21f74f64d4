-- ===== src/Routing/Table/Order.antt =====
-- src/routingtable.cpp: the order of the table and the administrative distances of one network.
use neo.Base.{
  Bool, true, false, not, ltb, List, [], ◌∷◌, ◌≡◌, refl, keep, any, All, Bool-cases, inl, inr,
  if◌then◌else◌, arith, ◌⊎◌, sym, ap, ◌∙◌, subst,
}
use neo.Routing.Route.{Route, lt, has_same_path}
use neo.Routing.Table.{
  RoutingTable, equivalent, multiset_insert, equal_range, erase, insert_at, insert, update,
}

List-cases {ℓ} : {A : Type ℓ} (xs : List A) → (xs ≡ []) ⊎ ((y : A) × (ys : List A) × (xs ≡ y ∷ ys))
List-cases [] = inl refl
List-cases (y ∷ ys) = inr (y, ys, refl)

-- Two routes to one network have one administrative distance.
abbrev pub SameDist : Route → Route → Type 0
SameDist a b = equivalent a b ≡ true → a.adm_dist ≡ b.adm_dist

-- No later element precedes an earlier one, and routes to one network have one distance.
abbrev pub IsValid : RoutingTable → Type 0
IsValid [] = Unit
IsValid (r ∷ rs) = All (λ s. (lt s r ≡ false) × SameDist r s) rs × IsValid rs

pub keep-true {ℓ} :
    {A : Type ℓ} (p : A → Bool) (x : A) (xs : List A) → p x ≡ true → keep p (x ∷ xs) ≡ x ∷ keep p xs
keep-true p x xs e = rw (keep, e) refl

pub keep-false {ℓ} :
    {A : Type ℓ} (p : A → Bool) (x : A) (xs : List A) → p x ≡ false → keep p (x ∷ xs) ≡ keep p xs
keep-false p x xs e = rw (keep, e) refl

All-keep {ℓ κ} :
    {A : Type ℓ} (P : A → Type κ) (p : A → Bool) (xs : List A) → All P xs → All P (keep p xs)
All-keep P p [] h = h
All-keep P p (x ∷ xs) h = elim (Bool-cases (p x)) [
  | inl e ↦ subst (All P) (sym (keep-true p x xs e)) (h.0, All-keep P p xs h.1)
  | inr e ↦ subst (All P) (sym (keep-false p x xs e)) (All-keep P p xs h.1)
]

keep-IsValid : (p : Route → Bool) (tbl : RoutingTable) → IsValid tbl → IsValid (keep p tbl)
keep-IsValid p [] h = h
keep-IsValid p (r ∷ rs) h = elim (Bool-cases (p r)) [
  | inl e ↦
      subst IsValid (sym (keep-true p r rs e))
        (All-keep (λ s. (lt s r ≡ false) × SameDist r s) p rs h.0, keep-IsValid p rs h.1)
  | inr e ↦ subst IsValid (sym (keep-false p r rs e)) (keep-IsValid p rs h.1)
]

front_eq :
    (r s : Route) (rs : RoutingTable) → lt r s ≡ true → multiset_insert r (s ∷ rs) ≡ r ∷ s ∷ rs
unfolding multiset_insert
front_eq r s rs e = ap (λ b. if b then r ∷ s ∷ rs else s ∷ multiset_insert r rs) e

behind_eq :
    (r s : Route) (rs : RoutingTable)
    → lt r s ≡ false
    → multiset_insert r (s ∷ rs) ≡ s ∷ multiset_insert r rs
unfolding multiset_insert
behind_eq r s rs e = ap (λ b. if b then r ∷ s ∷ rs else s ∷ multiset_insert r rs) e

All-multiset_insert {κ} :
    (P : Route → Type κ) (r : Route) (tbl : RoutingTable)
    → P r
    → All P tbl
    → All P (multiset_insert r tbl)
unfolding multiset_insert
All-multiset_insert P r [] hr h = (hr, tt)
All-multiset_insert P r (s ∷ rs) hr h = elim (Bool-cases (lt r s)) [
  | inl e ↦ subst (All P) (sym (front_eq r s rs e)) (hr, h)
  | inr e ↦ subst (All P) (sym (behind_eq r s rs e)) (h.0, All-multiset_insert P r rs hr h.1)
]

lt-asym : (a b : Route) → lt a b ≡ true → lt b a ≡ false
lt-asym a b h = ground arith

ge_trans : (a b c : Route) → lt a b ≡ true → lt c b ≡ false → lt c a ≡ false
ge_trans a b c h k = ground arith

equivalent-sym : (a b : Route) → equivalent a b ≡ true → equivalent b a ≡ true
equivalent-sym a b h = ground arith

pub SameDist-sym : (a b : Route) → SameDist a b → SameDist b a
SameDist-sym a b h e = sym (h (equivalent-sym b a e))

-- A route with the class of the head stands before all that the head stands before.
abbrev Before : Route → Route → Type 0
Before r s = (lt s r ≡ false) × SameDist r s

Before-front :
    (r s : Route)
    → lt r s ≡ true
    → (rs : RoutingTable) → All (Before s) rs
    → All (SameDist r) rs
    → All (Before r) rs
Before-front r s e [] h d = tt
Before-front r s e (t ∷ ts) h d = ((ge_trans r s t e h.0.0, d.0), Before-front r s e ts h.1 d.1)

pub multiset_insert-IsValid :
    (r : Route) (tbl : RoutingTable)
    → IsValid tbl
    → All (SameDist r) tbl
    → IsValid (multiset_insert r tbl)
unfolding multiset_insert
multiset_insert-IsValid r [] h d = (tt, tt)
multiset_insert-IsValid r (s ∷ rs) h d = elim (Bool-cases (lt r s)) [
  | inl e ↦
      subst IsValid (sym (front_eq r s rs e))
        (((lt-asym r s e, d.0), Before-front r s e rs h.0 d.1), h)
  | inr e ↦ subst IsValid (sym (behind_eq r s rs e)) (
    All-multiset_insert (Before s) r rs (e, SameDist-sym r s d.0) h.0,
    multiset_insert-IsValid r rs h.1 d.1,
  )
]

none-dist : (r s : Route) → equivalent s r ≡ false → SameDist r s
none-dist r s e q =
    let k : equivalent s r ≡ true = equivalent-sym r s q in let f : true ≡ false = sym k ∙ e in cc

-- After `erase` no route to the network is left.
erase-SameDist : (r : Route) (tbl : RoutingTable) → All (SameDist r) (erase r tbl)
erase-SameDist r [] = tt
erase-SameDist r (s ∷ rs) = elim (Bool-cases (equivalent s r)) [
  | inl e ↦
      subst (All (SameDist r)) (sym (keep-false (λ t. not (equivalent t r)) s rs (ap not e)))
        (erase-SameDist r rs)
  | inr e ↦
      subst (All (SameDist r)) (sym (keep-true (λ t. not (equivalent t r)) s rs (ap not e)))
        (none-dist r s e, erase-SameDist r rs)
]

pub update-IsValid : (route : Route) (tbl : RoutingTable) → IsValid tbl → IsValid (update route tbl)
unfolding update
update-IsValid route tbl h =
    multiset_insert-IsValid route (erase route tbl)
      (keep-IsValid (λ s. not (equivalent s route)) tbl h) (erase-SameDist route tbl)

-- The routes to one network have the distance of the first of them.
equivalent_trans :
    (a b c : Route) → equivalent a b ≡ true → equivalent c b ≡ true → equivalent a c ≡ true
equivalent_trans a b c h k = ground arith

tail-dist :
    (r s : Route) (rs : RoutingTable)
    → equivalent s r ≡ true
    → All (Before s) rs
    → s.adm_dist ≡ r.adm_dist
    → All (SameDist r) rs
tail-dist r s [] e h d = tt
tail-dist r s (t ∷ ts) e h d = (
  (λ q. sym d ∙ h.0.1 (equivalent_trans s r t e (equivalent-sym r t q))),
  tail-dist r s ts e h.1 d,
)

equal_range-SameDist :
    (r : Route) (tbl : RoutingTable)
    → IsValid tbl
    → ((s : Route) (rs : RoutingTable) → equal_range r tbl ≡ s ∷ rs → s.adm_dist ≡ r.adm_dist)
    → All (SameDist r) tbl
equal_range-SameDist r [] h d = tt
equal_range-SameDist r (s ∷ rs) h d = elim (Bool-cases (equivalent s r)) [
  | inl e ↦
      let q : s.adm_dist ≡ r.adm_dist =
        d s (equal_range r rs) (keep-true (λ t. equivalent t r) s rs e) in
      ((λ _. sym q), tail-dist r s rs e h.0 q)
  | inr e ↦ (
    none-dist r s e,
    equal_range-SameDist r rs h.1 (λ t ts k. d t ts (keep-false (λ t. equivalent t r) s rs e ∙ k)),
  )
]

-- Where a list's first element is met, it is an element that passes the test.
keep-head {ℓ} :
    {A : Type ℓ} (p : A → Bool) (xs : List A) (y : A) (ys : List A)
    → keep p xs ≡ y ∷ ys
    → p y ≡ true
keep-head p [] y ys e = cc
keep-head p (x ∷ xs) y ys e = elim (Bool-cases (p x)) [
  | inl q ↦ let k = sym (keep-true p x xs q) ∙ e in cc
  | inr q ↦ keep-head p xs y ys (sym (keep-false p x xs q) ∙ e)
]

insert_at-IsValid :
    (range : RoutingTable) (route : Route) (tbl : RoutingTable)
    → IsValid tbl
    → equal_range route tbl ≡ range
    → IsValid (insert_at range route tbl)
unfolding insert_at
insert_at-IsValid [] route tbl h e =
    multiset_insert-IsValid route tbl h
      (equal_range-SameDist route tbl h (λ s rs k. let q : s ∷ rs ≡ [] = sym k ∙ e in cc))
insert_at-IsValid (first ∷ others) route tbl h e =
    elim (Bool-cases (ltb first.adm_dist route.adm_dist)) [
      | inl p ↦ rw p h
      | inr p ↦ elim (Bool-cases (ltb route.adm_dist first.adm_dist)) [
        | inl q ↦ rw (p, q) (replaced q)
        | inr q ↦ elim (Bool-cases (any (λ s. has_same_path s route) (first ∷ others))) [
          | inl w ↦ rw (p, q, w) h
          | inr w ↦ rw (p, q, w) (added p q)
        ]
      ]
    ]
  where
    added :
        ltb first.adm_dist route.adm_dist ≡ false
        → ltb route.adm_dist first.adm_dist ≡ false
        → IsValid (multiset_insert route tbl)
    added p q = multiset_insert-IsValid route tbl h (
        equal_range-SameDist route tbl h (λ s rs k.
          let w : first ∷ others ≡ s ∷ rs = sym e ∙ k in
          let d : first.adm_dist ≡ route.adm_dist = ground arith in
          let f : first ≡ s = cc in subst (λ t. t.adm_dist ≡ route.adm_dist) f d))

    replaced :
        ltb route.adm_dist first.adm_dist ≡ true → IsValid (multiset_insert route (erase route tbl))
    replaced q =
        multiset_insert-IsValid route (erase route tbl)
          (keep-IsValid (λ s. not (equivalent s route)) tbl h) (erase-SameDist route tbl)

-- `insert` and `update` keep a valid table valid: in the order of the routes, longest prefix first,
-- and with the routes to each network at one administrative distance.
pub insert-IsValid :
    (route : Route) (tbl : RoutingTable)
    → IsValid tbl
    → IsValid (insert route tbl) × IsValid (update route tbl)
unfolding insert
insert-IsValid route tbl h =
    (insert_at-IsValid (equal_range route tbl) route tbl h refl, update-IsValid route tbl h)
