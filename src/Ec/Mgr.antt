-- ===== src/Ec/Mgr.antt =====
-- src/eqclassmgr.cpp: the manager of the equivalence classes.
pub mod Add
pub mod Split
pub mod Cut
pub mod Round
pub mod Heap
pub mod Inv
pub mod SplitEc
pub mod Overlapped
pub mod Collect
pub mod Fill
pub mod Fresh
pub mod AddEc
pub mod Wrap
use neo.Base.{
  ℕ, suc, ◌+◌, Bool, true, false, not, ◌&&◌, ◌||◌, ltb, leb, ◌==◌, List, [], ◌∷◌, ◌++◌, Option,
  none, some, any, if◌then◌else◌,
}
use neo.Base.Partial.{◌>>=◌, ◌>>◌, guard}
use neo.Ip.Address.{IPv4Address, add, sub}
use neo.Ip.Network.{IpInterface}
use neo.Ec.Range.{EcRange, EcPtr, nullptr, make_range, of_network, set_ec, set_lb, set_ub, overlaps}
use neo.Ec.RangeSet.{RangeSet, insert, erase, from_overlap, before_overlap, while_overlap, find}
use neo.Ec.Class.{EqClass, empty, add_range, rm_range, within}

-- `all_ecs` is `_all_ecs` with the object that each pointer points to; `next` is the pointer that
-- the next `new` returns.
pub record EqClassMgr : Type 0 where
  pub allranges : RangeSet
  pub all_ecs : List (EcPtr × EqClass)
  pub owned_ecs : List EcPtr
  pub ports : List ℕ
  pub next : EcPtr

unfoldable pub reset : EqClassMgr → EqClassMgr
reset m = record { allranges = []; all_ecs = []; owned_ecs = []; ports = []; next = m.next }

-- A freshly constructed manager.
unfoldable pub init : EqClassMgr
init = record { allranges = []; all_ecs = []; owned_ecs = []; ports = []; next = 1 }

-- `count` and `insert` on a set of pointers.
abbrev pub has : EcPtr → List EcPtr → Bool
has e es = any (λ x. x == e) es

abbrev pub add_ptr : EcPtr → List EcPtr → List EcPtr
add_ptr e es = if has e es then es else es ++ e ∷ []

-- The object behind a pointer, and its replacement.
unfoldable pub deref : EcPtr → List (EcPtr × EqClass) → EqClass
deref e [] = []
deref e ((p, c) ∷ ecs) = let rest = deref e ecs in if p == e then c else rest

unfoldable pub assign : EcPtr → EqClass → List (EcPtr × EqClass) → List (EcPtr × EqClass)
assign e d [] = []
assign e d ((p, c) ∷ ecs) = (p, if p == e then d else c) ∷ assign e d ecs

-- What the loop of `split_intersected_ec` changes: `_allranges`, `*ec` and `*new_ec`.
pub record Splitting : Type 0 where
  pub all : RangeSet
  pub old : EqClass
  pub moved : EqClass

-- The part of an overlapped range below the new range stays in the class.
unfoldable pub keep_lower : EcRange → EcRange → Splitting → EcRange × Splitting
keep_lower range r s =
    let lower = set_ub (sub range.lb 1) r in
    if ltb r.lb range.lb
    then (set_lb range.lb r, record s { all = insert lower s.all; old = add_range lower s.old })
    else (r, s)

-- So does the part above.
unfoldable pub keep_upper : EcRange → EcRange → Splitting → EcRange × Splitting
keep_upper range r s =
    let upper = set_lb (add range.ub 1) r in
    if ltb range.ub r.ub
    then (set_ub range.ub r, record s { all = insert upper s.all; old = add_range upper s.old })
    else (r, s)

-- One round: what is left of the range moves to the new class.
unfoldable pub split_range : EcPtr → EcRange → EcRange → Splitting → Splitting
unfolding keep_lower keep_upper
split_range new_ec range r s =
    let erased = record s { all = erase r s.all; old = rm_range r s.old } in
    let (r1, s1) = keep_lower range r erased in
    let (r2, s2) = keep_upper range r1 s1 in
    let r3 = set_ec new_ec r2 in
    if overlaps r range
    then record s2 { all = insert r3 s2.all; moved = add_range r3 s2.moved }
    else s

unfoldable pub split_loop : EcPtr → EcRange → EqClass → Splitting → Splitting
split_loop new_ec range [] s = s
split_loop new_ec range (r ∷ orig) s = split_loop new_ec range orig (split_range new_ec range r s)

-- `none` if the assertion that the new class is not empty fails.
unfoldable pub split_intersected_ec : EcPtr → EcRange → Bool → EqClassMgr → Option EqClassMgr
unfolding split_loop empty deref assign
split_intersected_ec ec range owned m =
    let orig = deref ec m.all_ecs in
    let s = split_loop m.next range orig (record { all = m.allranges; old = orig; moved = [] }) in
    if empty s.moved
    then none
    else some (record {
      allranges = s.all;
      all_ecs = assign ec s.old m.all_ecs ++ (m.next, s.moved) ∷ [];
      owned_ecs = if owned || has ec m.owned_ecs then add_ptr m.next m.owned_ecs else m.owned_ecs;
      ports = m.ports;
      next = suc m.next;
    })
