-- ===== src/Ec/Mgr/Add.antt =====
-- src/eqclassmgr.cpp: adding ranges, and finding classes.
use neo.Base.{suc, Bool, false, ltb, leb, List, [], ◌∷◌, ◌++◌, Option, none, some, if◌then◌else◌}
use neo.Base.Partial.{◌>>=◌}
use neo.Ip.Address.{IPv4Address, add, sub}
use neo.Ip.Network.{IpInterface}
use neo.Ec.Range.{EcRange, EcPtr, make_range, of_network, set_ec}
use neo.Ec.RangeSet.{RangeSet, insert, from_overlap, before_overlap, while_overlap, find}
use neo.Ec.Class.{EqClass, empty, add_range, within}
use neo.Ec.Mgr.{EqClassMgr, has, add_ptr, deref, split_intersected_ec}

-- What `add_non_overlapped_ec` changes: `_allranges` and `*new_ec`.
pub record Filling : Type 0 where
  pub all : RangeSet
  pub fresh : EqClass

-- One new range between the bounds; its constructor throws if they are out of order.
unfoldable pub fill_gap : EcPtr → IPv4Address → IPv4Address → Filling → Option Filling
fill_gap new_ec lb ub f = do
  r ← make_range lb ub
  some
      (record { all = insert (set_ec new_ec r) f.all; fresh = add_range (set_ec new_ec r) f.fresh })

-- The loop over the ranges that overlap the new one. The insertions go before the iterator, so the
-- rest of the iteration is over the elements that were there. The result has the last `lb`.
unfoldable pub fill_loop : EcPtr → IPv4Address → RangeSet → Filling → Option (IPv4Address × Filling)
unfolding fill_gap
fill_loop new_ec lb [] f = some (lb, f)
fill_loop new_ec lb (it ∷ its) f = do
  f' ← if ltb lb it.lb then fill_gap new_ec lb (sub it.lb 1) f else some f
  fill_loop new_ec (add it.ub 1) its f'

-- The code after the loop: the class is kept if it is not empty.
unfoldable pub keep_new : EcPtr → Bool → EqClassMgr → Filling → EqClassMgr
unfolding empty
keep_new new_ec owned m f =
    if empty f.fresh then record m { allranges = f.all; next = suc m.next } else record m {
      allranges = f.all;
      all_ecs = m.all_ecs ++ (new_ec, f.fresh) ∷ [];
      owned_ecs = if owned then add_ptr new_ec m.owned_ecs else m.owned_ecs;
      next = suc m.next;
    }

unfoldable pub add_non_overlapped_ec : EcRange → Bool → EqClassMgr → Option EqClassMgr
unfolding fill_loop keep_new fill_gap
add_non_overlapped_ec range owned m = do
  let overlapped = while_overlap range (from_overlap range m.allranges)
  (lb, f) ← fill_loop m.next range.lb overlapped (record { all = m.allranges; fresh = [] })
  f' ← if leb lb range.ub then fill_gap m.next lb range.ub f else some f
  some (keep_new m.next owned m f')

-- The classes of some ranges, each once; only the owned ones if asked.
unfoldable pub collect : EqClassMgr → Bool → List EcPtr → RangeSet → List EcPtr
collect m owned_only ecs [] = ecs
collect m owned_only ecs (r ∷ rs) =
    collect m owned_only
      (if owned_only
        then (if has r.ec m.owned_ecs then add_ptr r.ec ecs else ecs)
        else add_ptr r.ec ecs)
      rs

-- The loops go down and up from the element that `find` returns; both stop at the first range that
-- does not overlap.
unfoldable pub get_overlapped_ecs : EcRange → Bool → EqClassMgr → List EcPtr
unfolding collect
get_overlapped_ecs range owned_only m = elim (find range m.allranges) [
  | none ↦ []
  | some r ↦
      let down = while_overlap range (before_overlap [] range m.allranges) in
      let up = while_overlap range (from_overlap range m.allranges) in
      collect m owned_only (collect m owned_only [] down) up
]

-- The body of the loop over the overlapped classes.
unfoldable pub add_overlapped : EcRange → Bool → EcPtr → EqClassMgr → Option EqClassMgr
add_overlapped range owned ec m = do
  inside ← within range (deref ec m.all_ecs)
  if inside
      then some (if owned then record m { owned_ecs = add_ptr ec m.owned_ecs } else m)
      else split_intersected_ec ec range owned m

unfoldable pub add_overlapped_all : EcRange → Bool → List EcPtr → EqClassMgr → Option EqClassMgr
unfolding add_overlapped
add_overlapped_all range owned [] m = some m
add_overlapped_all range owned (ec ∷ ecs) m = do
  m' ← add_overlapped range owned ec m
  add_overlapped_all range owned ecs m'

-- `add_ec(const ECRange &, bool)`.
unfoldable pub add_ec : EcRange → Bool → EqClassMgr → Option EqClassMgr
unfolding get_overlapped_ecs add_overlapped_all add_non_overlapped_ec
add_ec range owned m = do
  m' ← add_overlapped_all range owned (get_overlapped_ecs range false m) m
  add_non_overlapped_ec range owned m'

-- `add_ec` of a network and of an address.
unfoldable pub add_ec_network : IpInterface → EqClassMgr → Option EqClassMgr
unfolding add_ec of_network
add_ec_network net m = add_ec (of_network net) false m

unfoldable pub add_ec_addr : IPv4Address → Bool → EqClassMgr → Option EqClassMgr
unfolding add_ec
add_ec_addr addr owned m = do r ← make_range addr addr; add_ec r owned m

-- `find_ec`: an address in no class is an error.
unfoldable pub find_ec : IPv4Address → EqClassMgr → Option EcPtr
find_ec ip m = do r ← make_range ip ip; it ← find r m.allranges; some it.ec
