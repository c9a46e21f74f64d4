-- ===== src/Invariant/Counts/Totals.antt =====
-- src/reachcounts.cpp: the totals.
use neo.Base.{suc, ◌==◌, [], ◌∷◌, if◌then◌else◌, ◌≡◌, refl, arith}
use neo.Model.{Node}
use neo.Invariant.Counts.{ReachCounts, count_at, total_counts, increase}

total_counts-increase :
    (n : Node) (c : ReachCounts) → total_counts (increase n c) ≡ suc (total_counts c)
unfolding total_counts increase
total_counts-increase n [] = refl
total_counts-increase n (e ∷ es) = ground (arith, total_counts-increase n es)

count_at-increase :
    (n m : Node) (c : ReachCounts)
    → count_at (increase n c) m ≡ (if m == n then suc (count_at c m) else count_at c m)
unfolding count_at increase
count_at-increase n m [] = ground arith
count_at-increase n m (e ∷ es) = ground (arith, count_at-increase n m es)

-- Increasing a node adds one to its count and to the total, and changes no other count.
pub increase-counts :
    (n m : Node) (c : ReachCounts)
    → (total_counts (increase n c) ≡ suc (total_counts c))
      × (count_at (increase n c) m ≡ (if m == n then suc (count_at c m) else count_at c m))
increase-counts n m c = (total_counts-increase n c, count_at-increase n m c)
