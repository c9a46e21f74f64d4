-- ===== src/Base/Maps.antt =====
-- `std::map`, `std::set` and `std::unordered_map` of numbers, names and ordered values, as lists.
use Prim.Native.Nat.{ℕ, suc}
use Prim.Native.String.{String}
use text.Mathlib.Text.{◌==◌ as str_eq}
use mathlib.Core.Bool.{Bool, true, false, ◌||◌}
use mathlib.Core.List.{List, [], ◌∷◌}
use mathlib.Core.Option.{Option, none, some}
use neo.Base.Lists.{All}
use neo.Base.Tests.{ltb, ◌==◌, if◌then◌else◌}

pub record Keyed {ℓ} (A : Type ℓ) : Type ℓ where
  pub key : ℕ
  pub value : A

pub record Named {ℓ} (A : Type ℓ) : Type ℓ where
  pub name : String
  pub value : A

module _ {ℓ} {A : Type ℓ} where
  abbrev pub find : ℕ → List (Keyed A) → Option A
  find k [] = none
  find k (e ∷ es) = let rest = find k es in if k == e.key then some e.value else rest

  -- `operator[]` on the left of an assignment, where the keys are in order.
  abbrev pub put : ℕ → A → List (Keyed A) → List (Keyed A)
  put k v [] = record { key = k; value = v } ∷ []
  put k v (e ∷ es) =
      let rest = put k v es in
      if k == e.key
      then record { key = k; value = v } ∷ es
      else if ltb k e.key
      then record { key = k; value = v } ∷ e ∷ es
      else e ∷ rest

  -- `insert`, whose result says whether the key is new.
  abbrev pub insert_new : ℕ → A → List (Keyed A) → Option (List (Keyed A))
  insert_new k v m = elim (find k m) [ none ↦ some (put k v m) | some _ ↦ none ]

  abbrev pub find_name : String → List (Named A) → Option A
  find_name k [] = none
  find_name k (e ∷ es) = let rest = find_name k es in if str_eq k e.name then some e.value else rest

  abbrev pub insert_name : String → A → List (Named A) → Option (List (Named A))
  insert_name k v m = elim (find_name k m) [
    | none ↦ some (record { name = k; value = v } ∷ m)
    | some _ ↦ none
  ]

  -- The insertion into a set in the order of `lt`.
  abbrev pub set_insert : (A → A → Bool) → A → List A → List A
  set_insert lt a [] = a ∷ []
  set_insert lt a (b ∷ bs) =
      let rest = set_insert lt a bs in
      if lt a b then a ∷ b ∷ bs else if lt b a then b ∷ rest else b ∷ bs

  abbrev pub set_union : (A → A → Bool) → List A → List A → List A
  set_union lt [] bs = bs
  set_union lt (a ∷ more) bs = set_union lt more (set_insert lt a bs)

  -- The number of elements that pass the test.
  abbrev pub count_if : (A → Bool) → List A → ℕ
  count_if p [] = 0
  count_if p (a ∷ others) = let rest = count_if p others in if p a then suc rest else rest

abbrev pub elem : ℕ → List ℕ → Bool
elem a [] = false
elem a (b ∷ bs) = a == b || elem a bs

if_All {ℓ κ} :
    {A : Type ℓ} (P : A → Type κ) (b : Bool) (xs ys : List A)
    → All P xs
    → All P ys
    → All P (if b then xs else ys)
if_All P true xs ys h k = h
if_All P false xs ys h k = k

pub All-set_insert {ℓ κ} :
    {A : Type ℓ} (P : A → Type κ) (lt : A → A → Bool) (a : A) (bs : List A)
    → P a
    → All P bs
    → All P (set_insert lt a bs)
All-set_insert P lt a [] h hs = (h, tt)
All-set_insert P lt a (b ∷ bs) h hs =
    if_All P (lt a b) _ _ (h, hs) (if_All P (lt b a) _ _ (hs.0, All-set_insert P lt a bs h hs.1) hs)

pub All-set_union {ℓ κ} :
    {A : Type ℓ} (P : A → Type κ) (lt : A → A → Bool) (xs bs : List A)
    → All P xs
    → All P bs
    → All P (set_union lt xs bs)
All-set_union P lt [] bs h hs = hs
All-set_union P lt (a ∷ xs) bs h hs =
    All-set_union P lt xs (set_insert lt a bs) h.1 (All-set_insert P lt a bs h.0 hs)
