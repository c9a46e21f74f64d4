-- ===== src/Conn/Matrix.antt =====
-- src/connmatrix.cpp: the product of the invariant's sets of connections, walked by iterators.
pub mod Odometer
use neo.Base.{
  ℕ, suc, Bool, true, false, ◌==◌, List, [], ◌∷◌, ◌++◌, Option, none, some, get_elem?, length,
  if◌then◌else◌, ◌*◌, ◌+◌, map,
}
use neo.Base.Partial.{◌>>=◌}

-- A set is the list of its elements in their order, an iterator a position; the position behind
-- the last element is the end.
pub record ConnectionMatrix {ℓ} (Connection : Type ℓ) : Type ℓ where
  pub product : List (List Connection)
  pub itrs : List ℕ
  pub traversed_all : Bool

module _ {ℓ} {Connection : Type ℓ} where
  abbrev pub num_of : List (List Connection) → ℕ
  num_of [] = 1
  num_of (c ∷ cs) = length c * num_of cs

  abbrev pub num_conns : ConnectionMatrix Connection → ℕ
  num_conns m = num_of m.product

  abbrev pub clear : ConnectionMatrix Connection
  clear = record { product = []; itrs = []; traversed_all = false }

  abbrev pub begins : List (List Connection) → List ℕ
  begins [] = []
  begins (c ∷ cs) = 0 ∷ begins cs

  abbrev pub reset : ConnectionMatrix Connection → ConnectionMatrix Connection
  reset m = record m { itrs = begins m.product; traversed_all = false }

  abbrev pub add : List Connection → ConnectionMatrix Connection → ConnectionMatrix Connection
  add conns m = record m { product = m.product ++ (conns ∷ []); itrs = m.itrs ++ (0 ∷ []) }

  -- What the iterators point to; `none` dereferences an end.
  abbrev pub deref : List (List Connection) → List ℕ → Option (List Connection)
  deref [] [] = some []
  deref (c ∷ cs) (i ∷ is) = get_elem? c i >>= λ x. deref cs is >>= λ xs. some (x ∷ xs)
  deref _ _ = none

  -- The loop that advances the iterators, and whether it has passed the last one.
  unfoldable pub advance : List (List Connection) → List ℕ → List ℕ × Bool
  advance [] is = (is, true)
  advance (c ∷ cs) [] = ([], true)
  advance (c ∷ cs) (i ∷ is) =
      let (rest, all) = advance cs is in
      if suc i == length c then (0 ∷ rest, all) else (suc i ∷ is, false)

  unfoldable pub get_next_conns :
      ConnectionMatrix Connection → Option (List Connection × ConnectionMatrix Connection)
  unfolding advance
  get_next_conns m =
      let next = deref m.product m.itrs >>= λ conns.
      (let (is, all) = advance m.product m.itrs in
        some (conns, record m { itrs = is; traversed_all = all })) in
      if m.traversed_all then some ([], m) else next
