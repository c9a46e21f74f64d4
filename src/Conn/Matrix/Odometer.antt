-- ===== src/Conn/Matrix/Odometer.antt =====
-- src/connmatrix.cpp: the iterators count through the product.
use neo.Base.{
  ℕ, zero, suc, Bool, true, false, ◌==◌, List, [], ◌∷◌, some, length, get_elem?, ◌*◌, ◌+◌, ◌≡◌,
  refl, ◌⊎◌, inl, inr, ◌<◌, arith, Bool-cases, sym, subst,
}
use native.Mathlib.Numerals.{unary_clauses}
use neo.Conn.Matrix.{ConnectionMatrix, num_of, advance, deref, get_next_conns}

mul_suc : (n v : ℕ) → n * suc v ≡ n * v + n
mul_suc n v = simp unary_clauses (omega arith)

carry : (i n r v : ℕ) → suc i ≡ n → r ≡ suc v → 0 + n * r ≡ suc (i + n * v)
carry i n r v e h = subst (λ x. 0 + n * x ≡ suc (i + n * v)) (sym h) (omega (arith, mul_suc n v, e))

last : (i n v m : ℕ) → suc i ≡ n → suc v ≡ m → suc (i + n * v) ≡ n * m
last i n v m e h = subst (λ x. suc (i + n * v) ≡ n * x) h (omega (arith, mul_suc n v, e))

zero_digit : (n r : ℕ) → r ≡ 0 → 0 + n * r ≡ 0
zero_digit n r e = subst (λ x. 0 + n * x ≡ 0) (sym e) (omega arith)

get-total {ℓ} :
    {A : Type ℓ} (xs : List A) (i : ℕ) → i < length xs → (x : A) × (get_elem? xs i ≡ some x)
get-total [] i l = absurd (ground arith)
get-total (x ∷ xs) zero l = (x, refl)
get-total (x ∷ xs) (suc i) l = get-total xs i (omega (arith, l))

module _ {ℓ} {Connection : Type ℓ} where
  -- Every iterator is in front of its end.
  abbrev pub IsValid : List (List Connection) → List ℕ → Type 0
  IsValid [] [] = Unit
  IsValid [] (i ∷ is) = ⊥
  IsValid (c ∷ cs) [] = ⊥
  IsValid (c ∷ cs) (i ∷ is) = (i < length c) × IsValid cs is

  -- The number of combinations in front of the iterators, the first set's turning fastest.
  abbrev pub rank : List (List Connection) → List ℕ → ℕ
  rank [] is = 0
  rank (c ∷ cs) [] = 0
  rank (c ∷ cs) (i ∷ is) = i + length c * rank cs is

  -- A step raises the rank by one, or the rank was the last one and the iterators begin again.
  abbrev pub Ticks : List (List Connection) → List ℕ → List ℕ × Bool → Type 0
  Ticks cs is (js, all) =
      IsValid cs js
      × (((all ≡ false) × (rank cs js ≡ suc (rank cs is)))
          ⊎ ((all ≡ true) × (rank cs js ≡ 0) × (suc (rank cs is) ≡ num_of cs)))

  advance_one :
      (c : List Connection) (cs : List (List Connection)) (i : ℕ) (is : List ℕ)
      → IsValid (c ∷ cs) (i ∷ is)
      → Ticks cs is (advance cs is)
      → Ticks (c ∷ cs) (i ∷ is) (advance (c ∷ cs) (i ∷ is))
  unfolding advance
  advance_one c cs i is v (w, t) = elim (Bool-cases (suc i == length c)) [
    | inl e ↦
        let q : suc i ≡ length c = ground arith in
        rw e (
          (omega (arith, q), w),
          elim t [
            | inl (a, r) ↦ inl (a, carry i (length c) (rank cs (advance cs is).0) (rank cs is) q r)
            | inr (a, z, l) ↦ inr (
              a,
              zero_digit (length c) (rank cs (advance cs is).0) z,
              last i (length c) (rank cs is) (num_of cs) q l,
            )
          ],
        )
    | inr e ↦ rw e ((ground arith, v.1), inl (refl, ground arith))
  ]

  advance-Ticks :
      (cs : List (List Connection)) (is : List ℕ) → IsValid cs is → Ticks cs is (advance cs is)
  unfolding advance
  advance-Ticks [] [] v = (tt, inr (refl, refl, refl))
  advance-Ticks [] (i ∷ is) v = absurd v
  advance-Ticks (c ∷ cs) [] v = absurd v
  advance-Ticks (c ∷ cs) (i ∷ is) v = advance_one c cs i is v (advance-Ticks cs is v.1)

  deref-total :
      (cs : List (List Connection)) (is : List ℕ)
      → IsValid cs is
      → (conns : List Connection) × (deref cs is ≡ some conns)
  deref-total [] [] v = ([], refl)
  deref-total [] (i ∷ is) v = absurd v
  deref-total (c ∷ cs) [] v = absurd v
  deref-total (c ∷ cs) (i ∷ is) v =
      let (x, e) = get-total c i v.0 in
      let (xs, f) = deref-total cs is v.1 in (x ∷ xs, rw (e, f) refl)

  -- The iterators are in front of their ends and not all is traversed. A call returns the combination
  -- that the iterators point to. They move to the next combination, counted with the first set turning
  -- fastest, or, after the last of the `num_conns` combinations, all is traversed and they begin again.
  pub get_next_conns-Ticks :
      (m : ConnectionMatrix Connection)
      → IsValid m.product m.itrs
      → m.traversed_all ≡ false
      → (conns : List Connection) × (m' : ConnectionMatrix Connection) × (get_next_conns m
          ≡ some (conns, m'))
        × (deref m.product m.itrs ≡ some conns)
        × (m'.product ≡ m.product)
        × Ticks m.product m.itrs (m'.itrs, m'.traversed_all)
  unfolding get_next_conns
  get_next_conns-Ticks m v e =
      let (conns, d) = deref-total m.product m.itrs v in
      let next = advance m.product m.itrs in
      (
        conns,
        record m { itrs = next.0; traversed_all = next.1 },
        rw (e, d) refl,
        d,
        refl,
        advance-Ticks m.product m.itrs v,
      )
