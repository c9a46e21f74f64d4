-- ===== src/Process/ChooseConn/Progress.antt =====
-- src/process/choose_conn.cpp: every choice that is offered can be taken.
use neo.Base.{
  ℕ, zero, suc, Bool, true, false, not, ◌&&◌, ◌==◌, List, [], ◌∷◌, ◌++◌, some, get_elem?, length,
  if◌then◌else◌, ◌≡◌, refl, ◌<◌, All, All-append, arith, Bool-cases, inl, inr, subst, sym, ap,
}
use neo.Model.{State, set_executable, set_conn}
use neo.Process.ChooseConn.{
  is_over, conn_row, conn_map, choice_count_of, drop_unless_over, update_choice_count, choose_from,
  count_choices, exec_step,
}
use neo.Base.Partial.{guard, >>=-eq-some}
use neo.Process.Injection.Kept.{some-inj}

-- A connection of the model that is not over.
abbrev pub Live : State → ℕ → Type 0
Live s i = (i < s.num_conns) × (is_over (s.conn_state i) ≡ false)

abbrev Row : State → ℕ → ℕ → Type 0
Row s n i = (i < n) × (is_over (s.conn_state i) ≡ false)

wider : (s : State) (n : ℕ) (xs : List ℕ) → All (Row s n) xs → All (Row s (suc n)) xs
wider s n [] h = tt
wider s n (x ∷ xs) h = ((omega (arith, h.0.0), h.0.1), wider s n xs h.1)

not-over : (a b : Bool) → (not a && b) ≡ true → a ≡ false
not-over a b h = ground arith

conn_row-Row : (e n : ℕ) (s : State) → All (Row s n) (conn_row e n s)
unfolding conn_row
conn_row-Row e zero s = tt
conn_row-Row e (suc n) s =
    elim (Bool-cases (not (is_over (s.conn_state n)) && (s.conn_state n).executable == e)) [
      | inl q ↦
          subst (All (Row s (suc n)))
            (sym (ap (λ b. if b then conn_row e n s ++ (n ∷ []) else conn_row e n s) q))
            (All-append (Row s (suc n)) (conn_row e n s) (n ∷ [])
              (wider s n (conn_row e n s) (conn_row-Row e n s))
              (
                (
                  omega arith,
                  not-over (is_over (s.conn_state n)) ((s.conn_state n).executable == e) q,
                ),
                tt,
              ))
      | inr q ↦
          subst (All (Row s (suc n)))
            (sym (ap (λ b. if b then conn_row e n s ++ (n ∷ []) else conn_row e n s) q))
            (wider s n (conn_row e n s) (conn_row-Row e n s))
    ]

All-get {ℓ κ} :
    {A : Type ℓ} (P : A → Type κ) (xs : List A) (i : ℕ)
    → All P xs
    → i < length xs
    → (x : A) × (get_elem? xs i ≡ some x) × P x
All-get P [] i h l = absurd (ground arith)
All-get P (x ∷ xs) zero h l = (x, refl, h.0)
All-get P (x ∷ xs) (suc i) h l = All-get P xs i h.1 (omega (arith, l))

drop-conn : (s : State) → (drop_unless_over s).conn ≡ s.conn
drop-conn s = ground arith

choose_from-Live :
    (xs ys zs : List ℕ) (s : State)
    → All (Live s) xs
    → All (Live s) ys
    → All (Live s) zs
    → s.choice < choice_count_of xs ys zs
    → (t : State) × (choose_from xs ys zs s ≡ some t) × Live s t.conn
choose_from-Live (x ∷ xs) ys zs s hx hy hz l =
    let z : s.choice ≡ 0 = omega (arith, l) in (set_conn x s, rw z refl, hx.0)
choose_from-Live [] (y ∷ ys) zs s hx hy hz l =
    let (c, e, p) = All-get (Live s) (y ∷ ys) s.choice hy l in
    (set_executable 2 (set_conn c s), rw e refl, p)
choose_from-Live [] [] (z ∷ zs) s hx hy hz l =
    let q : s.choice ≡ 0 = omega (arith, l) in
    (
      drop_unless_over (set_conn z s),
      rw q refl,
      subst (Live s) (sym (drop-conn (set_conn z s))) hz.0,
    )
choose_from-Live [] [] [] s hx hy hz l = absurd (ground arith)

-- Every choice below the choice count that `update_choice_count` sets can be taken, and the chosen
-- connection is one of the model's that is neither dropped nor terminated.
pub choose_from-progress :
    (s : State)
    → s.choice < (update_choice_count s).choice_count
    → (t : State) × (choose_from (conn_map 2 s) (conn_map 1 s) (conn_map 0 s) s ≡ some t)
      × (t.conn < s.num_conns)
      × (is_over (s.conn_state t.conn) ≡ false)
unfolding update_choice_count
choose_from-progress s l =
    let (t, e, p) =
      choose_from-Live (conn_map 2 s) (conn_map 1 s) (conn_map 0 s) s (conn_row-Row 2 s.num_conns s)
        (conn_row-Row 1 s.num_conns s) (conn_row-Row 0 s.num_conns s) l in
    (t, e, p.0, p.1)

All-get_elem? {ℓ κ} :
    {A : Type ℓ} (P : A → Type κ) (xs : List A) (i : ℕ) (x : A)
    → All P xs
    → get_elem? xs i ≡ some x
    → P x
All-get_elem? P [] i x h e = absurd (ground arith)
All-get_elem? P (y ∷ ys) zero x h e = subst P (some-inj y x e) h.0
All-get_elem? P (y ∷ ys) (suc i) x h e = All-get_elem? P ys i x h.1 e

-- A connection of the model is current, and the counts are as they were.
abbrev pub Chooses : State → State → Type 0
Chooses s t =
    (t.conn < s.num_conns)
    × (t.num_conns ≡ s.num_conns)
    × (t.correlated_inv_idx ≡ s.correlated_inv_idx)

drop_unless_over-Chooses :
    (z : ℕ) (s : State) → z < s.num_conns → Chooses s (drop_unless_over (set_conn z s))
drop_unless_over-Chooses z s l = ground arith

choose_from-Chooses :
    (xs ys zs : List ℕ) (s t : State)
    → All (Live s) xs
    → All (Live s) ys
    → All (Live s) zs
    → choose_from xs ys zs s ≡ some t
    → Chooses s t
choose_from-Chooses (x ∷ xs) ys zs s t hx hy hz e =
    let (_, _, f) = >>=-eq-some (guard (s.choice == 0)) _ e in
    subst (Chooses s) (some-inj (set_conn x s) t f) (hx.0.0, refl, refl)
choose_from-Chooses [] (y ∷ ys) zs s t hx hy hz e =
    let (c, g, f) = >>=-eq-some (get_elem? (y ∷ ys) s.choice) _ e in
    subst (Chooses s) (some-inj (set_executable 2 (set_conn c s)) t f)
      ((All-get_elem? (Live s) (y ∷ ys) s.choice c hy g).0, refl, refl)
choose_from-Chooses [] [] (z ∷ zs) s t hx hy hz e =
    let (_, _, f) = >>=-eq-some (guard (s.choice == 0)) _ e in
    subst (Chooses s) (some-inj (drop_unless_over (set_conn z s)) t f)
      (drop_unless_over-Chooses z s hz.0.0)
choose_from-Chooses [] [] [] s t hx hy hz e = absurd (ground arith)

count_choices-Chooses : (s t u : State) → Chooses s t → count_choices t ≡ some u → Chooses s u
count_choices-Chooses s t u h e = ground arith

-- A step of the process makes a connection of the model current.
pub exec_step-Chooses : (s t : State) → exec_step s ≡ some t → Chooses s t
unfolding exec_step
exec_step-Chooses s t e =
    let (u, f, g) = >>=-eq-some (choose_from (conn_map 2 s) (conn_map 1 s) (conn_map 0 s) s) _ e in
    count_choices-Chooses s u t
      (choose_from-Chooses (conn_map 2 s) (conn_map 1 s) (conn_map 0 s) s u
        (conn_row-Row 2 s.num_conns s) (conn_row-Row 1 s.num_conns s) (conn_row-Row 0 s.num_conns s)
        f)
      g
