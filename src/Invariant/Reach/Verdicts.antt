-- ===== src/Invariant/Reach/Verdicts.antt =====
-- src/invariant/reachability.cpp: when the check reports a violation.
use neo.Base.{
  ℕ, zero, suc, Bool, true, false, not, ◌==◌, ◌≡◌, ◌≢◌, refl, ◌⊎◌, inl, inr, arith, ◌<◌, Bool-cases,
  subst,
}
use neo.Model.{Node, State, current}
use neo.Process.ChooseConn.{is_dropped}
use neo.Invariant.Reach.{
  request_is_accepted, other_executable, other_executable_conns_exist, differs, reachability,
}

none_executable :
    (n : ℕ) (s : State)
    → other_executable n s ≡ false
    → (i : ℕ) → i < n
    → i ≢ s.conn
    → (s.conn_state i).executable ≡ 0
unfolding other_executable
none_executable zero s h i l d = ground arith
none_executable (suc n) s h i l d = elim (Bool-cases (i == n)) [
  | inl e ↦
      let q : n ≡ i = ground arith in subst (λ j. (s.conn_state j).executable ≡ 0) q (ground arith)
  | inr e ↦ none_executable n s (ground arith) i (ground arith) d
]

-- A path that has not ended before the check ends at it without reaching a target.
abbrev pub Missed : (Node → Bool) → State → Type 0
Missed targets s =
    ((request_is_accepted (current s) ≡ true) × (targets (current s).rx_node ≡ false)
      ⊎ (is_dropped (current s).fwd_mode ≡ true))
    × ((i : ℕ) → i < s.num_conns → i ≢ s.conn → (s.conn_state i).executable ≡ 0)

differs-true : (b : Bool) → differs b true ≡ not b
differs-true true = refl
differs-true false = refl

differs-false : (b : Bool) → differs b false ≡ b
differs-false true = refl
differs-false false = refl

-- A path that goes on before the check and has ended after it: either a target has accepted the
-- request, and the path is violated exactly if the targets should not be reached; or the packet is
-- dropped or accepted elsewhere, no other connection can execute, and the path is violated exactly
-- if the targets should be reached.
pub reachability-verdict :
    (reachable : Bool) (targets : Node → Bool) (s : State)
    → s.choice_count ≢ 0
    → (reachability reachable targets s).choice_count ≡ 0
    → ((request_is_accepted (current s) ≡ true)
        × (targets (current s).rx_node ≡ true)
        × ((reachability reachable targets s).violated ≡ not reachable))
      ⊎ (Missed targets s × ((reachability reachable targets s).violated ≡ reachable))
unfolding reachability
reachability-verdict reachable targets s h k =
    let r = request_is_accepted (current s) in
    let g = targets (current s).rx_node in
    let d = is_dropped (current s).fwd_mode in
    let o = other_executable_conns_exist s in
    let left : o ≡ false
        → (i : ℕ) → i < s.num_conns
        → i ≢ s.conn
        → (s.conn_state i).executable ≡ 0 =
      none_executable s.num_conns s in
    let stays : reachability reachable targets s ≡ s → ⊥ =
      λ e. h (subst (λ t. t.choice_count ≡ 0) e k) in
    elim (Bool-cases r) [
      | inl a ↦ elim (Bool-cases g) [
        | inl b ↦ inl (a, b, (rw (a, b) (differs-true reachable)))
        | inr b ↦ elim (Bool-cases o) [
          | inl c ↦ absurd (stays (rw (a, b, c) refl))
          | inr c ↦ inr ((inl (a, b), left c), rw (a, b, c) (differs-false reachable))
        ]
      ]
      | inr a ↦ elim (Bool-cases d) [
        | inl b ↦ elim (Bool-cases o) [
          | inl c ↦ absurd (stays (rw (a, b, c) refl))
          | inr c ↦ inr ((inr b, left c), rw (a, b, c) (differs-false reachable))
        ]
        | inr b ↦ absurd (stays (rw (a, b) refl))
      ]
    ]
