-- ===== src/Invariant/Combos.antt =====
-- src/invariant/invariant.cpp: the combinations of connections that an invariant is checked for.
pub mod Ticks
use neo.Base.{
  ℕ, Bool, true, false, not, List, [], ◌∷◌, Option, none, some, length, if◌then◌else◌, ◌==◌, ◌*◌,
}
use neo.Base.Partial.{◌>>=◌, guard}
use neo.Ec.Mgr.{EqClassMgr}
use neo.Conn.Connection.{Connection}
use neo.Conn.Spec.{ConnSpec, update_inv_ecs, compute_connections}
use neo.Conn.Matrix.{ConnectionMatrix, num_conns, clear, reset, add, get_next_conns}

-- An invariant without sub-invariants.
pub record Simple : Type 0 where
  pub conn_specs : List ConnSpec
  pub conn_matrix : ConnectionMatrix Connection
  pub conns : List Connection

-- An invariant has its own matrix, or those of its sub-invariants.
pub data Source : Type 0 where
  own : Simple → Source
  correlated : List Simple → Source

abbrev product : List Simple → ℕ
product [] = 1
product (p ∷ ps) = num_conns p.conn_matrix * product ps

unfoldable pub num_conn_ecs : Source → ℕ
num_conn_ecs (own i) = num_conns i.conn_matrix
num_conn_ecs (correlated ps) = product ps

-- The classes are split by the destinations of the specifications.
unfoldable pub update_all : List ConnSpec → EqClassMgr → Option EqClassMgr
update_all [] m = some m
update_all (c ∷ cs) m = update_inv_ecs c m >>= λ m1. update_all cs m1

-- The first specification of each sub-invariant; `none` where there is none.
abbrev first_spec : Simple → Option ConnSpec
first_spec p = elim p.conn_specs [ [] ↦ none | c ∷ cs ↦ some c ]

abbrev first_specs : List Simple → Option (List ConnSpec)
first_specs [] = some []
first_specs (p ∷ ps) = first_spec p >>= λ c. first_specs ps >>= λ cs. some (c ∷ cs)

abbrev gather :
    List ConnSpec → EqClassMgr → ConnectionMatrix Connection → ConnectionMatrix Connection
gather [] m x = x
gather (c ∷ cs) m x = gather cs m (add (compute_connections c m) x)

abbrev gather_first : EqClassMgr → Simple → Option Simple
gather_first m p =
    first_spec p >>= λ c. some (record p { conn_matrix = add (compute_connections c m) clear })

abbrev gather_each : EqClassMgr → List Simple → Option (List Simple)
gather_each m [] = some []
gather_each m (p ∷ ps) = gather_first m p >>= λ q. gather_each m ps >>= λ qs. some (q ∷ qs)

unfoldable pub compute_conn_matrix : Source → EqClassMgr → Option (Source × EqClassMgr)
unfolding update_all
compute_conn_matrix (own i) m = update_all i.conn_specs m >>= λ m1.
    some (own (record i { conn_matrix = gather i.conn_specs m1 clear }), m1)
compute_conn_matrix (correlated ps) m = first_specs ps >>= λ cs.
    update_all cs m >>= λ m1. gather_each m1 ps >>= λ qs. some (correlated qs, m1)

abbrev is_empty : List Connection → Bool
is_empty [] = true
is_empty (c ∷ cs) = false

-- The next combination of an invariant without sub-invariants, and whether there is one.
unfoldable pub set_own : Simple → Option (Bool × Simple)
unfolding get_next_conns
set_own p = get_next_conns p.conn_matrix >>= λ r.
    some (not (is_empty r.0), record p { conns = r.0; conn_matrix = r.1 })

-- The loop over the sub-invariants: the first one with a next combination takes it, and those before
-- it begin again.
unfoldable pub set_first : List Simple → Option (Bool × List Simple)
unfolding set_own
set_first [] = some (false, [])
set_first (p ∷ ps) =
    let rest = set_first ps in
    set_own p >>= λ r.
    let taken = guard (length r.1.conns == 1) >>= λ _. some (true, r.1 ∷ ps) in
    let carried =
      rest >>= λ q. some (q.0, record r.1 { conn_matrix = reset r.1.conn_matrix } ∷ q.1) in
    if r.0 then taken else carried

unfoldable pub set_conns : Source → Option (Bool × Source)
unfolding set_own set_first
set_conns (own i) = set_own i >>= λ r. some (r.0, own r.1)
set_conns (correlated ps) = set_first ps >>= λ r. some (r.0, correlated r.1)
