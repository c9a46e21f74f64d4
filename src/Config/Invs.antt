-- ===== src/Config/Invs.antt =====
-- src/configparser.cpp: `parse_inv_array` and the functions that it calls for the invariants.
pub mod Sizes
use Prim.Native.String.{String}
use text.Mathlib.Text.{◌==◌ as str_eq}
use neo.Base.{
  ℕ, Bool, true, false, List, [], ◌∷◌, Option, none, some, length, elem, leb, ◌==◌, if◌then◌else◌,
  Named,
}
use neo.Base.Partial.{◌>>=◌, guard}
use neo.Objects.{Node}
use neo.Conn.Spec.{ConnSpec}
use neo.Invariant.Counts.{ReachCounts}
use neo.Plankton.Checks.{
  Kind, reachability_inv, reply_reachability_inv, waypoint_inv, loop_inv, one_request_inv,
  loadbalance_inv,
}
use neo.Config.Text.{Text}
use neo.Config.Conns.{ConnConfig, matching, parse_connections}

-- The keys of an invariant without sub-invariants.
pub record SingleConfig : Type 0 where
  pub type_name : Option String
  pub target_node : Option String
  pub reachable : Option Bool
  pub pass_through : Option Bool
  pub connections : Option (List ConnConfig)

-- Sub-invariants have none of their own.
pub record InvConfig : Type 0 where
  pub keys : SingleConfig
  pub correlated_invariants : Option (List SingleConfig)

pub record ParsedSingle : Type 0 where
  pub kind : Kind
  pub conn_specs : List ConnSpec

pub data Parsed : Type 0 where
  single : ParsedSingle → Parsed
  conditional_inv : List ParsedSingle → Parsed
  consistency_inv : List ParsedSingle → Parsed

-- The test of the largest dispersion index is made with floating-point numbers.
module _ (text : Text) (nodes : List (Named Node)) (max_conns : ℕ)
    (disperses : SingleConfig → ReachCounts → Bool) where
  abbrev pub targets : String → Node → Bool
  targets regex n = elem n (matching text nodes regex nodes)

  abbrev pub specs_of : SingleConfig → Option (List ConnSpec)
  specs_of c = c.connections >>= λ cs. parse_connections text nodes cs

  -- One specification, or at least one.
  abbrev pub with_one : SingleConfig → Kind → Option ParsedSingle
  with_one c k = specs_of c >>= λ specs.
      guard (length specs == 1) >>= λ _. some (record { kind = k; conn_specs = specs })

  abbrev pub with_some : SingleConfig → Kind → Option ParsedSingle
  with_some c k = specs_of c >>= λ specs.
      guard (leb 1 (length specs)) >>= λ _. some (record { kind = k; conn_specs = specs })

  unfoldable pub parse_reachability : SingleConfig → Option ParsedSingle
  unfolding matching
  parse_reachability c = c.target_node >>= λ regex.
      c.reachable >>= λ b. with_one c (reachability_inv (targets regex) b)

  unfoldable pub parse_replyreachability : SingleConfig → Option ParsedSingle
  unfolding matching
  parse_replyreachability c = c.target_node >>= λ regex.
      c.reachable >>= λ b. with_one c (reply_reachability_inv (targets regex) b)

  unfoldable pub parse_waypoint : SingleConfig → Option ParsedSingle
  unfolding matching
  parse_waypoint c =
      c.target_node >>= λ regex. c.pass_through >>= λ b. with_one c (waypoint_inv (targets regex) b)

  unfoldable pub parse_loop : SingleConfig → Option ParsedSingle
  parse_loop c = with_one c loop_inv

  unfoldable pub parse_onerequest : SingleConfig → Option ParsedSingle
  unfolding matching
  parse_onerequest c = c.target_node >>= λ regex. with_some c (one_request_inv (targets regex))

  unfoldable pub parse_loadbalance : SingleConfig → Option ParsedSingle
  unfolding matching
  parse_loadbalance c =
      c.target_node >>= λ regex. with_some c (loadbalance_inv (targets regex) (disperses c))

  -- The branches that serve correlated invariants, too; `none` is another type or an error.
  abbrev pub parse_basic : String → SingleConfig → Option ParsedSingle
  parse_basic t c =
      if str_eq t "reachability"
      then parse_reachability c
      else if str_eq t "reply-reachability"
      then parse_replyreachability c
      else if str_eq t "waypoint"
      then parse_waypoint c
      else if str_eq t "loop"
      then parse_loop c
      else none

  abbrev pub is_basic : String → Bool
  is_basic t =
      if str_eq t "reachability"
      then true
      else if str_eq t "reply-reachability"
      then true
      else if str_eq t "waypoint"
      then true
      else str_eq t "loop"

  -- `parse_inv_array` with `correlated`.
  unfoldable pub parse_correlated : List SingleConfig → Option (List ParsedSingle)
  unfolding parse_reachability parse_replyreachability parse_waypoint parse_loop
  parse_correlated [] = some []
  parse_correlated (c ∷ cs) = c.type_name >>= λ t. parse_basic t c >>= λ i.
      guard (leb (length i.conn_specs) max_conns) >>= λ _.
      parse_correlated cs >>= λ rest. some (i ∷ rest)

  abbrev pub parse_subs : InvConfig → Option (List ParsedSingle)
  parse_subs c = c.correlated_invariants >>= parse_correlated

  abbrev pub bounded : ParsedSingle → Option Parsed
  bounded i = guard (leb (length i.conn_specs) max_conns) >>= λ _. some (single i)

  unfoldable pub parse_inv : InvConfig → Option Parsed
  unfolding parse_correlated parse_onerequest parse_loadbalance
  parse_inv c = c.keys.type_name >>= λ t.
      if is_basic t
      then (parse_basic t c.keys >>= bounded)
      else if str_eq t "one-request"
      then (parse_onerequest c.keys >>= bounded)
      else if str_eq t "loadbalance"
      then (parse_loadbalance c.keys >>= bounded)
      else if str_eq t "conditional"
      then (parse_subs c >>= λ subs. some (conditional_inv subs))
      else if str_eq t "consistency"
      then (parse_subs c >>= λ subs. some (consistency_inv subs))
      else none

  unfoldable pub parse_invariants : List InvConfig → Option (List Parsed)
  unfolding parse_inv
  parse_invariants [] = some []
  parse_invariants (c ∷ cs) = parse_inv c >>= λ i. parse_invariants cs >>= λ rest. some (i ∷ rest)
