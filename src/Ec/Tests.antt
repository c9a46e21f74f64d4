-- ===== src/Ec/Tests.antt =====
-- Runs of the theorems on the manager of the classes at concrete values.
use neo.Base.{◌≡◌, refl, inl, true, false, [], ◌∷◌, some, arith}
use neo.Ec.Range.{EcRange, EcPtr}
use neo.Ec.RangeSet.{owner}
use neo.Ec.RangeSet.Parts.{of_class}
use neo.Ec.Mgr.{EqClassMgr, init, deref}
use neo.Ip.Network.{broadcast_addr}
use neo.Topology.{NodeInfo}
use neo.Ec.Range.{of_network}
use neo.Ec.Initial.{MiddleboxEcs, other_port, compute_initial_ecs}
use neo.Ec.Initial.Partition.{initial_ranges, Partitions, compute_initial_ecs-Partitions}
use neo.Ec.Mgr.Add.{add_ec, find_ec, add_non_overlapped_ec}
use neo.Ec.Mgr.Inv.{IsValid}
use neo.Ec.Mgr.AddEc.{Separates, add_ec-Separates, find_ec-owner}
use neo.Ec.Mgr.Wrap.{add_non_overlapped_ec_again}

-- One class, of the last addresses.
abbrev top_range : EcRange
top_range = record { lb = 100; ub = 4294967295; ec = 1 }

abbrev one_class : EqClassMgr
one_class = record {
  allranges = top_range ∷ [];
  all_ecs = (1, top_range ∷ []) ∷ [];
  owned_ecs = [];
  ports = [];
  next = 2;
}

one_class-classes : (e : EcPtr) → deref e one_class.all_ecs ≡ of_class e one_class.allranges
unfolding deref
one_class-classes e = ground arith

abbrev one_class_valid : IsValid one_class
one_class_valid = record {
  ascends = (omega arith, omega arith, tt);
  bounded = (omega arith, omega arith, tt);
  keys = (omega arith, tt);
  classes = one_class-classes;
}

apart : false ≡ true → ⊥
apart h = ground arith

-- A range that meets the class and is met by nothing else.
abbrev middle : EcRange
middle = record { lb = 50; ub = 150; ec = 0 }

add_ec-Separates_example :
    (m' : EqClassMgr) × (add_ec middle false one_class ≡ some m') × Separates middle one_class m'
add_ec-Separates_example =
    add_ec-Separates one_class middle false one_class_valid
      (record { ordered = omega arith; bound = omega arith }) (λ h. absurd (apart h))

find_ec-owner_example : find_ec 200 one_class ≡ owner 200 one_class.allranges
find_ec-owner_example = find_ec-owner one_class 200

add_non_overlapped_ec_again_example :
    (m' : EqClassMgr) × (add_non_overlapped_ec top_range false one_class ≡ some m')
    × (deref 2 m'.all_ecs ≡ record { lb = 0; ub = 4294967295; ec = 2 } ∷ [])
    × (m'.allranges ≡ one_class.allranges)
    × (¬ IsValid m')
add_non_overlapped_ec_again_example =
    add_non_overlapped_ec_again one_class top_range false one_class_valid (inl refl) refl

-- A node with an address and a route, and a middlebox that names a port.
abbrev one_node : NodeInfo
one_node = record {
  name = "n";
  intfs = [];
  intfs_l3 = record { key = 9; value = 1 } ∷ [];
  intfs_l2 = [];
  rib =
      record {
        network = record { value = 8; prefix = 30 };
        next_hop = 0;
        egress_intf = "e";
        adm_dist = 1;
      }
      ∷ [];
  l2_peers = [];
  l2_lans = [];
}

abbrev one_middlebox : MiddleboxEcs
one_middlebox = record { ec_ip_prefixes = []; ec_ip_addrs = 7 ∷ []; ec_ports = 80 ∷ [] }

compute_initial_ecs-Partitions_example :
    (m : EqClassMgr) × (compute_initial_ecs
        (one_node ∷ [])
        []
        (one_middlebox ∷ [])
        (80 ∷ 443 ∷ [])
        init
      ≡ some m)
    × Partitions (initial_ranges (one_node ∷ []) [] (one_middlebox ∷ [])) m
    × (m.ports ≡ 80 ∷ 443 ∷ [])
unfolding other_port of_network broadcast_addr
compute_initial_ecs-Partitions_example =
    compute_initial_ecs-Partitions (one_node ∷ []) [] (one_middlebox ∷ []) (80 ∷ 443 ∷ []) 443
      (
        (
          (omega arith, tt),
          (
            record {
              valid = record { value_bound = omega arith; prefix_bound = omega arith };
              aligned = omega arith;
            },
            tt,
          ),
        ),
        tt,
      )
      tt ((tt, (omega arith, tt)), tt) (omega arith) refl
