-- ===== src/Lib.antt =====
-- Verification of neo, a network verifier: its core data structures, the steps of its network model
-- and its invariants, modelled from the C++ sources.
--
-- The program reads a network, splits the destination addresses into equivalence classes, and for
-- each class explores, in a model run by Spin, the steps that packets of the given connections take.
-- After every step the invariant under check looks at the state and may end the path with a verdict.
--
-- Parts and files (paths from the repository's root):
--   Base            shared names, Boolean tests, lists, bits, blocks of addresses, partial code
--   Ip              src/lib/ip.hpp, src/lib/ip.cpp: IPv4Address (Ip.Address), IPInterface and IPNetwork
--                   (Ip.Network), IPRange (Ip.Range)
--   Ec              src/ecrange.cpp (Ec.Range, and Ec.RangeSet for std::set<ECRange>), src/eqclass.cpp
--                   (Ec.Class), src/eqclassmgr.cpp (Ec.Mgr: split_intersected_ec; Ec.Mgr.Add: add_ec and
--                   find_ec; Ec.Initial: compute_initial_ecs)
--   Routing         src/route.cpp (Routing.Route), src/routingtable.cpp (Routing.Table)
--   Proto           src/protocols.hpp
--   Model           src/model-access.cpp, src/network.pml: the state of the network model
--   Objects, Payload, Packet
--                   the pointers to nodes and interfaces, src/payload.cpp, src/packet.cpp
--   Net             src/lib/net.cpp: the control flags (Net.Flags), convert_proto_state and
--                   process_proto_state (Net.Convert), identify_conn (Net.Identify), check_seq_ack
--                   (Net.Numbers), reassemble_segments (Net.Segments), deserialize (Net.Wire)
--   Topology        src/node.cpp and src/interface.cpp (Topology.Nodes; Topology.Hops: get_ipnhs and
--                   get_ipnh), src/fib.cpp (Topology.Fib), src/l2-lan.cpp (Topology.Lan), src/link.cpp
--                   and src/network.cpp (Topology.Links)
--   Process         src/process/forwarding.cpp (Process.Forwarding; Process.Injection: inject_packet
--                   and update_model_from_injection_result, with src/injection-cache.cpp and the
--                   histories of src/pkt-hist.cpp; Process.Numbers: the sequence numbers),
--                   src/payloadmgr.cpp (Process.Payloads),
--                   src/process/openflow.cpp with Model::update_fib (Process.Openflow),
--                   src/process/choose_conn.cpp (Process.ChooseConn), check_to_switch_process of
--                   src/plankton.cpp (Process.Switch)
--   Invariant       src/invariant: reachability, reply-reachability and waypoint (Invariant.Reach),
--                   one-request with src/reachcounts.cpp (Invariant.Counts), loop (Invariant.Loop),
--                   conditional and consistency (Invariant.Correlated), set_conns of
--                   src/invariant/invariant.cpp (Invariant.Combos)
--   Conn            src/conn.cpp and the start of src/invariant/invariant.cpp (Conn.Connection),
--                   src/connspec.cpp (Conn.Spec), src/connmatrix.cpp (Conn.Matrix)
--   Plankton        src/plankton.cpp: initialize, reinit and exec_step (Plankton.Step), with the
--                   invariants as objects (Plankton.Checks); run, verify_invariant and the handler
--                   of the signals (Plankton.Tasks)
--   Emulation       src/pkt-hist.cpp (Emulation.History), src/emulation.cpp and src/middlebox.cpp
--                   (Emulation.Emu): which packets the device of a middlebox has received
--   Config          src/configparser.cpp: interfaces, routes and nodes (Config.Nodes), links and
--                   OpenFlow updates (Config.Links), connections (Config.Conns), invariants
--                   (Config.Invs); a table of the file is a record of optional keys, and what the
--                   file's texts stand for is the record of Config.Text
-- The Tests module of each part runs its theorems at concrete values. The classes use the ranges of
-- Ip, the routes use the networks and the classes, and the processes and invariants share the state
-- of Model. What the processes ask of the network, the classes and the middleboxes is the record of
-- Process.Interface; Topology and Ec have the operations that it stands for.
--
-- Conventions:
--   * A logged error throws and is `none`, as are a failed assertion, an exception of `at` and
--     undefined behaviour. A warning or an info line has no effect.
--   * Addresses are natural numbers below 2^32, and every 32-bit sum and difference is taken modulo
--     2^32. A difference of addresses that the code keeps in an int follows two's complement.
--   * Objects are named by numbers, and 0 is the null pointer. The manager keeps its classes in an
--     association list, and `next` is the pointer that the next `new` returns. A std::set of pointers
--     is iterated in the order of insertion.
--   * std::set<ECRange> is a list in ascending order, whose elements count as equal when they overlap.
--     std::multiset<Route> is a list in the order of the routes.
--   * The stored pointers of the network model are modelled by the values they point to, since the
--     unique storage keeps one object for each value. The array of connections is a function of the
--     index; an index is taken to be below MAX_CONNS, and the flag executable to be at most 2.
--   * Most loops are structural recursion. `rm_range` repeats `erase` on fuel: one round more than there
--     are ranges, and every round but the last erases a range. `get_ipnhs` and `collect_intfs` recurse
--     on fuel that bounds the depth: two calls more than the table has routes, as every call in between
--     looks up a new next hop of the table; and one more than the network has switchports, as every
--     call collects one before it calls itself.
--   * The steps of Plankton.Tasks are those between which a signal can come: each test, fork,
--     insertion and pause is one. The operating system is in the state as the list of the children, and a
--     signal carries what waitpid returns.
--   * The injection cache is a global of the program; it stands in the state beside the variables of
--     the network model.
--
-- Not modelled: what a middlebox answers to an injected packet (`send_pkt` of Process.Interface), with
-- the containers, drivers, threads and offsets of its emulation, and the manager that shares emulations
-- among the middleboxes; serialisation by libnet; std::to_string, an argument where a payload is made;
-- parsing of text by sscanf, regular expressions and the TOML library, which are arguments; the
-- options of containers in the configuration; the C library's log2, an argument of
-- `network_of_range`; the dispersion index of the load balance invariant, which is computed in floating
-- point and is an argument of its check; the random ports, a list of draws; drop detection,
-- statistics and logging, which are I/O.
pub mod Base
pub mod Ip
pub mod Ec
pub mod Routing
pub mod Proto
pub mod Objects
pub mod Payload
pub mod Packet
pub mod Model
pub mod Net
pub mod Topology
pub mod Process
pub mod Invariant
pub mod Conn
pub mod Plankton
pub mod Emulation
pub mod Config
