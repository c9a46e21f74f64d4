-- ===== src/Objects.antt =====
-- The objects of the network that other parts only name: src/node.hpp, src/interface.hpp.
use neo.Base.{ℕ}

-- An object is named by its address, and the null pointer is 0.
abbrev pub Node : Type 0
Node = ℕ

abbrev pub Interface : Type 0
Interface = ℕ
