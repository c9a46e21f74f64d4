-- ===== src/Config/Text.antt =====
-- src/configparser.cpp: what is read from the tables, and the texts in them.
-- A table is a record of its keys. A key that is missing, or that has a value of another type, is
-- `none`, as `get_as` gives it. An array that is missing has no elements, and its elements have the type
-- that the code expects.
use Prim.Native.String.{String}
use neo.Base.{ℕ, Bool, Option, none, some, ltb, if◌then◌else◌, ◌%◌, ◌-◌}
use neo.Base.Int.{ℤ, pos, negsuc}
use neo.Ip.Address.{IPv4Address}
use neo.Ip.Network.{IpInterface}
use neo.Ec.Range.{EcRange}

-- The constructors from a text, which read it with the C library, and its other functions of texts.
-- `none` is a logged error. A text that is matched against is taken to be a regular expression.
pub record Text : Type 0 where
  pub address : String → Option IPv4Address
  pub interface : String → Option IpInterface
  pub network : String → Option IpInterface
  pub range : String → Option EcRange
  pub has_slash : String → Bool
  pub tolower : String → String
  pub regex_match : String → String → Bool

-- An int64_t that is kept in a uint16_t.
abbrev pub to_u16 : ℤ → ℕ
to_u16 (pos n) = n % 65536
to_u16 (negsuc n) = 65535 - n % 65536

-- A value from `lo` to `hi`; any other one is a logged error.
abbrev pub in_range : ℕ → ℕ → ℤ → Option ℕ
in_range lo hi (negsuc n) = none
in_range lo hi (pos n) = if ltb n lo then none else if ltb hi n then none else some n
