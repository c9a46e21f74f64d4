-- ===== src/Ip/Address.antt =====
-- src/lib/ip.cpp: the class IPv4Address, a wrapper of one uint32_t.
pub mod Octets
use neo.Base.{
  ℕ, zero, suc, ◌+◌, ◌-◌, ◌*◌, ◌/◌, ◌%◌, ◌^◌, ◌≤◌, ◌<◌, bit_and, bit_or, Bool, true, false, not,
  List, [], ◌∷◌, Option, none, some, ltb, leb, ◌==◌, if◌then◌else◌,
}
use neo.Base.Int.{ℤ, pos, negsuc}

-- The stored `value`.
abbrev pub IPv4Address : Type 0
IPv4Address = ℕ

abbrev pub u32_mod : ℕ
u32_mod = 2 ^ 32

-- `length()`: the bits of an address.
abbrev pub length : ℕ
length = 32

-- `operator+` and `operator+=`.
unfoldable pub add : IPv4Address → IPv4Address → IPv4Address
add a b = (a + b) % u32_mod

-- `operator-=`, and the bit pattern of the int that `operator-` returns.
unfoldable pub sub : IPv4Address → IPv4Address → ℕ
sub a b = (a + u32_mod - b) % u32_mod

-- `operator&` and `operator|`.
unfoldable pub and_mask : IPv4Address → ℕ → ℕ
and_mask a b = bit_and a b

unfoldable pub or_mask : IPv4Address → ℕ → ℕ
or_mask a b = bit_or a b

-- The loop of the constructor over the four ints that `sscanf` stored, after the address so far.
unfoldable pub from_octets : IPv4Address → List ℤ → Option IPv4Address
from_octets value [] = some value
from_octets value (negsuc n ∷ octs) = none
from_octets value (pos n ∷ octs) =
    let rest = from_octets ((value * 2 ^ 8 % u32_mod + n) % u32_mod) octs in
    if ltb 255 n then none else rest

-- The four numbers that `to_string` prints between dots.
unfoldable pub to_octets : IPv4Address → List ℤ
to_octets value =
    pos (bit_and (value / 2 ^ 24) 255)
    ∷ pos (bit_and (value / 2 ^ 16) 255)
    ∷ pos (bit_and (value / 2 ^ 8) 255)
    ∷ pos (bit_and value 255)
    ∷ []
