-- ===== src/Ip/Address/Octets.antt =====
-- src/lib/ip.cpp: printing an address and reading it back.
use neo.Base.{ℕ, ◌/◌, ◌%◌, ◌^◌, ◌<◌, bit_and, ◌≡◌, some, arith}
use neo.Base.Bits.{bit_and-ones}
use neo.Ip.Address.{IPv4Address, u32_mod, from_octets, to_octets}

bit_and_byte : (a : ℕ) → bit_and a 255 ≡ a % 256
bit_and_byte a = bit_and-ones 8 a

-- An address that is printed as four octets is read back as the same address.
pub from_octets-to_octets : (a : IPv4Address) → a < u32_mod → from_octets 0 (to_octets a) ≡ some a
unfolding from_octets to_octets
from_octets-to_octets a h = ground (
  arith,
  bit_and_byte a,
  bit_and_byte (a / 2 ^ 8),
  bit_and_byte (a / 2 ^ 16),
  bit_and_byte (a / 2 ^ 24),
)
