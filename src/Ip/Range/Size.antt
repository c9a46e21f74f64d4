-- ===== src/Ip/Range/Size.antt =====
-- src/lib/ip.hpp: for which ranges `IPRange::size` counts the addresses.
use neo.Base.{◌+◌, ◌-◌, ◌^◌, ◌<◌, ◌≡◌, ◌↔◌, some, arith}
use neo.Ip.Address.{sub}
use neo.Ip.Range.{IpRange, IsValid, size}

-- The size of a valid range is its number of addresses exactly when that number is below 2^31.
pub size_exact :
    (r : IpRange) → IsValid r → (size r ≡ some (r.ub - r.lb + 1)) ↔ (r.ub - r.lb + 1 < 2 ^ 31)
unfolding size sub
size_exact r v = ground arith
