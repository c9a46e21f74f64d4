-- ===== src/Emulation/Tests.antt =====
-- Runs of the theorems on the emulations at concrete histories.
use neo.Base.{true, false, [], ◌∷◌, ◌≡◌, ◌⊎◌, refl}
use neo.Emulation.History.{History, precedes}
use neo.Emulation.Emu.{Emulation, inject_packet}
use neo.Emulation.Replay.{inject_packet-device}
use neo.Emulation.Order.{precedes-total_order}

-- The packets 1 and 2 have been injected.
abbrev two_packets : Emulation
two_packets = record { nph = 2 ∷ 1 ∷ []; device = 2 ∷ 1 ∷ [] }

inject_packet-device_example :
    ((inject_packet true 1 (1 ∷ []) 3 two_packets).nph ≡ 3 ∷ 1 ∷ [])
    × ((inject_packet true 1 (1 ∷ []) 3 two_packets).device ≡ 1 ∷ [])
inject_packet-device_example = inject_packet-device true (1 ∷ []) 3 two_packets refl

abbrev first : History
first = 1 ∷ []

abbrev second : History
second = 2 ∷ 1 ∷ []

abbrev third : History
third = 3 ∷ []

precedes-total_order_example :
    (precedes first first ≡ false)
    × (precedes first second ≡ true → precedes second third ≡ true → precedes first third ≡ true)
    × ((precedes first second ≡ true) ⊎ ((precedes second first ≡ true) ⊎ (first ≡ second)))
precedes-total_order_example = precedes-total_order first second third
