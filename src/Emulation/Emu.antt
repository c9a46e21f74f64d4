-- ===== src/Emulation/Emu.antt =====
-- src/emulation.cpp, src/middlebox.cpp: an emulation and the packets that it sends. What the device
-- has received since it was reset stands for its state.
use neo.Base.{ℕ, zero, suc, Bool, not, List, [], ◌∷◌, Option, none, some, length, if◌then◌else◌}
use neo.Emulation.History.{PacketPtr, History, same, contains, get_packets_since}

pub record Emulation : Type 0 where
  pub nph : History
  pub device : List PacketPtr

-- `init` starts a new device.
abbrev pub init : Emulation
init = record { nph = []; device = [] }

-- The injection of a packet into the device.
abbrev pub inject : PacketPtr → Emulation → Emulation
inject p e = record e { device = p ∷ e.device }

abbrev pub inject_all : List PacketPtr → Emulation → Emulation
inject_all [] e = e
inject_all (p ∷ ps) e = inject_all ps (inject p e)

abbrev pub reset_device : Emulation → Emulation
reset_device e = record e { device = [] }

-- The reset, unless the history continues that of the emulation.
abbrev pub refreshed : History → Emulation → Emulation
refreshed [] e = reset_device e
refreshed (p ∷ h) e = if not (contains (p ∷ h) e.nph) then reset_device e else e

abbrev pub to_replay : History → Emulation → List PacketPtr
to_replay [] e = []
to_replay (p ∷ h) e = get_packets_since (p ∷ h) e.nph

-- `rewind`, with the number of injections; `none` is -1.
unfoldable pub rewind : History → Emulation → Option ℕ × Emulation
unfolding contains get_packets_since
rewind nph e =
    if same e.nph nph
    then (none, e)
    else (some (length (to_replay nph e)), inject_all (to_replay nph e) (refreshed nph e))

-- `Middlebox::send_pkt` injects the packet `packets_per_injection` times.
abbrev pub send_pkt : ℕ → PacketPtr → Emulation → Emulation
send_pkt zero p e = e
send_pkt (suc n) p e = send_pkt n p (inject p e)

-- How `ForwardingProcess::inject_packet` calls the middlebox: it goes to the history of the node, the
-- history gets the packet, and the packet is sent unless the cache has the results.
unfoldable pub inject_packet : Bool → ℕ → History → PacketPtr → Emulation → Emulation
unfolding rewind
inject_packet cached packets_per_injection nph p e =
    let updated : Emulation = record (rewind nph e).1 { nph = p ∷ nph } in
    if cached then updated else send_pkt packets_per_injection p updated
