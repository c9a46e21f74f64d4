-- ===== src/Emulation/Replay.antt =====
-- src/emulation.cpp: after a rewind the device has received exactly the packets of the history.
use neo.Base.{
  ℕ, Bool, true, false, not, List, [], ◌∷◌, length, Option, none, some, if◌then◌else◌, ◌≡◌, refl,
  sym, ap, ◌∙◌, subst, arith, Bool-cases, inl, inr,
}
use neo.Emulation.History.{PacketPtr, History, same, contains, since_onto, get_packets_since}
use neo.Emulation.Emu.{
  Emulation, inject, inject_all, reset_device, refreshed, to_replay, rewind, inject_packet,
}

pub same→eq : (h k : History) → same h k ≡ true → h ≡ k
same→eq [] [] e = refl
same→eq [] (q ∷ k) e = absurd cc
same→eq (p ∷ h) [] e = absurd cc
same→eq (p ∷ h) (q ∷ k) e = ground (arith, same→eq h k)

inject_all-nph : (ps : List PacketPtr) (e : Emulation) → (inject_all ps e).nph ≡ e.nph
inject_all-nph [] e = refl
inject_all-nph (p ∷ ps) e = inject_all-nph ps (inject p e)

abbrev pub received : List PacketPtr → List PacketPtr → List PacketPtr
received [] device = device
received (p ∷ ps) device = received ps (p ∷ device)

inject_all-device :
    (ps : List PacketPtr) (e : Emulation) → (inject_all ps e).device ≡ received ps e.device
inject_all-device [] e = refl
inject_all-device (p ∷ ps) e = inject_all-device ps (inject p e)

-- From a history that is contained, the packets since lead to the whole history.
received_since :
    (h start : History) (acc : List PacketPtr)
    → contains h start ≡ true
    → received (since_onto h start acc) start ≡ received acc h
unfolding contains
received_since [] start acc e = ap (received acc) (sym (same→eq [] start e))
received_since (p ∷ h) start acc e = elim (Bool-cases (same (p ∷ h) start)) [
  | inl s ↦
      subst
        (λ b.
          received (if b then acc else since_onto h start (p ∷ acc)) start ≡ received acc (p ∷ h))
        (sym s) (ap (received acc) (sym (same→eq (p ∷ h) start s)))
  | inr s ↦
      subst
        (λ b.
          received (if b then acc else since_onto h start (p ∷ acc)) start ≡ received acc (p ∷ h))
        (sym s) (received_since h start (p ∷ acc) (ground (arith, e, s)))
]

-- From an empty device, the packets since a history that is not contained do so.
received_all :
    (h start : History) (acc : List PacketPtr)
    → contains h start ≡ false
    → received (since_onto h start acc) [] ≡ received acc h
unfolding contains
received_all [] start acc e = refl
received_all (p ∷ h) start acc e =
    let s : same (p ∷ h) start ≡ false = ground (arith, e) in
    subst
      (λ b. received (if b then acc else since_onto h start (p ∷ acc)) [] ≡ received acc (p ∷ h))
      (sym s) (received_all h start (p ∷ acc) (ground (arith, e, s)))

-- The device has received the packets of the emulation's history.
abbrev pub Synced : Emulation → Type 0
Synced e = e.device ≡ e.nph

replayed :
    (nph : History) (e : Emulation) (b : Bool)
    → contains nph e.nph ≡ b
    → Synced e
    → (inject_all (get_packets_since nph e.nph) (if not b then reset_device e else e)).device ≡ nph
unfolding get_packets_since
replayed nph e true c h =
    inject_all-device (get_packets_since nph e.nph) e
    ∙ ap (received (get_packets_since nph e.nph)) h
    ∙ received_since nph e.nph [] c
replayed nph e false c h =
    inject_all-device (get_packets_since nph e.nph) (reset_device e) ∙ received_all nph e.nph [] c

replay-device :
    (nph : History) (e : Emulation)
    → Synced e
    → (inject_all (to_replay nph e) (refreshed nph e)).device ≡ nph
replay-device [] e h = refl
replay-device (p ∷ nph) e h = replayed (p ∷ nph) e (contains (p ∷ nph) e.nph) refl h

-- Where the device has received exactly the packets of the emulation's history, it has received
-- exactly those of the given history after a rewind to it.
rewind-device : (nph : History) (e : Emulation) → Synced e → (rewind nph e).1.device ≡ nph
unfolding rewind
rewind-device nph e h = by_test (same e.nph nph) refl
  where
    by_test :
        (b : Bool)
        → same e.nph nph ≡ b
        → let r : Option ℕ × Emulation = if b then (none, e) else (
          some (length (to_replay nph e)),
          inject_all (to_replay nph e) (refreshed nph e),
        ) in
          r.1.device ≡ nph
    by_test true s = h ∙ same→eq e.nph nph s
    by_test false s = replay-device nph e h

-- Where the device has received exactly the packets of the emulation's history, and one packet is
-- sent for an injection: an injection at any history of the node makes the history with the packet
-- that of the emulation. The device has then received exactly the packets of that history if the
-- results were not in the cache, and otherwise those of the history without the packet.
pub inject_packet-device :
    (cached : Bool) (nph : History) (p : PacketPtr) (e : Emulation)
    → Synced e
    → ((inject_packet cached 1 nph p e).nph ≡ p ∷ nph)
      × ((inject_packet cached 1 nph p e).device ≡ (if cached then nph else p ∷ nph))
unfolding inject_packet
inject_packet-device true nph p e h = (refl, rewind-device nph e h)
inject_packet-device false nph p e h = (refl, ap (λ d. p ∷ d) (rewind-device nph e h))
