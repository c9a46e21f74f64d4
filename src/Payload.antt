-- ===== src/Payload.antt =====
-- src/payload.cpp: the payload of a packet. Equal payloads are one object, so a pointer to a payload
-- is modelled by its bytes; `none` is the null pointer.
use neo.Base.{ℕ, List, [], ◌∷◌, ◌++◌, Option, none, some, length}

abbrev pub Payload : Type 0
Payload = Option (List ℕ)

abbrev pub bytes : Payload → List ℕ
bytes none = []
bytes (some bs) = bs

abbrev pub payload_size : Payload → ℕ
payload_size p = length (bytes p)

-- The constructor from two payloads, either of which may be null.
unfoldable pub concat : Payload → Payload → Payload
concat a b = some (bytes a ++ bytes b)

-- `PayloadMgr::get_payload` of bytes: no bytes give the null pointer.
abbrev pub of_bytes : List ℕ → Payload
of_bytes [] = none
of_bytes (b ∷ bs) = some (b ∷ bs)
