-- ===== src/Net/Segments/Bytes.antt =====
-- src/lib/net.cpp: the payloads that `reassemble_segments` keeps.
use neo.Base.{
  ℕ, Bool, true, false, ◌==◌, List, [], ◌∷◌, ◌++◌, Option, some, if◌then◌else◌, ◌+◌, length-append,
  ◌≡◌, refl, sym, ap, ◌∙◌, subst, Bool-cases, inl, inr, arith,
}
use neo.Base.Partial.{>>=-eq-some}
use neo.Payload.{bytes, payload_size, concat}
use neo.Packet.{Packet}
use neo.Net.Segments.{
  Group, continues, merged, add_segment, add_to_group, add_all, reversed, joined,
  reassemble_segments,
}

-- The bytes that packets carry.
abbrev pub total : List Packet → ℕ
total [] = 0
total (p ∷ ps) = payload_size p.payload + total ps

abbrev total_groups : List Group → ℕ
total_groups [] = 0
total_groups (g ∷ gs) = total g.packets + total_groups gs

some-inj {ℓ} : {A : Type ℓ} (a b : A) → some a ≡ some b → a ≡ b
some-inj a b e = cc

size-merged :
    (lp p : Packet)
    → payload_size (merged lp p).payload ≡ payload_size lp.payload + payload_size p.payload
unfolding concat
size-merged lp p = length-append (bytes lp.payload) (bytes p.payload)

total-add_segment :
    (p : Packet) (ps qs : List Packet)
    → add_segment p ps ≡ some qs
    → total qs ≡ payload_size p.payload + total ps
unfolding add_segment
total-add_segment p [] qs e = ap total (sym (some-inj (p ∷ []) qs e))
total-add_segment p (lp ∷ ps) qs e =
    let (b, _, f) = >>=-eq-some (continues lp p) _ e in ap total (sym (some-inj _ qs f)) ∙ either b
  where
    either :
        (b : Bool)
        → total (if b then merged lp p ∷ ps else p ∷ lp ∷ ps)
          ≡ payload_size p.payload + total (lp ∷ ps)
    either true = let s = size-merged lp p in omega (arith, s)
    either false = refl

if_then :
    (b : Bool) (x y : Option (List Group)) (hs : List Group)
    → b ≡ true
    → (if b then x else y) ≡ some hs
    → x ≡ some hs
if_then true x y hs c e = e
if_then false x y hs c e = absurd cc

if_else :
    (b : Bool) (x y : Option (List Group)) (hs : List Group)
    → b ≡ false
    → (if b then x else y) ≡ some hs
    → y ≡ some hs
if_else true x y hs c e = absurd cc
if_else false x y hs c e = e

-- The groups have the packet's bytes more.
abbrev Grown : Packet → List Group → List Group → Type 0
Grown p gs hs = total_groups hs ≡ payload_size p.payload + total_groups gs

Grown-add_to_group : (p : Packet) (gs hs : List Group) → add_to_group p gs ≡ some hs → Grown p gs hs
unfolding add_to_group
Grown-add_to_group p [] hs e =
    let (ps, f, h) =
      >>=-eq-some (add_segment p [])
        (λ ps. some (record { interface = p.interface; packets = ps } ∷ [])) e in
    let t = total-add_segment p [] ps f in
    subst (Grown p []) (some-inj (record { interface = p.interface; packets = ps } ∷ []) hs h)
      (omega (arith, t))
Grown-add_to_group p (g ∷ gs) hs e = elim (Bool-cases (p.interface == g.interface)) [
  | inl c ↦
      let (ps, f, h) =
        >>=-eq-some (add_segment p g.packets) _ (if_then (p.interface == g.interface) _ _ hs c e) in
      let t = total-add_segment p g.packets ps f in
      subst (Grown p (g ∷ gs)) (some-inj (record g { packets = ps } ∷ gs) hs h) (omega (arith, t))
  | inr c ↦
      let (ks, f, h) =
        >>=-eq-some (add_to_group p gs) _ (if_else (p.interface == g.interface) _ _ hs c e) in
      let t = Grown-add_to_group p gs ks f in
      subst (Grown p (g ∷ gs)) (some-inj (g ∷ ks) hs h) (omega (arith, t))
]

total-add_all :
    (ps : List Packet) (gs hs : List Group)
    → add_all ps gs ≡ some hs
    → total_groups hs ≡ total ps + total_groups gs
unfolding add_all
total-add_all [] gs hs e = let t = ap total_groups (some-inj gs hs e) in omega (arith, t)
total-add_all (p ∷ ps) gs hs e =
    let (ks, f, h) = >>=-eq-some (add_to_group p gs) _ e in
    let t = Grown-add_to_group p gs ks f in let u = total-add_all ps ks hs h in omega (arith, t, u)

total-append : (ps qs : List Packet) → total (ps ++ qs) ≡ total ps + total qs
total-append [] qs = omega arith
total-append (p ∷ ps) qs = let ih = total-append ps qs in omega (arith, ih)

total-reversed : (ps : List Packet) → total (reversed ps) ≡ total ps
total-reversed [] = refl
total-reversed (p ∷ ps) =
    let ih = total-reversed ps in
    let a = total-append (reversed ps) (p ∷ []) in omega (arith, ih, a)

total-joined : (gs : List Group) → total (joined gs) ≡ total_groups gs
total-joined [] = refl
total-joined (g ∷ gs) =
    let ih = total-joined gs in
    let r = total-reversed g.packets in
    let a = total-append (reversed g.packets) (joined gs) in omega (arith, ih, r, a)

-- The packets that are left carry as many bytes as the packets before.
pub total-reassemble_segments :
    (ps qs : List Packet) → reassemble_segments ps ≡ some qs → total qs ≡ total ps
unfolding reassemble_segments
total-reassemble_segments ps qs e =
    let (gs, f, h) = >>=-eq-some (add_all ps []) _ e in
    let t = total-add_all ps [] gs f in
    let j = total-joined gs in
    subst (λ x. total x ≡ total ps) (some-inj (joined gs) qs h) (omega (arith, t, j))
