-- ===== src/Ec/Mgr/Heap.antt =====
-- src/eqclassmgr.cpp: the classes behind the pointers of the manager.
use neo.Base.{
  ◌≤◌, ◌<◌, ◌≡◌, refl, Bool, false, ◌&&◌, ◌==◌, List, [], ◌∷◌, ◌++◌, any, arith, if◌then◌else◌,
}
use neo.Ec.Range.{EcPtr}
use neo.Ec.Class.{EqClass}
use neo.Ec.Mgr.{deref, assign}

abbrev pub has_key : EcPtr → List (EcPtr × EqClass) → Bool
has_key e ecs = any (λ p. p.0 == e) ecs

-- The pointers are older than `k`.
abbrev pub KeysBelow : EcPtr → List (EcPtr × EqClass) → Type 0
KeysBelow k [] = Unit
KeysBelow k ((p, c) ∷ ecs) = (p < k) × KeysBelow k ecs

pub KeysBelow-weaken :
    (k l : EcPtr) (ecs : List (EcPtr × EqClass)) → k ≤ l → KeysBelow k ecs → KeysBelow l ecs
KeysBelow-weaken k l [] h v = tt
KeysBelow-weaken k l ((p, c) ∷ ecs) h v = (omega arith, KeysBelow-weaken k l ecs h v.1)

pub KeysBelow-append :
    (k n : EcPtr) (c : EqClass) (ecs : List (EcPtr × EqClass))
    → n < k
    → KeysBelow k ecs
    → KeysBelow k (ecs ++ (n, c) ∷ [])
KeysBelow-append k n c [] h v = (h, tt)
KeysBelow-append k n c ((p, d) ∷ ecs) h v = (v.0, KeysBelow-append k n c ecs h v.1)

pub KeysBelow-assign :
    (k e : EcPtr) (d : EqClass) (ecs : List (EcPtr × EqClass))
    → KeysBelow k ecs
    → KeysBelow k (assign e d ecs)
unfolding assign
KeysBelow-assign k e d [] v = tt
KeysBelow-assign k e d ((p, c) ∷ ecs) v = (v.0, KeysBelow-assign k e d ecs v.1)

pub has_key_young :
    (k e : EcPtr) (ecs : List (EcPtr × EqClass)) → KeysBelow k ecs → k ≤ e → has_key e ecs ≡ false
has_key_young k e [] v h = refl
has_key_young k e ((p, c) ∷ ecs) v h = ground (arith, has_key_young k e ecs v.1 h)

pub deref_missing :
    (e : EcPtr) (ecs : List (EcPtr × EqClass)) → has_key e ecs ≡ false → deref e ecs ≡ []
unfolding deref
deref_missing e [] h = refl
deref_missing e ((p, c) ∷ ecs) h = ground (arith, deref_missing e ecs)

pub has_key-assign :
    (x e : EcPtr) (d : EqClass) (ecs : List (EcPtr × EqClass))
    → has_key x (assign e d ecs) ≡ has_key x ecs
unfolding assign
has_key-assign x e d [] = refl
has_key-assign x e d ((p, c) ∷ ecs) = ground (arith, has_key-assign x e d ecs)

pub deref-assign :
    (x e : EcPtr) (d : EqClass) (ecs : List (EcPtr × EqClass))
    → deref x (assign e d ecs) ≡ (if x == e && has_key e ecs then d else deref x ecs)
unfolding deref assign
deref-assign x e d [] = ground arith
deref-assign x e d ((p, c) ∷ ecs) = ground (arith, deref-assign x e d ecs)

pub deref-append :
    (x n : EcPtr) (c : EqClass) (ecs : List (EcPtr × EqClass))
    → deref x (ecs ++ (n, c) ∷ [])
      ≡ (if has_key x ecs then deref x ecs else if n == x then c else [])
unfolding deref
deref-append x n c [] = refl
deref-append x n c ((p, d) ∷ ecs) = ground (arith, deref-append x n c ecs)
