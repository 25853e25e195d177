-- ===== src/Rotation/Balance.antt =====
-- The cursors keep their balance, and none falls to the total weight below zero.
use dev_loop.Common.{
  String, false, List, [], ◌∷◌, ◌≡◌, refl, ◌==◌, arith, inl, inr, eq_iff, Bool-cases, All,
}
use mathlib.Core.Path.{subst}
use dev_loop.Common.Int.{ℤ, pos, ◌+ℤ◌, ◌≤ℤ◌, int_laws}
use dev_loop.Rotation.{Candidate, CursorMap, cursor, prune, change, raise}
use dev_loop.Rotation.Step.{balance, Covered}

-- The keys of the candidates are distinct, as those of an object are.
abbrev pub Distinct : List Candidate → Type 0
Distinct [] = Unit
Distinct (c ∷ cs) = All (λ d. (c.key == d.key) ≡ false) cs × Distinct cs

-- The map has the candidates' keys, in their order.
abbrev pub Aligned : List Candidate → CursorMap → Type 0
Aligned [] [] = Unit
Aligned [] ((k, v) ∷ cur) = ⊥
Aligned (c ∷ cs) [] = ⊥
Aligned (c ∷ cs) ((k, v) ∷ cur) = (c.key ≡ k) × Aligned cs cur

pub Aligned-prune : (cs : List Candidate) (cur : CursorMap) → Aligned cs (prune cs cur)
unfolding prune
Aligned-prune [] cur = tt
Aligned-prune (c ∷ cs) cur = (refl, Aligned-prune cs cur)

pub Aligned-change :
    (k : String) (f : ℤ → ℤ) (cs : List Candidate) (cur : CursorMap)
    → Aligned cs cur
    → Aligned cs (change k f cur)
unfolding change
Aligned-change k f [] [] h = tt
Aligned-change k f [] ((j, v) ∷ cur) h = absurd h
Aligned-change k f (c ∷ cs) [] h = absurd h
Aligned-change k f (c ∷ cs) ((j, v) ∷ cur) h = elim (Bool-cases (j == k)) [
  | inl same ↦ rw same (h.0, h.1)
  | inr other ↦ rw other (h.0, Aligned-change k f cs cur h.1)
]

pub Aligned-raise :
    (ds cs : List Candidate) (cur : CursorMap) → Aligned cs cur → Aligned cs (raise ds cur)
unfolding raise
Aligned-raise [] cs cur h = h
Aligned-raise (d ∷ ds) cs cur h =
    Aligned-raise ds cs (change d.key (λ v. v +ℤ pos d.weight) cur)
      (Aligned-change d.key (λ v. v +ℤ pos d.weight) cs cur h)

prune-skip :
    (k : String) (v : ℤ) (cs : List Candidate) (cur : CursorMap)
    → All (λ d. (k == d.key) ≡ false) cs
    → prune cs ((k, v) ∷ cur) ≡ prune cs cur
unfolding prune
prune-skip k v [] cur h = refl
prune-skip k v (c ∷ cs) cur h = rw (h.0, prune-skip k v cs cur h.1) refl

-- Pruning keeps a map of the same candidates.
pub prune-same :
    (cs : List Candidate) (cur : CursorMap) → Aligned cs cur → Distinct cs → prune cs cur ≡ cur
unfolding prune
prune-same [] [] al di = refl
prune-same [] ((k, v) ∷ cur) al di = absurd al
prune-same (c ∷ cs) [] al di = absurd al
prune-same (c ∷ cs) ((k, v) ∷ cur) al di =
    ground
      (arith, eq_iff k c.key, prune-skip c.key v cs cur di.0, prune-same cs cur al.1 di.1, al.0)

Covered-weaken :
    (k : String) (v : ℤ) (cur : CursorMap) (cs : List Candidate)
    → Covered cur cs
    → Covered ((k, v) ∷ cur) cs
Covered-weaken k v cur [] h = tt
Covered-weaken k v cur (c ∷ cs) h = (ground (arith, h.0), Covered-weaken k v cur cs h.1)

pub Covered-Aligned : (cs : List Candidate) (cur : CursorMap) → Aligned cs cur → Covered cur cs
Covered-Aligned [] cur h = tt
Covered-Aligned (c ∷ cs) [] h = absurd h
Covered-Aligned (c ∷ cs) ((k, v) ∷ cur) h =
    (ground (arith, h.0, eq_iff k c.key), Covered-weaken k v cur cs (Covered-Aligned cs cur h.1))

-- Where no candidate has a cursor above 0, the cursors do not add up to more than 0.
AtMost-tail :
    (k : String) (v x : ℤ) (cur : CursorMap) (cs : List Candidate)
    → All (λ d. (k == d.key) ≡ false) cs
    → All (λ c. cursor c.key ((k, v) ∷ cur) ≤ℤ x) cs
    → All (λ c. cursor c.key cur ≤ℤ x) cs
AtMost-tail k v x cur [] di h = tt
AtMost-tail k v x cur (c ∷ cs) di h = (rw di.0 at h.0, AtMost-tail k v x cur cs di.1 h.1)

pub balance-le :
    (cs : List Candidate) (cur : CursorMap)
    → Aligned cs cur
    → Distinct cs
    → All (λ c. cursor c.key cur ≤ℤ pos 0) cs
    → balance cur ≤ℤ pos 0
unfolding balance
balance-le [] [] al di h = omega arith
balance-le [] ((k, v) ∷ cur) al di h = absurd al
balance-le (c ∷ cs) [] al di h = absurd al
balance-le (c ∷ cs) ((k, v) ∷ cur) al di h =
    let first : v ≤ℤ pos 0 = ground (arith, h.0, al.0, eq_iff k c.key) in
    let others = balance-le cs cur al.1 di.1 (
      AtMost-tail k v (pos 0) cur cs (subst (λ j. All (λ d. (j == d.key) ≡ false) cs) al.0 di.0)
        h.1) in
    omega (int_laws, first, others)
