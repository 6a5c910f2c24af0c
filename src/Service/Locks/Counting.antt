-- ===== src/Service/Locks/Counting.antt =====
-- The payment locks: counts and entries when one goroutine moves.
use rs8kvn_bot.Common.{
  ℕ, ◌+◌, ◌≤◌, ◌≡◌, ◌≢◌, refl, arith, Bool, none, some, List, [], ◌∷◌, ◌++◌, count_if, All, All-map,
  if◌then◌else◌,
}
use rs8kvn_bot.Service.Locks.{Locks, Pc, idle, waiting, holding, leaving, set}
use rs8kvn_bot.Service.Locks.Invariant.{refers, holds, IsEntered}

abbrev pub one : Bool → ℕ
one b = if b then 1 else 0

-- How a count changes when one goroutine moves.
pub count_moved :
    (q : Pc → Bool) (before after : List Pc) (p p' : Pc)
    → count_if q (before ++ (p' ∷ after)) + one (q p)
      ≡ count_if q (before ++ (p ∷ after)) + one (q p')
count_moved q [] after p p' = ground arith
count_moved q (x ∷ before) after p p' = ground (arith, count_moved q before after p p')

pub All-here :
    (m : Locks) (before after : List Pc) (p : Pc)
    → All (IsEntered m) (before ++ (p ∷ after))
    → IsEntered m p
All-here m [] after p h = h.0
All-here m (x ∷ before) after p h = All-here m before after p h.1

abbrev pub Grows : Locks → Locks → Type 0
Grows m m' = (id l : ℕ) → m.entries id ≡ some l → m'.entries id ≡ some l

pub IsEntered-grows : (m m' : Locks) → Grows m m' → (q : Pc) → IsEntered m q → IsEntered m' q
IsEntered-grows m m' g idle k = tt
IsEntered-grows m m' g (waiting a b) k = g a b k
IsEntered-grows m m' g (holding a b) k = g a b k
IsEntered-grows m m' g (leaving a b) k = g a b k

-- A map that grows keeps what the goroutines know of it.
pub All-moved :
    (m m' : Locks) (before after : List Pc) (p p' : Pc)
    → Grows m m'
    → IsEntered m' p'
    → All (IsEntered m) (before ++ (p ∷ after))
    → All (IsEntered m') (before ++ (p' ∷ after))
All-moved m m' [] after p p' g here h = (here, All-map (IsEntered-grows m m' g) after h.1)
All-moved m m' (x ∷ before) after p p' g here h =
    (IsEntered-grows m m' g x h.0, All-moved m m' before after p p' g here h.1)

-- Without a goroutine at the lock, its entry may go.
pub All-removed :
    (m m' : Locks) (id l : ℕ)
    → m.entries id ≡ some l
    → ((a : ℕ) → m'.entries a ≡ set id none m.entries a)
    → (ps : List Pc) → count_if (refers l) ps ≡ 0
    → All (IsEntered m) ps
    → All (IsEntered m') ps
All-removed m m' id l e e' [] n h = tt
All-removed m m' id l e e' (idle ∷ ps) n h = (tt, All-removed m m' id l e e' ps (ground arith) h.1)
All-removed m m' id l e e' (waiting a b ∷ ps) n h =
    (ground (arith, e' a), All-removed m m' id l e e' ps (ground arith) h.1)
All-removed m m' id l e e' (holding a b ∷ ps) n h =
    (ground (arith, e' a), All-removed m m' id l e e' ps (ground arith) h.1)
All-removed m m' id l e e' (leaving a b ∷ ps) n h =
    (ground (arith, e' a), All-removed m m' id l e e' ps (ground arith) h.1)

-- No goroutine refers to an address that is not in the map.
pub refers-none :
    (m : Locks) (l : ℕ)
    → ((id : ℕ) → m.entries id ≢ some l)
    → (ps : List Pc) → All (IsEntered m) ps
    → count_if (refers l) ps ≡ 0
refers-none m l unmapped [] h = refl
refers-none m l unmapped (idle ∷ ps) h = ground (arith, refers-none m l unmapped ps h.1)
refers-none m l unmapped (waiting a b ∷ ps) h =
    ground (arith, unmapped a, refers-none m l unmapped ps h.1)
refers-none m l unmapped (holding a b ∷ ps) h =
    ground (arith, unmapped a, refers-none m l unmapped ps h.1)
refers-none m l unmapped (leaving a b ∷ ps) h =
    ground (arith, unmapped a, refers-none m l unmapped ps h.1)

pub holds_le : (l : ℕ) (ps : List Pc) → count_if (holds l) ps ≤ count_if (refers l) ps
holds_le l [] = omega arith
holds_le l (idle ∷ ps) = ground (arith, holds_le l ps)
holds_le l (waiting a b ∷ ps) = ground (arith, holds_le l ps)
holds_le l (holding a b ∷ ps) = ground (arith, holds_le l ps)
holds_le l (leaving a b ∷ ps) = ground (arith, holds_le l ps)
