-- ===== src/Heartbeat/NodePools/Names.antt =====
-- Which pool a node is put in: the pool of its worker name, or a new one.
use ror_agent.Prelude.{
  ℕ, ◌+◌, String, ◌≡◌, refl, ap, ◌∙◌, ◌⊎◌, inl, inr, true, false, ◌==◌, eq_iff, List, [], ◌∷◌, ◌++◌,
  Option, none, some, arith, All, All-append, Bool-cases, length, set-length, if◌then◌else◌,
}
use ror_agent.Heartbeat.Nodes.{ApiNode, NodePool}
use ror_agent.Heartbeat.NodePools.{find_pool, add_to_pool, new_pool, grown}

abbrev pub NotNamed : String → List NodePool → Type 0
NotNamed name = All (λ (p : NodePool). (p.name == name) ≡ false)

-- The pools around the last one of the name.
record LastSplit (name : String) (pools : List NodePool) : Type 0 where
  before : List NodePool
  pool : NodePool
  after : List NodePool
  whole : pools ≡ before ++ pool ∷ after
  fits : (pool.name == name) ≡ true
  last : NotNamed name after

LastSplit-cases :
    (name : String) (pools : List NodePool) → NotNamed name pools ⊎ LastSplit name pools
LastSplit-cases name [] = inl tt
LastSplit-cases name (p ∷ ps) = go (LastSplit-cases name ps) (Bool-cases (p.name == name))
  where
    go :
        NotNamed name ps ⊎ LastSplit name ps
        → ((p.name == name) ≡ true) ⊎ ((p.name == name) ≡ false)
        → NotNamed name (p ∷ ps) ⊎ LastSplit name (p ∷ ps)
    go (inr s) _ = inr (record {
      before = p ∷ s.before;
      pool = s.pool;
      after = s.after;
      whole = ap (λ t. p ∷ t) s.whole;
      fits = s.fits;
      last = s.last;
    })
    go (inl a) (inl e) =
        inr (record { before = []; pool = p; after = ps; whole = refl; fits = e; last = a })
    go (inl a) (inr e) = inl (e, a)

find_pool-NotNamed :
    (name : String) (i : ℕ) (ps : List NodePool) (found : Option (ℕ × NodePool))
    → NotNamed name ps
    → find_pool name i ps found ≡ found
unfolding find_pool
find_pool-NotNamed name i [] found h = refl
find_pool-NotNamed name i (p ∷ ps) found h = rw h.0 (find_pool-NotNamed name (i + 1) ps found h.1)

find_pool_last :
    (name : String) (i : ℕ) (before : List NodePool) (p : NodePool) (after : List NodePool)
    (found : Option (ℕ × NodePool))
    → (p.name == name) ≡ true
    → NotNamed name after
    → find_pool name i (before ++ p ∷ after) found ≡ some (i + length before, p)
unfolding find_pool
find_pool_last name i [] p after found h a =
    ground (arith, find_pool-NotNamed name (i + 1) after (some (i, p)) a)
find_pool_last name i (q ∷ qs) p after found h a = ground (
  arith,
  find_pool_last name (i + 1) qs p after (if q.name == name then some (i, q) else found) h a,
)

-- The two outcomes for the pools: a new pool at the end, if none has the name; or the last pool of
-- the name grown by the node, in its place.
pub data Placed (name : String) (n : ApiNode) (pools pools' : List NodePool) : Type 0 where
  opened : NotNamed name pools → pools' ≡ pools ++ new_pool name n ∷ [] → Placed name n pools pools'
  joined :
      (before : List NodePool) (p : NodePool) (after : List NodePool)
      → (p.name == name) ≡ true
      → pools ≡ before ++ p ∷ after
      → pools' ≡ before ++ grown p n ∷ after
      → Placed name n pools pools'

place_last :
    (name : String) (n : ApiNode) (before : List NodePool) (p : NodePool) (after : List NodePool)
    → (p.name == name) ≡ true
    → NotNamed name after
    → add_to_pool name n (before ++ p ∷ after) ≡ before ++ grown p n ∷ after
unfolding add_to_pool
place_last name n before p after h a =
    ground
      (arith, find_pool_last name 0 before p after none h a, set-length before p (grown p n) after)

-- A node of a worker name either opens a pool behind the others, if no pool has the name, or is
-- added to one pool of the name in its place, where every other pool stays as it is.
pub add_to_pool-Placed :
    (name : String) (n : ApiNode) (pools : List NodePool)
    → Placed name n pools (add_to_pool name n pools)
add_to_pool-Placed name n pools = elim (LastSplit-cases name pools) [
  | inl a ↦ opened a (unfold add_to_pool in rw (find_pool-NotNamed name 0 pools none a))
  | inr s ↦
      joined s.before s.pool s.after s.fits s.whole
        (ap (add_to_pool name n) s.whole ∙ place_last name n s.before s.pool s.after s.fits s.last)
]

-- No two pools have one name.
abbrev pub DistinctNames : List NodePool → Type 0
DistinctNames [] = Unit
DistinctNames (p ∷ ps) = NotNamed p.name ps × DistinctNames ps

DistinctNames-append :
    (ps : List NodePool) (p : NodePool)
    → DistinctNames ps
    → NotNamed p.name ps
    → DistinctNames (ps ++ p ∷ [])
DistinctNames-append [] p d h = (tt, tt)
DistinctNames-append (q ∷ qs) p d h = (
  All-append (λ (x : NodePool). (x.name == q.name) ≡ false) qs (p ∷ []) d.0
      (ground (arith, h.0, eq_iff q.name p.name, eq_iff p.name q.name), tt),
  DistinctNames-append qs p d.1 h.1,
)

NotNamed-grown :
    (name : String) (before : List NodePool) (p : NodePool) (n : ApiNode) (after : List NodePool)
    → NotNamed name (before ++ p ∷ after)
    → NotNamed name (before ++ grown p n ∷ after)
NotNamed-grown name [] p n after h = h
NotNamed-grown name (q ∷ qs) p n after h = (h.0, NotNamed-grown name qs p n after h.1)

DistinctNames-grown :
    (before : List NodePool) (p : NodePool) (n : ApiNode) (after : List NodePool)
    → DistinctNames (before ++ p ∷ after)
    → DistinctNames (before ++ grown p n ∷ after)
DistinctNames-grown [] p n after h = h
DistinctNames-grown (q ∷ qs) p n after h =
    (NotNamed-grown q.name qs p n after h.0, DistinctNames-grown qs p n after h.1)

pub add_to_pool-DistinctNames :
    (name : String) (n : ApiNode) (pools : List NodePool)
    → DistinctNames pools
    → DistinctNames (add_to_pool name n pools)
add_to_pool-DistinctNames name n pools d = elim (add_to_pool-Placed name n pools) [
  | opened a e ↦ rw e (DistinctNames-append pools (new_pool name n) d a)
  | joined before p after h e e' ↦ rw e' (DistinctNames-grown before p n after (rw e at d))
]
