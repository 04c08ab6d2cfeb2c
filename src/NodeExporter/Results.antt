-- ===== src/NodeExporter/Results.antt =====
-- The maps that v2/internal/scheduler/nodeexporter.go builds of the answers to its queries.
use ror_agent.Prelude.{
  String, ◌==◌, ◌≡◌, refl, ap, subst, ◌∙◌, Bool, true, false, ◌||◌, [], ◌∷◌, All, Assoc, lookup,
  insert, lookup-insert, Option, none, some, Outcome, ok, err, panic, eq_iff, arith, if◌then◌else◌,
  inl, inr, Bool-cases, Shuffle, NoKey, DistinctKeys, NoKey-insert,
}
use ror_agent.NodeExporter.{stored, gather}

module _ {A : Type 0} where
  abbrev pub is_some : Option A → Bool
  is_some none = false
  is_some (some a) = true

  abbrev pub has_key : String → Assoc A → Bool
  has_key k m = is_some (lookup k m)

module _ {F : Type 0} where
  abbrev pub answer : Outcome (Assoc F) → Option (Assoc F)
  answer (ok values) = some values
  answer (err e) = none
  answer (panic m) = none

  abbrev pub answer_to :
      (String → Outcome (Assoc F)) → Option String → Option (Assoc F) → Option (Assoc F)
  answer_to ask none before = before
  answer_to ask (some query) before = elim (answer (ask query)) [
    | none ↦ before
    | some values ↦ some values
  ]

  -- An instance is in the answer to some query.
  abbrev pub holds : String → Assoc (Assoc F) → Bool
  holds inst [] = false
  holds inst (e ∷ m) = has_key inst e.1 || holds inst m

  abbrev pub answers : String → Outcome (Assoc F) → Bool
  answers inst (ok values) = has_key inst values
  answers inst (err e) = false
  answers inst (panic m) = false

module _ {F : Type 0} (ask : String → Outcome (Assoc F)) where
  abbrev pub named : String → Assoc String → Bool
  named inst [] = false
  named inst (q ∷ qs) = answers inst (ask q.1) || named inst qs

  lookup-stored :
      (name k : String) (o : Outcome (Assoc F)) (results : Assoc (Assoc F))
      → lookup k (stored ask name o results) ≡ (
          if name == k
          then elim (answer o) [ none ↦ lookup k results | some v ↦ some v ]
          else lookup k results)
  lookup-stored name k (ok values) results = lookup-insert name k values results
  lookup-stored name k (err e) results = ground arith
  lookup-stored name k (panic m) results = ground arith

  lookup-NoKey : {V : Type 0} (k : String) (m : Assoc V) → NoKey k m → lookup k m ≡ none
  unfolding lookup
  lookup-NoKey k [] h = refl
  lookup-NoKey k (e ∷ m) h = rw (h.0, lookup-NoKey k m h.1)

  pub lookup-gather :
      (qs : Assoc String) (results : Assoc (Assoc F)) (k : String)
      → DistinctKeys qs
      → lookup k (gather ask qs results) ≡ answer_to ask (lookup k qs) (lookup k results)
  unfolding gather lookup
  lookup-gather [] results k d = refl
  lookup-gather (q ∷ qs) results k d =
      lookup-gather qs (stored ask q.0 (ask q.1) results) k d.1 ∙ elim (Bool-cases (q.0 == k)) [
        | inl same ↦
            rw
              (
                lookup-stored q.0 k (ask q.1) results,
                same,
                lookup-NoKey k qs (subst (λ x. NoKey x qs) ((eq_iff q.0 k).0 same) d.0),
              )
              refl
        | inr other ↦ rw (lookup-stored q.0 k (ask q.1) results, other) refl
      ]

  holds-insert :
      (inst name : String) (values : Assoc F) (results : Assoc (Assoc F))
      → NoKey name results
      → holds inst (insert name values results) ≡ (has_key inst values || holds inst results)
  unfolding insert
  holds-insert inst name values [] n = refl
  holds-insert inst name values (e ∷ m) n =
      rw (n.0, holds-insert inst name values m n.1) (ground arith)

  holds-stored :
      (inst name : String) (o : Outcome (Assoc F)) (results : Assoc (Assoc F))
      → NoKey name results
      → holds inst (stored ask name o results) ≡ (answers inst o || holds inst results)
  holds-stored inst name (ok values) results n = holds-insert inst name values results n
  holds-stored inst name (err e) results n = refl
  holds-stored inst name (panic m) results n = refl

  NoKey-stored :
      (name k : String) (o : Outcome (Assoc F)) (results : Assoc (Assoc F))
      → (name == k) ≡ false
      → NoKey k results
      → NoKey k (stored ask name o results)
  NoKey-stored name k (ok values) results d n = NoKey-insert name k values results d n
  NoKey-stored name k (err e) results d n = n
  NoKey-stored name k (panic m) results d n = n

  abbrev New : Assoc (Assoc F) → Assoc String → Type 0
  New results = All (λ (q : String × String). NoKey q.0 results)

  New-stored :
      (name : String) (o : Outcome (Assoc F)) (results : Assoc (Assoc F)) (qs : Assoc String)
      → NoKey name qs
      → New results qs
      → New (stored ask name o results) qs
  New-stored name o results [] n h = tt
  New-stored name o results (q ∷ qs) n h = (
    NoKey-stored name q.0 o results (ground (arith, n.0, eq_iff q.0 name, eq_iff name q.0)) h.0,
    New-stored name o results qs n.1 h.1,
  )

  or_swap : (a b c : Bool) → (a || (b || c)) ≡ (b || a || c)
  or_swap a b c = ground arith

  pub holds-gather :
      (inst : String) (qs : Assoc String) (results : Assoc (Assoc F))
      → DistinctKeys qs
      → New results qs
      → holds inst (gather ask qs results) ≡ (named inst qs || holds inst results)
  unfolding gather
  holds-gather inst [] results d n = refl
  holds-gather inst (q ∷ qs) results d n =
      rw
        (
          holds-gather inst qs (stored ask q.0 (ask q.1) results) d.1
              (New-stored q.0 (ask q.1) results qs d.0 n.1),
          holds-stored inst q.0 (ask q.1) results n.0,
        )
        (or_swap (named inst qs) (answers inst (ask q.1)) (holds inst results))

  pub named-Shuffle :
      (inst : String) {qs qs' : Assoc String} → Shuffle qs qs' → named inst qs' ≡ named inst qs
  named-Shuffle inst Shuffle.nothing = refl
  named-Shuffle inst (Shuffle.front x s) =
      ap (λ b. answers inst (ask x.1) || b) (named-Shuffle inst s)
  named-Shuffle inst (Shuffle.swapped x y xs) = ground arith
  named-Shuffle inst (Shuffle.followed s t) = named-Shuffle inst t ∙ named-Shuffle inst s
