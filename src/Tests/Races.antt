-- ===== src/Tests/Races.antt =====
-- Two goroutines that add to a queue of one item.
use ror_agent.Prelude.{◌∷◌, ℕ, ◌≢◌, refl, [], none, Option, if◌then◌else◌, eqb}
use ror_agent.WorkQueue.{update, Update, fresh}
use ror_agent.ResourceCache.Races.{Lost, before-Lost}

abbrev updates : ℕ → Update (Option ℕ)
updates i = record {
  owner = record { scope = "cluster"; subject = "c1" };
  api_version = "v1";
  kind = "Pod";
  uid = if eqb i 0 then "u0" else if eqb i 1 then "u1" else "u2";
  action = update;
  hash = "h";
  resource = none;
}

first_is_no_second : ◌≢◌ {A = ℕ} 0 1
first_is_no_second e = cc

before-Lost_example : Lost (λ i. i) updates [] (fresh 7 (updates 2) ∷ []) [] 0 1
before-Lost_example =
    before-Lost (λ i. i) updates [] (fresh 7 (updates 2) ∷ []) [] 0 1 first_is_no_second refl
      (refl, tt) (refl, tt)
