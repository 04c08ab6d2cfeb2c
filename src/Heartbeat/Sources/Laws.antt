-- ===== src/Heartbeat/Sources/Laws.antt =====
-- Laws of the sources of the heartbeat.
use ror_agent.Prelude.{
  String, ◌≡◌, refl, false, Option, none, some, ForeignError, ◌⊎◌, inl, inr, split, has,
  split_whole, split_many, Bool-cases,
}
use ror_agent.Heartbeat.Sources.{get_kubernetes_server_version}

-- The server version of the report has no plus sign, whatever the server answers.
pub has-get_kubernetes_server_version :
    (answer : ForeignError ⊎ Option String)
    → has b'+' (get_kubernetes_server_version answer) ≡ false
unfolding get_kubernetes_server_version
has-get_kubernetes_server_version (inl e) = unfold has in refl
has-get_kubernetes_server_version (inr none) = unfold has split in refl
has-get_kubernetes_server_version (inr (some v)) = elim (Bool-cases (has b'+' v)) [
  | inl e ↦ let (p, q, rest, eq, a) = split_many b'+' v e in rw eq a
  | inr e ↦ rw (split_whole b'+' v e) e
]
