-- ===== src/Tests/Starts.antt =====
-- A start of v2/cmd/agent/main.go against a cluster without a secret and an API without the cluster.
use ror_agent.Prelude.{ℕ, String, ◌==◌, ◌≡◌, refl, [], ◌∷◌, none, inr, ok, insert, lookup, text_at}
use ror_agent.AgentClient.{kubernetes_update_or_create_api_key_secret}
use ror_agent.AgentClient.Startup.{new_ror_agent_client}
use ror_agent.ClusterHandler.Update.{Registry, ClusterState, update_cluster_resource}
use ror_agent.DynamicClient.{must_start}
use ror_agent.Programs.{Setting, main}
use ror_agent.Programs.Order.{Started, main-Started}
use ror_agent.Tests.Clients.{World, api, config, agent}
use ror_agent.Tests.Clusters.{client, blank, view, now}

abbrev registry : Registry ℕ World
registry = record {
  get_resources = λ w. (inr [], w);
  update_resource = λ r w. (none, w);
  add_resource = λ r w. w;
  cache_owner = client;
  new_resource = blank;
  from_struct = λ r. r;
  meta_error = λ m. none;
  ror_hash = λ r. r.uid;
  scope_cluster = "cluster";
}

abbrev setting : Setting String World
setting = record {
  new_cache = λ w. (none, w);
  dynamic_client = none;
  discovery_client = none;
  is_enabled = λ s. inr (s == "pods");
  schemas = "pods" ∷ "secrets" ∷ [];
  node_exporter_job = none;
  health_server = none;
}

abbrev last_state : ClusterState World
last_state = (main api config registry view now setting agent).1

starts : main api config registry view now setting agent ≡ (ok ("pods" ∷ []), last_state)
unfolding main new_ror_agent_client insert lookup text_at update_cluster_resource must_start
    kubernetes_update_or_create_api_key_secret
starts = refl

main-Started_example : Started api config registry view now setting agent ("pods" ∷ []) last_state
main-Started_example =
    main-Started api config registry view now setting agent ("pods" ∷ []) last_state starts
