-- ===== src/Tests/FirstStarts.antt =====
-- A start of cmd/agent/main.go, and the calls of its watchers.
use ror_agent.Prelude.{
  All, String, ◌==◌, ◌≡◌, ◌⊎◌, ap, sym, ◌∙◌, refl, true, Option, none, some, ok, inl, inr, [], ◌∷◌,
  insert, lookup, text_at, ForeignError,
}
use ror_agent.WorkQueue.Pending.{pending}
use ror_agent.Resource.{
  new_from_unstructured, remove_unnecessary_data_from_object, calculate_hash_from_object,
  get_resource_from_object, hash_object, new_resource_update_model,
}
use ror_agent.Resource.Kinds.{payload_type}
use ror_agent.Resource.Json.{find, put, remove, is_empty}
use ror_agent.ResourceCache.{must_init}
use ror_agent.ResourceCache.Mirror.{Orderly, mirror}
use ror_agent.AgentClient.{Api, Agent, kubernetes_update_or_create_api_key_secret}
use ror_agent.AgentClient.Startup.{new_ror_agent_client}
use ror_agent.DynamicClient.{must_start}
use ror_agent.Handlers.Delivery.{deliver_all, events_of}
use ror_agent.Programs.First.{Setting, Waiting, services_of, main}
use ror_agent.Programs.First.Mirrored.{main-Mirrored}
use ror_agent.Handlers.Listed.{Agrees, listed-Mirrored}
use ror_agent.Watcher.{listed, added}
use ror_agent.Tests.Watchers.{pod}
use ror_agent.Tests.Objects.{libraries}
use ror_agent.Tests.Clients.{config}
use ror_agent.Tests.Mirrors.{Held, Hashes, services, stored, known, laws, calls, hashes, held}

-- A cluster with a secret, and an API that knows the cluster.
abbrev api : Api Held
api = record {
  get_namespace = λ n w. (none, w);
  get_secret =
      λ n s w. (inr (record { fields = some (("APIKEY", "k-1") ∷ ("CLUSTER_ID", "c-1") ∷ []) }), w);
  create_secret = λ n s w. (none, w);
  set_secret = λ n s w. (none, w);
  check_connection = λ k w. (none, w);
  self = λ k w. (inr (record { identity_type = "cluster"; user_name = "c-1"; user_uid = "" }), w);
  version = λ k w. (none, w);
  register_agent = λ id w. (inr (record { cluster_id = "c-1"; api_key = "k-1" }), w);
  get_identifier = λ name w. ("c-0", w);
  clientset = none;
  provider_known = true;
  interregator_id = "unknown";
  interregator_name = "c";
  unknown_interregator_id = "unknown";
  identity_type_cluster = "cluster";
}

abbrev setting : Setting String Held Hashes
setting = record {
  get_hash_list = λ w. (inr ("u1" ∷ [], w), w);
  dynamic_client = none;
  discovery_client = none;
  is_enabled = λ s. inr (s == "pods");
  schemas = "pods" ∷ "secrets" ∷ [];
  heartbeat_job = none;
  health_server = none;
}

abbrev agent : Agent Held
agent = record {
  identifier = "";
  api_key = "___unknown_api_key___";
  config_cluster_id = "";
  config_api_key = "";
  config_cluster_uid = "";
  owner = none;
  world = held;
}

abbrev client : Agent Held
client = record agent {
  identifier = "c-1";
  api_key = "k-1";
  config_cluster_id = "c-1";
  config_api_key = "k-1";
  owner = some "c-1";
}

abbrev waiting : Waiting services api config setting
waiting = record {
  client = client;
  system = must_init (services_of services api config setting client) hashes held;
  watchers = "pods" ∷ [];
}

starts : main services api config setting agent ≡ ok waiting
unfolding main new_ror_agent_client insert lookup text_at must_start must_init
    kubernetes_update_or_create_api_key_secret
starts = refl

abbrev hash_in : (ForeignError ⊎ Hashes) × Held → Option String
hash_in (inl e, w) = none
hash_in (inr h, w) = h.1 "u1"

truthful :
    (w w' : Held) (h : Hashes) (x : String)
    → setting.get_hash_list w ≡ (inr h, w')
    → known "u1" h ≡ some x
    → stored "u1" w' ≡ some x
truthful w w' h x e k =
    sym (ap (λ (r : (ForeignError ⊎ Hashes) × Held). r.1 "u1") e) ∙ ap hash_in e ∙ k

calls-Orderly :
    let services' = services_of services api config setting client in
    Orderly services' "u1" (events_of libraries services' (λ i. i) calls)
unfolding Orderly events_of new_from_unstructured remove_unnecessary_data_from_object
    calculate_hash_from_object get_resource_from_object hash_object payload_type find put remove
    is_empty new_resource_update_model
calls-Orderly = tt

main-Mirrored_example :
    let services' = services_of services api config setting client in
    let s = waiting.system in
    let (result, (c, w)) = deliver_all libraries services' (λ i. i) calls (s.live, s.api) in
    (result ≡ ok tt)
    × ((pending "u1" c.workqueue ≡ true)
        ⊎ (stored "u1" w
            ≡ mirror services' "u1"
                (events_of libraries services' (λ i. i) calls)
                (stored "u1" s.api)))
main-Mirrored_example =
    main-Mirrored libraries services api config setting "u1" stored known agent waiting (λ i. i)
      calls laws truthful starts calls-Orderly

listed_twice : All (Agrees libraries services "u1" "Pod") (listed "" ∷ added pod ∷ added pod ∷ [])
unfolding new_from_unstructured remove_unnecessary_data_from_object calculate_hash_from_object
    get_resource_from_object hash_object payload_type find put remove is_empty
listed_twice = (tt, ((λ e q. refl), ((λ e q. refl), tt)))

is_read : (new_from_unstructured libraries (some pod)).1 ≡ none
unfolding new_from_unstructured remove_unnecessary_data_from_object calculate_hash_from_object
    get_resource_from_object hash_object payload_type find put remove is_empty
is_read = refl

held_sound : (x : String) → known "u1" hashes ≡ some x → stored "u1" held ≡ some x
held_sound x e = e

listed-Mirrored_example :
    let s = must_init services hashes held in
    let (result, (c, w)) =
      deliver_all libraries services
        (λ i. i)
        (listed "" ∷ added pod ∷ added pod ∷ [])
        (s.live, s.api) in
    (result ≡ ok tt) × ((pending "u1" c.workqueue ≡ true) ⊎ (stored "u1" w ≡ some "Pod"))
unfolding new_from_unstructured remove_unnecessary_data_from_object calculate_hash_from_object
    get_resource_from_object hash_object payload_type find put remove is_empty
listed-Mirrored_example =
    listed-Mirrored libraries services stored known (λ i. i) (listed "" ∷ []) (added pod ∷ []) pod
      hashes held laws held_sound is_read listed_twice
