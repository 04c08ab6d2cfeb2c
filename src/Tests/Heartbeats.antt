-- ===== src/Tests/Heartbeats.antt =====
-- Runs of the heartbeat report, of the nodes and of the access groups.
use ror_agent.NodeService.Named.{get_nodes-sort_nodes_ok}
use ror_agent.Tooling.{ToolingSource, get_nhn_tooling_metadata}
use ror_agent.Prelude.{
  ℕ, suc, String, ◌≡◌, refl, true, false, List, [], ◌∷◌, map, none, some, ForeignError, ok, panic,
  inl, inr, arith, length, lookup, split, text_at, has,
}
use ror_agent.AccessGroups.{AccessGroups, new_access_groups_from_data, string_array}
use ror_agent.AccessGroups.RoundTrip.{data_of, IsWritable, new_access_groups_from_data-data_of}
use ror_agent.NodeService.{Quantity, K8sNode, NodeSource, get_nodes, machine_name}
use ror_agent.NodeService.Machines.{get_nodes-sort_nodes_panic, any_nameless, out_of_range}
use ror_agent.Heartbeat.Nodes.{NodeInfo, Provider, talos, aks, ControlPlane, NodePool}
use ror_agent.Heartbeat.NodePools.{sort_nodes}
use ror_agent.Heartbeat.NodePools.Totals.{IsTally, NodesAreInt64, IsInt64, sum_of}
use ror_agent.Heartbeat.Report.{Env, Cluster, nothing_sorted, get_heartbeat_report, cluster_metrics}
use ror_agent.Heartbeat.Sources.{
  get_ingresses, get_ca_certificate_from_pod, get_kubernetes_server_version,
}
use ror_agent.Heartbeat.Report.Sums.{Accounts, get_heartbeat_report-Accounts}

abbrev quantity : ℕ → Quantity
quantity n = record { as_int64 = n; unscaled = 0; milli_value = n; value = n }

abbrev info : NodeInfo
info = record {
  os_image = "";
  architecture = "";
  container_runtime_version = "";
  kernel_version = "";
  kube_proxy_version = "";
  kubelet_version = "";
  operating_system = "";
}

abbrev worker : String → K8sNode
worker name = record {
  name = name;
  creation = 0;
  labels = [];
  annotations = ("ror.io/node-pool", "pool-1") ∷ [];
  info = info;
  allocatable_cpu = quantity 4;
  allocatable_memory = quantity 100;
}

abbrev master : K8sNode
master = record (worker "master") { labels = ("node-role.kubernetes.io/control-plane", "") ∷ [] }

abbrev source : Provider → List K8sNode → NodeSource
source provider nodes = record {
  metrics_client = none;
  node_metrics = λ name. inr (record { cpu = quantity 3; memory = quantity 50 });
  machine_provider = provider;
  nodes = nodes;
}

abbrev cluster : NodeSource
cluster = source talos (master ∷ worker "w1" ∷ worker "w2" ∷ [])

two_groups :
    (t : ControlPlane × List NodePool) × (sort_nodes (get_nodes cluster).0 nothing_sorted ≡ ok t)
    × (length t.0.nodes ≡ 1)
    × (map {B = String × ℕ} (λ p. (p.name, p.metrics.cpu)) t.1 ≡ ("pool-1", 8) ∷ [])
unfolding get_nodes sort_nodes lookup text_at
two_groups = (_, refl, refl, refl)

are_int64 : NodesAreInt64 (get_nodes cluster).0
unfolding get_nodes
are_int64 = (bounded, (bounded, (bounded, tt)))
  where
    bounded :
        IsInt64 (record {
          cpu = 4;
          memory_bytes = 100;
          cpu_milli_consumed = 3;
          memory_bytes_consumed = 50;
        })
    bounded = record {
      cpu = omega arith;
      memory = omega arith;
      cpu_consumed = omega arith;
      memory_consumed = omega arith;
    }

tallied : IsTally nothing_sorted
unfolding sum_of
tallied = record {
  plane = record {
    count = refl;
    cpu = refl;
    memory = refl;
    cpu_consumed = refl;
    memory_consumed = refl;
  };
  pools = tt;
  names = tt;
}

abbrev nameless : NodeSource
nameless = source aks (master ∷ worker "w1" ∷ [])

has_nameless : any_nameless nameless.nodes ≡ true
unfolding any_nameless machine_name lookup text_at has
has_nameless = refl

get_nodes-sort_nodes_panic_example :
    sort_nodes (get_nodes nameless).0 nothing_sorted ≡ panic out_of_range
get_nodes-sort_nodes_panic_example =
    get_nodes-sort_nodes_panic nameless nothing_sorted.0 nothing_sorted.1 tt refl has_nameless

abbrev groups : AccessGroups
groups = record {
  access_groups = "a" ∷ "b" ∷ [];
  read_only_access_groups = "" ∷ [];
  grafana_admin_groups = "g" ∷ [];
  grafana_read_only_groups = "" ∷ [];
  argocd_admin_groups = "" ∷ [];
  argocd_read_only_groups = "" ∷ [];
}

listed :
    string_array groups
    ≡ "Cluster Operator - a" ∷ "Cluster Operator - b" ∷ "Grafana Operator - g" ∷ []
unfolding string_array
listed = refl

groups-IsWritable : IsWritable groups
unfolding has
groups-IsWritable = record {
  access_groups = (refl, (refl, tt));
  read_only_access_groups = (refl, tt);
  grafana_admin_groups = (refl, tt);
  grafana_read_only_groups = (refl, tt);
  argocd_admin_groups = (refl, tt);
  argocd_read_only_groups = (refl, tt);
}

new_access_groups_from_data-data_of_example :
    new_access_groups_from_data (some (data_of groups)) ≡ groups
new_access_groups_from_data-data_of_example =
    new_access_groups_from_data-data_of groups groups-IsWritable

abbrev failure : ForeignError
failure = record { is_not_found = false; text = "forbidden" }

-- A cluster whose other sources all fail.
abbrev env : Env ℕ
env = record {
  clientset = none;
  tooling = record {
    Raw = ℕ;
    Meta = String;
    meta_name = λ m. m;
    clientset = some failure;
    dynamic_client = none;
    namespace = "";
    config_map = inl failure;
    application = inl failure;
    marshal = λ r. inl failure;
    unmarshal = λ s. inl failure;
  };
  server_version = inl failure;
  nodes = cluster;
  interregation = (
    none,
    some (record {
      cluster_name = "c";
      workspace = "w";
      datacenter = "d";
      kubernetes_provider = "talos";
      region = "r";
      country = "n";
    }),
  );
  endpoint = record {
    list_nodes = inl failure;
    kubeadm_config = inl failure;
    endpoint_of = λ s. inl failure;
    k8s_endpoint_annotation = "endpoint";
  };
  pod = record { read_file = λ p. inl failure; in_cluster_config = inl failure; encode = λ b. "" };
  ingresses = record {
    client = record {
      get_service = λ n s w. (inl failure, w);
      list_slices = λ n s w. (inl failure, w);
      get_endpoints = λ n s w. (inl failure, w);
    };
    list_namespaces = λ w. (inl failure, suc w);
    list_ingresses = λ n w. (inl failure, w);
  };
  agent_version = "1";
  agent_sha = "s";
  kube_system_created = inr 5;
  cluster_id = "c-1";
  cluster_uid = "";
  new_uid = "u-1";
  egress_ip = "";
}

reported :
    (c : Cluster) × (get_heartbeat_report env false 0 ≡ ok ((c, true), 1))
    × (c.metrics.cpu ≡ 8)
    × (c.uid ≡ "u-1")
unfolding get_heartbeat_report get_nodes sort_nodes lookup text_at get_ingresses
    get_ca_certificate_from_pod cluster_metrics
reported = (_, refl, refl, refl)

get_heartbeat_report-Accounts_example : Accounts (get_nodes env.nodes).0 reported.0
get_heartbeat_report-Accounts_example =
    get_heartbeat_report-Accounts env false 0 reported.0 true 1 are_int64 reported.1

short_version : get_kubernetes_server_version (inr (some "v1.29.3+k3s1")) ≡ "v1.29.3"
unfolding get_kubernetes_server_version split
short_version = refl

-- A cluster whose config map names an environment and a group, and that has no application.
abbrev tooling : ToolingSource
tooling = record env.tooling {
  clientset = none;
  config_map = inr (some (("environment", "prod") ∷ ("accessGroups", "a") ∷ []));
}

tooling_read : (get_nhn_tooling_metadata tooling).0.access_groups ≡ "Cluster Operator - a" ∷ []
unfolding get_nhn_tooling_metadata string_array new_access_groups_from_data lookup text_at split
tooling_read = refl

abbrev dashed : NodeSource
dashed = source aks (master ∷ worker "aks-pool1-w1" ∷ [])

all_named : any_nameless dashed.nodes ≡ false
unfolding any_nameless machine_name lookup text_at has
all_named = refl

get_nodes-sort_nodes_ok_example :
    (t : ControlPlane × List NodePool) × (sort_nodes
        (get_nodes dashed).0
        (nothing_sorted.0, nothing_sorted.1)
      ≡ ok t)
get_nodes-sort_nodes_ok_example =
    get_nodes-sort_nodes_ok dashed nothing_sorted.0 nothing_sorted.1 refl all_named
