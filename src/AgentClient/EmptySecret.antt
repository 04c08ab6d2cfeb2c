-- ===== src/AgentClient/EmptySecret.antt =====
-- The setup against a secret that exists and has no data.
use ror_agent.Prelude.{
  String, ◌==◌, ◌≡◌, refl, true, false, none, ok, err, panic, inl, inr, arith, Bool-cases, eq_iff,
}
use ror_agent.AgentClient.{
  Config, Secret, Api, Agent, Result, unknown_cluster_id, unknown_api_key, and_then, updated_secret,
  kubernetes_update_or_create_api_key_secret, get_cluster_auth_from_secret,
}
use ror_agent.AgentClient.Startup.{
  init_ror_agent_client_setup, settle, use_api_id, use_interregator_id, generate_id, register_key,
  export_values, store,
}

abbrev pub nil_map : String
nil_map = "assignment to entry in nil map"

abbrev pub no_data : Secret
no_data = record { fields = none }

module _ {W : Type 0} where
  updated_secret_panic :
      (a : Agent W)
      → (a.identifier == unknown_cluster_id) ≡ false
      → (a.identifier == "") ≡ false
      → updated_secret a no_data ≡ panic nil_map
  unfolding updated_secret
  updated_secret_panic a known some_id = elim (Bool-cases (a.api_key == unknown_api_key)) [
    | inl e ↦ ground (arith, eq_iff "" a.identifier, eq_iff a.identifier "")
    | inr e ↦ ground (arith, eq_iff "" a.identifier, eq_iff a.identifier "")
  ]

module _ {W : Type 0} (api : Api W) (config : Config) where
  -- The namespace and the secret can be read, and the secret has no data.
  pub record HasNoData : Type 0 where
    pub namespace : (w : W) → (api.get_namespace config.namespace w).0 ≡ none
    pub secret : (w : W) → (api.get_secret config.namespace config.api_key_secret w).0 ≡ inr no_data

  store_panic :
      (text : String) (a : Agent W)
      → HasNoData
      → (a.identifier == unknown_cluster_id) ≡ false
      → (a.identifier == "") ≡ false
      → (store api config text a).0 ≡ panic nil_map
  unfolding kubernetes_update_or_create_api_key_secret
  store_panic text a h known some_id =
      let b = record a {
        world = (api.get_secret config.namespace config.api_key_secret a.world).1;
      } in
      rw (h.secret a.world, updated_secret_panic b known some_id)

  read_nothing :
      (a : Agent W)
      → HasNoData
      → get_cluster_auth_from_secret api config a ≡ (
        ok tt,
        record a {
          identifier = unknown_cluster_id;
          api_key = unknown_api_key;
          world = (api.get_secret config.namespace config.api_key_secret a.world).1;
        },
      )
  unfolding get_cluster_auth_from_secret
  read_nothing a h = rw (h.secret a.world)

  use_api_id_unused :
      (a : Agent W)
      → (api.interregator_id == api.unknown_interregator_id) ≡ false
      → use_api_id api config a ≡ (ok tt, a)
  unfolding use_api_id
  use_api_id_unused a known = elim (Bool-cases (a.identifier == unknown_cluster_id)) [
    | inl e ↦ rw (e, known)
    | inr e ↦ rw e
  ]

  use_interregator_id_panic :
      (a : Agent W)
      → HasNoData
      → (a.identifier == unknown_cluster_id) ≡ true
      → (api.interregator_id == api.unknown_interregator_id) ≡ false
      → (api.interregator_id == unknown_cluster_id) ≡ false
      → (api.interregator_id == "") ≡ false
      → (use_interregator_id api config a).0 ≡ panic nil_map
  unfolding use_interregator_id
  use_interregator_id_panic a h e known other some_id =
      rw (e, known) (store_panic _ (record a { identifier = api.interregator_id }) h other some_id)

  -- A panic ends a chain of operations.
  and_then-panic :
      (r : Result W) (next : Agent W → Result W) (p : String)
      → r.0 ≡ panic p
      → (and_then r next).0 ≡ panic p
  and_then-panic (ok t, a) next p h = cc
  and_then-panic (err e, a) next p h = h
  and_then-panic (panic q, a) next p h = h

  settle_panic :
      (a : Agent W)
      → HasNoData
      → (a.identifier == unknown_cluster_id) ≡ true
      → (api.interregator_id == api.unknown_interregator_id) ≡ false
      → (api.interregator_id == unknown_cluster_id) ≡ false
      → (api.interregator_id == "") ≡ false
      → (settle api config a).0 ≡ panic nil_map
  unfolding settle
  settle_panic a h e known other some_id =
      let named = and_then (use_api_id api config a) (use_interregator_id api config) in
      let made = and_then named (generate_id api config) in
      let keyed = and_then made (register_key api config) in
      let first : named.0 ≡ panic nil_map =
        rw (use_api_id_unused a known) (use_interregator_id_panic a h e known other some_id) in
      and_then-panic keyed (export_values api config) nil_map (
        and_then-panic made (register_key api config) nil_map
          (and_then-panic named (generate_id api config) nil_map first))

-- If the namespace can be read, the secret always reads as one without data, and the interregator
-- has an identifier that is not empty and is no text for an unknown value, then
-- initRorAgentClientSetup panics with a write to a nil map.
pub init_ror_agent_client_setup_panic :
    {W : Type 0} (api : Api W) (config : Config) (a : Agent W)
    → HasNoData api config
    → (api.interregator_id == api.unknown_interregator_id) ≡ false
    → (api.interregator_id == unknown_cluster_id) ≡ false
    → (api.interregator_id == "") ≡ false
    → (init_ror_agent_client_setup api config a).0 ≡ panic nil_map
unfolding init_ror_agent_client_setup
init_ror_agent_client_setup_panic api config a h known other some_id =
    let b = record a { world = (api.get_namespace config.namespace a.world).1 } in
    let c = record b {
      identifier = unknown_cluster_id;
      api_key = unknown_api_key;
      world = (api.get_secret config.namespace config.api_key_secret b.world).1;
    } in
    rw (h.namespace a.world, read_nothing api config b h)
      (settle_panic api config c h refl known other some_id)
