-- ===== src/AgentClient/Setup.antt =====
-- What the setup of the client leaves when it succeeds.
use ror_agent.Prelude.{
  String, ◌==◌, ◌≡◌, refl, subst, Bool, true, false, Option, none, some, ForeignError, message,
  foreign, Outcome, ok, err, panic, ◌⊎◌, inl, inr, if◌then◌else◌,
}
use ror_agent.AgentClient.{
  Config, Registration, Secret, Api, Agent, Result, unknown_cluster_id, unknown_api_key, and_then,
  explained, unless_error, saved, updated, kubernetes_create_api_key_secret,
  kubernetes_update_or_create_api_key_secret, get_cluster_auth_from_secret,
}
use ror_agent.AgentClient.Startup.{
  store, generated, registered, use_api_id, use_interregator_id, generate_id, register_key,
  export_values, settle, init_ror_agent_client_setup,
}

module _ {W : Type 0} where
  -- The property holds of the state, if the operation succeeds.
  abbrev Ends : (Agent W → Type 0) → Result W → Type 0
  Ends P (ok t, a) = P a
  Ends P (err e, a) = Unit
  Ends P (panic p, a) = Unit

  Ends-and_then :
      (P Q : Agent W → Type 0) (r : Result W) (next : Agent W → Result W)
      → Ends P r
      → ((a : Agent W) → P a → Ends Q (next a))
      → Ends Q (and_then r next)
  Ends-and_then P Q (ok t, a) next h k = k a h
  Ends-and_then P Q (err e, a) next h k = tt
  Ends-and_then P Q (panic p, a) next h k = tt

  Ends-explained :
      (P : Agent W → Type 0) (text : String) (r : Result W) → Ends P r → Ends P (explained text r)
  Ends-explained P text (ok t, a) h = h
  Ends-explained P text (err e, a) h = tt
  Ends-explained P text (panic p, a) h = tt

  Ends-if :
      (P : Agent W → Type 0) (b : Bool) (x y : Result W)
      → (b ≡ true → Ends P x)
      → (b ≡ false → Ends P y)
      → Ends P (if b then x else y)
  Ends-if P true x y h k = h refl
  Ends-if P false x y h k = k refl

  Ends-ok : (P : Agent W → Type 0) (r : Result W) (b : Agent W) → r ≡ (ok tt, b) → Ends P r → P b
  Ends-ok P r b e h = subst (Ends P) e h

  Always-Ends : (r : Result W) → Ends (λ a. Unit) r
  Always-Ends (ok t, a) = tt
  Always-Ends (err e, a) = tt
  Always-Ends (panic p, a) = tt

  -- The identifier and the key are known.
  abbrev pub HasId : Agent W → Type 0
  HasId a = (a.identifier == unknown_cluster_id) ≡ false

  abbrev pub HasKey : Agent W → Type 0
  HasKey a = (a.api_key == unknown_api_key) ≡ false

  abbrev pub HasBoth : Agent W → Type 0
  HasBoth a = HasId a × HasKey a

  -- They are known, and are the values that the rest of the agent reads from the configuration.
  pub record IsReady (a : Agent W) : Type 0 where
    pub id : HasId a
    pub key : HasKey a
    pub config_id : a.config_cluster_id ≡ a.identifier
    pub config_key : a.config_api_key ≡ a.api_key

abbrev pub IsKnown : (ForeignError ⊎ Registration) → Type 0
IsKnown (inl e) = Unit
IsKnown (inr r) =
    ((r.cluster_id == unknown_cluster_id) ≡ false) × ((r.api_key == unknown_api_key) ≡ false)

-- An identifier that is made, and one that the API registers with a key, are not the texts that stand
-- for unknown values.
pub record KnownAnswers (W : Type 0) (api : Api W) : Type 0 where
  pub made : (name : String) (w : W) → ((api.get_identifier name w).0 == unknown_cluster_id) ≡ false
  pub registered : (id : String) (w : W) → IsKnown (api.register_agent id w).0

-- A property that the world does not matter to.
abbrev IsOfAuth : {W : Type 0} → (Agent W → Type 0) → Type 0
IsOfAuth {W} P = (a : Agent W) (w : W) → P a → P (record a { world = w })

module _ {W : Type 0} (api : Api W) (config : Config) (P : Agent W → Type 0)
    (auth : IsOfAuth P) where
  Ends-unless_error : (r : Option ForeignError × W) (a : Agent W) → P a → Ends P (unless_error r a)
  Ends-unless_error (none, w) a h = auth a w h
  Ends-unless_error (some e, w) a h = tt

  Ends-saved : (o : Outcome (Secret × Bool)) (a : Agent W) → P a → Ends P (saved api config o a)
  Ends-saved (ok (s, true)) a h = Ends-unless_error (api.set_secret config.namespace s a.world) a h
  Ends-saved (ok (s, false)) a h = h
  Ends-saved (err e) a h = tt
  Ends-saved (panic p) a h = tt

  Ends-updated : (r : ForeignError ⊎ Secret) (a : Agent W) → P a → Ends P (updated api config r a)
  unfolding kubernetes_create_api_key_secret
  Ends-updated (inr s) a h = Ends-saved _ a h
  Ends-updated (inl e) a h =
      Ends-if P e.is_not_found (kubernetes_create_api_key_secret api config a) (err (foreign e), a)
        (λ k. Ends-unless_error _ a h) (λ k. tt)

  Ends-store : (text : String) (a : Agent W) → P a → Ends P (store api config text a)
  unfolding kubernetes_update_or_create_api_key_secret
  Ends-store text a h =
      let (r, w) = api.get_secret config.namespace config.api_key_secret a.world in
      Ends-explained P text (updated api config r (record a { world = w }))
        (Ends-updated r (record a { world = w }) (auth a w h))

module _ {W : Type 0} (api : Api W) (config : Config) (known : KnownAnswers W api) where
  generated-HasId :
      (r : String × W) (a : Agent W)
      → (r.0 == unknown_cluster_id) ≡ false
      → Ends HasId (generated api config r a)
  generated-HasId (id, w) a h =
      Ends-store api config HasId (λ b v k. k) _ (record a { identifier = id; world = w }) h

  generate_id-HasId : (a : Agent W) → Ends HasId (generate_id api config a)
  unfolding generate_id
  generate_id-HasId a =
      let made = generated api config (api.get_identifier api.interregator_name a.world) a in
      let failed : Result W = (err (message "Could not get clustername, failing"), a) in
      Ends-if HasId (a.identifier == unknown_cluster_id)
        (if api.interregator_name == "" then failed else made) (ok tt, a)
        (λ e.
          Ends-if HasId (api.interregator_name == "") failed made (λ e'. tt)
            (λ e'. generated-HasId _ a (known.made api.interregator_name a.world)))
        (λ e. e)

  registered-HasBoth :
      (r : ForeignError ⊎ Registration) (a : Agent W)
      → IsKnown r
      → Ends HasBoth (registered api config r a)
  registered-HasBoth (inl e) a h = tt
  registered-HasBoth (inr r) a h =
      Ends-store api config HasBoth (λ b v k. k) _
        (record a { identifier = r.cluster_id; api_key = r.api_key }) h

  register_key-HasBoth : (a : Agent W) → HasId a → Ends HasBoth (register_key api config a)
  unfolding register_key
  register_key-HasBoth a h =
      let (r, w) = api.register_agent a.identifier a.world in
      Ends-if HasBoth (a.api_key == unknown_api_key)
        (registered api config r (record a { world = w })) (ok tt, a)
        (λ e. registered-HasBoth r (record a { world = w }) (known.registered a.identifier a.world))
        (λ e. (h, e))

  settle-IsReady : (a : Agent W) → Ends IsReady (settle api config a)
  unfolding settle export_values
  settle-IsReady a =
      Ends-and_then HasBoth IsReady _ (export_values api config)
        (Ends-and_then HasId HasBoth _ (register_key api config)
          (Ends-and_then (λ b. Unit) HasId _ (generate_id api config)
            (Always-Ends (and_then (use_api_id api config a) (use_interregator_id api config)))
            (λ b h. generate_id-HasId b))
          register_key-HasBoth)
        (λ b h. record { id = h.0; key = h.1; config_id = refl; config_key = refl })

-- If the identifiers that are generated and the identifiers and keys that the API registers are
-- never the texts for unknown values, and initRorAgentClientSetup succeeds, then the identifier
-- and the key of the client are known, and the configuration has the same identifier and the same
-- key.
pub init_ror_agent_client_setup-IsReady :
    {W : Type 0} (api : Api W) (config : Config) (a b : Agent W)
    → KnownAnswers W api
    → init_ror_agent_client_setup api config a ≡ (ok tt, b)
    → IsReady b
unfolding init_ror_agent_client_setup
init_ror_agent_client_setup-IsReady {W = W} api config a b known e =
    let secret : Result W =
      and_then
        (explained "failed to get namespace"
          (unless_error (api.get_namespace config.namespace a.world) a))
        (λ c.
          explained "Could not get cluster auth from secret"
            (get_cluster_auth_from_secret api config c)) in
    Ends-ok IsReady (init_ror_agent_client_setup api config a) b e (
      Ends-and_then (λ c. Unit) IsReady secret (settle api config) (Always-Ends secret)
        (λ c h. settle-IsReady api config known c))
