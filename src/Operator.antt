-- ===== src/Operator.antt =====
-- internal/kubernetes/operator/initialize/initialize_operator.go and internal/services/initial_service.go:
-- the requests that the agent makes by itself. A reply is its status code and what io.ReadAll makes of its
-- body; what net/http answers to a request is a parameter.
pub mod EgressIp
use ror_agent.Prelude.{
  ℕ, String, ◌<>◌, ◌≡◌, refl, ap, subst, sym, ok-injective, >>=-eq-ok, Bool, true, false, Option,
  none, some, Error, message, foreign, ForeignError, Outcome, ok, err, panic, ◌>>=◌, ◌⊎◌, inl, inr,
  ltb, ◌↔◌, if◌then◌else◌, arith,
}
use ror_agent.AgentClient.Egress.{Response}

-- apicontracts.AgentApiKeyModel
pub record AgentApiKeyModel : Type 0 where
  pub identifier : String
  pub datacenter_name : String
  pub workspace_name : String
  pub provider : String
  pub type : String

-- interregatortypes.ClusterInterregator, by the methods that are called
pub record ClusterInfo : Type 0 where
  pub cluster_name : String
  pub datacenter : String
  pub cluster_workspace : String
  pub provider : String

-- The text of a reply; a body that cannot be read ends the program if the status is an error.
abbrev failed_status : String → ForeignError ⊎ String → Outcome String
failed_status text (inl e) = panic "response body"
failed_status text (inr body) = err (message text)

abbrev good_status : ForeignError ⊎ String → Outcome String
good_status (inl e) = err (message "could not read data from response")
good_status (inr body) = ok body

unfoldable pub text_of : String → Response → Outcome String
text_of text r = if ltb 299 r.status then failed_status text r.body else good_status r.body

abbrev pub replied : String → String → ForeignError ⊎ Response → Outcome String
replied unsent text (inl e) = err (message unsent)
replied unsent text (inr r) = text_of text r

module _ (post : String → AgentApiKeyModel → ForeignError ⊎ Response) (cluster_type : String) where
  -- apicontracts.ApiKeyTypeCluster is `cluster_type`.
  abbrev pub key_model : ClusterInfo → AgentApiKeyModel
  key_model info = record {
    identifier = info.cluster_name;
    datacenter_name = info.datacenter;
    workspace_name = info.cluster_workspace;
    provider = info.provider;
    type = cluster_type;
  }

  unfoldable pub get_apikey : Option ClusterInfo → String → Outcome String
  unfolding text_of
  get_apikey none ror_url = err (message "identifier is empty, cannot fetch api key")
  get_apikey (some info) ror_url =
      replied "could not send data to API"
        ("could not get api key from API, identifier: " <> info.cluster_name <> ", rorUrl: "
          <> ror_url)
        (post (ror_url <> "/v1/clusters/register") (key_model info))

-- A reply that delivers a text.
abbrev pub Delivers : ForeignError ⊎ Response → String → Type 0
Delivers answer text =
    (r : Response) × (answer ≡ inr r) × (ltb 299 r.status ≡ false) × (r.body ≡ inr text)

text_of-Delivers :
    (text key : String) (r : Response) → text_of text r ≡ ok key → Delivers (inr r) key
unfolding text_of
text_of-Delivers text key r h =
    let (good, body) = by_status (ltb 299 r.status) r.body h in (r, refl, good, body)
  where
    by_status :
        (b : Bool) (body : ForeignError ⊎ String)
        → (if b then failed_status text body else good_status body) ≡ ok key
        → (b ≡ false) × (body ≡ inr key)
    by_status true (inl e) h = cc
    by_status true (inr body) h = cc
    by_status false (inl e) h = cc
    by_status false (inr body) h = (refl, ap inr (ok-injective h))

text_of-ok :
    (text key : String) (r : Response)
    → ltb 299 r.status ≡ false
    → r.body ≡ inr key
    → text_of text r ≡ ok key
unfolding text_of
text_of-ok text key r good body = rw (good, body) refl

inr_same : {A B : Type 0} {a b : B} → ◌≡◌ {A = A ⊎ B} (inr a) (inr b) → a ≡ b
inr_same h = cc

replied-ok :
    (unsent text key : String) (answer : ForeignError ⊎ Response)
    → replied unsent text answer ≡ ok key ↔ Delivers answer key
unfolding text_of
replied-ok unsent text key (inl e) = (λ h. cc, λ (r, same, good, body). cc)
replied-ok unsent text key (inr r) = (
  text_of-Delivers text key r,
  λ (r', same, good, body).
      subst (λ x. text_of text x ≡ ok key) (sym (inr_same same)) (text_of-ok text key r' good body),
)

-- GetApikey of a cluster returns a key exactly if the request to register the cluster is answered
-- with a status of at most 299 and a body that can be read, which is the key.
pub get_apikey_lem :
    (post : String → AgentApiKeyModel → ForeignError ⊎ Response) (cluster_type ror_url key : String)
    (info : ClusterInfo)
    → get_apikey post cluster_type (some info) ror_url ≡ ok key
      ↔ Delivers (post (ror_url <> "/v1/clusters/register") (key_model post cluster_type info)) key
unfolding get_apikey
get_apikey_lem post cluster_type ror_url key info =
    replied-ok "could not send data to API"
      ("could not get api key from API, identifier: " <> info.cluster_name <> ", rorUrl: "
        <> ror_url)
      key (post (ror_url <> "/v1/clusters/register") (key_model post cluster_type info))

-- What http.NewRequest says of a URL, what the client answers to the request with its key, and the
-- cluster id of encoding/json.
module _ (new_request : String → Option ForeignError)
    (do_request : String → String → ForeignError ⊎ Response)
    (unmarshal : String → ForeignError ⊎ String) where
  abbrev decoded : ForeignError ⊎ String → Outcome String
  decoded (inl e) = panic "could not fetch secret"
  decoded (inr id) = ok id

  abbrev with_request : Option ForeignError → String → String → Outcome String
  with_request (some e) apikey ror_url = err (foreign e)
  with_request none apikey ror_url =
      replied "could not get data from ROR-API"
        ("could not get cluster self data from API, rorUrl: " <> ror_url)
        (do_request (ror_url <> "/v1/clusters/self") apikey)
      >>= λ text. decoded (unmarshal text)

  unfoldable pub get_own_cluster_id : String → String → Outcome String
  unfolding text_of
  get_own_cluster_id apikey ror_url =
      with_request (new_request (ror_url <> "/v1/clusters/self")) apikey ror_url

  decoded-ok : (r : ForeignError ⊎ String) (id : String) → decoded r ≡ ok id → r ≡ inr id
  decoded-ok (inl e) id h = cc
  decoded-ok (inr x) id h = ap inr (ok-injective h)

  with_request-ok :
      (e : Option ForeignError) (apikey ror_url id : String)
      → with_request e apikey ror_url ≡ ok id
      → (text : String) × Delivers (do_request (ror_url <> "/v1/clusters/self") apikey) text
        × (unmarshal text ≡ inr id)
  with_request-ok (some e) apikey ror_url id h = cc
  with_request-ok none apikey ror_url id h =
      let answer = do_request (ror_url <> "/v1/clusters/self") apikey in
      let text = "could not get cluster self data from API, rorUrl: " <> ror_url in
      let (t, said, known) =
        >>=-eq-ok (replied "could not get data from ROR-API" text answer)
          (λ t. decoded (unmarshal t)) h in
      (
        t,
        (replied-ok "could not get data from ROR-API" text t answer).0 said,
        decoded-ok (unmarshal t) id known,
      )

  -- If GetOwnClusterId returns an identifier, the request was answered with a status of at most 299 and a
  -- body that can be read, and the identifier is the one of that body.
  pub get_own_cluster_id_lem :
      (apikey ror_url id : String)
      → get_own_cluster_id apikey ror_url ≡ ok id
      → (text : String) × Delivers (do_request (ror_url <> "/v1/clusters/self") apikey) text
        × (unmarshal text ≡ inr id)
  unfolding get_own_cluster_id
  get_own_cluster_id_lem apikey ror_url id h =
      with_request-ok (new_request (ror_url <> "/v1/clusters/self")) apikey ror_url id h
