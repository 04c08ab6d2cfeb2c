-- ===== src/NodeExporter/Samples.antt =====
-- What `queryPrometheus` of v2/internal/scheduler/nodeexporter.go reads of the samples of a reply.
use ror_agent.Prelude.{
  String, ◌==◌, ◌≡◌, refl, ap, subst, eqb, message, sprint, ◌<>◌, Bool, true, false, List, [], ◌∷◌,
  Assoc, lookup, lookup-insert, text_at, Option, none, some, ForeignError, Outcome, ok, err,
  >>=-eq-ok, ok-injective, ◌⊎◌, inl, inr, arith, eq_iff, if◌then◌else◌,
}
use ror_agent.NodeExporter.Prometheus.{
  Sample, QueryResult, Reply, Web, strip_port, host_or, scanned, read, add_samples, parsed,
  requested, body_of, failed, values_of, query_prometheus,
}

module _ {F U : Type 0} (web : Web F U) where
  -- The number of a sample, if it has a text that is one.
  abbrev scanned_number : ForeignError ⊎ F → Option F
  scanned_number (inl e) = none
  scanned_number (inr v) = some v

  abbrev number_of : ForeignError ⊎ String → Option F
  number_of (inl e) = none
  number_of (inr text) = scanned_number (web.scan text)

  abbrev host_of : Sample → String
  host_of r = let inst = text_at "instance" r.metric in host_or web inst (strip_port web inst)

  abbrev or_before : Option F → Option F → Option F
  or_before none before = before
  or_before (some v) before = some v

  abbrev if_host : Bool → Option F → Option F
  if_host b v = if b then v else none

  -- The last number that a sample of the host has.
  unfoldable pub last_number : String → List Sample → Option F
  unfolding strip_port
  last_number host [] = none
  last_number host (r ∷ rest) =
      let later = last_number host rest in
      or_before later (if_host (host_of r == host) (number_of r.value))

  lookup-read :
      (inst host : String) (value : ForeignError ⊎ String) (values : Assoc F)
      → lookup host (read web inst value values)
        ≡ or_before (if_host (inst == host) (number_of value)) (lookup host values)
  lookup-read inst host (inl e) values = no_number (inst == host) (lookup host values)
    where
      no_number : (b : Bool) (before : Option F) → before ≡ or_before (if_host b none) before
      no_number true before = refl
      no_number false before = refl
  lookup-read inst host (inr text) values = by_scan (web.scan text)
    where
      by_scan :
          (r : ForeignError ⊎ F)
          → lookup host (scanned web inst r values)
            ≡ or_before (if_host (inst == host) (scanned_number r)) (lookup host values)
      by_scan (inl e) = ground arith
      by_scan (inr v) = rw (lookup-insert inst host v values) (ground arith)

  or_before_assoc : (a b c : Option F) → or_before a (or_before b c) ≡ or_before (or_before a b) c
  or_before_assoc none b c = refl
  or_before_assoc (some v) b c = refl

  lookup-add_samples :
      (host : String) (samples : List Sample) (values : Assoc F)
      → lookup host (add_samples web samples values)
        ≡ or_before (last_number host samples) (lookup host values)
  unfolding add_samples last_number
  lookup-add_samples host [] values = refl
  lookup-add_samples host (r ∷ rest) values =
      rw
        (
          lookup-add_samples host rest (read web (host_of r) r.value values),
          lookup-read (host_of r) host r.value values,
        )
        (or_before_assoc (last_number host rest) (if_host (host_of r == host) (number_of r.value))
          (lookup host values))

  or_before-none : (a : Option F) → or_before a none ≡ a
  or_before-none none = refl
  or_before-none (some v) = refl

  values_of-ok :
      (q : QueryResult) (values : Assoc F)
      → values_of web q ≡ ok values
      → (q.status ≡ "success") × (add_samples web q.result [] ≡ values)
  values_of-ok q values h = ground (arith, eq_iff q.status "success")

  parsed-ok : (r : ForeignError ⊎ U) (u : U) → parsed web r ≡ ok u → r ≡ inr u
  parsed-ok (inl e) u h = cc
  parsed-ok (inr v) u h = ap inr (ok-injective h)

  failed-ok : {A : Type 0} (r : ForeignError ⊎ A) (a : A) → failed web r ≡ ok a → r ≡ inr a
  failed-ok (inl e) a h = cc
  failed-ok (inr b) a h = ap inr (ok-injective h)

  requested-ok :
      (e : Option ForeignError) (u : U) (r : Reply)
      → requested web e u ≡ ok r
      → web.do_request u ≡ inr r
  requested-ok (some e) u r h = cc
  requested-ok none u r h = failed-ok (web.do_request u) r h

  body_of-ok :
      (r : Reply) (body : String)
      → body_of web r ≡ ok body
      → (eqb r.status_code 200 ≡ true) × (r.body ≡ inr body)
  body_of-ok r body h = by_status (eqb r.status_code 200) h
    where
      refused : Outcome String
      refused = err (message ("prometheus returned status " <> sprint r.status_code))

      by_status :
          (b : Bool)
          → (if b then failed web r.body else refused) ≡ ok body
          → (b ≡ true) × (r.body ≡ inr body)
      by_status true k = (refl, failed-ok r.body body k)
      by_status false k = cc

  -- What a query that succeeds has read: a reply of status 200 whose body is a successful result.
  pub record Queried (base_url query : String) (values : Assoc F) : Type 0 where
    pub url : U
    pub parses : web.parse base_url ≡ inr url
    pub reply : Reply
    pub replies : web.do_request (web.with_query "/api/v1/query" query url) ≡ inr reply
    pub good_status : eqb reply.status_code 200 ≡ true
    pub body : String
    pub is_body : reply.body ≡ inr body
    pub result : QueryResult
    pub decodes : web.unmarshal body ≡ inr result
    pub succeeds : result.status ≡ "success"
    pub reads : (host : String) → lookup host values ≡ last_number host result.result

  read_values :
      (q : QueryResult) (values : Assoc F) (host : String)
      → values_of web q ≡ ok values
      → lookup host values ≡ last_number host q.result
  unfolding lookup
  read_values q values host h =
      subst (λ vs. lookup host vs ≡ last_number host q.result) (values_of-ok q values h).1
        (rw (lookup-add_samples host q.result []) (or_before-none (last_number host q.result)))

  -- If queryPrometheus returns values, then its URL was parsed, the request with the query was
  -- answered with status 200 and a body that can be read and decoded as a result of the status
  -- success, and the value of each host is the last number that a sample of the host has, where
  -- the port of an instance is left out.
  pub query_prometheus-Queried :
      (base_url query : String) (values : Assoc F)
      → query_prometheus web base_url query ≡ ok values
      → Queried base_url query values
  unfolding query_prometheus
  query_prometheus-Queried base_url query values h =
      let (u, p1, h1) = >>=-eq-ok (parsed web (web.parse base_url)) _ h in
      let u' = web.with_query "/api/v1/query" query u in
      let (r, p2, h2) = >>=-eq-ok (requested web (web.new_request u') u') _ h1 in
      let (body, p3, h3) = >>=-eq-ok (body_of web r) _ h2 in
      let (q, p4, h4) = >>=-eq-ok (failed web (web.unmarshal body)) _ h3 in
      let (good, is_body) = body_of-ok r body p3 in
      record {
        url = u;
        parses = parsed-ok (web.parse base_url) u p1;
        reply = r;
        replies = requested-ok (web.new_request u') u' r p2;
        good_status = good;
        body = body;
        is_body = is_body;
        result = q;
        decodes = failed-ok (web.unmarshal body) q p4;
        succeeds = (values_of-ok q values h4).0;
        reads = λ host. read_values q values host h4;
      }
