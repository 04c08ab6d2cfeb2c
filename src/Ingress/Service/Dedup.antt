-- ===== src/Ingress/Service/Dedup.antt =====
-- The loop of `GetIngressService` over endpoint slices, and the keys by which it knows endpoints.
use ror_agent.Prelude.{
  String, ◌≡◌, refl, ap, sym, ◌∙◌, inl, inr, Bool, true, false, ◌||◌, ◌&&◌, not, List, [], ◌∷◌,
  ◌++◌, map, arith, eq_iff, Bool-cases,
}
use ror_agent.Ingress.Types.{EndpointAddress, K8sEndpoint}
use ror_agent.Ingress.Health.{contains}
use ror_agent.Ingress.Service.{address, key, collect_endpoints, collect_slices}

-- The keys of a list of addresses.
unfoldable pub keys : List EndpointAddress → List String
keys [] = []
keys (a ∷ as') = key a ∷ keys as'

-- No text stands twice in the list.
unfoldable pub distinct : List String → Bool
unfolding contains
distinct [] = true
distinct (x ∷ xs) = not (contains xs x) && distinct xs

-- The endpoints of the slices, one slice after another.
unfoldable pub all_addresses : List (List K8sEndpoint) → List EndpointAddress
all_addresses [] = []
all_addresses (slice ∷ slices) = map address slice ++ all_addresses slices

-- What the loops keep: the set of keys is that of the addresses collected, which are distinct.
record Inv (s : List String × List EndpointAddress) : Type 0 where
  same : (k : String) → contains s.0 k ≡ contains (keys s.1) k
  apart : distinct (keys s.1) ≡ true

keys-append :
    (xs : List EndpointAddress) (a : EndpointAddress) → keys (xs ++ a ∷ []) ≡ keys xs ++ key a ∷ []
unfolding keys
keys-append [] a = refl
keys-append (x ∷ xs) a = ap (λ t. key x ∷ t) (keys-append xs a)

contains-append :
    (xs ys : List String) (k : String) → contains (xs ++ ys) k ≡ (contains xs k || contains ys k)
unfolding contains
contains-append [] ys k = refl
contains-append (x ∷ xs) ys k = ground (arith, contains-append xs ys k)

distinct-append :
    (xs : List String) (k : String)
    → contains xs k ≡ false
    → distinct xs ≡ true
    → distinct (xs ++ k ∷ []) ≡ true
unfolding distinct
distinct-append [] k h d = refl
distinct-append (x ∷ xs) k h d =
    ground (arith, distinct-append xs k, contains-append xs (k ∷ []) x, eq_iff x k, eq_iff k x)

add_key :
    (seen : List String) (out : List EndpointAddress) (a : EndpointAddress)
    → contains seen (key a) ≡ false
    → Inv (seen, out)
    → Inv (key a ∷ seen, out ++ a ∷ [])
unfolding contains
add_key seen out a h v = record {
  same = λ k.
      rw (keys-append out a) (ground (arith, contains-append (keys out) (key a ∷ []) k, v.same k));
  apart =
      rw (keys-append out a)
        (distinct-append (keys out) (key a) (sym (v.same (key a)) ∙ h) v.apart);
}

collect_endpoints-Inv :
    (es : List K8sEndpoint) (s : List String × List EndpointAddress)
    → Inv s
    → Inv (collect_endpoints es s)
unfolding collect_endpoints
collect_endpoints-Inv [] s v = v
collect_endpoints-Inv (e ∷ es) (seen, out) v = elim (Bool-cases (contains seen (key (address e)))) [
  | inl h ↦ rw h (collect_endpoints-Inv es (seen, out) v)
  | inr h ↦ rw h (
      collect_endpoints-Inv es (key (address e) ∷ seen, out ++ address e ∷ [])
        (add_key seen out (address e) h v))
]

collect_slices-Inv :
    (slices : List (List K8sEndpoint)) (s : List String × List EndpointAddress)
    → Inv s
    → Inv (collect_slices slices s)
unfolding collect_slices
collect_slices-Inv [] s v = v
collect_slices-Inv (slice ∷ slices) s v =
    collect_slices-Inv slices (collect_endpoints slice s) (collect_endpoints-Inv slice s v)

contains-collect_endpoints :
    (es : List K8sEndpoint) (s : List String × List EndpointAddress) (k : String)
    → contains (collect_endpoints es s).0 k ≡ (contains (keys (map address es)) k || contains s.0 k)
unfolding collect_endpoints contains keys
contains-collect_endpoints [] s k = refl
contains-collect_endpoints (e ∷ es) (seen, out) k =
    elim (Bool-cases (contains seen (key (address e)))) [
      | inl h ↦
          ground (arith, contains-collect_endpoints es (seen, out) k, eq_iff (key (address e)) k)
      | inr h ↦
          ground
            (arith, contains-collect_endpoints es (key (address e) ∷ seen, out ++ address e ∷ []) k)
    ]

keys-all : (xs ys : List EndpointAddress) → keys (xs ++ ys) ≡ keys xs ++ keys ys
unfolding keys
keys-all [] ys = refl
keys-all (x ∷ xs) ys = ap (λ t. key x ∷ t) (keys-all xs ys)

contains-collect_slices :
    (slices : List (List K8sEndpoint)) (s : List String × List EndpointAddress) (k : String)
    → contains (collect_slices slices s).0 k
      ≡ (contains (keys (all_addresses slices)) k || contains s.0 k)
unfolding collect_slices all_addresses
contains-collect_slices [] s k = unfold contains keys in refl
contains-collect_slices (slice ∷ slices) s k = ground (
  arith,
  contains-collect_slices slices (collect_endpoints slice s) k,
  contains-collect_endpoints slice s k,
  keys-all (map address slice) (all_addresses slices),
  contains-append (keys (map address slice)) (keys (all_addresses slices)) k,
)

-- The endpoints that GetIngressService collects of endpoint slices have distinct keys, and a text
-- is a key of theirs exactly if it is one of an endpoint of the slices.
pub collect_slices_lem :
    (slices : List (List K8sEndpoint)) (k : String)
    → let found = keys (collect_slices slices ([], [])).1 in
      (distinct found ≡ true) × (contains found k ≡ contains (keys (all_addresses slices)) k)
collect_slices_lem slices k =
    let v = collect_slices-Inv slices ([], []) nothing_yet in
    (v.apart, ground (arith, v.same k, contains-collect_slices slices ([], []) k, nothing_seen))
  where
    nothing_yet : Inv ([], [])
    nothing_yet = record {
      same = λ j. unfold contains keys in refl;
      apart = unfold distinct keys in refl;
    }

    nothing_seen : contains [] k ≡ false
    nothing_seen = unfold contains in refl
