-- ===== src/Resource/Hash.antt =====
-- What `calculateHashFromObject` depends on.
use ror_agent.Prelude.{
  String, ◌≡◌, ◌∙◌, sym, Bool, false, inl, inr, ◌||◌, some, arith, ◌==◌, Bool-cases, if◌then◌else◌,
}
use ror_agent.Resource.Json.{Members, object, null, find, put, find-put}
use ror_agent.Resource.{Libraries, hash_object, calculate_hash_from_object}
use ror_agent.Resource.Cleanup.{metadata}

-- The metadata that changes with no change of the object's content.
abbrev pub is_volatile : String → Bool
is_volatile k = "resourceVersion" == k || "creationTimestamp" == k || "generation" == k

-- Two objects that differ at most in volatile metadata.
pub record SameContent (a b : Members) : Type 0 where
  pub outside : (k : String) → ("metadata" == k) ≡ false → find k a ≡ find k b
  pub inside : (k : String) → is_volatile k ≡ false → find k (metadata a) ≡ find k (metadata b)

-- Equal as JSON: the same members, whose order in the map is no matter, down to the metadata.
pub record SameJson (a b : Members) : Type 0 where
  pub outside : (k : String) → ("metadata" == k) ≡ false → find k a ≡ find k b
  pub inner_a : Members
  pub inner_b : Members
  pub metadata_a : find "metadata" a ≡ some (object inner_a)
  pub metadata_b : find "metadata" b ≡ some (object inner_b)
  pub inside : (k : String) → find k inner_a ≡ find k inner_b

nulled : Members → Members
nulled md = put "generation" null (put "creationTimestamp" null (put "resourceVersion" null md))

find-nulled :
    (k : String) (md : Members)
    → find k (nulled md) ≡ (if is_volatile k then some null else find k md)
unfolding nulled
find-nulled k md = ground (
  arith,
  find-put "generation" k null (put "creationTimestamp" null (put "resourceVersion" null md)),
  find-put "creationTimestamp" k null (put "resourceVersion" null md),
  find-put "resourceVersion" k null md,
)

hash_object_parts :
    (a : Members)
    → (find "metadata" (hash_object a) ≡ some (object (nulled (metadata a))))
      × ((k : String) → ("metadata" == k) ≡ false → find k (hash_object a) ≡ find k a)
unfolding hash_object nulled metadata
hash_object_parts a = (
  ground (arith, find-put "metadata" "metadata" (object (nulled (metadata a))) a),
  λ k h. ground (arith, find-put "metadata" k (object (nulled (metadata a))) a),
)

inside-nulled :
    (a b : Members)
    → SameContent a b
    → (k : String) → find k (nulled (metadata a)) ≡ find k (nulled (metadata b))
inside-nulled a b s k = elim (Bool-cases (is_volatile k)) [
  | inl v ↦ ground (arith, find-nulled k (metadata a), find-nulled k (metadata b))
  | inr v ↦ ground (arith, find-nulled k (metadata a), find-nulled k (metadata b), s.inside k v)
]

pub hash_object-SameJson :
    (a b : Members) → SameContent a b → SameJson (hash_object a) (hash_object b)
hash_object-SameJson a b s = record {
  outside = λ k h. (hash_object_parts a).1 k h ∙ s.outside k h ∙ sym ((hash_object_parts b).1 k h);
  inner_a = nulled (metadata a);
  inner_b = nulled (metadata b);
  metadata_a = (hash_object_parts a).0;
  metadata_b = (hash_object_parts b).0;
  inside = inside-nulled a b s;
}

-- The digest of a JSON text depends on the members of the maps alone: `json.Marshal` sorts them.
abbrev pub DigestOfJson : {P : Type 0} → Libraries P → Type 0
DigestOfJson libs = (a b : Members) → SameJson a b → libs.digest a ≡ libs.digest b

-- If the digest of an object depends on the members of its maps alone, two objects that agree
-- outside their metadata, and in their metadata but for the resource version, the creation time
-- and the generation, have one hash.
pub calculate_hash-SameContent :
    {P : Type 0} (libs : Libraries P) (a b : Members)
    → DigestOfJson libs
    → SameContent a b
    → calculate_hash_from_object libs a ≡ calculate_hash_from_object libs b
unfolding calculate_hash_from_object
calculate_hash-SameContent libs a b d s = d _ _ (hash_object-SameJson a b s)
