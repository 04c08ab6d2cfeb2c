-- ===== src/Resource.antt =====
-- internal/models/rorResources/resourcestype.go: how the agent reads a Kubernetes object, and what it
-- sends of it. A value of Go's `any` that JSON can stand for is a `Value`, a `map[string]any` is a
-- `Members`; a nil map of JSON data is the empty one.
pub mod Json
pub mod Kinds
pub mod Cleanup
pub mod Hash
use ror_agent.Prelude.{
  String, ◌<>◌, Bool, true, false, Option, none, some, Error, message, Outcome, ok, err, panic,
  if◌then◌else◌,
}
use Json.{Value, Members, object, null, find, put, remove, is_empty}
use Kinds.{PayloadType, payload_type}
use ror_agent.WorkQueue.{Action, OwnerReference, Update}

-- What the agent calls of Kubernetes' `unstructured`, of its converter, and of `encoding/json` and
-- `crypto/md5`: the getters, the cast to a payload model of type `P`, and the hexadecimal digest
-- of a map's JSON text (an error if it cannot be marshalled).
pub record Libraries (P : Type 0) : Type 0 where
  pub get_api_version : Members → String
  pub get_kind : Members → String
  pub get_uid : Members → String
  pub convert : PayloadType → Members → P × Option Error
  pub digest : Members → String × Option Error

-- `rorResource`; the payload `none` is nil
pub record RorResource (P : Type 0) : Type 0 where
  pub api_version : String
  pub kind : String
  pub uid : String
  pub hash : String
  pub resource : Option P

-- obj[key].(map[string]any)
abbrev pub as_object : Option Value → Option Members
as_object (some (object ms)) = some ms
as_object _ = none

abbrev pub or_empty : Option Members → Members
or_empty none = Members.end
or_empty (some ms) = ms

abbrev pub last_applied : String
last_applied = "kubectl.kubernetes.io/last-applied-configuration"

without_last_applied : Members → Members → Members
without_last_applied md ann =
    let ann' = remove last_applied ann in
    if is_empty ann' then remove "annotations" md else put "annotations" (object ann') md

unfoldable pub remove_unnecessary_data_from_object : Members → Members
unfolding without_last_applied
remove_unnecessary_data_from_object obj = elim (as_object (find "metadata" obj)) [
  | none ↦ obj
  | some md ↦ elim (as_object (find "annotations" md)) [
    | none ↦ obj
    | some ann ↦ put "metadata" (object (without_last_applied md ann)) obj
  ]
]

-- The map that is hashed: the object with a copy of its metadata where three fields are null.
unfoldable pub hash_object : Members → Members
hash_object obj =
    let md = or_empty (as_object (find "metadata" obj)) in
    put "metadata"
      (object
        (put "generation" null (put "creationTimestamp" null (put "resourceVersion" null md))))
      obj

module _ {P : Type 0} (libs : Libraries P) where
  unfoldable pub calculate_hash_from_object : Members → String × Option Error
  calculate_hash_from_object obj = libs.digest (hash_object obj)

  -- `getResourceFromObject`: the payload is stored also where the cast fails.
  unfoldable pub get_resource_from_object : RorResource P → Members → RorResource P × Option Error
  get_resource_from_object r obj = elim (payload_type r.api_version r.kind) [
    | none ↦ (r, some (message ("no handler found for " <> r.api_version <> "/" <> r.kind)))
    | some t ↦ let (payload, e) = libs.convert t obj in (record r { resource = some payload }, e)
  ]

  abbrev with_hash : RorResource P → Members → String × Option Error → RorResource P × Option Error
  with_hash r obj (h, some e) = (r, some e)
  with_hash r obj (h, none) = get_resource_from_object (record r { hash = h }) obj

  abbrev blank : RorResource P
  blank = record { api_version = ""; kind = ""; uid = ""; hash = ""; resource = none }

  -- `NewFromUnstructured` of a pointer (nil is `none`) to a struct whose map may be nil.
  unfoldable pub new_from_unstructured : Option (Option Members) → RorResource P × Option Error
  new_from_unstructured none = (blank, some (message "input is nil"))
  new_from_unstructured (some none) = (blank, some (message "input.Object is nil"))
  new_from_unstructured (some (some obj)) =
      let obj' = remove_unnecessary_data_from_object obj in
      let r : RorResource P = record {
        api_version = libs.get_api_version obj;
        kind = libs.get_kind obj;
        uid = libs.get_uid obj;
        hash = "";
        resource = none;
      } in
      with_hash r obj' (calculate_hash_from_object obj')

module _ {P : Type 0} where
  unfoldable pub new_resource_update_model :
      RorResource P → OwnerReference → Action → Update (Option P)
  new_resource_update_model r owner action = record {
    owner = owner;
    api_version = r.api_version;
    kind = r.kind;
    uid = r.uid;
    action = action;
    hash = r.hash;
    resource = r.resource;
  }
