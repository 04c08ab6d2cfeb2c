-- ===== src/Resource/Cleanup.antt =====
-- What `removeUnnecessaryDataFromObject` leaves of an object.
use ror_agent.Prelude.{
  String, ◌≡◌, refl, false, inl, inr, none, some, arith, ◌==◌, Option-cases, if◌then◌else◌,
}
use ror_agent.Resource.Json.{Members, object, find, remove, find-put, find-remove, find-is_empty}
use ror_agent.Resource.{
  as_object, or_empty, last_applied, without_last_applied, remove_unnecessary_data_from_object,
}

-- The members of an object's metadata, and of its annotations; none, if they are no objects.
unfoldable pub metadata : Members → Members
metadata obj = or_empty (as_object (find "metadata" obj))

unfoldable pub annotations : Members → Members
unfolding metadata
annotations obj = or_empty (as_object (find "annotations" (metadata obj)))

find-end : (j : String) → find j Members.end ≡ none
unfolding find
find-end j = refl

annotation_kept :
    (md ann : Members) (j : String)
    → as_object (find "annotations" md) ≡ some ann
    → find j (or_empty (as_object (find "annotations" (without_last_applied md ann))))
      ≡ (if last_applied == j then none else find j ann)
unfolding without_last_applied
annotation_kept md ann j e = ground (
  arith,
  find-put "annotations" "annotations" (object (remove last_applied ann)) md,
  find-remove "annotations" "annotations" md,
  find-remove last_applied j ann,
  find-is_empty j (remove last_applied ann),
  find-end j,
)

other_kept :
    (md ann : Members) (j : String)
    → ("annotations" == j) ≡ false
    → find j (without_last_applied md ann) ≡ find j md
unfolding without_last_applied
other_kept md ann j h = ground (
  arith,
  find-put "annotations" j (object (remove last_applied ann)) md,
  find-remove "annotations" j md,
)

-- removeUnnecessaryDataFromObject takes the last applied configuration off the annotations of an
-- object and leaves every other annotation.
pub annotations-remove_unnecessary :
    (obj : Members) (j : String)
    → find j (annotations (remove_unnecessary_data_from_object obj))
      ≡ (if last_applied == j then none else find j (annotations obj))
unfolding annotations remove_unnecessary_data_from_object
annotations-remove_unnecessary obj j = elim (Option-cases (as_object (find "metadata" obj))) [
  | inl e ↦ ground (arith, find-end j, find-end "annotations")
  | inr (md, e) ↦ elim (Option-cases (as_object (find "annotations" md))) [
    | inl a ↦ ground (arith, find-end j)
    | inr (ann, a) ↦ ground (
      arith,
      annotation_kept md ann j a,
      find-put "metadata" "metadata" (object (without_last_applied md ann)) obj,
    )
  ]
]

-- removeUnnecessaryDataFromObject leaves every metadata of an object but its annotations, and
-- every member of the object but its metadata.
pub remove_unnecessary_rest :
    (obj : Members) (j k : String)
    → ("annotations" == j) ≡ false
    → ("metadata" == k) ≡ false
    → (find j (metadata (remove_unnecessary_data_from_object obj)) ≡ find j (metadata obj))
      × (find k (remove_unnecessary_data_from_object obj) ≡ find k obj)
unfolding metadata remove_unnecessary_data_from_object
remove_unnecessary_rest obj j k h h' = elim (Option-cases (as_object (find "metadata" obj))) [
  | inl e ↦ ground arith
  | inr (md, e) ↦ elim (Option-cases (as_object (find "annotations" md))) [
    | inl a ↦ ground arith
    | inr (ann, a) ↦
        let new = object (without_last_applied md ann) in
        ground (
          arith,
          other_kept md ann j h,
          find-put "metadata" "metadata" new obj,
          find-put "metadata" k new obj,
        )
  ]
]
