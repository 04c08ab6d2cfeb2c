-- ===== src/Tests/Objects.antt =====
-- Runs of internal/models/rorResources.
use ror_agent.Prelude.{ℕ, String, ◌≡◌, refl, false, Option, none, some, arith, ◌==◌, ap}
use ror_agent.Resource.Json.{Value, Members, object, text, member, end, find, put, remove, is_empty}
use ror_agent.Resource.Kinds.{payload_type, pod}
use ror_agent.Resource.{
  Libraries, last_applied, remove_unnecessary_data_from_object, calculate_hash_from_object,
}
use ror_agent.Resource.Cleanup.{metadata}
use ror_agent.Resource.Hash.{is_volatile, SameContent, DigestOfJson, calculate_hash-SameContent}

pod_kind : payload_type "v1" "Pod" ≡ some pod
unfolding payload_type
pod_kind = refl

no_kind : payload_type "v1" "Ingress" ≡ none
unfolding payload_type
no_kind = refl

-- An object with its metadata at a version.
abbrev pub at_version : String → Members
at_version v = member "kind" (text "Pod") (
    member "metadata"
      (object (
        member "uid" (text "u1") (
          member "resourceVersion" (text v)
            (member "annotations" (object (member last_applied (text "{}") end)) end))))
      end)

cleaned :
    remove_unnecessary_data_from_object (at_version "7")
    ≡ member "kind" (text "Pod") (
        member "metadata"
          (object (member "uid" (text "u1") (member "resourceVersion" (text "7") end)))
          end)
unfolding remove_unnecessary_data_from_object find put remove is_empty
cleaned = refl

abbrev text_of : Option Value → String
text_of (some (text s)) = s
text_of _ = ""

abbrev uid_of : Option Value → String
uid_of (some (object m)) = text_of (find "uid" m)
uid_of _ = ""

abbrev pub libraries : Libraries ℕ
libraries = record {
  get_api_version = λ m. "v1";
  get_kind = λ m. text_of (find "kind" m);
  get_uid = λ m. uid_of (find "metadata" m);
  convert = λ t m. (1, none);
  digest = λ m. (text_of (find "kind" m), none);
}

digest_of_json : DigestOfJson libraries
digest_of_json a b s = ap (λ v. (text_of v, none)) (s.outside "kind" refl)

same_content : SameContent (at_version "7") (at_version "8")
same_content = record { outside = same_outside; inside = same_inside }
  where
    same_outside :
        (k : String) → ("metadata" == k) ≡ false → find k (at_version "7") ≡ find k (at_version "8")
    same_outside k h = unfold find in ground arith

    same_inside :
        (k : String)
        → is_volatile k ≡ false
        → find k (metadata (at_version "7")) ≡ find k (metadata (at_version "8"))
    same_inside k h = unfold find metadata in ground arith

calculate_hash-SameContent_example :
    calculate_hash_from_object libraries (at_version "7")
    ≡ calculate_hash_from_object libraries (at_version "8")
calculate_hash-SameContent_example =
    calculate_hash-SameContent libraries (at_version "7") (at_version "8") digest_of_json
      same_content
