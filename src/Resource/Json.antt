-- ===== src/Resource/Json.antt =====
-- JSON data, and the operations of Go's maps on its objects.
use ror_agent.Prelude.{
  ℕ, String, ◌≡◌, refl, Bool, true, false, Option, none, some, arith, ◌==◌, eq_iff, if◌then◌else◌,
}

mutual
  pub data Value : Type 0 where
    null : Value
    bool : Bool → Value
    number : ℕ → Value
    text : String → Value
    array : Items → Value
    object : Members → Value

  pub data Items : Type 0 where
    nil : Items
    cons : Value → Items → Items

  pub data Members : Type 0 where
    end : Members
    member : String → Value → Members → Members

-- v, ok := m[k]
unfoldable pub find : String → Members → Option Value
find k end = none
find k (member j v m) = if j == k then some v else find k m

-- m[k] = v
unfoldable pub put : String → Value → Members → Members
put k v end = member k v end
put k v (member j w m) = let rest = put k v m in if j == k then member k v m else member j w rest

-- delete(m, k)
unfoldable pub remove : String → Members → Members
remove k end = end
remove k (member j v m) = let rest = remove k m in if j == k then rest else member j v rest

-- len(m) == 0
unfoldable pub is_empty : Members → Bool
is_empty end = true
is_empty (member k v m) = false

pub find-put :
    (k j : String) (v : Value) (m : Members)
    → find j (put k v m) ≡ (if k == j then some v else find j m)
unfolding find put
find-put k j v end = refl
find-put k j v (member i w m) = ground (arith, eq_iff k j, eq_iff i k, eq_iff i j, find-put k j v m)

pub find-remove :
    (k j : String) (m : Members) → find j (remove k m) ≡ (if k == j then none else find j m)
unfolding find remove
find-remove k j end = ground arith
find-remove k j (member i v m) =
    ground (arith, find-remove k j m, eq_iff i k, eq_iff i j, eq_iff k j)

-- An object with no member has no value at any key.
pub find-is_empty : (j : String) (m : Members) → is_empty m ≡ true → find j m ≡ none
unfolding find is_empty
find-is_empty j end h = refl
find-is_empty j (member k v m) h = cc
