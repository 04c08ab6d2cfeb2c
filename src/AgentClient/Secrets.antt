-- ===== src/AgentClient/Secrets.antt =====
-- What the update of the secret writes.
use ror_agent.Prelude.{
  String, ◌==◌, ◌≡◌, refl, ap, sym, ◌∙◌, Bool, true, false, ◌&&◌, not, Assoc, text_at, insert,
  lookup-insert, ok, ◌>>=◌, inl, inr, arith, eq_refl, eq_iff, Bool-cases, Option-cases,
  ok-injective, >>=-eq-ok, if◌then◌else◌,
}
use ror_agent.AgentClient.{
  Secret, Agent, unknown_cluster_id, unknown_api_key, field, put_field, update_field,
  updated_secret,
}

-- The value of a field after an update.
abbrev value_after : Bool → String → String → String
value_after known new old = if known then new else old

text_at-insert :
    (k j v : String) (m : Assoc String)
    → text_at j (insert k v m) ≡ (if k == j then v else text_at j m)
unfolding text_at
text_at-insert k j v m = ground (arith, lookup-insert k j v m)

field-put_field :
    (k j v : String) (s s' : Secret)
    → put_field k v s ≡ ok s'
    → field j s' ≡ (if k == j then v else field j s)
unfolding field put_field
field-put_field k j v s s' h = elim (Option-cases s.fields) [
  | inl e ↦ absurd (cc (rw e at h))
  | inr (m, e) ↦ ap (field j) (sym (ok-injective (rw e at h))) ∙ rw e (text_at-insert k j v m)
]

-- One update: the field has the value, if it is known, and every other field is as before.
field-update_field :
    (k j v : String) (known : Bool) (s s' : Secret) (b b' : Bool)
    → update_field k v known (s, b) ≡ ok (s', b')
    → field j s' ≡ (if known && (k == j) then v else field j s)
unfolding update_field
field-update_field k j v false s s' b b' h = sym (ap (λ t. field j t.0) (ok-injective h))
field-update_field k j v true s s' b b' h = elim (Bool-cases (field k s == v)) [
  | inl e ↦
      let same = ap (λ t. field j t.0) (ok-injective (rw e at h)) in
      ground (arith, same, eq_iff k j, eq_iff (field k s) v)
  | inr e ↦
      let (t, put, done) = >>=-eq-ok (put_field k v s) (λ t. ok (t, true)) (rw e at h) in
      let same = ap (λ t. field j t.0) (ok-injective done) in
      ground (arith, same, field-put_field k j v s t put)
]

module _ {W : Type 0} where
  -- The value of a field after all three updates.
  abbrev pub written : Agent W → String → String → String
  written a j old =
      let key = value_after (not (a.api_key == unknown_api_key) && ("APIKEY" == j)) a.api_key old in
      let id =
        value_after (not (a.identifier == unknown_cluster_id) && ("CLUSTER_ID" == j)) a.identifier
          key in
      value_after (not (a.config_cluster_uid == "") && ("CLUSTER_UID" == j)) a.config_cluster_uid id

  -- If the update of the secret does not panic, then its APIKEY, CLUSTER_ID and CLUSTER_UID are
  -- the agent's key, identifier and uid, each if the agent knows it, and every other field is as
  -- before.
  pub field-updated_secret :
      (a : Agent W) (s s' : Secret) (b : Bool) (j : String)
      → updated_secret a s ≡ ok (s', b)
      → field j s' ≡ written a j (field j s)
  unfolding updated_secret
  field-updated_secret a s s' b j h =
      let known_key = not (a.api_key == unknown_api_key) in
      let known_id = not (a.identifier == unknown_cluster_id) in
      let known_uid = not (a.config_cluster_uid == "") in
      let key = update_field "APIKEY" a.api_key known_key (s, false) in
      let put_id = update_field "CLUSTER_ID" a.identifier known_id in
      let put_uid = update_field "CLUSTER_UID" a.config_cluster_uid known_uid in
      let ((s2, b2), h2, h3) = >>=-eq-ok (key >>= put_id) put_uid h in
      let ((s1, b1), h1, h1') = >>=-eq-ok key put_id h2 in
      field-update_field "CLUSTER_UID" j a.config_cluster_uid known_uid s2 s' b2 b h3
      ∙ ap (value_after (known_uid && ("CLUSTER_UID" == j)) a.config_cluster_uid) (
          field-update_field "CLUSTER_ID" j a.identifier known_id s1 s2 b1 b2 h1'
          ∙ ap (value_after (known_id && ("CLUSTER_ID" == j)) a.identifier)
              (field-update_field "APIKEY" j a.api_key known_key s s1 false b1 h1))

update_field_same :
    (k v : String) (known : Bool) (s : Secret) (b : Bool)
    → (known ≡ true → field k s ≡ v)
    → update_field k v known (s, b) ≡ ok (s, b)
unfolding update_field
update_field_same k v false s b h = refl
update_field_same k v true s b h = rw (h refl, eq_refl v)

module _ {W : Type 0} where
  -- If the update of a secret does not panic, the same update of the secret that it makes changes
  -- nothing and reports no change.
  pub updated_secret_twice :
      (a : Agent W) (s s' : Secret) (b : Bool)
      → updated_secret a s ≡ ok (s', b)
      → updated_secret a s' ≡ ok (s', false)
  unfolding updated_secret
  updated_secret_twice a s s' b h = rw (
    update_field_same "APIKEY" a.api_key (not (a.api_key == unknown_api_key)) s' false
        (λ k. field-updated_secret a s s' b "APIKEY" h ∙ ground arith),
    update_field_same "CLUSTER_ID" a.identifier (not (a.identifier == unknown_cluster_id)) s' false
        (λ k. field-updated_secret a s s' b "CLUSTER_ID" h ∙ ground arith),
    update_field_same "CLUSTER_UID" a.config_cluster_uid (not (a.config_cluster_uid == "")) s' false
        (λ k. field-updated_secret a s s' b "CLUSTER_UID" h ∙ ground arith),
  )
