-- ===== src/ResourceCache/Mirror/Sends.antt =====
-- What one send of internal/services/resourceupdate does to what the ROR API holds of a uid.
use ror_agent.Prelude.{
  ℕ, String, ◌==◌, eq_refl, ◌≡◌, refl, sym, ◌∙◌, ◌⊎◌, inl, inr, Bool, true, false, Option, none,
  some, Error, List, [], ◌∷◌, arith, if◌then◌else◌,
}
use ror_agent.WorkQueue.{Action, add, update, delete, other, Update}
use ror_agent.WorkQueue.Pending.{pending, pending-enqueue}
use ror_agent.ResourceCache.{
  Services, Cache, delete_all, send_if_needed, dispatch, marked, send_or_queue, queued,
  send_resource_update_to_ror,
}
use ror_agent.ResourceCache.Active.{lists}
use ror_agent.ResourceCache.Mirror.{IsSight, MirrorLaws}

module _ {P W H : Type 0} (services : Services P W H) (stored : String → W → Option String)
    (known : String → H → Option String) (laws : MirrorLaws services stored known) where
  -- What the hash list knows of the uid is what the API holds.
  abbrev pub Sound : String → Cache P H × W → Type 0
  Sound j (c, w) = (x : String) → known j c.hash_list ≡ some x → stored j w ≡ some x

  -- The uid waits in the queue, or the API holds what the update says and the hash list is right.
  abbrev pub Seen : Update P → Cache P H × W → Type 0
  Seen u (c, w) =
      (pending u.uid c.workqueue ≡ true) ⊎ ((stored u.uid w ≡ some u.hash) × Sound u.uid (c, w))

  pending-queued :
      (now : ℕ) (u : Update P) (c : Cache P H)
      → pending u.uid (queued services now u c).workqueue ≡ true
  pending-queued now u c = ground (arith, pending-enqueue now u c.workqueue u.uid, eq_refl u.uid)

  sent_holds :
      (u : Update P) (w : W)
      → IsSight u.action
      → (send_resource_update_to_ror services u w).0 ≡ none
      → stored u.uid (send_resource_update_to_ror services u w).1 ≡ some u.hash
  unfolding send_resource_update_to_ror
  sent_holds u w = by_kind u.action
    where
      by_kind :
          (a : Action)
          → IsSight a
          → (dispatch services a u w).0 ≡ none
          → stored u.uid (dispatch services a u w).1 ≡ some u.hash
      by_kind add h e = laws.creates u w e
      by_kind update h e = laws.updates u w e
      by_kind delete h e = elim h [ ]
      by_kind (other _) h e = elim h [ ]

  known-Sound :
      (j hash : String) (c : Cache P H) (w : W)
      → known j c.hash_list ≡ some hash
      → stored j w ≡ some hash
      → Sound j (c, w)
  known-Sound j hash c w k h x e = h ∙ sym k ∙ e

  send_or_queue-Seen :
      (now : ℕ) (u : Update P) (c : Cache P H) (w : W)
      → IsSight u.action
      → Seen u (send_or_queue services true now u c w)
  send_or_queue-Seen now u c w h = by_result sent.0 refl
    where
      sent : Option Error × W
      sent = send_resource_update_to_ror services u w

      c' : Cache P H
      c' = record c { hash_list = services.update_hash u.uid u.hash c.hash_list }

      by_result :
          (failed : Option Error)
          → sent.0 ≡ failed
          → Seen u
              (elim failed [ some e ↦ (queued services now u c, sent.1) | none ↦ (c', sent.1) ])
      by_result (some e) q = inl (pending-queued now u c)
      by_result none q =
          let held = sent_holds u w h q in
          inr (held, known-Sound u.uid u.hash c' sent.1 (laws.store u.uid u.hash c.hash_list) held)

  marked_keeps :
      (j : String) (u : Update P) (c : Cache P H)
      → known j (marked services u c).hash_list ≡ known j c.hash_list
  marked_keeps j u c = ground (arith, laws.mark_keeps j u.uid c.hash_list)

  checked : Update P → Cache P H → Bool × H
  checked u c = services.check_update_needed u.uid u.hash (marked services u c).hash_list

  with_checked : Update P → Cache P H → Cache P H
  unfolding checked
  with_checked u c = record (marked services u c) { hash_list = (checked u c).1 }

  -- What holds where the hash list asks for the update, and where it does not.
  by_check :
      (Q : Cache P H × W → Type 0) (now : ℕ) (u : Update P) (c : Cache P H) (w : W)
      → ((checked u c).0 ≡ true → Q (send_or_queue services true now u (with_checked u c) w))
      → ((checked u c).0 ≡ false → Q (with_checked u c, w))
      → Q (send_if_needed services now u c w)
  unfolding send_if_needed checked with_checked
  by_check Q now u c w asked unasked = go (checked u c).0 refl
    where
      go :
          (needed : Bool)
          → (checked u c).0 ≡ needed
          → Q (
              if needed
              then send_or_queue services true now u (with_checked u c) w
              else (with_checked u c, w))
      go true e = asked e
      go false e = unasked e

  checked_keeps :
      (j : String) (u : Update P) (c : Cache P H)
      → known j (with_checked u c).hash_list ≡ known j c.hash_list
  unfolding checked with_checked
  checked_keeps j u c =
      laws.check_keeps j u.uid u.hash (marked services u c).hash_list ∙ marked_keeps j u c

  checked_pending :
      (j : String) (u : Update P) (c : Cache P H)
      → pending j (with_checked u c).workqueue ≡ pending j c.workqueue
  unfolding with_checked
  checked_pending j u c = ground arith

  pub send_if_needed-Seen :
      (now : ℕ) (u : Update P) (c : Cache P H) (w : W)
      → IsSight u.action
      → Sound u.uid (c, w)
      → Seen u (send_if_needed services now u c w)
  unfolding checked
  send_if_needed-Seen now u c w h sound =
      by_check (Seen u) now u c w (λ e. send_or_queue-Seen now u (with_checked u c) w h)
        (λ e.
          let k = sym (marked_keeps u.uid u c) ∙ laws.check u.uid u.hash _ e in
          let held = sound u.hash k in
          inr (
            held,
            known-Sound u.uid u.hash (with_checked u c) w (checked_keeps u.uid u c ∙ k) held,
          ))

  -- What the agent holds of the uid is left as it was.
  abbrev pub Kept : String → Cache P H × W → Cache P H × W → Type 0
  Kept j (c, w) (c', w') =
      (stored j w' ≡ stored j w)
      × (known j c'.hash_list ≡ known j c.hash_list)
      × (pending j c'.workqueue ≡ pending j c.workqueue)

  sent_other :
      (j : String) (a : Action) (u : Update P) (w : W)
      → (u.uid == j) ≡ false
      → stored j (dispatch services a u w).1 ≡ stored j w
  sent_other j add u w n = laws.create_other j u w n
  sent_other j update u w n = laws.update_other j u w n
  sent_other j delete u w n = laws.delete_other j u.uid w n
  sent_other j (other a) u w n = refl

  pub send_or_queue-Kept :
      (j : String) (stores : Bool) (now : ℕ) (u : Update P) (c : Cache P H) (w : W)
      → (u.uid == j) ≡ false
      → Kept j (c, w) (send_or_queue services stores now u c w)
  unfolding send_resource_update_to_ror
  send_or_queue-Kept j stores now u c w n = ground (
    arith,
    sent_other j u.action u w n,
    laws.store_other j u.uid u.hash c.hash_list n,
    pending-enqueue now u c.workqueue j,
  )

  pub send_if_needed-Kept :
      (j : String) (now : ℕ) (u : Update P) (c : Cache P H) (w : W)
      → (u.uid == j) ≡ false
      → Kept j (c, w) (send_if_needed services now u c w)
  send_if_needed-Kept j now u c w n =
      by_check (Kept j (c, w)) now u c w
        (λ e.
          let k = send_or_queue-Kept j true now u (with_checked u c) w n in
          (k.0, k.1 ∙ checked_keeps j u c, k.2 ∙ checked_pending j u c))
        (λ e. (refl, checked_keeps j u c, checked_pending j u c))

  pub delete_all-Kept :
      (j : String) (nothing : P) (uids : List String) (w : W)
      → lists j uids ≡ false
      → stored j (delete_all services nothing uids w) ≡ stored j w
  unfolding delete_all send_resource_update_to_ror
  delete_all-Kept j nothing [] w n = refl
  delete_all-Kept j nothing (uid ∷ uids) w n =
      delete_all-Kept j nothing uids (services.api_delete uid w).1 (ground arith)
      ∙ laws.delete_other j uid w (ground arith)

  pub deleted_Gone :
      (now : ℕ) (u : Update P) (c : Cache P H) (w : W)
      → u.action ≡ delete
      → let r = send_or_queue services false now u c w in
        (pending u.uid r.0.workqueue ≡ true) ⊎ (stored u.uid r.1 ≡ none)
  unfolding send_resource_update_to_ror
  deleted_Gone now u c w e = rw e (ground (arith, laws.deletes u.uid w, pending-queued now u c))
