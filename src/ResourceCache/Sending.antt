-- ===== src/ResourceCache/Sending.antt =====
-- What `SendResource` sends, stores and queues.
use ror_agent.Prelude.{ℕ, String, ◌≡◌, ◌≢◌, Bool, true, false, ◌||◌, none, some, Error, arith, ◌==◌}
use ror_agent.WorkQueue.{delete, Update}
use ror_agent.WorkQueue.Pending.{pending, pending-enqueue}
use ror_agent.ResourceCache.{
  Services, Cache, send_resource_update_to_ror, send_update, send_if_needed, marked, queued,
}

module _ {P W H : Type 0} (services : Services P W H) where
  open services use {mark_active, check_update_needed, update_hash}

  -- What the hash list answers of an update, after the mark that a running cleanup makes.
  abbrev pub checked : Update P → Cache P H → Bool × H
  checked u c = check_update_needed u.uid u.hash (marked services u c).hash_list

  -- An update that the hash list does not ask for is not sent, and the queue stays.
  pub send_update_unneeded :
      (now : ℕ) (u : Update P) (c : Cache P H) (w : W)
      → u.action ≢ delete
      → (checked u c).0 ≡ false
      → ((send_update services now u (c, w)).1 ≡ w)
        × ((send_update services now u (c, w)).0.workqueue ≡ c.workqueue)
  unfolding send_update send_if_needed
  send_update_unneeded now u c w nd h = ground arith

  -- If an update is no deletion, the hash list asks for it and its send fails, then the hash list
  -- is as the check leaves it, without the new hash, and the uids in the queue are those from
  -- before and that of the update.
  pub send_update_failed :
      (now : ℕ) (u : Update P) (c : Cache P H) (w w' : W) (e : Error) (j : String)
      → u.action ≢ delete
      → (checked u c).0 ≡ true
      → send_resource_update_to_ror services u w ≡ (some e, w')
      → let (c', w'') = send_update services now u (c, w) in
        (w'' ≡ w')
        × (c'.hash_list ≡ (checked u c).1)
        × (pending j c'.workqueue ≡ (u.uid == j || pending j c.workqueue))
  unfolding send_update send_if_needed
  send_update_failed now u c w w' e j nd h s = ground (arith, pending-enqueue now u c.workqueue j)

  -- If an update is no deletion, the hash list asks for it and its send succeeds, then its hash
  -- is stored and the queue stays.
  pub send_update_sent :
      (now : ℕ) (u : Update P) (c : Cache P H) (w w' : W)
      → u.action ≢ delete
      → (checked u c).0 ≡ true
      → send_resource_update_to_ror services u w ≡ (none, w')
      → send_update services now u (c, w) ≡ (
        record c { workqueue = c.workqueue; hash_list = update_hash u.uid u.hash (checked u c).1 },
        w',
      )
  unfolding send_update send_if_needed
  send_update_sent now u c w w' nd h s = ground arith

  -- A deletion is sent whatever the hash list says; the cache stays as it is if the API succeeds,
  -- and the deletion is queued if it fails.
  pub send_update_delete :
      (now : ℕ) (u : Update P) (c : Cache P H) (w : W)
      → u.action ≡ delete
      → let (failed, w') = services.api_delete u.uid w in
        send_update services now u (c, w)
        ≡ (elim failed [ none ↦ c | some e ↦ queued services now u c ], w')
  unfolding send_update send_resource_update_to_ror
  send_update_delete now u c w d = ground arith

  -- What the agent relies on of the hash list: a stored hash needs no update, also after a mark.
  pub record HashListLaws : Type 0 where
    pub stored :
        (uid hash : String) (h : H)
        → (check_update_needed uid hash (update_hash uid hash h)).0 ≡ false
    pub stored_marked :
        (uid hash : String) (h : H)
        → (check_update_needed uid hash (mark_active uid (update_hash uid hash h))).0 ≡ false

  -- If a stored hash needs no update, also after a mark, the update is no deletion, the hash list
  -- asks for it and its send succeeds, then the same update, sent again at any time, is not sent
  -- to the API and leaves the queue as it was before both.
  pub send_update_twice :
      (now later : ℕ) (u : Update P) (c : Cache P H) (w w' : W)
      → HashListLaws
      → u.action ≢ delete
      → (checked u c).0 ≡ true
      → send_resource_update_to_ror services u w ≡ (none, w')
      → let (c', w'') = send_update services now u (c, w) in
        ((send_update services later u (c', w'')).1 ≡ w')
        × ((send_update services later u (c', w'')).0.workqueue ≡ c.workqueue)
  send_update_twice now later u c w w' laws nd h s = rw (send_update_sent now u c w w' nd h s) (
      send_update_unneeded later u
        (record c { hash_list = update_hash u.uid u.hash (checked u c).1 }) w' nd
        (ground (
          arith,
          laws.stored u.uid u.hash (checked u c).1,
          laws.stored_marked u.uid u.hash (checked u c).1,
        )))
