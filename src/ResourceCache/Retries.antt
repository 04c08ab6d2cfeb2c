-- ===== src/ResourceCache/Retries.antt =====
-- What `RunWorkQue` does to the queue.
use ror_agent.Prelude.{
  ℕ, ◌≡◌, refl, ap, sym, ◌∙◌, false, List, [], ◌∷◌, ◌++◌, none, some, Error, arith, ◌==◌, eq_refl,
  All,
}
use mathlib.Core.List.{append-nil}
use ror_agent.WorkQueue.{Item, Queue, enqueue, fresh, delete_by_uid}
use ror_agent.WorkQueue.Enqueue.{enqueue_head}
use ror_agent.WorkQueue.Delete.{delete_by_uid_first}
use ror_agent.ResourceCache.{Services, Cache, send_resource_update_to_ror, run_items, run_work_que}

module _ {P W H : Type 0} (services : Services P W H) where
  open services use {update_hash}

  -- The items are sent in this order, each with success, and take the world from `w` to `w'`.
  abbrev pub Sends : List (Item P) → W → W → Type 0
  Sends [] w w' = w ≡ w'
  Sends (x ∷ xs) w w' =
      (w'' : W) × (send_resource_update_to_ror services x.update w ≡ (none, w'')) × Sends xs w'' w'

  -- The hash list with the hashes of the items stored, in this order.
  abbrev pub hashed : List (Item P) → H → H
  hashed [] h = h
  hashed (x ∷ xs) h = hashed xs (update_hash x.update.uid x.update.hash h)

  abbrev pub HasUid : Item P → Type 0
  HasUid x = (x.update.uid == "") ≡ false

  delete_head : (x : Item P) (xs : Queue P) → HasUid x → delete_by_uid x.update.uid (x ∷ xs) ≡ xs
  delete_head x xs h = delete_by_uid_first x.update.uid [] x xs h tt (eq_refl x.update.uid)

  run_items_step :
      (now : ℕ) (x : Item P) (xs : List (Item P)) (rest : Queue P) (c : Cache P H) (w w' : W)
      → HasUid x
      → send_resource_update_to_ror services x.update w ≡ (none, w')
      → c.workqueue ≡ x ∷ rest
      → run_items services now (x ∷ xs) (c, w)
        ≡ run_items services now xs (
          record c {
            workqueue = rest;
            hash_list = update_hash x.update.uid x.update.hash c.hash_list;
          },
          w',
        )
  unfolding run_items
  run_items_step now x xs rest c w w' h s q =
      ground (arith, delete_head x rest h, ap (delete_by_uid x.update.uid) q)

  -- A prefix of the items that is sent is taken off the queue, and the loop goes on.
  run_items_sent :
      (now : ℕ) (xs ys rest : List (Item P)) (c : Cache P H) (w w' : W)
      → All HasUid xs
      → Sends xs w w'
      → c.workqueue ≡ xs ++ rest
      → run_items services now (xs ++ ys) (c, w)
        ≡ run_items services now ys
            (record c { workqueue = rest; hash_list = hashed xs c.hash_list }, w')
  run_items_sent now [] ys rest c w w' h s q = cc
  run_items_sent now (x ∷ xs) ys rest c w w' h (w'', sent, more) q =
      run_items_step now x (xs ++ ys) (xs ++ rest) c w w'' h.0 sent q
      ∙ run_items_sent now xs ys rest
          (record c {
            workqueue = xs ++ rest;
            hash_list = update_hash x.update.uid x.update.hash c.hash_list;
          })
          w'' w' h.1 more refl

  -- If every queued uid is not empty and every send succeeds, RunWorkQue leaves an empty queue
  -- and has stored the hash of every item.
  pub run_work_que_sent :
      (now : ℕ) (c : Cache P H) (w w' : W)
      → All HasUid c.workqueue
      → Sends c.workqueue w w'
      → run_work_que services now (c, w)
        ≡ (record c { workqueue = []; hash_list = hashed c.workqueue c.hash_list }, w')
  unfolding run_work_que run_items
  run_work_que_sent now c w w' h s =
      ap (λ q. run_items services now q (c, w)) (sym (append-nil c.workqueue))
      ∙ run_items_sent now c.workqueue [] [] c w w' h s (sym (append-nil c.workqueue))

  run_items_stop :
      (now : ℕ) (x : Item P) (rest : List (Item P)) (c : Cache P H) (w w' : W) (e : Error)
      → send_resource_update_to_ror services x.update w ≡ (some e, w')
      → c.workqueue ≡ x ∷ rest
      → run_items services now (x ∷ rest) (c, w)
        ≡ (record c { workqueue = x ∷ (rest ++ fresh now x.update ∷ []) }, w')
  unfolding run_items
  run_items_stop now x rest c w w' e f q =
      ground (
        arith,
        enqueue_head now x.update x rest (eq_refl x.update.uid),
        ap (enqueue now x.update) q,
      )

  -- If the queue is a first part, an item and a rest, every uid of the first part is not empty,
  -- the sends of the first part succeed and that of the item fails, then RunWorkQue ends there:
  -- the first part is off the queue with its hashes stored, the item stays at the head, and its
  -- update is appended as a fresh second item.
  pub run_work_que_failed :
      (now : ℕ) (c : Cache P H) (sent : List (Item P)) (x : Item P) (rest : List (Item P))
      (w w' w'' : W) (e : Error)
      → c.workqueue ≡ sent ++ x ∷ rest
      → All HasUid sent
      → Sends sent w w'
      → send_resource_update_to_ror services x.update w' ≡ (some e, w'')
      → run_work_que services now (c, w) ≡ (
        record c {
          workqueue = x ∷ (rest ++ fresh now x.update ∷ []);
          hash_list = hashed sent c.hash_list;
        },
        w'',
      )
  unfolding run_work_que
  run_work_que_failed now c sent x rest w w' w'' e q h s f =
      ap (λ t. run_items services now t (c, w)) q
      ∙ run_items_sent now sent (x ∷ rest) (x ∷ rest) c w w' h s q
      ∙ run_items_stop now x rest
          (record c { workqueue = x ∷ rest; hash_list = hashed sent c.hash_list }) w' w'' e f refl
