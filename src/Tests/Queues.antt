-- ===== src/Tests/Queues.antt =====
-- Runs of internal/services/resourceupdate/workqueue.go.
use ror_agent.Prelude.{ℕ, String, ◌≡◌, refl, ◌||◌, List, [], ◌∷◌, ◌++◌, some, ◌==◌}
use ror_agent.WorkQueue.{update, Update, Item, Queue, get_by_uid, enqueue, delete_by_uid, fresh}
use ror_agent.WorkQueue.Enqueue.{Enqueued, enqueue-Enqueued}
use ror_agent.WorkQueue.Pending.{pending, pending-enqueue}
use ror_agent.WorkQueue.Delete.{delete_by_uid-Absent}

abbrev pub update_of : String → Update ℕ
update_of uid = record {
  owner = record { scope = "cluster"; subject = "c1" };
  api_version = "v1";
  kind = "Pod";
  uid = uid;
  action = update;
  hash = "h";
  resource = 0;
}

abbrev pub item_of : String → Item ℕ
item_of uid = record { submitted = 1; retry_count = 0; update = update_of uid }

abbrev two : Queue ℕ
two = item_of "a" ∷ item_of "b" ∷ []

found_second : get_by_uid "b" two ≡ (some (item_of "b"), 1)
unfolding get_by_uid
found_second = refl

retried_second :
    enqueue 5 (update_of "b") two
    ≡ item_of "a" ∷ record { submitted = 5; retry_count = 1; update = update_of "b" } ∷ []
unfolding enqueue get_by_uid
retried_second = refl

doubled_head : enqueue 5 (update_of "a") two ≡ two ++ fresh 5 (update_of "a") ∷ []
unfolding enqueue get_by_uid
doubled_head = refl

enqueue-Enqueued_example : Enqueued 5 (update_of "b") two (enqueue 5 (update_of "b") two)
enqueue-Enqueued_example = enqueue-Enqueued 5 (update_of "b") two

pending-enqueue_example :
    pending "b" (enqueue 5 (update_of "a") two) ≡ ("a" == "b" || pending "b" two)
pending-enqueue_example = pending-enqueue 5 (update_of "a") two "b"

abbrev thrice : List (ℕ × Update ℕ)
thrice = (1, update_of "a") ∷ (2, update_of "a") ∷ (3, update_of "a") ∷ []

delete_by_uid-Absent_example : delete_by_uid "z" two ≡ item_of "b" ∷ []
delete_by_uid-Absent_example =
    delete_by_uid-Absent "z" (item_of "a") (item_of "b" ∷ []) refl (refl, (refl, tt))
