-- ===== src/Tests/Handed.antt =====
-- The handlers of version 2 on a cache that keeps a list of what it is given, and whose hash list
-- knows every hash.
use ror_agent.Prelude.{String, ◌≡◌, refl, false, true, List, [], ◌∷◌, ◌++◌, ◌⊎◌, inl, inr, none}
use ror_agent.WorkQueue.{delete}
use ror_agent.Watcher.{listed, watched, added, deleted}
use ror_agent.Handlers.Cached.{CacheServices}
use ror_agent.Handlers.HandedOn.{HandLaws, HandedOn, hand_on_all}
use ror_agent.Handlers.HandedOn.Given.{hand_on_all-HandedOn}
use ror_agent.Tests.Watchers.{pod}

abbrev services : CacheServices String String (List String)
services = record {
  get_ownerref = λ c. record { scope = "cluster"; subject = "c1" };
  cleanup_running = λ c. true;
  mark_active = λ uid c. c;
  check_update_needed = λ uid hash c. (false, c);
  add_resource = λ r c. r ∷ c;
  new_resource = λ u. "pod";
  set_ror_meta = λ version owner action r. (none, r);
  gen_ror_hash = λ r. r;
  get_uid = λ r. r;
  get_ror_hash = λ r. "h";
}

abbrev IsListed : String → List String → Type 0
IsListed r [] = ⊥
IsListed r (x ∷ xs) = (r ≡ x) ⊎ IsListed r xs

laws : HandLaws services IsListed
laws = record {
  given = λ r c. inl refl;
  keeps_add = λ r q c h. inr h;
  keeps_mark = λ r uid c h. h;
  keeps_check = λ r uid hash c h. h;
}

hand_on_all-HandedOn_example :
    HandedOn services IsListed delete pod
      (hand_on_all services (listed "" ∷ added pod ∷ []) []).1
      (hand_on_all services ((listed "" ∷ added pod ∷ []) ++ deleted pod ∷ watched "7" ∷ []) [])
hand_on_all-HandedOn_example =
    hand_on_all-HandedOn services IsListed laws (listed "" ∷ added pod ∷ []) (watched "7" ∷ [])
      (deleted pod) delete pod [] refl refl
