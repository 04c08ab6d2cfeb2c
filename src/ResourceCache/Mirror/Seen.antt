-- ===== src/ResourceCache/Mirror/Seen.antt =====
-- What the ROR API holds of a uid that the agent has seen since the cleanup began.
use ror_agent.Prelude.{ℕ, String, ◌≡◌, ◌≢◌, true, Option, some, List, ◌∷◌}
use ror_agent.WorkQueue.{delete, Update}
use ror_agent.ResourceCache.{Services, System, Event, resource, run}
use ror_agent.ResourceCache.Active.{ActiveLaws, seen_active}
use ror_agent.ResourceCache.Mirror.{MirrorLaws, mirror, Orderly, Idle, Mirrored}
use ror_agent.ResourceCache.Mirror.Run.{Active-Spared, run-Mirrored}

module _ {P W H : Type 0} (services : Services P W H) (nothing : P)
    (stored : String → W → Option String) (known : String → H → Option String) where
  -- If a call of the API without an error is done and no call changes another uid, the hash list
  -- knows of a uid the hash that was last stored for it, whatever else is done with the list, and
  -- asks for an update unless it knows the same hash, a mark makes a uid active and no operation
  -- makes an active uid inactive, the hash list has no other hash of the uid of an update than
  -- the API holds, the job has nothing to send, the cleanup is running, the update is no
  -- deletion, and the uid is added, updated and deleted only and not seen again once it is
  -- deleted; then after the update and any later history of resources, ticks of the job and
  -- cleanups, with any failures of the API, the uid waits in the queue, or the API holds what the
  -- history tells of it: the hash of its last change, or nothing if it was deleted.
  pub seen-Mirrored :
      (s : System services) (now : ℕ) (u : Update P) (es : List (Event services))
      → MirrorLaws services stored known
      → ActiveLaws services nothing
      → ((x : String) → known u.uid s.live.hash_list ≡ some x → stored u.uid s.api ≡ some x)
      → Idle services s
      → s.live.cleanup_running ≡ true
      → u.action ≢ delete
      → Orderly services u.uid (resource now u ∷ es)
      → Mirrored services stored u.uid
          (run services nothing s (resource now u ∷ es))
          (mirror services u.uid (resource now u ∷ es) (stored u.uid s.api))
  seen-Mirrored s now u es laws marks sound idle running nd o =
      run-Mirrored services nothing stored known laws u.uid s (resource now u ∷ es) sound idle
        (
          tt,
          Active-Spared services nothing stored known laws u.uid es _ marks
              (seen_active services nothing marks s now u running nd),
        )
        o
