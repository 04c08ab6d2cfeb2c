-- ===== src/Watcher/Calls.antt =====
-- What the watcher tells its handler, and when it lists again.
use ror_agent.Prelude.{String, ◌≡◌, refl, ap, ◌∙◌, ◌==◌, false, List, [], ◌∷◌, ◌++◌, none, map, All}
use mathlib.Core.List.{append_assoc}
use ror_agent.Watcher.{
  Call, listed, added, forced_gc, Answer, page, State, at_version, running, after_page,
  no_cache_initial_list, no_cache_watch, Pass, pass, passes,
}

-- Pages of a list, each with the continue token of the next; the last has none.
pub data Pages (A : Type 0) : Type 0 where
  last_page : List A → String → Pages A
  next_page : List A → String → (cont : String) → (cont == "") ≡ false → Pages A → Pages A

module _ {A : Type 0} where
  abbrev pub answers : Pages A → List (Answer A)
  answers (last_page items rv) = page items rv "" ∷ []
  answers (next_page items rv cont h ps) = page items rv cont ∷ answers ps

  abbrev pub version_of : Pages A → String
  version_of (last_page items rv) = rv
  version_of (next_page items rv cont h ps) = version_of ps

  -- The calls that read the pages, from a continue token, and what follows the last.
  abbrev pub reads : String → Pages A → List (Call A)
  reads from (last_page items rv) = listed from ∷ map added items ++ forced_gc ∷ []
  reads from (next_page items rv cont h ps) = listed from ∷ map added items ++ reads cont ps

module _ {A : Type 0} (version : A → String) where
  page_read :
      (from : String) (items : List A) (s : State A)
      → after_page version items (record s { calls = s.calls ++ listed from ∷ [] })
        ≡ record { backoff = 1; calls = s.calls ++ listed from ∷ map added items }
  unfolding after_page
  page_read from items s =
      ap (λ cs. record { backoff = 1; calls = cs })
        (append_assoc s.calls (listed from ∷ []) (map added items))

  -- If every page of a list is read, the list returns the resource version of the last page and
  -- sets the backoff to one second; the pages are asked for each by the continue token of the one
  -- before, and the handler is called to add every item of every page once, in order, and behind
  -- the last page the garbage collection is asked for once.
  pub no_cache_initial_list_lem :
      (ps : Pages A) (from : String) (s : State A)
      → no_cache_initial_list version (answers ps) from s
        ≡ (at_version (version_of ps), record { backoff = 1; calls = s.calls ++ reads from ps })
  unfolding no_cache_initial_list
  no_cache_initial_list_lem (last_page items rv) from s =
      ap (λ (t : State A). (at_version rv, record t { calls = t.calls ++ forced_gc ∷ [] }))
        (page_read from items s)
      ∙ ap (λ cs. (at_version rv, record { backoff = 1; calls = cs }))
          (append_assoc s.calls (listed from ∷ map added items) (forced_gc ∷ []))
  no_cache_initial_list_lem (next_page items rv cont h ps) from s =
      rw (h, page_read from items s)
        (no_cache_initial_list_lem ps cont
            (record { backoff = 1; calls = s.calls ++ listed from ∷ map added items })
          ∙ ap (λ cs. (at_version (version_of ps), record { backoff = 1; calls = cs }))
              (append_assoc s.calls (listed from ∷ map added items) (reads cont ps)))

  -- A pass in which nothing stops the watcher and the watch cannot be started.
  pub record WatchFails (p : Pass version) : Type 0 where
    pub before : p.stop_before ≡ false
    pub fails : p.watch ≡ none
    pub after : p.stop_after ≡ false

  -- From a resource version that is not empty, any number of passes in each of which the watch
  -- cannot be started and nothing stops the watcher leave it running at that same version.
  pub passes_same_version :
      (ps : List (Pass version)) (rv : String) (s : State A)
      → (rv == "") ≡ false
      → All WatchFails ps
      → (passes version ps rv s).0 ≡ running rv
  unfolding passes pass no_cache_watch
  passes_same_version [] rv s h v = refl
  passes_same_version (p ∷ ps) rv s h (v, vs) =
      rw (v.before, h, v.fails, v.after) (passes_same_version ps rv _ h vs)
