-- ===== src/DynamicClient/Shutdown.antt =====
-- How a signal ends the agent: the goroutines of `MustStart` in
-- common/pkg/clients/dynamicclient/dynamicclient.go, the channels of
-- common/pkg/clients/clusteragentclient/clusteragentclient.go, the watchers without a cache of
-- common/pkg/controllers/dynamiccontroller/dynamicController.go, and the last receive of cmd/agent/main.go.
--
-- `sigs` holds one signal, `stopChan` none: a send on it waits for one receive.
use ror_agent.Prelude.{
  ℕ, zero, suc, ◌+◌, ◌-◌, ◌≤◌, ◌<◌, ◌≡◌, refl, subst, Bool, true, false, arith, ◌↔◌,
}

pub record Agent : Type 0 where
  -- goroutines that wait for a signal
  pub listening : ℕ
  -- goroutines that have one and wait to send on stopChan
  pub sending : ℕ
  -- watchers that have not returned
  pub watching : ℕ
  -- a signal in the buffer of sigs
  pub pending : Bool
  -- main has received from stopChan
  pub ended : Bool

-- The agent with a watcher for each of `n` schemas; Run returns at once.
abbrev pub begun : ℕ → Agent
begun n = record { listening = n; sending = 0; watching = n; pending = false; ended = false }

pub data Step : Agent → Agent → Type 0 where
  -- the system delivers a signal, which is dropped if the buffer is full
  delivered : (s : Agent) → s.ended ≡ false → Step s (record s { pending = true })
  -- a goroutine receives it
  received :
      (s : Agent)
      → s.ended ≡ false
      → s.pending ≡ true
      → 0 < s.listening
      → Step s (record s { pending = false; listening = s.listening - 1; sending = s.sending + 1 })
  -- main receives from stopChan
  main_stops :
      (s : Agent)
      → s.ended ≡ false
      → 0 < s.sending
      → Step s (record s { sending = s.sending - 1; ended = true })
  -- a watcher receives in the loop of runNoCacheWatcher, and returns
  watcher_returns :
      (s : Agent)
      → s.ended ≡ false
      → 0 < s.sending
      → 0 < s.watching
      → Step s (record s { sending = s.sending - 1; watching = s.watching - 1 })
  -- a watcher receives in noCacheInitialList or noCacheWatch, and its loop goes on
  watcher_goes_on :
      (s : Agent)
      → s.ended ≡ false
      → 0 < s.sending
      → 0 < s.watching
      → Step s (record s { sending = s.sending - 1 })

-- A run of the agent.
pub data Steps (s : Agent) : Agent → Type 0 where
  here : Steps s s
  next : {t u : Agent} → Steps s t → Step t u → Steps s u

abbrev pub count : Bool → ℕ
count false = 0
count true = 1

-- Each signal that is still to be used, and main's, has a watcher.
abbrev pub HasWatchers : Agent → Type 0
HasWatchers s = s.listening + s.sending + count s.ended ≤ s.watching

Step-HasWatchers : {s t : Agent} → Step s t → HasWatchers s → HasWatchers t
Step-HasWatchers (delivered s e) h = h
Step-HasWatchers (received s e p l) h = ground arith
Step-HasWatchers (main_stops s e n) h = ground arith
Step-HasWatchers (watcher_returns s e n w) h = ground arith
Step-HasWatchers (watcher_goes_on s e n w) h = ground arith

Steps-HasWatchers : {s t : Agent} → HasWatchers s → Steps s t → HasWatchers t
Steps-HasWatchers h here = h
Steps-HasWatchers h (next r st) = Step-HasWatchers st (Steps-HasWatchers h r)

-- In every run of the agent from its start, the goroutines that wait for a signal, those that
-- wait to send on the stop channel, and main if it has ended, are together at most as many as the
-- watchers that have not returned.
pub begun-HasWatchers :
    (n : ℕ) (t : Agent) → Steps (begun n) t → t.listening + t.sending + count t.ended ≤ t.watching
begun-HasWatchers n t r = Steps-HasWatchers (omega arith) r

-- A run that ends the agent.
abbrev pub CanEnd : Agent → Type 0
CanEnd s = (t : Agent) × Steps s t × (t.ended ≡ true)

-- No signal is left to be used.
abbrev IsDeaf : Agent → Type 0
IsDeaf s = (s.ended ≡ false) × (s.listening ≡ 0) × (s.sending ≡ 0)

Step-IsDeaf : {s t : Agent} → Step s t → IsDeaf s → IsDeaf t
Step-IsDeaf (delivered s e) h = h
Step-IsDeaf (received s e p l) h = ground arith
Step-IsDeaf (main_stops s e n) h = ground arith
Step-IsDeaf (watcher_returns s e n w) h = ground arith
Step-IsDeaf (watcher_goes_on s e n w) h = ground arith

Steps-IsDeaf : {s t : Agent} → IsDeaf s → Steps s t → IsDeaf t
Steps-IsDeaf h here = h
Steps-IsDeaf h (next r st) = Step-IsDeaf st (Steps-IsDeaf h r)

deaf_stays : (s : Agent) → IsDeaf s → ¬ CanEnd s
deaf_stays s h (t, r, e) = let (e', l, n) = Steps-IsDeaf h r in cc

from_sending : (s : Agent) → s.ended ≡ false → 0 < s.sending → CanEnd s
from_sending s e n =
    (record s { sending = s.sending - 1; ended = true }, next here (main_stops s e n), refl)

from_listening : (s : Agent) → s.ended ≡ false → 0 < s.listening → CanEnd s
from_listening s e l =
    let s1 : Agent = record s { pending = true } in
    let s2 : Agent = record s1 {
      pending = false;
      listening = s.listening - 1;
      sending = s.sending + 1;
    } in
    (
      record s2 { sending = s2.sending - 1; ended = true },
      next (next (next here (delivered s e)) (received s1 e refl l))
          (main_stops s2 e (omega arith)),
      refl,
    )

from_either :
    (s : Agent) (n : ℕ) → s.ended ≡ false → s.sending ≡ n → 0 < s.listening + s.sending → CanEnd s
from_either s zero e z h = from_listening s e (omega arith)
from_either s (suc n) e z h = from_sending s e (omega arith)

used_up : (s : Agent) (n : ℕ) → s.ended ≡ false → s.listening + s.sending ≡ n → CanEnd s → 0 < n
used_up s zero e z c = elim (deaf_stays s (e, omega arith, omega arith) c) [ ]
used_up s (suc n) e z c = omega arith

-- An agent whose main still waits can be brought to its end exactly if a goroutine waits for a
-- signal or waits to send on the stop channel.
pub can_end_lem : (s : Agent) → s.ended ≡ false → CanEnd s ↔ (0 < s.listening + s.sending)
can_end_lem s e = (used_up s (s.listening + s.sending) e refl, from_either s s.sending e refl)

-- An agent with watchers, none of whose goroutines has a signal.
abbrev waiting : ℕ → ℕ → Agent
waiting k w = record { listening = k; sending = 0; watching = w; pending = false; ended = false }

-- A signal that a watcher receives, which goes on.
swallowed : (k w : ℕ) → Steps (waiting (suc k) (suc w)) (waiting k (suc w))
swallowed k w =
    let s : Agent = waiting (suc k) (suc w) in
    subst (λ x. Steps s (waiting x (suc w))) (omega arith)
      (next
        (next (next here (delivered s refl))
          (received (record s { pending = true }) refl refl (omega arith)))
        (watcher_goes_on (record (waiting (suc k - 1) (suc w)) { sending = 1 }) refl (omega arith)
          (omega arith)))

Steps-trans : {s t u : Agent} → Steps s t → Steps t u → Steps s u
Steps-trans r here = r
Steps-trans r (next r' st) = next (Steps-trans r r') st

all_swallowed : (k w : ℕ) → Steps (waiting k (suc w)) (waiting 0 (suc w))
all_swallowed zero w = here
all_swallowed (suc k) w = Steps-trans (swallowed k w) (all_swallowed k w)

-- For any number of watchers but none, there is a run of the agent after which all watchers are
-- still there, main still waits, and no run ends the agent.
pub begun_lost :
    (n : ℕ)
    → (t : Agent) × Steps (begun (suc n)) t × (t.watching ≡ suc n) × (t.ended ≡ false) × ¬ CanEnd t
begun_lost n = (
  waiting 0 (suc n),
  all_swallowed (suc n) n,
  refl,
  refl,
  deaf_stays (waiting 0 (suc n)) (refl, refl, refl),
)
