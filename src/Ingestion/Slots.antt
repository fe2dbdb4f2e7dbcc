-- ===== src/Ingestion/Slots.antt =====
-- `process_request` and `process_request_thread` of src/monitoring/agents/ingestion.py: the
-- connections of both sockets share one `BoundedSemaphore`. The calls of `acquire` and of `start` in one
-- `process_request` are one step: in the gap between them the loop of the other socket, which looks at the
-- semaphore alone, sees the connection as one that runs already.
pub mod Laws
use dragontools.Common.{
  ◌≡◌, ℕ, zero, suc, ◌+◌, Bool, true, false, Option, none, some, ltb, if◌then◌else◌,
}

abbrev pub concurrency : ℕ
concurrency = 16

-- The value of the semaphore, and the threads that handle a request.
pub record Slots : Type 0 where
  pub free : ℕ
  pub running : ℕ

abbrev pub initial : Slots
initial = record { free = concurrency; running = 0 }

-- `release`, which raises `ValueError` above the initial value.
unfoldable pub release : ℕ → Option ℕ
release n = if ltb n concurrency then some (suc n) else none

-- What became of a connection.
pub data Fate : Type 0 where
  handled closed : Fate

-- `process_request`, by whether the thread starts. The release after a start that failed is the
-- reverse of the acquisition.
unfoldable pub acquire : Bool → ℕ → ℕ → Option (Slots × Fate)
unfolding release
acquire starts zero running = some (record { free = zero; running = running }, closed)
acquire true (suc n) running = some (record { free = n; running = suc running }, handled)
acquire false (suc n) running = elim (release n) [
  | none ↦ none
  | some m ↦ some (record { free = m; running = running }, closed)
]

unfoldable pub process_request : Bool → Slots → Option (Slots × Fate)
unfolding acquire
process_request starts s = acquire starts s.free s.running

-- The end of `process_request_thread` in one of the threads, by the number of the others.
unfoldable pub process_request_thread : ℕ → Slots → Option Slots
unfolding release
process_request_thread others s = elim (release s.free) [
  | none ↦ none
  | some m ↦ some (record { free = m; running = others })
]

-- The steps of the server: a connection comes, or one of the threads ends.
pub data Step : Slots → Slots → Type 0 where
  connection :
      (starts : Bool) (s t : Slots) (fate : Fate)
      → process_request starts s ≡ some (t, fate)
      → Step s t
  ending :
      (others : ℕ) (s t : Slots)
      → s.running ≡ suc others
      → process_request_thread others s ≡ some t
      → Step s t

pub data Reachable : Slots → Type 0 where
  start : Reachable initial
  step : (s t : Slots) → Reachable s → Step s t → Reachable t
