-- ===== src/EngineMap.antt =====
-- libs/server/src/lib/bootstrap/engine-map.ts, engine-map-worker-load.ts and engine-map-actions.ts:
-- the entry of a source in memory whose store a query worker owns. A load is two steps, since it
-- waits for the worker; a step that ends a load names it by its ticket.
-- The pool answers loads of a source that wait together alike; here each may end in its own way.
mod Unloading
mod Tests
use sparqly.Base.{
  ℕ, ◌+◌, Bool, true, false, Option, none, some, List, [], ◌∷◌, ◌++◌, ◌||◌, not, JsString,
  if◌then◌else◌, Result, ok, err, ◌==◌, nat_eq,
}
use sparqly.SourceRows.{SourceRowError}

-- What the worker answers when a store is loaded.
pub record LoadInfo : Type 0 where
  pub files : List JsString
  pub load_ms : ℕ
  pub quads : ℕ

-- `loaded` holds the ticket of the load whose promise is memoized. The executor of a loaded entry
-- is the same for every load of a source, so `current` says only whether there is one; such an
-- entry has no `disk`, `closeIndex` or `staleReasonSeen`.
pub record Entry : Type 0 where
  pub files : List JsString
  pub loaded_at : Option ℕ
  pub load_ms : Option ℕ
  pub quads : Option ℕ
  pub loaded : Option ℕ
  pub current : Bool
  pub last_error : Option SourceRowError
  pub load_epoch : ℕ

pub data Transition : Type 0 where
  load_start load_success load_failure unload_done : Transition

-- `invalidated` counts the stores that the pool was told to drop.
pub record State : Type 0 where
  pub entry : Entry
  -- The loads that wait for the worker, each with the epoch it began in.
  pub in_flight : List (ℕ × ℕ)
  pub next_ticket : ℕ
  pub emitted : List Transition
  pub invalidated : ℕ

abbrev pub unloaded_entry : Entry
unloaded_entry = record {
  files = [];
  loaded_at = none;
  load_ms = none;
  quads = none;
  loaded = none;
  current = false;
  last_error = none;
  load_epoch = 0;
}

abbrev pub init : State
init = record {
  entry = unloaded_entry;
  in_flight = [];
  next_ticket = 0;
  emitted = [];
  invalidated = 0;
}

-- `loadEntryViaWorker` up to its await, and the memo of its promise.
pub load_via_worker : State → State
load_via_worker s = record {
  entry = record s.entry { last_error = none; loaded = some s.next_ticket };
  in_flight = s.in_flight ++ (s.next_ticket, s.entry.load_epoch) ∷ [];
  next_ticket = s.next_ticket + 1;
  emitted = s.emitted ++ load_start ∷ [];
  invalidated = s.invalidated;
}

pub ensure_entry : State → State
ensure_entry s = elim s.entry.loaded [ none ↦ load_via_worker s | some ticket ↦ s ]

abbrev pub invalidate : State → State
invalidate s = record s {
  invalidated = if s.entry.current then s.invalidated + 1 else s.invalidated;
}

pub reload : State → State
reload s = load_via_worker (invalidate s)

abbrev pub is_some {ℓ} : {A : Type ℓ} → Option A → Bool
is_some none = false
is_some (some a) = true

-- There is something to unload.
abbrev pub occupied : Entry → Bool
occupied e = e.current || (is_some e.loaded || (is_some e.loaded_at || is_some e.load_ms))

abbrev pub cleared : State → State
cleared s = record s {
  entry = record s.entry {
    loaded_at = none;
    load_ms = none;
    quads = none;
    loaded = none;
    current = false;
    load_epoch = s.entry.load_epoch + 1;
  };
  emitted = s.emitted ++ unload_done ∷ [];
}

pub unload_entry : State → State
unload_entry s = if occupied s.entry then cleared s else s

pub unload : State → State
unload s = unload_entry (invalidate s)

-- The worker that owned the store was lost.
pub reset_worker_residency : State → State
reset_worker_residency s = record s { entry = record s.entry { loaded = none; current = false } }

abbrev pub settled : Result SourceRowError LoadInfo → ℕ → Entry → Entry
settled (err e) now entry = record entry { loaded = none; last_error = some e }
settled (ok info) now entry = record entry {
  current = true;
  files = info.files;
  load_ms = some info.load_ms;
  loaded_at = some now;
  quads = some info.quads;
}

abbrev pub transition_of : Result SourceRowError LoadInfo → Transition
transition_of (err e) = load_failure
transition_of (ok info) = load_success

-- The epoch in which a waiting load began, and the loads left without it.
abbrev pub epoch_of : ℕ → List (ℕ × ℕ) → Option ℕ
epoch_of ticket [] = none
epoch_of ticket ((t, epoch) ∷ rest) = if t == ticket then some epoch else epoch_of ticket rest

abbrev pub without : ℕ → List (ℕ × ℕ) → List (ℕ × ℕ)
without ticket [] = []
without ticket ((t, epoch) ∷ rest) = if t == ticket then rest else (t, epoch) ∷ without ticket rest

-- `loadEntryViaWorker` after its await; a load that began in an epoch before is superseded.
pub load_ends : ℕ → Result SourceRowError LoadInfo → ℕ → State → State
load_ends ticket result now s = elim (epoch_of ticket s.in_flight) [
  | none ↦ s
  | some epoch ↦
      if s.entry.load_epoch == epoch
      then record s {
        entry = settled result now s.entry;
        in_flight = without ticket s.in_flight;
        emitted = s.emitted ++ transition_of result ∷ [];
      }
      else record s { in_flight = without ticket s.in_flight }
]
