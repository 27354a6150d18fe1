-- ===== src/Workers/Tests.antt =====
-- Runs of the pool of query workers.
use sparqly.Base.{
  ℕ, ◌+◌, ◌≡◌, refl, false, some, List, [], ◌∷◌, JsString, codes, if◌then◌else◌, text_eq, nat_eq,
}
use sparqly.OrderedMap
use sparqly.OrderedMap.{Distinct}
use sparqly.Workers.{
  Pool, exited_unexpectedly, Call, queries, aborts, grace_ends, sends, live, no_signal, query_ok,
  empty_pool, run, reclaim, fnv1a, fnv1a_from, unarmed,
}
use sparqly.Workers.Settling.{settlements, issued, waits}
use sparqly.Workers.Ledger.{run-settlements}
use sparqly.Workers.Routing.{on_other_worker, reclaim_lem}

abbrev docs : JsString
docs = codes "docs"

abbrev text : JsString
text = codes "ASK {}"

-- Every source on worker 0.
abbrev on_first : JsString → ℕ
on_first source_id = 0

-- A query that is aborted and whose grace ends, and one that is answered by the next worker.
abbrev calls : List (Call ℕ)
calls =
    queries docs text live
    ∷ aborts 1
    ∷ grace_ends 1
    ∷ queries docs text no_signal
    ∷ sends (query_ok 2 7)
    ∷ []

run-settlements_example :
    settlements 2 (run on_first empty_pool calls).trace
      + waits 2 (run on_first empty_pool calls).pending
    ≡ issued 2 (run on_first empty_pool calls).next_request_id
run-settlements_example = run-settlements on_first calls 2

-- The hash of the reference vectors of FNV-1a for "a".
fnv1a_run : fnv1a (codes "a") ≡ 0xe40c292c
unfolding fnv1a fnv1a_from
fnv1a_run = refl

abbrev one_query : Pool ℕ
one_query = record {
  workers = (0, 0) ∷ [];
  sources_by_worker = (0, docs ∷ []) ∷ [];
  pending = (1, record { worker_index = 0; query = text; listening = false; grace = unarmed }) ∷ [];
  loads = [];
  next_request_id = 2;
  next_load = 0;
  next_worker = 1;
  shutting_down = false;
  trace = [];
}

one_query-Distinct : Distinct one_query.pending
one_query-Distinct = (OrderedMap.get_empty 1, tt)

worker_there : OrderedMap.get 0 one_query.workers ≡ some 0
unfolding OrderedMap.get
worker_there = refl

reclaim_lem_example :
    ((id : ℕ)
      → OrderedMap.get id (reclaim on_first 0 exited_unexpectedly one_query).pending
        ≡ on_other_worker 0 (OrderedMap.get id one_query.pending))
    × ((i : ℕ)
        → OrderedMap.get i (reclaim on_first 0 exited_unexpectedly one_query).workers
          ≡ (if nat_eq.beq 0 i then some 1 else OrderedMap.get i one_query.workers))
reclaim_lem_example = reclaim_lem on_first 0 exited_unexpectedly one_query one_query-Distinct
