-- ===== src/Workers.antt =====
-- libs/server/src/lib/sparql/query-worker-pool.ts: the pool of worker threads that answer
-- queries. A worker is a number, given when it is spawned. `A` is what workers send back
-- (results, metrics, errors). Posted messages, terminations, settled promises and the reset
-- callback are the entries of `trace`, latest first. Events arrive in any order as calls: a
-- message, an exit, an abort, the end of a grace period.
mod Hash
mod Settling
mod Replies
mod Ledger
mod Routing
mod Tests
use Prim.Native.Nat.{bit_xor}
use sparqly.Base.{
  ℕ, ◌+◌, ◌*◌, ◌%◌, ◌^◌, Bool, true, false, Option, none, some, List, [], ◌∷◌, ◌++◌, JsString,
  if◌then◌else◌, includes, text_eq, nat_eq, ◌==◌,
}
use sparqly.OrderedMap
use sparqly.OrderedMap.{OrderedMap, values}

-- FNV-1a over the code units, in 32 bits.
pub fnv1a_from : ℕ → JsString → ℕ
fnv1a_from hash [] = hash
fnv1a_from hash (c ∷ s) = fnv1a_from ((bit_xor hash c * 0x01000193) % 2 ^ 32) s

pub fnv1a : JsString → ℕ
unfolding fnv1a_from
fnv1a value = fnv1a_from 0x811c9dc5 value

-- `HashStickyAssignment.assign`
pub hash_sticky : ℕ → JsString → ℕ
unfolding fnv1a
hash_sticky worker_count source_id = fnv1a source_id % worker_count

-- Why a worker was lost.
pub data Loss : Type 0 where
  exited_unexpectedly terminated_after_grace : Loss

-- How a promise settles: with what the worker sent, or by the loss of the worker.
pub data Settled (A : Type 0) : Type 0 where
  answer refusal : A → Settled A
  worker_lost : JsString → Loss → Settled A

pub data Message : Type 0 where
  load invalidate_store : JsString → Message
  query_for : ℕ → JsString → JsString → Message
  cancel_request : ℕ → Message

pub data Effect (A : Type 0) : Type 0 where
  posted : ℕ → Message → Effect A
  terminated : ℕ → Effect A
  query_settled : ℕ → Settled A → Effect A
  load_settled : ℕ → Settled A → Effect A
  reset : List JsString → Effect A

-- The grace timer: `undefined`, running, or cleared by a shutdown.
pub data Timer : Type 0 where
  unarmed armed cleared : Timer

pub record PendingQuery : Type 0 where
  pub worker_index : ℕ
  pub query : JsString
  pub listening : Bool
  pub grace : Timer

pub record Pool (A : Type 0) : Type 0 where
  pub workers : OrderedMap ℕ ℕ
  pub sources_by_worker : OrderedMap ℕ (List JsString)
  pub pending : OrderedMap ℕ PendingQuery
  pub loads : OrderedMap JsString ℕ
  pub next_request_id : ℕ
  pub next_load : ℕ
  pub next_worker : ℕ
  pub shutting_down : Bool
  pub trace : List (Effect A)

pub data Signal : Type 0 where
  no_signal already_aborted live : Signal

pub data WorkerMessage (A : Type 0) : Type 0 where
  query_ok query_error : ℕ → A → WorkerMessage A
  load_success load_failure : JsString → A → WorkerMessage A

abbrev pub or_nothing : Option (List JsString) → List JsString
or_nothing none = []
or_nothing (some xs) = xs

add_source : JsString → List JsString → List JsString
add_source id xs = if includes xs id then xs else xs ++ id ∷ []

abbrev is_worker : ℕ → Option ℕ → Bool
is_worker worker none = false
is_worker worker (some w) = w == worker

abbrev stop_timer : Timer → Timer
stop_timer unarmed = unarmed
stop_timer armed = cleared
stop_timer cleared = cleared

pub stop_timers : OrderedMap ℕ PendingQuery → OrderedMap ℕ PendingQuery
stop_timers [] = []
stop_timers ((id, q) ∷ rest) = (id, record q { grace = stop_timer q.grace }) ∷ stop_timers rest

module _ {A : Type 0} where
  pub empty_pool : Pool A
  empty_pool = record {
    workers = [];
    sources_by_worker = [];
    pending = [];
    loads = [];
    next_request_id = 1;
    next_load = 0;
    next_worker = 0;
    shutting_down = false;
    trace = [];
  }

  pub install : ℕ → Pool A → Pool A
  install index p = record p {
    workers = OrderedMap.set index p.next_worker p.workers;
    next_worker = p.next_worker + 1;
  }

  -- `settle`: the listener and the timer go with the entry of `pending`.
  pub settle_query : ℕ → Settled A → Pool A → Pool A
  settle_query id result p = record p {
    pending = OrderedMap.delete id p.pending;
    trace = query_settled id result ∷ p.trace;
  }

  pub settle_load : JsString → ℕ → Settled A → Pool A → Pool A
  settle_load source_id ticket result p = record p {
    loads = OrderedMap.delete source_id p.loads;
    trace = load_settled ticket result ∷ p.trace;
  }

  -- The first loop of `reclaim`, over a copy of the entries.
  pub fail_queries : ℕ → Loss → OrderedMap ℕ PendingQuery → Pool A → Pool A
  fail_queries index reason [] p = p
  fail_queries index reason ((id, q) ∷ rest) p =
      fail_queries index reason rest
        (if q.worker_index == index then settle_query id (worker_lost q.query reason) p else p)

  reset_of : List JsString → Pool A → Pool A
  reset_of [] p = p
  reset_of (id ∷ ids) p = record p { trace = reset (id ∷ ids) ∷ p.trace }

  abbrev post : Pool A × ℕ → Message → Pool A
  post r m = record (r.0) { trace = posted r.1 m ∷ (r.0).trace }

  pub post_if_there : Option ℕ → Message → Pool A → Pool A
  post_if_there none m p = p
  post_if_there (some worker) m p = record p { trace = posted worker m ∷ p.trace }

module _ {A : Type 0} (assign : JsString → ℕ) where
  -- The second loop of `reclaim`.
  pub fail_loads : ℕ → Loss → OrderedMap JsString ℕ → Pool A → Pool A
  fail_loads index reason [] p = p
  fail_loads index reason ((source_id, ticket) ∷ rest) p = fail_loads index reason rest (
      if assign source_id == index
      then settle_load source_id ticket (worker_lost [] reason) p
      else p)

  pub reclaim : ℕ → Loss → Pool A → Pool A
  unfolding reset_of
  reclaim index reason p =
      let installed = install index p in
      let queries = fail_queries index reason installed.pending installed in
      let loads = fail_loads index reason queries.loads queries in
      reset_of (or_nothing (OrderedMap.get index loads.sources_by_worker)) loads

  worker_or_install : ℕ → Option ℕ → Pool A → Pool A × ℕ
  worker_or_install index (some worker) p = (p, worker)
  worker_or_install index none p = (install index p, p.next_worker)

  pub worker_for : JsString → Pool A → Pool A × ℕ
  unfolding worker_or_install add_source
  worker_for source_id p =
      let index = assign source_id in
      let routed = record p {
        sources_by_worker =
            OrderedMap.set index
              (add_source source_id (or_nothing (OrderedMap.get index p.sources_by_worker)))
              p.sources_by_worker;
      } in
      worker_or_install index (OrderedMap.get index p.workers) routed

  load_or_join : JsString → Option ℕ → Pool A → Pool A × ℕ
  load_or_join source_id (some ticket) p = (p, ticket)
  load_or_join source_id none p =
      let waiting = record p {
        loads = OrderedMap.set source_id p.next_load p.loads;
        next_load = p.next_load + 1;
      } in
      (post (worker_for source_id waiting) (load source_id), p.next_load)

  -- The promise that `ensureLoaded` returns is its ticket.
  pub ensure_loaded : JsString → Pool A → Pool A × ℕ
  unfolding load_or_join
  ensure_loaded source_id p = load_or_join source_id (OrderedMap.get source_id p.loads) p

  pub invalidate : JsString → Pool A → Pool A
  unfolding post_if_there
  invalidate source_id p =
      post_if_there (OrderedMap.get (assign source_id) p.workers) (invalidate_store source_id) p

  cancel_pending : ℕ → Option PendingQuery → Pool A → Pool A
  unfolding post_if_there
  cancel_pending id none p = p
  cancel_pending id (some q) p = elim q.grace [
    | armed ↦ p
    | cleared ↦ p
    | unarmed ↦
        let sent = post_if_there (OrderedMap.get q.worker_index p.workers) (cancel_request id) p in
        record sent { pending = OrderedMap.set id (record q { grace = armed }) sent.pending }
  ]

  pub on_cancel : ℕ → Pool A → Pool A
  unfolding cancel_pending
  on_cancel id p = cancel_pending id (OrderedMap.get id p.pending) p

  wire_cancellation : ℕ → Signal → Pool A → Pool A
  wire_cancellation id no_signal p = p
  wire_cancellation id already_aborted p = on_cancel id p
  wire_cancellation id live p = elim (OrderedMap.get id p.pending) [
    | none ↦ p
    | some q ↦ record p { pending = OrderedMap.set id (record q { listening = true }) p.pending }
  ]

  pub query : JsString → JsString → Signal → Pool A → Pool A × ℕ
  unfolding wire_cancellation
  query source_id text signal p =
      let id = p.next_request_id in
      let entry : PendingQuery = record {
        worker_index = assign source_id;
        query = text;
        listening = false;
        grace = unarmed;
      } in
      let registered = record p {
        next_request_id = id + 1;
        pending = OrderedMap.set id entry p.pending;
      } in
      let sent = post (worker_for source_id registered) (query_for id source_id text) in
      (wire_cancellation id signal sent, id)

  abort_pending : ℕ → Option PendingQuery → Pool A → Pool A
  abort_pending id none p = p
  abort_pending id (some q) p =
      if q.listening
      then on_cancel id
          (record p { pending = OrderedMap.set id (record q { listening = false }) p.pending })
      else p

  -- The abort listener of a request, which fires once.
  pub on_abort : ℕ → Pool A → Pool A
  unfolding abort_pending
  on_abort id p = abort_pending id (OrderedMap.get id p.pending) p

  terminate_there : ℕ → Option ℕ → Pool A → Pool A
  terminate_there index none p = p
  terminate_there index (some worker) p =
      reclaim index terminated_after_grace (record p { trace = terminated worker ∷ p.trace })

  pub terminate_worker : ℕ → Pool A → Pool A
  unfolding terminate_there
  terminate_worker index p = terminate_there index (OrderedMap.get index p.workers) p

  grace_over : Option PendingQuery → Pool A → Pool A
  grace_over none p = p
  grace_over (some q) p = elim q.grace [
    | armed ↦ terminate_worker q.worker_index p
    | unarmed ↦ p
    | cleared ↦ p
  ]

  -- The grace timer of a request, if it is running.
  pub on_grace_end : ℕ → Pool A → Pool A
  unfolding grace_over
  on_grace_end id p = grace_over (OrderedMap.get id p.pending) p

  pub on_worker_exit : ℕ → ℕ → Pool A → Pool A
  on_worker_exit index worker p =
      if p.shutting_down
      then p
      else if is_worker worker (OrderedMap.get index p.workers)
      then reclaim index exited_unexpectedly p
      else p

module _ {A : Type 0} where
  query_reply : ℕ → Settled A → Option PendingQuery → Pool A → Pool A
  query_reply id result none p = p
  query_reply id result (some q) p = settle_query id result p

  load_reply : JsString → Settled A → Option ℕ → Pool A → Pool A
  load_reply source_id result none p = p
  load_reply source_id result (some ticket) p = settle_load source_id ticket result p

  pub on_message : WorkerMessage A → Pool A → Pool A
  unfolding query_reply load_reply
  on_message (query_ok id a) p = query_reply id (answer a) (OrderedMap.get id p.pending) p
  on_message (query_error id a) p = query_reply id (refusal a) (OrderedMap.get id p.pending) p
  on_message (load_success source_id a) p =
      load_reply source_id (answer a) (OrderedMap.get source_id p.loads) p
  on_message (load_failure source_id a) p =
      load_reply source_id (refusal a) (OrderedMap.get source_id p.loads) p

  terminate_all : List ℕ → List (Effect A) → List (Effect A)
  terminate_all [] trace = trace
  terminate_all (w ∷ ws) trace = terminate_all ws (terminated w ∷ trace)

  pub shutdown : Pool A → Pool A
  unfolding stop_timers terminate_all
  shutdown p = record p {
    shutting_down = true;
    pending = stop_timers p.pending;
    trace = terminate_all (values p.workers) p.trace;
  }

pub data Call (A : Type 0) : Type 0 where
  loads_source invalidates : JsString → Call A
  queries : JsString → JsString → Signal → Call A
  aborts grace_ends : ℕ → Call A
  exits : ℕ → ℕ → Call A
  sends : WorkerMessage A → Call A
  shuts_down : Call A

module _ {A : Type 0} (assign : JsString → ℕ) where
  pub step : Pool A → Call A → Pool A
  step p (loads_source id) = (ensure_loaded assign id p).0
  step p (invalidates id) = invalidate assign id p
  step p (queries id text signal) = (query assign id text signal p).0
  step p (aborts id) = on_abort assign id p
  step p (grace_ends id) = on_grace_end assign id p
  step p (exits index worker) = on_worker_exit assign index worker p
  step p (sends m) = on_message m p
  step p shuts_down = shutdown p

  pub run : Pool A → List (Call A) → Pool A
  run p [] = p
  run p (c ∷ cs) = run (step p c) cs
