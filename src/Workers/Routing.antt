-- ===== src/Workers/Routing.antt =====
-- Which worker serves a source, and what a lost worker takes with it.
use sparqly.Base.{
  ℕ, ◌<◌, ◌≡◌, refl, false, Option, none, some, List, [], ◌∷◌, JsString, arith, if◌then◌else◌,
  nat_eq, text_eq, ◌==◌, Bool-cases, Option-cases, inl, inr, ◌∙◌,
}
use sparqly.OrderedMap
use sparqly.OrderedMap.{OrderedMap, Distinct}
use sparqly.Workers.{
  Pool, PendingQuery, Loss, posted, query_for, install, settle_query, settle_load, fail_queries,
  fail_loads, reclaim, reset_of, or_nothing, worker_for, worker_or_install, query, no_signal,
  wire_cancellation, terminate_worker, terminate_there, on_worker_exit, ensure_loaded, load_or_join,
  worker_lost, terminated, terminated_after_grace, unarmed,
}

-- An entry of `pending`, unless it was on the worker that is lost.
abbrev pub on_other_worker : ℕ → Option PendingQuery → Option PendingQuery
on_other_worker index none = none
on_other_worker index (some q) = if q.worker_index == index then none else some q

module _ {A : Type 0} where
  -- `snapshot` agrees with the map at each of its keys.
  fail_queries-get :
      (index : ℕ) (reason : Loss) (snapshot : OrderedMap ℕ PendingQuery) (p : Pool A) (id : ℕ)
      → Distinct snapshot
      → OrderedMap.Within snapshot p.pending
      → OrderedMap.get id (fail_queries index reason snapshot p).pending ≡ (
          if OrderedMap.has id snapshot
          then on_other_worker index (OrderedMap.get id p.pending)
          else OrderedMap.get id p.pending)
  unfolding fail_queries OrderedMap.get settle_query
  fail_queries-get index reason [] p id d w = refl
  fail_queries-get index reason ((j, q) ∷ rest) p id d w =
      elim (Bool-cases (q.worker_index == index)) [
        | inl e ↦ ground (
          arith,
          e,
          d.0,
          w.0,
          nat_eq.beq_iff j id,
          OrderedMap.get-delete j id p.pending,
          fail_queries-get index reason rest (settle_query j (worker_lost q.query reason) p) id d.1
              (OrderedMap.delete-Within j rest p.pending d.0 w.1),
        )
        | inr e ↦
            ground
              (arith, e, w.0, nat_eq.beq_iff j id, fail_queries-get index reason rest p id d.1 w.1)
      ]

  fail_queries-workers :
      (index : ℕ) (reason : Loss) (snapshot : OrderedMap ℕ PendingQuery) (p : Pool A)
      → (fail_queries index reason snapshot p).workers ≡ p.workers
  unfolding fail_queries settle_query
  fail_queries-workers index reason [] p = refl
  fail_queries-workers index reason ((j, q) ∷ rest) p =
      fail_queries-workers index reason rest _ ∙ ground arith

  reset_of-same :
      (ids : List JsString) (p : Pool A)
      → ((reset_of ids p).workers ≡ p.workers)
        × ((reset_of ids p).pending ≡ p.pending)
        × ((reset_of ids p).loads ≡ p.loads)
  unfolding reset_of
  reset_of-same [] p = (refl, refl, refl)
  reset_of-same (i ∷ ids) p = (refl, refl, refl)

  module _ (assign : JsString → ℕ) where
    fail_loads-same :
        (index : ℕ) (reason : Loss) (snapshot : OrderedMap JsString ℕ) (p : Pool A)
        → ((fail_loads assign index reason snapshot p).workers ≡ p.workers)
          × ((fail_loads assign index reason snapshot p).pending ≡ p.pending)
    unfolding fail_loads settle_load
    fail_loads-same index reason [] p = (refl, refl)
    fail_loads-same index reason ((s, t) ∷ rest) p = ground (
      arith,
      fail_loads-same index reason rest
          (if assign s == index then settle_load s t (worker_lost [] reason) p else p),
    )

    -- A worker that is lost takes its own requests with it and no other, and a new worker stands in
    -- its place; every other index keeps its worker.
    pub reclaim_lem :
        (index : ℕ) (reason : Loss) (p : Pool A)
        → Distinct p.pending
        → ((id : ℕ)
            → OrderedMap.get id (reclaim assign index reason p).pending
              ≡ on_other_worker index (OrderedMap.get id p.pending))
          × ((i : ℕ)
              → OrderedMap.get i (reclaim assign index reason p).workers
                ≡ (if index == i then some p.next_worker else OrderedMap.get i p.workers))
    unfolding reclaim install
    reclaim_lem index reason p d =
        let i = install index p in
        let q = fail_queries index reason i.pending i in
        let f = fail_loads assign index reason q.loads q in
        let same = reset_of-same (or_nothing (OrderedMap.get index f.sources_by_worker)) f in
        let kept = fail_loads-same index reason q.loads q in
        (
          λ id. ground (
            arith,
            same,
            kept,
            fail_queries-get index reason i.pending i id d (OrderedMap.Within-self p.pending d),
          ),
          λ j. ground (
            arith,
            same,
            kept,
            fail_queries-workers index reason i.pending i,
            OrderedMap.get-set index j p.next_worker p.workers,
          ),
        )

    -- The exit of a worker that a termination has replaced is no crash: it changes nothing.
    pub on_worker_exit_replaced :
        (index worker : ℕ) (p : Pool A)
        → Distinct p.pending
        → OrderedMap.get index p.workers ≡ some worker
        → worker < p.next_worker
        → on_worker_exit assign index worker (terminate_worker assign index p)
          ≡ terminate_worker assign index p
    unfolding on_worker_exit terminate_worker terminate_there
    on_worker_exit_replaced index worker p d h lt =
        let gone = record p { trace = terminated worker ∷ p.trace } in
        let (_, replaced) = reclaim_lem index terminated_after_grace gone d in
        ground (arith, h, lt, replaced index, nat_eq.beq_iff index index)

    -- While a load is in flight, asking for it again joins it: the same promise, and nothing is sent.
    pub ensure_loaded_again :
        (source_id : JsString) (p : Pool A)
        → ensure_loaded assign source_id (ensure_loaded assign source_id p).0
          ≡ ((ensure_loaded assign source_id p).0, (ensure_loaded assign source_id p).1)
    unfolding ensure_loaded load_or_join worker_for worker_or_install install
    ensure_loaded_again source_id p = ground (
      arith,
      OrderedMap.get-set source_id source_id p.next_load p.loads,
      text_eq.beq_iff source_id source_id,
    )

    -- A query is posted, under a new id, to the worker that its source is assigned to, which is
    -- there from then on; the request waits for that worker.
    pub query_routes :
        (source_id text : JsString) (p : Pool A)
        → (worker : ℕ) × (OrderedMap.get
              (assign source_id)
              (query assign source_id text no_signal p).0.workers
            ≡ some worker)
          × ((query assign source_id text no_signal p).0.trace
              ≡ posted worker (query_for p.next_request_id source_id text) ∷ p.trace)
          × ((entry : PendingQuery) × (OrderedMap.get p.next_request_id
                  (query assign source_id text no_signal p).0.pending
                ≡ some entry)
              × (entry.worker_index ≡ assign source_id))
    unfolding query wire_cancellation worker_for worker_or_install install
    query_routes source_id text p =
        elim (Option-cases (OrderedMap.get (assign source_id) p.workers)) [
          | inl e ↦ (
            p.next_worker,
            ground (
              arith,
              e,
              OrderedMap.get-set (assign source_id) (assign source_id) p.next_worker p.workers,
            ),
            ground (arith, e),
            (
              record {
                worker_index = assign source_id;
                query = text;
                listening = false;
                grace = unarmed;
              },
              ground (
                arith,
                e,
                OrderedMap.get-set p.next_request_id p.next_request_id
                    (record {
                      worker_index = assign source_id;
                      query = text;
                      listening = false;
                      grace = unarmed;
                    })
                    p.pending,
              ),
              refl,
            ),
          )
          | inr (w, e) ↦ (
            w,
            ground (arith, e),
            ground (arith, e),
            (
              record {
                worker_index = assign source_id;
                query = text;
                listening = false;
                grace = unarmed;
              },
              ground (
                arith,
                e,
                OrderedMap.get-set p.next_request_id p.next_request_id
                    (record {
                      worker_index = assign source_id;
                      query = text;
                      listening = false;
                      grace = unarmed;
                    })
                    p.pending,
              ),
              refl,
            ),
          )
        ]
