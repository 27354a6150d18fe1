-- ===== src/Workers/Ledger.antt =====
-- No request is lost and none is answered twice, whatever the workers do.
use sparqly.Base.{
  ℕ, ◌+◌, ◌≡◌, Option, some, List, [], ◌∷◌, JsString, arith, nat_eq, text_eq, Bool-cases,
  Option-cases, inl, inr, if_elim,
}
use sparqly.OrderedMap
use sparqly.OrderedMap.{OrderedMap, Distinct, values}
use sparqly.Workers.{
  Pool, PendingQuery, Timer, unarmed, armed, cleared, Signal, no_signal, already_aborted, live,
  Message, query_for, empty_pool, ensure_loaded, load_or_join, worker_for, post, invalidate,
  post_if_there, on_cancel, cancel_pending, wire_cancellation, query, abort_pending, on_abort,
  terminate_there, terminate_worker, grace_over, on_grace_end, on_worker_exit, Call, loads_source,
  invalidates, queries, aborts, grace_ends, exits, sends, shuts_down, step, run, is_worker,
}
use sparqly.Workers.Settling.{
  settlements, issued, waits, Ledger, Quiet, Quiet-trans, Quiet-Ledger, reclaim-Ledger,
  worker_for-Quiet, post-Quiet,
}
use sparqly.Workers.Replies.{
  update_pending-Ledger, register-Ledger, post_if_there-Quiet, shutdown-Ledger, on_message-Ledger,
}

module _ {A : Type 0} (assign : JsString → ℕ) where
  post_to-Quiet :
      (source_id : JsString) (m : Message) (p : Pool A)
      → Quiet p (post (worker_for assign source_id p) m)
  post_to-Quiet source_id m p =
      Quiet-trans (worker_for-Quiet assign source_id p)
        (post-Quiet (worker_for assign source_id p) m)

  ensure_loaded-Ledger :
      (source_id : JsString) (p : Pool A) → Ledger p → Ledger (ensure_loaded assign source_id p).0
  unfolding ensure_loaded load_or_join
  ensure_loaded-Ledger source_id p l = elim (Option-cases (OrderedMap.get source_id p.loads)) [
    | inl e ↦
        rw (e, load_or_join)
          (Quiet-Ledger (post_to-Quiet source_id _ _)
            (record { positive = l.positive; distinct = l.distinct; counted = l.counted }))
    | inr (t, e) ↦ rw (e, load_or_join) l
  ]

  invalidate-Ledger :
      (source_id : JsString) (p : Pool A) → Ledger p → Ledger (invalidate assign source_id p)
  unfolding invalidate
  invalidate-Ledger source_id p l = Quiet-Ledger (post_if_there-Quiet _ _ p) l

  cancelled-Ledger :
      (id : ℕ) (q : PendingQuery) (w : Option ℕ) (m : Message) (new : PendingQuery) (p : Pool A)
      → OrderedMap.get id p.pending ≡ some q
      → Ledger p
      → Ledger (record (post_if_there w m p) {
        pending = OrderedMap.set id new (post_if_there w m p).pending;
      })
  cancelled-Ledger id q w m new p h l =
      let quiet = post_if_there-Quiet w m p in
      update_pending-Ledger id q new (post_if_there w m p) (rw quiet.pending h)
        (Quiet-Ledger quiet l)

  cancel_pending-Ledger :
      (id : ℕ) (q : PendingQuery) (p : Pool A)
      → OrderedMap.get id p.pending ≡ some q
      → Ledger p
      → Ledger (cancel_pending assign id (some q) p)
  unfolding cancel_pending
  cancel_pending-Ledger id q p h l = by_timer q.grace
    where
      by_timer :
          (t : Timer)
          → Ledger (elim t as (λ _. Pool A) [
            | armed ↦ p
            | cleared ↦ p
            | unarmed ↦
                record (post_if_there
                  (OrderedMap.get q.worker_index p.workers)
                  (Message.cancel_request id)
                  p) {
                    pending =
                        OrderedMap.set id
                          (record q { grace = armed })
                          (post_if_there
                            (OrderedMap.get q.worker_index p.workers)
                            (Message.cancel_request id)
                            p).pending;
                  }
          ])
      by_timer armed = l
      by_timer cleared = l
      by_timer unarmed = cancelled-Ledger id q _ _ _ p h l

  on_cancel-Ledger : (id : ℕ) (p : Pool A) → Ledger p → Ledger (on_cancel assign id p)
  unfolding on_cancel cancel_pending
  on_cancel-Ledger id p l = elim (Option-cases (OrderedMap.get id p.pending)) [
    | inl e ↦ rw (e, cancel_pending) l
    | inr (q, e) ↦ rw (e, cancel_pending) (cancel_pending-Ledger id q p e l)
  ]

  wire_cancellation-Ledger :
      (id : ℕ) (signal : Signal) (p : Pool A)
      → Ledger p
      → Ledger (wire_cancellation assign id signal p)
  unfolding wire_cancellation
  wire_cancellation-Ledger id no_signal p l = l
  wire_cancellation-Ledger id already_aborted p l = on_cancel-Ledger id p l
  wire_cancellation-Ledger id live p l = elim (Option-cases (OrderedMap.get id p.pending)) [
    | inl e ↦ rw (e, wire_cancellation) l
    | inr (q, e) ↦ rw (e, wire_cancellation) (update_pending-Ledger id q _ p e l)
  ]

  query-Ledger :
      (source_id text : JsString) (signal : Signal) (p : Pool A)
      → Ledger p
      → Ledger (query assign source_id text signal p).0
  unfolding query
  query-Ledger source_id text signal p l = wire_cancellation-Ledger p.next_request_id signal _ (
      Quiet-Ledger (post_to-Quiet source_id (query_for p.next_request_id source_id text) _)
        (register-Ledger _ p l))

  on_abort-Ledger : (id : ℕ) (p : Pool A) → Ledger p → Ledger (on_abort assign id p)
  unfolding on_abort abort_pending
  on_abort-Ledger id p l = elim (Option-cases (OrderedMap.get id p.pending)) [
    | inl e ↦ rw (e, abort_pending) l
    | inr (q, e) ↦
        rw (e, abort_pending)
          (elim (Bool-cases q.listening) [
            | inl on ↦ rw on (on_cancel-Ledger id _ (update_pending-Ledger id q _ p e l))
            | inr off ↦ rw off l
          ])
  ]

  terminate_worker-Ledger :
      (index : ℕ) (p : Pool A) → Ledger p → Ledger (terminate_worker assign index p)
  unfolding terminate_worker terminate_there
  terminate_worker-Ledger index p l = elim (Option-cases (OrderedMap.get index p.workers)) [
    | inl e ↦ rw (e, terminate_there) l
    | inr (w, e) ↦
        rw (e, terminate_there)
          (reclaim-Ledger assign index _ _
            (record { positive = l.positive; distinct = l.distinct; counted = l.counted }))
  ]

  grace_over-Ledger :
      (q : PendingQuery) (p : Pool A) → Ledger p → Ledger (grace_over assign (some q) p)
  unfolding grace_over
  grace_over-Ledger q p l = by_timer q.grace
    where
      by_timer :
          (t : Timer)
          → Ledger (elim t as (λ _. Pool A) [
            | armed ↦ terminate_worker assign q.worker_index p
            | unarmed ↦ p
            | cleared ↦ p
          ])
      by_timer armed = terminate_worker-Ledger q.worker_index p l
      by_timer unarmed = l
      by_timer cleared = l

  on_grace_end-Ledger : (id : ℕ) (p : Pool A) → Ledger p → Ledger (on_grace_end assign id p)
  unfolding on_grace_end grace_over
  on_grace_end-Ledger id p l = elim (Option-cases (OrderedMap.get id p.pending)) [
    | inl e ↦ rw (e, grace_over) l
    | inr (q, e) ↦ rw (e, grace_over) (grace_over-Ledger q p l)
  ]

  on_worker_exit-Ledger :
      (index worker : ℕ) (p : Pool A) → Ledger p → Ledger (on_worker_exit assign index worker p)
  unfolding on_worker_exit
  on_worker_exit-Ledger index worker p l = if_elim Ledger p.shutting_down l (
      if_elim Ledger (is_worker worker (OrderedMap.get index p.workers))
        (reclaim-Ledger assign index _ p l) l)

  -- Each call, and each event of a worker in any order, keeps the ledger of requests.
  step-Ledger : (p : Pool A) (c : Call A) → Ledger p → Ledger (step assign p c)
  unfolding step
  step-Ledger p (loads_source id) l = ensure_loaded-Ledger id p l
  step-Ledger p (invalidates id) l = invalidate-Ledger id p l
  step-Ledger p (queries id text signal) l = query-Ledger id text signal p l
  step-Ledger p (aborts id) l = on_abort-Ledger id p l
  step-Ledger p (grace_ends id) l = on_grace_end-Ledger id p l
  step-Ledger p (exits index worker) l = on_worker_exit-Ledger index worker p l
  step-Ledger p (sends m) l = on_message-Ledger m p l
  step-Ledger p shuts_down l = shutdown-Ledger p l

  run-Ledger : (p : Pool A) (cs : List (Call A)) → Ledger p → Ledger (run assign p cs)
  unfolding run
  run-Ledger p [] l = l
  run-Ledger p (c ∷ cs) l = run-Ledger (step assign p c) cs (step-Ledger p c l)

  empty_pool-Ledger : Ledger (empty_pool {A = A})
  unfolding empty_pool
  empty_pool-Ledger = record {
    positive = omega arith;
    distinct = tt;
    counted = λ id. ground (arith, OrderedMap.get_empty {V = PendingQuery} id);
  }

  -- After any sequence of calls and events, each request that was issued waits or its promise has
  -- settled exactly once, and no promise of another id has settled.
  pub run-settlements :
      (cs : List (Call A)) (id : ℕ)
      → settlements id (run assign empty_pool cs).trace
          + waits id (run assign empty_pool cs).pending
        ≡ issued id (run assign empty_pool cs).next_request_id
  run-settlements cs id = (run-Ledger empty_pool cs empty_pool-Ledger).counted id
