-- ===== src/Workers/Replies.antt =====
-- The ledger of requests under replies, registrations and a shutdown.
use sparqly.Base.{
  ℕ, ◌+◌, ◌≡◌, refl, false, Option, none, some, List, [], ◌∷◌, JsString, arith, nat_eq, text_eq,
  Option-cases, inl, inr,
}
use sparqly.OrderedMap
use sparqly.OrderedMap.{OrderedMap, Distinct, values}
use sparqly.Workers.{
  Pool, PendingQuery, Effect, Settled, answer, refusal, Message, terminated, post_if_there,
  query_reply, load_reply, on_message, stop_timers, terminate_all, shutdown, WorkerMessage,
  query_ok, query_error, load_success, load_failure,
}
use sparqly.Workers.Settling.{
  settlements, Ledger, Quiet, Quiet-refl, Quiet-Ledger, settle_query-Ledger, settle_load-Quiet,
}

has-stop_timers :
    (id : ℕ) (pending : OrderedMap ℕ PendingQuery)
    → OrderedMap.has id (stop_timers pending) ≡ OrderedMap.has id pending
unfolding OrderedMap.get stop_timers
has-stop_timers id [] = refl
has-stop_timers id ((j, q) ∷ rest) = ground (arith, has-stop_timers id rest)

none_of_not-has :
    (id : ℕ) (pending : OrderedMap ℕ PendingQuery)
    → OrderedMap.has id pending ≡ false
    → OrderedMap.get id pending ≡ none
none_of_not-has id pending h = ground arith

stop_timers-Distinct :
    (pending : OrderedMap ℕ PendingQuery) → Distinct pending → Distinct (stop_timers pending)
unfolding stop_timers
stop_timers-Distinct [] d = tt
stop_timers-Distinct ((j, q) ∷ rest) d = (
  none_of_not-has j (stop_timers rest) (ground (arith, has-stop_timers j rest, d.0)),
  stop_timers-Distinct rest d.1,
)

module _ {A : Type 0} where
  -- An entry of `pending` may change, as long as it stays.
  pub update_pending-Ledger :
      (id : ℕ) (old new : PendingQuery) (p : Pool A)
      → OrderedMap.get id p.pending ≡ some old
      → Ledger p
      → Ledger (record p { pending = OrderedMap.set id new p.pending })
  update_pending-Ledger id old new p h l = record {
    positive = l.positive;
    distinct = OrderedMap.set-Distinct id new p.pending l.distinct;
    counted = λ j.
        ground (arith, l.counted j, h, nat_eq.beq_iff id j, OrderedMap.get-set id j new p.pending);
  }

  pub register-Ledger :
      (entry : PendingQuery) (p : Pool A)
      → Ledger p
      → Ledger (record p {
        next_request_id = p.next_request_id + 1;
        pending = OrderedMap.set p.next_request_id entry p.pending;
      })
  register-Ledger entry p l = record {
    positive = omega (arith, l.positive);
    distinct = OrderedMap.set-Distinct p.next_request_id entry p.pending l.distinct;
    counted = λ j.
        ground
          (arith, l.counted j, l.positive, OrderedMap.get-set p.next_request_id j entry p.pending);
  }

  pub post_if_there-Quiet :
      (w : Option ℕ) (m : Message) (p : Pool A) → Quiet p (post_if_there w m p)
  unfolding post_if_there
  post_if_there-Quiet none m p = Quiet-refl p
  post_if_there-Quiet (some w) m p = record { pending = refl; next = refl; settled = λ id. refl }

  terminate_all-settlements :
      (id : ℕ) (ws : List ℕ) (trace : List (Effect A))
      → settlements id (terminate_all ws trace) ≡ settlements id trace
  unfolding terminate_all
  terminate_all-settlements id [] trace = refl
  terminate_all-settlements id (w ∷ ws) trace =
      terminate_all-settlements id ws (terminated w ∷ trace)

  pub shutdown-Ledger : (p : Pool A) → Ledger p → Ledger (shutdown p)
  unfolding shutdown
  shutdown-Ledger p l = record {
    positive = l.positive;
    distinct = stop_timers-Distinct p.pending l.distinct;
    counted = λ id.
        rw (terminate_all-settlements id (values p.workers) p.trace, has-stop_timers id p.pending)
          (l.counted id);
  }

  reply_Ledger :
      (id : ℕ) (result : Settled A) (p : Pool A)
      → Ledger p
      → Ledger (query_reply id result (OrderedMap.get id p.pending) p)
  unfolding query_reply
  reply_Ledger id result p l = elim (Option-cases (OrderedMap.get id p.pending)) [
    | inl e ↦ rw (e, query_reply) l
    | inr (q, e) ↦ rw (e, query_reply) (settle_query-Ledger id result q p e l)
  ]

  loaded_Ledger :
      (source_id : JsString) (result : Settled A) (p : Pool A)
      → Ledger p
      → Ledger (load_reply source_id result (OrderedMap.get source_id p.loads) p)
  unfolding load_reply
  loaded_Ledger source_id result p l = elim (Option-cases (OrderedMap.get source_id p.loads)) [
    | inl e ↦ rw (e, load_reply) l
    | inr (t, e) ↦ rw (e, load_reply) (Quiet-Ledger (settle_load-Quiet source_id t result p) l)
  ]

  pub on_message-Ledger : (m : WorkerMessage A) (p : Pool A) → Ledger p → Ledger (on_message m p)
  unfolding on_message
  on_message-Ledger (query_ok id a) p l = reply_Ledger id (answer a) p l
  on_message-Ledger (query_error id a) p l = reply_Ledger id (refusal a) p l
  on_message-Ledger (load_success source_id a) p l = loaded_Ledger source_id (answer a) p l
  on_message-Ledger (load_failure source_id a) p l = loaded_Ledger source_id (refusal a) p l
