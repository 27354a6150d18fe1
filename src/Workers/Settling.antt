-- ===== src/Workers/Settling.antt =====
-- How often a request's promise has settled, and what the parts of the pool do to that count.
use sparqly.Base.{
  ℕ, ◌+◌, ◌≤◌, ◌≡◌, refl, ◌&&◌, some, List, [], ◌∷◌, JsString, arith, if◌then◌else◌, leb, ltb,
  nat_eq, text_eq, ◌==◌, Bool-cases, Option-cases, inl, inr, ◌∙◌,
}
use sparqly.OrderedMap
use sparqly.OrderedMap.{OrderedMap, Distinct}
use sparqly.Workers.{
  Pool, PendingQuery, Effect, Loss, Settled, worker_lost, Message, posted, terminated,
  query_settled, load_settled, reset, install, settle_query, settle_load, fail_queries, fail_loads,
  reclaim, reset_of, worker_for, worker_or_install, post,
}

-- How often the promise of request `id` has settled.
abbrev pub settlements : {A : Type 0} → ℕ → List (Effect A) → ℕ
settlements id [] = 0
settlements id (query_settled j r ∷ t) = (if j == id then 1 else 0) + settlements id t
settlements id (posted w m ∷ t) = settlements id t
settlements id (terminated w ∷ t) = settlements id t
settlements id (load_settled j r ∷ t) = settlements id t
settlements id (reset ids ∷ t) = settlements id t

abbrev pub issued : ℕ → ℕ → ℕ
issued id next = if leb 1 id && ltb id next then 1 else 0

abbrev pub waits : ℕ → OrderedMap ℕ PendingQuery → ℕ
waits id pending = if OrderedMap.has id pending then 1 else 0

-- Each request that was issued waits, or has settled once; no other has.
pub record Ledger {A : Type 0} (p : Pool A) : Type 0 where
  pub positive : 1 ≤ p.next_request_id
  pub distinct : Distinct p.pending
  pub counted : (id : ℕ) → settlements id p.trace + waits id p.pending ≡ issued id p.next_request_id

-- A step that neither takes up a request nor settles one.
pub record Quiet {A : Type 0} (p q : Pool A) : Type 0 where
  pub pending : q.pending ≡ p.pending
  pub next : q.next_request_id ≡ p.next_request_id
  pub settled : (id : ℕ) → settlements id q.trace ≡ settlements id p.trace

module _ {A : Type 0} where
  pub Quiet-refl : (p : Pool A) → Quiet p p
  Quiet-refl p = record { pending = refl; next = refl; settled = λ id. refl }

  pub Quiet-trans : {p q r : Pool A} → Quiet p q → Quiet q r → Quiet p r
  Quiet-trans a b = record {
    pending = b.pending ∙ a.pending;
    next = b.next ∙ a.next;
    settled = λ id. b.settled id ∙ a.settled id;
  }

  pub Quiet-Ledger : {p q : Pool A} → Quiet p q → Ledger p → Ledger q
  Quiet-Ledger a l = record {
    positive = rw a.next l.positive;
    distinct = rw a.pending l.distinct;
    counted = λ id. rw (a.settled id, a.pending, a.next) (l.counted id);
  }

  install-Quiet : (index : ℕ) (p : Pool A) → Quiet p (install index p)
  unfolding install
  install-Quiet index p = record { pending = refl; next = refl; settled = λ id. refl }

  pub settle_load-Quiet :
      (source_id : JsString) (ticket : ℕ) (result : Settled A) (p : Pool A)
      → Quiet p (settle_load source_id ticket result p)
  unfolding settle_load
  settle_load-Quiet source_id ticket result p = record {
    pending = refl;
    next = refl;
    settled = λ id. refl;
  }

  pub settle_query-Ledger :
      (id : ℕ) (result : Settled A) (q : PendingQuery) (p : Pool A)
      → OrderedMap.get id p.pending ≡ some q
      → Ledger p
      → Ledger (settle_query id result p)
  unfolding settle_query
  settle_query-Ledger id result q p h l = record {
    positive = l.positive;
    distinct = OrderedMap.delete-Distinct id p.pending l.distinct;
    counted = λ j. ground (arith, l.counted j, h, OrderedMap.get-delete id j p.pending);
  }

  fail_queries-Ledger :
      (index : ℕ) (reason : Loss) (snapshot : OrderedMap ℕ PendingQuery) (p : Pool A)
      → Distinct snapshot
      → OrderedMap.Within snapshot p.pending
      → Ledger p
      → Ledger (fail_queries index reason snapshot p)
  unfolding fail_queries
  fail_queries-Ledger index reason [] p d w l = l
  fail_queries-Ledger index reason ((id, q) ∷ rest) p d w l =
      elim (Bool-cases (q.worker_index == index)) [
        | inl e ↦ rw e (
            fail_queries-Ledger index reason rest (settle_query id (worker_lost q.query reason) p)
              d.1 (unfold settle_query in OrderedMap.delete-Within id rest p.pending d.0 w.1)
              (settle_query-Ledger id _ q p w.0 l))
        | inr e ↦ rw e (fail_queries-Ledger index reason rest p d.1 w.1 l)
      ]

  reset_of-Quiet : (ids : List JsString) (p : Pool A) → Quiet p (reset_of ids p)
  unfolding reset_of
  reset_of-Quiet [] p = record { pending = refl; next = refl; settled = λ id. refl }
  reset_of-Quiet (i ∷ ids) p = record { pending = refl; next = refl; settled = λ id. refl }

  pub post-Quiet : (r : Pool A × ℕ) (m : Message) → Quiet (r.0) (post r m)
  post-Quiet r m = record { pending = refl; next = refl; settled = λ id. refl }

  module _ (assign : JsString → ℕ) where
    fail_loads-Quiet :
        (index : ℕ) (reason : Loss) (snapshot : OrderedMap JsString ℕ) (p : Pool A)
        → Quiet p (fail_loads assign index reason snapshot p)
    unfolding fail_loads
    fail_loads-Quiet index reason [] p = Quiet-refl p
    fail_loads-Quiet index reason ((source_id, ticket) ∷ rest) p =
        elim (Bool-cases (assign source_id == index)) [
          | inl e ↦ rw e (
              Quiet-trans (settle_load-Quiet source_id ticket _ p)
                (fail_loads-Quiet index reason rest _))
          | inr e ↦ rw e (fail_loads-Quiet index reason rest p)
        ]

    pub reclaim-Ledger :
        (index : ℕ) (reason : Loss) (p : Pool A) → Ledger p → Ledger (reclaim assign index reason p)
    unfolding reclaim
    reclaim-Ledger index reason p l =
        let i = install index p in
        let li = Quiet-Ledger (install-Quiet index p) l in
        let q = fail_queries index reason i.pending i in
        let lq =
          fail_queries-Ledger index reason i.pending i li.distinct
            (OrderedMap.Within-self i.pending li.distinct) li in
        let f = fail_loads assign index reason q.loads q in
        Quiet-Ledger (reset_of-Quiet _ f)
          (Quiet-Ledger (fail_loads-Quiet index reason q.loads q) lq)

    pub worker_for-Quiet :
        (source_id : JsString) (p : Pool A) → Quiet p (worker_for assign source_id p).0
    unfolding worker_for worker_or_install install
    worker_for-Quiet source_id p =
        elim (Option-cases (OrderedMap.get (assign source_id) p.workers)) [
          | inl e ↦
              rw (e, worker_or_install)
                (record { pending = refl; next = refl; settled = λ id. refl })
          | inr (w, e) ↦
              rw (e, worker_or_install)
                (record { pending = refl; next = refl; settled = λ id. refl })
        ]
