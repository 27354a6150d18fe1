-- ===== src/Builds/Invariant.antt =====
-- The invariant is kept by every call and every event of a child.
use sparqly.Base.{
  ℕ, ◌+◌, ◌<◌, ◌≡◌, refl, ◌⊎◌, inl, inr, Bool, true, false, Option, some, List, [], ◌∷◌, JsString,
  arith, length, text_eq, nat_eq, All, Bool-cases, Option-cases,
}
use sparqly.OrderedMap
use sparqly.OrderedMap.{OrderedMap, Distinct}
use sparqly.Builds.{
  Pool, Child, init, forget_failure, on_exit, exit_of, on_error, error_of, on_stderr, stderr_of,
  shutdown, settle, release, record_outcome, start_next, Call, requests, cancels, forgets, exits,
  errors, stderrs, shuts_down, step, run,
}
use sparqly.Builds.Slots.{Slots, release-Slots, set_child-Slots}
use sparqly.Builds.Queueing.{NoRepeat, Idle, delete-Idle}
use sparqly.Builds.Validity.{
  IsValid, request-IsValid, cancel-IsValid, start-IsValid, same-IsValid, record_outcome_same,
}

-- The pool between the end of a build and the start of the next one: a slot is free.
record Freed (p : Pool) : Type 0 where
  slots : Slots p
  room : length p.running < p.concurrency
  apart : All (Idle p.running) p.queue
  once : NoRepeat p.queue
  busy : (p.queue ≡ []) ⊎ (length p.running + 1 ≡ p.concurrency)
  closed : p.shutting_down ≡ true → p.queue ≡ []

same-Freed :
    (p q : Pool)
    → q.concurrency ≡ p.concurrency
    → q.running ≡ p.running
    → q.children ≡ p.children
    → q.queue ≡ p.queue
    → q.shutting_down ≡ p.shutting_down
    → q.next_child ≡ p.next_child
    → Freed p
    → Freed q
same-Freed p q ec er eh eq es en v = record {
  slots = record {
    distinct = rw er v.slots.distinct;
    owned = λ id n h. rw eh (v.slots.owned id n (rw er at h));
    live = λ n c h o. rw er (v.slots.live n c (rw eh at h) o);
    fresh = λ n h. rw eh (v.slots.fresh n (rw en at h));
  };
  room = rw (er, ec) v.room;
  apart = rw (er, eq) v.apart;
  once = rw eq v.once;
  busy = rw (er, eq, ec) v.busy;
  closed = λ shut. rw eq (v.closed (rw es at shut));
}

release-Freed :
    (n : ℕ) (c d : Child) (p : Pool)
    → OrderedMap.get n p.children ≡ some c
    → c.settled ≡ false
    → d.source_id ≡ c.source_id
    → IsValid p
    → Freed (release n d p)
release-Freed n c d p here open_ same v =
    let freed : length (OrderedMap.delete d.source_id p.running) + 1 ≡ length p.running = ground (
      arith,
      same,
      v.slots.live n c here open_,
      OrderedMap.length-delete d.source_id p.running v.slots.distinct,
    ) in
    record {
      slots = release-Slots n c d p here open_ same v.slots;
      room = unfold release in omega (arith, freed, v.waiting.limit);
      apart = unfold release in delete-Idle d.source_id p.running p.queue v.waiting.apart;
      once = unfold release in v.waiting.once;
      busy = unfold release in ground (arith, freed, v.waiting.busy);
      closed = unfold release in v.waiting.closed;
    }

start_next-IsValid :
    (p : Pool) (xs : List JsString) → p.queue ≡ xs → Freed p → IsValid (start_next xs p)
unfolding start_next
start_next-IsValid p [] e f = record {
  slots = f.slots;
  waiting = record {
    limit = omega (arith, f.room);
    apart = f.apart;
    once = f.once;
    busy = inl e;
    closed = f.closed;
  };
}
start_next-IsValid p (id ∷ rest) e f =
    let apart = rw e at (f.apart) in
    let once = rw e at (f.once) in
    start-IsValid id (record p { queue = rest }) apart.0 once.0 f.room (ground (arith, e, f.busy))
      (record {
        distinct = f.slots.distinct;
        owned = f.slots.owned;
        live = f.slots.live;
        fresh = f.slots.fresh;
      })
      apart.1 once.1 (λ shut. ground (arith, e, f.closed shut))

settle-IsValid :
    (n : ℕ) (c d : Child) (failed : Bool) (now : ℕ) (p : Pool)
    → OrderedMap.get n p.children ≡ some c
    → d.source_id ≡ c.source_id
    → d.settled ≡ c.settled
    → IsValid p
    → IsValid (settle n d failed now p)
unfolding settle
settle-IsValid n c d failed now p here same state v = elim (Bool-cases d.settled) [
  | inl e ↦
      let unchanged : settle n d failed now p
          ≡ record p { children = OrderedMap.set n d p.children } =
        ground (arith, e) in
      rw unchanged (record {
        slots = set_child-Slots n c d p here same state v.slots;
        waiting = record {
          limit = v.waiting.limit;
          apart = v.waiting.apart;
          once = v.waiting.once;
          busy = v.waiting.busy;
          closed = v.waiting.closed;
        };
      })
  | inr e ↦
      let r = release n d p in
      let q = record_outcome d.source_id d failed now r in
      let (ec, er, eh, eq, es, en) = record_outcome_same d.source_id d failed now r in
      let freed =
        same-Freed r q ec er eh eq es en
          (release-Freed n c d p here (ground (arith, e, state)) same v) in
      elim (Bool-cases q.shutting_down) [
        | inl shut ↦
            let stops : settle n d failed now p ≡ q = ground (arith, e, shut) in
            let ended : start_next [] q ≡ q = unfold start_next in refl in
            rw stops (rw ended at (start_next-IsValid q [] (freed.closed shut) freed))
        | inr goes ↦
            let starts : settle n d failed now p ≡ start_next q.queue q = ground (arith, e, goes) in
            rw starts (start_next-IsValid q q.queue refl freed)
      ]
]

on_exit-IsValid :
    (n : ℕ) (code : Option ℕ) (now : ℕ) (p : Pool) → IsValid p → IsValid (on_exit n code now p)
unfolding on_exit exit_of
on_exit-IsValid n code now p v = elim (Option-cases (OrderedMap.get n p.children)) [
  | inl e ↦ rw (e, exit_of) v
  | inr (c, e) ↦ rw (e, exit_of) (settle-IsValid n c _ _ now p e refl refl v)
]

on_error-IsValid :
    (n : ℕ) (message : JsString) (now : ℕ) (p : Pool)
    → IsValid p
    → IsValid (on_error n message now p)
unfolding on_error error_of
on_error-IsValid n message now p v = elim (Option-cases (OrderedMap.get n p.children)) [
  | inl e ↦ rw (e, error_of) v
  | inr (c, e) ↦ rw (e, error_of) (settle-IsValid n c _ _ now p e refl refl v)
]

on_stderr-IsValid : (n : ℕ) (text : JsString) (p : Pool) → IsValid p → IsValid (on_stderr n text p)
unfolding on_stderr stderr_of
on_stderr-IsValid n text p v = elim (Option-cases (OrderedMap.get n p.children)) [
  | inl e ↦ rw (e, stderr_of) v
  | inr (c, e) ↦
      rw (e, stderr_of)
        (record {
          slots = set_child-Slots n c _ p e refl refl v.slots;
          waiting = record {
            limit = v.waiting.limit;
            apart = v.waiting.apart;
            once = v.waiting.once;
            busy = v.waiting.busy;
            closed = v.waiting.closed;
          };
        })
]

shutdown-IsValid : (p : Pool) → IsValid p → IsValid (shutdown p)
unfolding shutdown
shutdown-IsValid p v = record {
  slots = record {
    distinct = v.slots.distinct;
    owned = v.slots.owned;
    live = v.slots.live;
    fresh = v.slots.fresh;
  };
  waiting = record {
    limit = v.waiting.limit;
    apart = tt;
    once = tt;
    busy = inl refl;
    closed = λ _. refl;
  };
}

-- Every call, and every event of a child in any order, keeps the invariant: no more builds run than
-- the pool allows, no source builds twice at once or waits while it builds, and a build waits only
-- while every slot is taken.
pub step-IsValid : (p : Pool) (c : Call) → IsValid p → IsValid (step p c)
unfolding step
step-IsValid p (requests id now) v = request-IsValid id now p v
step-IsValid p (cancels id) v = cancel-IsValid id p v
step-IsValid p (forgets id) v =
    same-IsValid p (forget_failure id p) (unfold forget_failure in refl)
      (unfold forget_failure in refl) (unfold forget_failure in refl)
      (unfold forget_failure in refl) (unfold forget_failure in refl)
      (unfold forget_failure in refl) v
step-IsValid p (exits n code now) v = on_exit-IsValid n code now p v
step-IsValid p (errors n message now) v = on_error-IsValid n message now p v
step-IsValid p (stderrs n text) v = on_stderr-IsValid n text p v
step-IsValid p shuts_down v = shutdown-IsValid p v

run-IsValid : (p : Pool) (cs : List Call) → IsValid p → IsValid (run p cs)
unfolding run
run-IsValid p [] v = v
run-IsValid p (c ∷ cs) v = run-IsValid (step p c) cs (step-IsValid p c v)

-- So it holds after any sequence of calls and events on a new pool.
pub run-init-IsValid :
    (concurrency cooldown tail : ℕ) (cs : List Call)
    → IsValid (run (init concurrency cooldown tail) cs)
run-init-IsValid concurrency cooldown tail cs = run-IsValid _ cs (
    unfold init in
    record {
      slots = record {
        distinct = tt;
        owned = λ id n h. absurd (none_of id n h);
        live = λ n c h o. absurd (no_child n c h);
        fresh = λ n h. OrderedMap.get_empty n;
      };
      waiting = record {
        limit = omega arith;
        apart = tt;
        once = tt;
        busy = inl refl;
        closed = λ _. refl;
      };
    })
  where
    none_of : (id : JsString) (n : ℕ) → OrderedMap.get {V = ℕ} id [] ≡ some n → ⊥
    none_of id n h = ground (arith, OrderedMap.get_empty {V = ℕ} id, h)

    no_child : (n : ℕ) (c : Child) → OrderedMap.get {V = Child} n [] ≡ some c → ⊥
    no_child n c h = ground (arith, OrderedMap.get_empty {V = Child} n, h)
