-- ===== src/Builds/Outcomes.antt =====
-- What the end of a build does, and what follows a shutdown.
use sparqly.Base.{
  ℕ, ◌+◌, ◌≡◌, refl, inl, inr, Bool, true, false, Option, some, List, [], ◌∷◌, ◌++◌, JsString,
  arith, if◌then◌else◌, includes, text_eq, nat_eq, ltb, Option-cases,
}
use sparqly.OrderedMap
use sparqly.Builds.{
  Pool, Child, start, request, cancel, kill_running, on_exit, exit_of, on_error, error_of,
  on_stderr, stderr_of, forget_failure, shutdown, settle, release, record_outcome, record_cancel,
  record_failure, record_success, start_next, check_cooldown, Call, requests, cancels, forgets,
  exits, errors, stderrs, shuts_down, step, run, is_zero,
}

-- A child that exits and reports an error, or reports twice, is settled once: the second event moves
-- no slot, no queue, no cooldown and no callback.
on_exit_settled :
    (n : ℕ) (code : Option ℕ) (now : ℕ) (c : Child) (p : Pool)
    → OrderedMap.get n p.children ≡ some c
    → c.settled ≡ true
    → ((on_exit n code now p).running ≡ p.running)
      × ((on_exit n code now p).queue ≡ p.queue)
      × ((on_exit n code now p).last_failure_at ≡ p.last_failure_at)
      × ((on_exit n code now p).trace ≡ p.trace)
unfolding on_exit exit_of settle
on_exit_settled n code now c p h e = ground (arith, h, e)

start_next-last_failure :
    (xs : List JsString) (p : Pool) → (start_next xs p).last_failure_at ≡ p.last_failure_at
unfolding start_next start
start_next-last_failure [] p = refl
start_next-last_failure (x ∷ xs) p = refl

settle-last_failure :
    (n : ℕ) (c : Child) (failed : Bool) (now : ℕ) (p : Pool)
    → c.settled ≡ false
    → (settle n c failed now p).last_failure_at ≡ (
        if includes p.cancelling c.source_id
        then OrderedMap.delete c.source_id p.last_failure_at
        else if failed
        then OrderedMap.set c.source_id now p.last_failure_at
        else OrderedMap.delete c.source_id p.last_failure_at)
unfolding settle record_outcome release record_cancel record_failure record_success
settle-last_failure n c failed now p h =
    let q = record_outcome c.source_id c failed now (release n c p) in
    ground (arith, h, start_next-last_failure q.queue q)

start_next-cooldown_ms :
    (xs : List JsString) (p : Pool) → (start_next xs p).cooldown_ms ≡ p.cooldown_ms
unfolding start_next start
start_next-cooldown_ms [] p = refl
start_next-cooldown_ms (x ∷ xs) p = refl

settle-cooldown_ms :
    (n : ℕ) (c : Child) (failed : Bool) (now : ℕ) (p : Pool)
    → (settle n c failed now p).cooldown_ms ≡ p.cooldown_ms
unfolding settle record_outcome release record_cancel record_failure record_success
settle-cooldown_ms n c failed now p =
    let q = record_outcome c.source_id c failed now (release n c p) in
    ground (arith, start_next-cooldown_ms q.queue q)

-- After the end of a build its source may not be built again until `cooldown_ms` has passed, if the
-- child failed and was not cancelled, and may be at once otherwise.
pub check_cooldown-on_exit :
    (n : ℕ) (code : Option ℕ) (now later : ℕ) (c : Child) (p : Pool)
    → OrderedMap.get n p.children ≡ some c
    → c.settled ≡ false
    → check_cooldown c.source_id later (on_exit n code now p) ≡ (
        if includes p.cancelling c.source_id
        then false
        else if is_zero code
        then false
        else ltb later (now + p.cooldown_ms))
unfolding check_cooldown on_exit exit_of
check_cooldown-on_exit n code now later c p h e =
    let failed = if is_zero code then false else true in
    let d = record c { exited = some code } in
    ground (
      arith,
      h,
      settle-last_failure n d failed now p e,
      settle-cooldown_ms n d failed now p,
      OrderedMap.get-set c.source_id c.source_id now p.last_failure_at,
      OrderedMap.get-delete c.source_id c.source_id p.last_failure_at,
      text_eq.beq_iff c.source_id c.source_id,
    )

includes-append_last : (xs : List JsString) (x : JsString) → includes (xs ++ x ∷ []) x ≡ true
includes-append_last [] x = ground (arith, text_eq.beq_iff x x)
includes-append_last (y ∷ xs) x = ground (arith, includes-append_last xs x)

-- A request that is repeated, at any time, changes nothing that the first one did not, if the first
-- was not refused for the cooldown.
pub request_again :
    (id : JsString) (now later : ℕ) (p : Pool)
    → check_cooldown id now p ≡ false
    → request id later (request id now p) ≡ request id now p
unfolding request start
request_again id now later p h = ground (
  arith,
  h,
  includes-append_last p.queue id,
  OrderedMap.get-set id id p.next_child p.running,
  text_eq.beq_iff id id,
)

-- The pool is shut down, and has spawned `n` children so far.
record Closed (n : ℕ) (p : Pool) : Type 0 where
  down : p.shutting_down ≡ true
  count : p.next_child ≡ n

settle-Closed :
    (k n : ℕ) (c : Child) (failed : Bool) (now : ℕ) (p : Pool)
    → Closed n p
    → Closed n (settle k c failed now p)
unfolding settle record_outcome release record_cancel record_failure record_success
settle-Closed k n c failed now p h = ground arith

step-Closed : (n : ℕ) (p : Pool) (c : Call) → Closed n p → Closed n (step p c)
unfolding step request cancel kill_running forget_failure on_exit exit_of on_error error_of
    on_stderr stderr_of shutdown
step-Closed n p (requests id now) h = ground arith
step-Closed n p (cancels id) h = ground arith
step-Closed n p (forgets id) h = ground arith
step-Closed n p (exits k code now) h = elim (Option-cases (OrderedMap.get k p.children)) [
  | inl e ↦ rw (e, exit_of) h
  | inr (c, e) ↦ rw (e, exit_of) (settle-Closed k n _ _ now p h)
]
step-Closed n p (errors k message now) h = elim (Option-cases (OrderedMap.get k p.children)) [
  | inl e ↦ rw (e, error_of) h
  | inr (c, e) ↦ rw (e, error_of) (settle-Closed k n _ _ now p h)
]
step-Closed n p (stderrs k text) h = ground arith
step-Closed n p shuts_down h = ground arith

run-Closed : (n : ℕ) (p : Pool) (cs : List Call) → Closed n p → Closed n (run p cs)
unfolding run
run-Closed n p [] h = h
run-Closed n p (c ∷ cs) h = run-Closed n (step p c) cs (step-Closed n p c h)

-- After a shutdown nothing that happens spawns a child.
pub shutdown_spawns_nothing :
    (p : Pool) (cs : List Call) → (run (shutdown p) cs).next_child ≡ p.next_child
shutdown_spawns_nothing p cs =
    (run-Closed p.next_child (shutdown p) cs
      (unfold shutdown in record { down = refl; count = refl })).count
