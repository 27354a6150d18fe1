-- ===== src/Builds.antt =====
-- libs/server/src/lib/bootstrap/index-build-pool.ts: the pool of child processes that build glob
-- indexes. A child is a number; what its listeners close over is kept in `children`. Spawning,
-- signals, sweeps and the `onSettle` callback are the entries of `trace`, latest first; the
-- callback does not call the pool back. The clock is an argument. The promises of `whenIdle` and
-- `shutdown` are not modelled.
mod Tail
mod Slots
mod Queueing
mod Validity
mod Invariant
mod Draining
mod Outcomes
mod Tests
use sparqly.Base.{
  ℕ, zero, suc, ◌+◌, ◌-◌, Bool, true, false, ◌||◌, Option, none, some, List, [], ◌∷◌, ◌++◌,
  JsString, nat_beq, ltb, leb, if◌then◌else◌, length, includes, text_eq, nat_eq, is_some, ◌==◌,
  filter_by,
}
use sparqly.OrderedMap
use sparqly.OrderedMap.{OrderedMap, values}

pub data Outcome : Type 0 where
  success failure cancelled : Outcome

pub data FailureMessage : Type 0 where
  spawn_failed : JsString → FailureMessage
  signalled : FailureMessage
  exit_code : ℕ → FailureMessage

pub record BuildFailureInfo : Type 0 where
  pub message : FailureMessage
  pub details : Option JsString

pub data Effect : Type 0 where
  spawned : JsString → ℕ → Effect
  killed : ℕ → Effect
  swept : JsString → Effect
  settled_with : JsString → Outcome → Option BuildFailureInfo → Effect

-- `exited` is `exitCode`: not known yet, a signal (`null`), or a number.
pub record Child : Type 0 where
  pub source_id : JsString
  pub stderr_tail : JsString
  pub exited : Option (Option ℕ)
  pub spawn_error : Option JsString
  pub settled : Bool

pub record Pool : Type 0 where
  pub concurrency : ℕ
  pub cooldown_ms : ℕ
  pub stderr_tail_bytes : ℕ
  pub running : OrderedMap JsString ℕ
  pub children : OrderedMap ℕ Child
  pub cancelling : List JsString
  pub queue : List JsString
  pub last_failure_at : OrderedMap JsString ℕ
  pub shutting_down : Bool
  pub next_child : ℕ
  pub trace : List Effect

pub init : ℕ → ℕ → ℕ → Pool
init concurrency cooldown_ms stderr_tail_bytes = record {
  concurrency = concurrency;
  cooldown_ms = cooldown_ms;
  stderr_tail_bytes = stderr_tail_bytes;
  running = [];
  children = [];
  cancelling = [];
  queue = [];
  last_failure_at = [];
  shutting_down = false;
  next_child = 0;
  trace = [];
}

abbrev pub drop : ℕ → JsString → JsString
drop zero s = s
drop (suc k) [] = []
drop (suc k) (c ∷ s) = drop k s

-- `s.slice(-k)`: `-0` is 0, so a bound of 0 keeps all.
pub slice_last : ℕ → JsString → JsString
slice_last k s = if nat_beq k 0 then s else drop (length s - k) s

pub keep_tail : ℕ → JsString → JsString → JsString
unfolding slice_last
keep_tail bound tail text =
    if leb (length tail + length text) bound then tail ++ text else slice_last bound (tail ++ text)

-- `this.cancelling.delete(id)` and `queue.splice(queue.indexOf(id), 1)`.
pub remove_first : JsString → List JsString → List JsString
remove_first id [] = []
remove_first id (x ∷ xs) = if x == id then xs else x ∷ remove_first id xs

pub check_cooldown : JsString → ℕ → Pool → Bool
check_cooldown id now p = elim (OrderedMap.get id p.last_failure_at) [
  | none ↦ false
  | some failed_at ↦ ltb now (failed_at + p.cooldown_ms)
]

abbrev new_child : JsString → Child
new_child id = record {
  source_id = id;
  stderr_tail = [];
  exited = none;
  spawn_error = none;
  settled = false;
}

pub start : JsString → Pool → Pool
start id p = record p {
  running = OrderedMap.set id p.next_child p.running;
  children = OrderedMap.set p.next_child (new_child id) p.children;
  next_child = p.next_child + 1;
  trace = spawned id p.next_child ∷ p.trace;
}

abbrev pub is_building : JsString → Pool → Bool
is_building id p = OrderedMap.has id p.running || includes p.queue id

pub request : JsString → ℕ → Pool → Pool
request id now p =
    if p.shutting_down
    then p
    else if OrderedMap.has id p.running
    then p
    else if includes p.queue id
    then p
    else if check_cooldown id now p
    then p
    else if ltb (length p.running) p.concurrency
    then start id p
    else record p { queue = p.queue ++ id ∷ [] }

kill_running : JsString → Option ℕ → Pool → Pool
kill_running id none p = p
kill_running id (some n) p = record p {
  cancelling = if includes p.cancelling id then p.cancelling else id ∷ p.cancelling;
  trace = killed n ∷ p.trace;
}

pub cancel : JsString → Pool → Pool
unfolding kill_running
cancel id p =
    if includes p.queue id
    then record p { queue = remove_first id p.queue }
    else kill_running id (OrderedMap.get id p.running) p

pub forget_failure : JsString → Pool → Pool
forget_failure id p = record p { last_failure_at = OrderedMap.delete id p.last_failure_at }

-- `buildFailureMessage`
abbrev pub failure_message : Child → FailureMessage
failure_message c = elim c.spawn_error [
  | some message ↦ spawn_failed message
  | none ↦ elim c.exited [
    | none ↦ signalled
    | some code ↦ elim code [ none ↦ signalled | some k ↦ exit_code k ]
  ]
]

abbrev pub details_of : JsString → Option JsString
details_of [] = none
details_of (c ∷ tail) = some (c ∷ tail)

abbrev pub failure_info : Child → BuildFailureInfo
failure_info c = record { message = failure_message c; details = details_of c.stderr_tail }

-- The bookkeeping of `settle` for each outcome.
record_cancel : JsString → Pool → Pool
record_cancel id p = record p {
  cancelling = remove_first id p.cancelling;
  last_failure_at = OrderedMap.delete id p.last_failure_at;
  trace = settled_with id cancelled none ∷ swept id ∷ p.trace;
}

record_failure : JsString → Child → ℕ → Pool → Pool
record_failure id c now p = record p {
  last_failure_at = OrderedMap.set id now p.last_failure_at;
  trace = settled_with id failure (some (failure_info c)) ∷ p.trace;
}

record_success : JsString → Pool → Pool
record_success id p = record p {
  last_failure_at = OrderedMap.delete id p.last_failure_at;
  trace = settled_with id success none ∷ p.trace;
}

-- The first build of the queue takes the freed slot.
pub start_next : List JsString → Pool → Pool
start_next [] p = p
start_next (id ∷ rest) p = start id (record p { queue = rest })

pub record_outcome : JsString → Child → Bool → ℕ → Pool → Pool
unfolding record_cancel record_failure record_success
record_outcome id c failed now p =
    if includes p.cancelling id
    then record_cancel id p
    else if failed
    then record_failure id c now p
    else record_success id p

pub release : ℕ → Child → Pool → Pool
release n c p = record p {
  running = OrderedMap.delete c.source_id p.running;
  children = OrderedMap.set n (record c { settled = true }) p.children;
}

pub settle : ℕ → Child → Bool → ℕ → Pool → Pool
settle n c failed now p =
    if c.settled
    then record p { children = OrderedMap.set n c p.children }
    else let q = record_outcome c.source_id c failed now (release n c p) in
      if q.shutting_down then q else start_next q.queue q

abbrev is_zero : Option ℕ → Bool
is_zero none = false
is_zero (some k) = nat_beq k 0

exit_of : ℕ → Option ℕ → ℕ → Option Child → Pool → Pool
exit_of n code now none p = p
exit_of n code now (some c) p =
    settle n (record c { exited = some code }) (if is_zero code then false else true) now p

-- The listeners of a child. A number that was never spawned has none.
pub on_exit : ℕ → Option ℕ → ℕ → Pool → Pool
unfolding exit_of
on_exit n code now p = exit_of n code now (OrderedMap.get n p.children) p

error_of : ℕ → JsString → ℕ → Option Child → Pool → Pool
error_of n message now none p = p
error_of n message now (some c) p = settle n (record c { spawn_error = some message }) true now p

pub on_error : ℕ → JsString → ℕ → Pool → Pool
unfolding error_of
on_error n message now p = error_of n message now (OrderedMap.get n p.children) p

stderr_of : ℕ → JsString → Option Child → Pool → Pool
stderr_of n text none p = p
stderr_of n text (some c) p = record p {
  children =
      OrderedMap.set n (record c { stderr_tail = keep_tail p.stderr_tail_bytes c.stderr_tail text })
        p.children;
}

pub on_stderr : ℕ → JsString → Pool → Pool
unfolding stderr_of
on_stderr n text p = stderr_of n text (OrderedMap.get n p.children) p

kill_all : List ℕ → List Effect → List Effect
kill_all [] trace = trace
kill_all (n ∷ ns) trace = kill_all ns (killed n ∷ trace)

pub shutdown : Pool → Pool
unfolding kill_all
shutdown p = record p {
  shutting_down = true;
  queue = [];
  trace = kill_all (values p.running) p.trace;
}

pub data Call : Type 0 where
  requests : JsString → ℕ → Call
  cancels forgets : JsString → Call
  exits : ℕ → Option ℕ → ℕ → Call
  errors : ℕ → JsString → ℕ → Call
  stderrs : ℕ → JsString → Call
  shuts_down : Call

pub step : Pool → Call → Pool
step p (requests id now) = request id now p
step p (cancels id) = cancel id p
step p (forgets id) = forget_failure id p
step p (exits n code now) = on_exit n code now p
step p (errors n message now) = on_error n message now p
step p (stderrs n text) = on_stderr n text p
step p shuts_down = shutdown p

pub run : Pool → List Call → Pool
run p [] = p
run p (c ∷ cs) = run (step p c) cs
