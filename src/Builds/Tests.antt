-- ===== src/Builds/Tests.antt =====
-- Runs of the pool of index builds.
use sparqly.Base.{
  ℕ, arith, ◌+◌, ◌≡◌, refl, false, none, some, List, [], ◌∷◌, JsString, codes, if◌then◌else◌,
  includes, text_eq, nat_eq, ltb,
}
use sparqly.OrderedMap
use sparqly.Builds.{
  Pool, Child, init, start, request, on_exit, check_cooldown, Call, requests, exits, step, run,
  is_zero, keep_tail, slice_last,
}
use sparqly.Builds.Tail.{collect}
use sparqly.Builds.Validity.{IsValid}
use sparqly.Builds.Invariant.{step-IsValid, run-init-IsValid}
use sparqly.Builds.Outcomes.{check_cooldown-on_exit}
use sparqly.Builds.Draining.{Ended, IsUnsettled, run_exits, run_exits_starts}

abbrev index_a : JsString
index_a = codes "a"

abbrev index_b : JsString
index_b = codes "b"

-- One slot: the first source builds, the second one waits.
abbrev calls : List Call
calls = requests index_a 0 ∷ requests index_b 0 ∷ []

abbrev child_a : Child
child_a = record {
  source_id = index_a;
  stderr_tail = [];
  exited = none;
  spawn_error = none;
  settled = false;
}

abbrev busy_pool : Pool
busy_pool = run (init 1 1000 4) calls

child_runs : OrderedMap.get 0 busy_pool.children ≡ some child_a
unfolding run step request start init OrderedMap.get OrderedMap.set check_cooldown
child_runs = refl

waits_for_slot : busy_pool.queue ≡ index_b ∷ []
unfolding run step request start init OrderedMap.get OrderedMap.set check_cooldown
waits_for_slot = refl

still_open : busy_pool.shutting_down ≡ false
unfolding run step request start init OrderedMap.get OrderedMap.set check_cooldown
still_open = refl

step-IsValid_example : IsValid (step busy_pool (exits 0 (some 1) 5))
step-IsValid_example = step-IsValid busy_pool (exits 0 (some 1) 5) (run-init-IsValid 1 1000 4 calls)

check_cooldown-on_exit_example : check_cooldown index_a 500 (on_exit 0 (some 1) 5 busy_pool) ≡ (
    if includes busy_pool.cancelling index_a
    then false
    else if is_zero (some 1)
    then false
    else ltb 500 (5 + busy_pool.cooldown_ms))
check_cooldown-on_exit_example =
    check_cooldown-on_exit 0 (some 1) 5 500 child_a busy_pool child_runs refl

-- Two slots, two builds that run, and two that wait.
abbrev two_and_two : List Call
two_and_two =
    requests index_a 0 ∷ requests index_b 0 ∷ requests (codes "c") 0 ∷ requests (codes "d") 0 ∷ []

abbrev full_pool : Pool
full_pool = run (init 2 1000 4) two_and_two

full_queue : full_pool.queue ≡ codes "c" ∷ codes "d" ∷ []
unfolding run step request start init OrderedMap.get OrderedMap.set check_cooldown
full_queue = refl

full_open : full_pool.shutting_down ≡ false
unfolding run step request start init OrderedMap.get OrderedMap.set check_cooldown
full_open = refl

a-IsUnsettled : IsUnsettled full_pool 0
unfolding run step request start init OrderedMap.get OrderedMap.set check_cooldown
a-IsUnsettled = (omega arith, (child_a, refl, refl))

b-IsUnsettled : IsUnsettled full_pool 1
unfolding run step request start init OrderedMap.get OrderedMap.set check_cooldown
b-IsUnsettled = (omega arith, (record child_a { source_id = index_b }, refl, refl))

abbrev both_exit : List Ended
both_exit = (1, some 0, 5) ∷ (0, none, 7) ∷ []

run_exits_starts_example :
    (n : ℕ) × (OrderedMap.get (codes "d") (run_exits both_exit full_pool).running ≡ some n)
    × ((run_exits both_exit full_pool).queue ≡ [])
run_exits_starts_example =
    run_exits_starts both_exit (codes "c" ∷ []) (codes "d") [] full_pool refl full_queue full_open
      (b-IsUnsettled, (a-IsUnsettled, tt)) (((λ h. omega arith), tt), (tt, tt))

no_cooldown : check_cooldown index_a 0 (init 1 1000 4) ≡ false
unfolding check_cooldown init OrderedMap.get
no_cooldown = refl

abbrev chunks : List JsString
chunks = codes "abc" ∷ codes "def" ∷ []

collect_run : collect 4 [] chunks ≡ codes "cdef"
unfolding keep_tail slice_last
collect_run = refl
