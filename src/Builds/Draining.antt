-- ===== src/Builds/Draining.antt =====
-- The queue drains as builds end, whatever their outcome.
use sparqly.Base.{
  ℕ, suc, ◌+◌, ◌<◌, ◌≡◌, ◌≢◌, sym, ◌∙◌, true, false, Option, none, some, List, [], ◌∷◌, ◌++◌,
  JsString, arith, text_eq, nat_eq, length, All,
}
use sparqly.OrderedMap
use sparqly.Builds.{
  Pool, Child, start, on_exit, exit_of, settle, release, record_outcome, record_cancel,
  record_failure, record_success, start_next,
}

-- The exit of a child: its number, its code, and the time.
abbrev pub Ended : Type 0
Ended = ℕ × Option ℕ × ℕ

abbrev pub run_exits : List Ended → Pool → Pool
run_exits [] p = p
run_exits ((n, code, now) ∷ exits) p = run_exits exits (on_exit n code now p)

-- The child was spawned, and has not settled.
abbrev pub IsUnsettled : Pool → ℕ → Type 0
IsUnsettled p n =
    (n < p.next_child)
    × ((c : Child) × (OrderedMap.get n p.children ≡ some c) × (c.settled ≡ false))

-- The exits are of different children.
abbrev pub AreDistinct : List Ended → Type 0
AreDistinct [] = Unit
AreDistinct (e ∷ exits) = All (λ f. f.0 ≢ e.0) exits × AreDistinct exits

on_exit-fields :
    (n : ℕ) (code : Option ℕ) (now : ℕ) (c : Child) (id : JsString) (rest : List JsString)
    (p : Pool)
    → OrderedMap.get n p.children ≡ some c
    → c.settled ≡ false
    → p.queue ≡ id ∷ rest
    → p.shutting_down ≡ false
    → (OrderedMap.get id (on_exit n code now p).running ≡ some p.next_child)
      × ((on_exit n code now p).queue ≡ rest)
      × ((on_exit n code now p).shutting_down ≡ false)
      × ((on_exit n code now p).next_child ≡ p.next_child + 1)
unfolding on_exit exit_of settle record_outcome release record_cancel record_failure record_success
    start_next start
on_exit-fields n code now c id rest p h e q open_ = ground (
  arith,
  h,
  e,
  q,
  open_,
  OrderedMap.get-set id id p.next_child (OrderedMap.delete c.source_id p.running),
  text_eq.beq_iff id id,
)

on_exit-children :
    (n m : ℕ) (code : Option ℕ) (now : ℕ) (c : Child) (id : JsString) (rest : List JsString)
    (p : Pool)
    → OrderedMap.get n p.children ≡ some c
    → c.settled ≡ false
    → p.queue ≡ id ∷ rest
    → p.shutting_down ≡ false
    → m ≢ n
    → m < p.next_child
    → OrderedMap.get m (on_exit n code now p).children ≡ OrderedMap.get m p.children
unfolding on_exit exit_of settle record_outcome release record_cancel record_failure record_success
    start_next start
on_exit-children n m code now c id rest p h e q open_ other before =
    let d = record c { exited = some code; settled = true } in
    ground (
      arith,
      h,
      e,
      q,
      open_,
      before,
      λ (k : n ≡ m). other (sym k),
      OrderedMap.get-set n m d p.children,
      OrderedMap.get-set p.next_child m
          (record {
            source_id = id;
            stderr_tail = [];
            exited = none;
            spawn_error = none;
            settled = false;
          })
          (OrderedMap.set n d p.children),
      nat_eq.beq_iff n m,
      nat_eq.beq_iff p.next_child m,
    )

on_exit-IsUnsettled :
    (n : ℕ) (code : Option ℕ) (now : ℕ) (id : JsString) (rest : List JsString) (p : Pool)
    (exits : List Ended)
    → IsUnsettled p n
    → p.queue ≡ id ∷ rest
    → p.shutting_down ≡ false
    → All (λ f. f.0 ≢ n) exits
    → All (λ f. IsUnsettled p f.0) exits
    → All (λ f. IsUnsettled (on_exit n code now p) f.0) exits
on_exit-IsUnsettled n code now id rest p [] live q open_ others all = tt
on_exit-IsUnsettled n code now id rest p ((m, k, t) ∷ exits) live q open_ others all =
    let (before, (c, h, e)) = live in
    let (under, (d, h', e')) = all.0 in
    let fields = on_exit-fields n code now c id rest p h e q open_ in
    let kept = on_exit-children n m code now c id rest p h e q open_ others.0 under in
    (
      (ground (arith, fields, under), (d, kept ∙ h', e')),
      on_exit-IsUnsettled n code now id rest p exits live q open_ others.1 all.1,
    )

-- While the pool is not shutting down, a queued source starts after as many exits of different
-- children that have not settled as its place in the queue, counted from 1, whichever exit, in
-- whatever order, and however they end, cancelled ones included; the sources behind it stay queued.
pub run_exits_starts :
    (exits : List Ended) (front : List JsString) (id : JsString) (rest : List JsString) (p : Pool)
    → length exits ≡ suc (length front)
    → p.queue ≡ front ++ id ∷ rest
    → p.shutting_down ≡ false
    → All (λ f. IsUnsettled p f.0) exits
    → AreDistinct exits
    → (n : ℕ) × (OrderedMap.get id (run_exits exits p).running ≡ some n)
      × ((run_exits exits p).queue ≡ rest)
run_exits_starts [] front id rest p count q open_ live apart = absurd (omega arith)
run_exits_starts ((n, code, now) ∷ []) [] id rest p count q open_ live apart =
    let (before, (c, h, e)) = live.0 in
    let fields = on_exit-fields n code now c id rest p h e q open_ in
    (p.next_child, fields.0, fields.1)
run_exits_starts (e ∷ f ∷ exits) [] id rest p count q open_ live apart = absurd (omega arith)
run_exits_starts ((n, code, now) ∷ exits) (x ∷ front) id rest p count q open_ live apart =
    let (before, (c, h, e)) = live.0 in
    let fields = on_exit-fields n code now c x (front ++ id ∷ rest) p h e q open_ in
    run_exits_starts exits front id rest (on_exit n code now p) (ground (arith, count)) fields.1
      fields.2
      (on_exit-IsUnsettled n code now x (front ++ id ∷ rest) p exits live.0 q open_ apart.0 live.1)
      apart.1
