-- ===== src/EngineMap/Unloading.antt =====
-- What an unload and a reload do to loads that still wait for the worker.
use sparqly.Base.{
  ℕ, ◌+◌, ◌≡◌, ◌≤◌, ◌<◌, if_elim, refl, sym, ◌∙◌, subst, true, none, some, List, [], ◌∷◌, ◌++◌,
  Result, ok, err, ◌==◌, nat_eq, arith, All, All-append, Option-cases, Bool-cases, inl, inr,
}
use sparqly.SourceRows.{SourceRowError}
use sparqly.EngineMap.{
  LoadInfo, State, init, load_via_worker, ensure_entry, invalidate, reload, occupied, unload_entry,
  unload, reset_worker_residency, epoch_of, without, load_ends, cleared, settled, transition_of,
}

pub data Step : Type 0 where
  touched reloaded unloaded worker_lost : Step
  ended : ℕ → Result SourceRowError LoadInfo → ℕ → Step

abbrev pub step : Step → State → State
step touched s = ensure_entry s
step reloaded s = reload s
step unloaded s = unload s
step worker_lost s = reset_worker_residency s
step (ended ticket result now) s = load_ends ticket result now s

abbrev pub run : List Step → State → State
run [] s = s
run (x ∷ xs) s = run xs (step x s)

-- The ends of loads, in any order.
abbrev pub run_ends : List (ℕ × Result SourceRowError LoadInfo × ℕ) → State → State
run_ends [] s = s
run_ends ((ticket, result, now) ∷ rest) s = run_ends rest (load_ends ticket result now s)

-- No load began in an epoch to come.
abbrev Bounded : State → Type 0
Bounded s = All (λ p. p.1 ≤ s.entry.load_epoch) s.in_flight

-- Each load that waits began in an epoch before this one.
abbrev Superseded : State → Type 0
Superseded s = All (λ p. p.1 < s.entry.load_epoch) s.in_flight

epoch_of-All :
    (n ticket : ℕ) (xs : List (ℕ × ℕ)) (epoch : ℕ)
    → All (λ p. p.1 < n) xs
    → epoch_of ticket xs ≡ some epoch
    → epoch < n
epoch_of-All n ticket [] epoch below found = cc
epoch_of-All n ticket ((t, e) ∷ rest) epoch below found = elim (Bool-cases (t == ticket)) [
  | inl h ↦ ground (arith, h, found, below.0)
  | inr h ↦ epoch_of-All n ticket rest epoch below.1 (ground (arith, h, found))
]

without-All :
    (P : ℕ × ℕ → Type 0) (ticket : ℕ) (xs : List (ℕ × ℕ)) → All P xs → All P (without ticket xs)
without-All P ticket [] all = tt
without-All P ticket ((t, e) ∷ rest) all =
    if_elim (All P) (t == ticket) all.1 (all.0, without-All P ticket rest all.1)

All-weaken :
    (n m : ℕ) (xs : List (ℕ × ℕ)) → n ≤ m → All (λ p. p.1 ≤ n) xs → All (λ p. p.1 < m + 1) xs
All-weaken n m [] le all = tt
All-weaken n m ((t, e) ∷ rest) le all = (ground (arith, all.0, le), All-weaken n m rest le all.1)

All-weaken_le : (n : ℕ) (xs : List (ℕ × ℕ)) → All (λ p. p.1 ≤ n) xs → All (λ p. p.1 ≤ n + 1) xs
All-weaken_le n [] all = tt
All-weaken_le n ((t, e) ∷ rest) all = (ground (arith, all.0), All-weaken_le n rest all.1)

load_ends_past :
    (ticket epoch : ℕ) (result : Result SourceRowError LoadInfo) (now : ℕ) (s : State)
    → epoch_of ticket s.in_flight ≡ some epoch
    → epoch < s.entry.load_epoch
    → load_ends ticket result now s ≡ record s { in_flight = without ticket s.in_flight }
unfolding load_ends
load_ends_past ticket epoch result now s found older =
    ground (arith, found, older, nat_eq.beq_iff s.entry.load_epoch epoch)

load_ends_unknown :
    (ticket : ℕ) (result : Result SourceRowError LoadInfo) (now : ℕ) (s : State)
    → epoch_of ticket s.in_flight ≡ none
    → load_ends ticket result now s ≡ s
unfolding load_ends
load_ends_unknown ticket result now s unknown = ground (arith, unknown)

-- The entry, and what was emitted, stay; so do the epochs of the loads that are left.
abbrev Kept : State → State → Type 0
Kept s s' = (s'.entry ≡ s.entry) × (s'.emitted ≡ s.emitted) × Superseded s'

load_ends-Kept :
    (ticket : ℕ) (result : Result SourceRowError LoadInfo) (now : ℕ) (s : State)
    → Superseded s
    → Kept s (load_ends ticket result now s)
load_ends-Kept ticket result now s past = elim (Option-cases (epoch_of ticket s.in_flight)) [
  | inl e ↦ subst (Kept s) (sym (load_ends_unknown ticket result now s e)) (refl, refl, past)
  | inr (epoch, e) ↦
      let older : epoch < s.entry.load_epoch =
        epoch_of-All s.entry.load_epoch ticket s.in_flight epoch past e in
      subst (Kept s) (sym (load_ends_past ticket epoch result now s e older))
        (refl, refl, without-All (λ p. p.1 < s.entry.load_epoch) ticket s.in_flight past)
]

run_ends-Kept :
    (ends : List (ℕ × Result SourceRowError LoadInfo × ℕ)) (s : State)
    → Superseded s
    → ((run_ends ends s).entry ≡ s.entry) × ((run_ends ends s).emitted ≡ s.emitted)
run_ends-Kept [] s past = (refl, refl)
run_ends-Kept ((ticket, result, now) ∷ rest) s past =
    let (e, m, past') = load_ends-Kept ticket result now s past in
    let (e', m') = run_ends-Kept rest (load_ends ticket result now s) past' in (e' ∙ e, m' ∙ m)

load_via_worker-Bounded : (s : State) → Bounded s → Bounded (load_via_worker s)
unfolding load_via_worker
load_via_worker-Bounded s bounded =
    All-append (λ p. p.1 ≤ s.entry.load_epoch) s.in_flight
      ((s.next_ticket, s.entry.load_epoch) ∷ []) bounded (omega arith, tt)

unload-occupied : (s : State) → occupied s.entry ≡ true → unload s ≡ cleared (invalidate s)
unfolding unload unload_entry
unload-occupied s held = rw held refl

unload-Bounded : (s : State) → Bounded s → Bounded (unload s)
unfolding unload unload_entry
unload-Bounded s bounded =
    if_elim Bounded (occupied s.entry) {x = cleared (invalidate s)} {y = invalidate s}
      (All-weaken_le s.entry.load_epoch s.in_flight bounded) bounded

load_ends-Bounded :
    (ticket : ℕ) (result : Result SourceRowError LoadInfo) (now : ℕ) (s : State)
    → Bounded s
    → Bounded (load_ends ticket result now s)
unfolding load_ends
load_ends-Bounded ticket result now s bounded = elim (Option-cases (epoch_of ticket s.in_flight)) [
  | inl e ↦ subst Bounded (sym (load_ends_unknown ticket result now s e)) bounded
  | inr (epoch, e) ↦
      let left : All (λ p. p.1 ≤ s.entry.load_epoch) (without ticket s.in_flight) =
        without-All (λ p. p.1 ≤ s.entry.load_epoch) ticket s.in_flight bounded in
      rw (load_ends, e) (if_elim Bounded (s.entry.load_epoch == epoch) (by_result result left) left)
]
  where
    by_result :
        (r : Result SourceRowError LoadInfo)
        → All (λ p. p.1 ≤ s.entry.load_epoch) (without ticket s.in_flight)
        → Bounded (record s {
          entry = settled r now s.entry;
          in_flight = without ticket s.in_flight;
          emitted = s.emitted ++ transition_of r ∷ [];
        })
    by_result (ok info) left = left
    by_result (err x) left = left

unload-Superseded : (s : State) → Bounded s → occupied s.entry ≡ true → Superseded (unload s)
unfolding unload unload_entry
unload-Superseded s bounded held =
    subst Superseded (sym (unload-occupied s held))
      (All-weaken s.entry.load_epoch s.entry.load_epoch s.in_flight (omega arith) bounded)

step-Bounded : (x : Step) (s : State) → Bounded s → Bounded (step x s)
unfolding ensure_entry reload unload unload_entry reset_worker_residency
step-Bounded touched s bounded =
    elim s.entry.loaded as (λ o. Bounded (elim o [ none ↦ load_via_worker s | some ticket ↦ s ])) [
      | none ↦ load_via_worker-Bounded s bounded
      | some ticket ↦ bounded
    ]
step-Bounded reloaded s bounded = load_via_worker-Bounded (invalidate s) bounded
step-Bounded unloaded s bounded = unload-Bounded s bounded
step-Bounded worker_lost s bounded = bounded
step-Bounded (ended ticket result now) s bounded = load_ends-Bounded ticket result now s bounded

run-Bounded : (steps : List Step) (s : State) → Bounded s → Bounded (run steps s)
run-Bounded [] s bounded = bounded
run-Bounded (x ∷ xs) s bounded = run-Bounded xs (step x s) (step-Bounded x s bounded)

-- After any steps, an unload of an entry that holds something, or waits for its load, is final for
-- the loads that wait: however they end, and in whatever order, the entry stays unloaded and
-- nothing is emitted.
pub unload_final :
    (steps : List Step) (ends : List (ℕ × Result SourceRowError LoadInfo × ℕ))
    → occupied (run steps init).entry ≡ true
    → ((run_ends ends (unload (run steps init))).entry ≡ (unload (run steps init)).entry)
      × ((run_ends ends (unload (run steps init))).emitted ≡ (unload (run steps init)).emitted)
unload_final steps ends held =
    let s : State = run steps init in
    run_ends-Kept ends (unload s) (unload-Superseded s (run-Bounded steps init tt) held)

epoch_of-append :
    (ticket : ℕ) (xs ys : List (ℕ × ℕ)) (epoch : ℕ)
    → epoch_of ticket xs ≡ some epoch
    → epoch_of ticket (xs ++ ys) ≡ some epoch
epoch_of-append ticket [] ys epoch found = cc
epoch_of-append ticket ((t, e) ∷ rest) ys epoch found = elim (Bool-cases (t == ticket)) [
  | inl h ↦ ground (arith, h, found)
  | inr h ↦ ground (arith, h, found, epoch_of-append ticket rest ys epoch)
]

load_ends_in_time :
    (ticket : ℕ) (result : Result SourceRowError LoadInfo) (now : ℕ) (s : State)
    → epoch_of ticket s.in_flight ≡ some s.entry.load_epoch
    → (load_ends ticket result now s).entry ≡ settled result now s.entry
unfolding load_ends
load_ends_in_time ticket result now s found =
    ground (arith, found, nat_eq.beq_iff s.entry.load_epoch s.entry.load_epoch)

-- A reload does not supersede a load that waits and began after the last unload: when that load
-- ends, the entry takes its result.
pub reload_not_superseding :
    (ticket : ℕ) (result : Result SourceRowError LoadInfo) (now : ℕ) (s : State)
    → epoch_of ticket s.in_flight ≡ some s.entry.load_epoch
    → (load_ends ticket result now (reload s)).entry ≡ settled result now (reload s).entry
unfolding reload load_via_worker
reload_not_superseding ticket result now s found = load_ends_in_time ticket result now (reload s) (
    epoch_of-append ticket s.in_flight ((s.next_ticket, s.entry.load_epoch) ∷ []) s.entry.load_epoch
      found)
