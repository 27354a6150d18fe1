-- ===== src/Events/Ring/Tests.antt =====
-- Runs of the buffer.
use sparqly.Base.{ℕ, ◌≡◌, refl, inr, List, [], ◌∷◌, ◌++◌, arith, filter_by}
use sparqly.Events.Ring.{Event, events, RingBuffer, append, since, later_than}
use sparqly.Events.Ring.Replay.{After, leaving, append-After, since_complete}

abbrev event_at : ℕ → ℕ → Event ℕ
event_at id payload = record { id = id; payload = payload }

-- A buffer of two events after three.
abbrev third_on : RingBuffer ℕ
third_on = record { next_id = 4; stored = event_at 2 20 ∷ event_at 3 30 ∷ []; capacity = 2 }

abbrev gone : List (Event ℕ)
gone = event_at 1 10 ∷ []

third_on-After : After gone third_on
third_on-After = record {
  positive = omega arith;
  bounded = omega arith;
  numbered = (refl, (refl, (refl, refl)));
  full = inr refl;
}

append-After_example :
    After (gone ++ leaving 40 third_on) (append 40 third_on).0
    × ((append 40 third_on).1.id ≡ 4)
    × ((gone ++ leaving 40 third_on) ++ (append 40 third_on).0.stored
        ≡ (gone ++ third_on.stored) ++ (append 40 third_on).1 ∷ [])
append-After_example = append-After 40 gone third_on third_on-After

replayed : since 2 third_on ≡ events (event_at 3 30 ∷ [])
unfolding since
replayed = refl

since_complete_example : event_at 3 30 ∷ [] ≡ filter_by (later_than 2) (gone ++ third_on.stored)
since_complete_example =
    since_complete 2 gone (event_at 3 30 ∷ []) third_on third_on-After (omega arith) replayed

-- The third event pushes the first one out.
append_run : (append 40 third_on).0.stored ≡ event_at 3 30 ∷ event_at 4 40 ∷ []
unfolding append
append_run = refl
