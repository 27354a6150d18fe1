-- ===== src/Events/Broker/Tests.antt =====
-- Runs of the broker; a row is a number.
use sparqly.Base.{
  ℕ, ◌≡◌, ◌≢◌, refl, Option, none, some, List, [], ◌∷◌, ◌++◌, codes, arith, inr, false, nat_eq,
  text_eq,
}
use sparqly.OrderedMap
use sparqly.Sources.{ParsedSource, empty}
use sparqly.Events.Ring
use sparqly.Events.Ring.{Event, RingBuffer, overflow, since, append}
use sparqly.Events.Ring.Replay.{After}
use sparqly.Events.Broker.{
  SourceTransition, load_start, Projected, row_envelope, SourceStateBroker, make_broker, subscribe,
  build_replay, Call, emits, projects, subscribes, run, enqueue, project_next, project, publish,
  send_all,
}
use sparqly.Events.Broker.Stream.{due, history, subscribe_complete, build_replay_ahead}

abbrev home : ParsedSource ℕ
home = empty (record { id = codes "a"; is_default = false })

abbrev projected : ℕ → Projected ℕ
projected n = record { source_id = codes "a"; row = n }

-- Two events are recorded, and the buffer is full.
abbrev ring : RingBuffer (Projected ℕ)
ring = record {
  next_id = 3;
  stored =
      record { id = 1; payload = projected 10 } ∷ record { id = 2; payload = projected 20 } ∷ [];
  capacity = 2;
}

ring-After : After [] ring
ring-After = record {
  positive = omega arith;
  bounded = omega arith;
  numbered = (refl, (refl, refl));
  full = inr refl;
}

abbrev broker : SourceStateBroker ℕ ℕ
broker = make_broker ring (home ∷ [])

abbrev reads : ParsedSource ℕ → List (ParsedSource ℕ) → Option ℕ
reads source children = some 30

abbrev transition : SourceTransition
transition = record { kind = load_start; source_id = codes "a" }

-- Another client comes, and a transition of `a` is projected.
abbrev calls : List (Call ℕ ℕ)
calls = subscribes 8 none ∷ emits transition ∷ projects reads ∷ []

sent_run :
    OrderedMap.get 7 (run calls (subscribe 7 (some 1) broker)).clients
    ≡ some (row_envelope 2 20 ∷ row_envelope 3 30 ∷ [])
unfolding OrderedMap.get OrderedMap.set subscribe build_replay enqueue project_next project publish
    send_all Ring.since Ring.append
sent_run = refl

near : since 1 ring ≢ overflow
unfolding Ring.since
near e = ground (arith, e)

subscribe_complete_example :
    (dropped' : List (Event (Projected ℕ))) × After dropped'
      (run calls (subscribe 7 (some 1) broker)).ring_buffer
    × (OrderedMap.get 7 (run calls (subscribe 7 (some 1) broker)).clients
        ≡ some (due 1 (history dropped' (run calls (subscribe 7 (some 1) broker)))))
    × ((more : List (Event (Projected ℕ))) × (history dropped'
            (run calls (subscribe 7 (some 1) broker))
          ≡ history [] broker ++ more))
unfolding OrderedMap.set
subscribe_complete_example =
    subscribe_complete 7 1 calls [] broker ring-After refl (omega arith) (omega arith) near
      (λ e. omega (arith, e), (tt, (tt, tt)))

build_replay_ahead_example : build_replay (some 40) broker ≡ []
unfolding OrderedMap.set
build_replay_ahead_example = build_replay_ahead 40 [] broker ring-After (omega arith)
