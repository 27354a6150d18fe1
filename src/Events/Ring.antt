-- ===== src/Events/Ring.antt =====
-- libs/server/src/lib/sources/source-state-ring-buffer.ts. An event carries a payload of any
-- type (`sourceId` and `row` in the source) under the id that the buffer gives it.
pub mod Replay
mod Tests
use sparqly.Base.{
  ℕ, suc, ◌+◌, ◌-◌, ◌≤◌, ◌≡◌, Bool, Option, none, some, List, [], ◌∷◌, ◌++◌, if◌then◌else◌, ltb,
  length, filter_by, ◌&&◌, false,
}

pub record Event (P : Type 0) : Type 0 where
  pub id : ℕ
  pub payload : P

pub data SinceResult (P : Type 0) : Type 0 where
  events : List (Event P) → SinceResult P
  overflow : SinceResult P

pub record RingBuffer (P : Type 0) : Type 0 where
  pub next_id : ℕ
  pub stored : List (Event P)
  pub capacity : ℕ

abbrev pub default_capacity : ℕ
default_capacity = 256

abbrev capacity_or_default : Option ℕ → ℕ
capacity_or_default none = default_capacity
capacity_or_default (some c) = c

module _ {P : Type 0} where
  -- The constructor: `none` is the error that it throws.
  pub make : Option ℕ → Option (RingBuffer P)
  make capacity =
      let c = capacity_or_default capacity in
      if ltb c 1 then none else some (record { next_id = 1; stored = []; capacity = c })

  -- `events.shift()`
  abbrev shift : List (Event P) → List (Event P)
  shift [] = []
  shift (e ∷ es) = es

  unfoldable pub append : P → RingBuffer P → RingBuffer P × Event P
  append payload b =
      let event : Event P = record { id = b.next_id; payload = payload } in
      let pushed = b.stored ++ event ∷ [] in
      let trimmed = if ltb b.capacity (length pushed) then shift pushed else pushed in
      (record b { next_id = b.next_id + 1; stored = trimmed }, event)

  abbrev pub later_than : ℕ → Event P → Bool
  later_than last_id e = ltb last_id e.id

  -- The test of `since` at the oldest event that is stored.
  abbrev pub beyond_horizon : ℕ → List (Event P) → Bool
  beyond_horizon last_id [] = false
  beyond_horizon last_id (oldest ∷ es) = ltb 0 last_id && ltb last_id (oldest.id - 1)

  unfoldable pub since : ℕ → RingBuffer P → SinceResult P
  since last_id b =
      if beyond_horizon last_id b.stored
      then overflow
      else events (filter_by (later_than last_id) b.stored)

  abbrev pub latest_id : RingBuffer P → ℕ
  latest_id b = b.next_id - 1
