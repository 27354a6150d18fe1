-- ===== src/Events/Broker.antt =====
-- libs/server/src/lib/sources/source-state-broker.ts over the ring buffer. The queue of projections
-- is part of the state: a transition is queued when it is emitted, and projected later, in order.
-- `R` is a projected row, and what projectTopLevelRow answers for a source and its children is an
-- argument of the step that projects; `none` is its failure. A client subscribes to the stream that
-- it is given at once; the map of clients holds what each has been sent.
mod Stream
mod Tests
use sparqly.Base.{
  ℕ, Bool, true, false, Option, none, some, List, [], ◌∷◌, ◌++◌, JsString, map, or_else,
  if◌then◌else◌, nat_eq, text_eq,
}
use sparqly.OrderedMap
use sparqly.OrderedMap.{OrderedMap}
use sparqly.Sources.{ParsedSource, FileSource, glob, endpoint, reference, empty, file, id_of}
use sparqly.Events.Ring.{Event, SinceResult, events, overflow, RingBuffer, append, since, latest_id}

pub data SourceTransitionKind : Type 0 where
  load_start load_success load_failure unload build_start build_success build_failure :
      SourceTransitionKind
  build_cancel stale_detected : SourceTransitionKind

pub record SourceTransition : Type 0 where
  pub kind : SourceTransitionKind
  pub source_id : JsString

-- A `SourceTransitionEvent` without its id.
pub record Projected (R : Type 0) : Type 0 where
  pub source_id : JsString
  pub row : R

pub data Envelope (R : Type 0) : Type 0 where
  row_envelope : ℕ → R → Envelope R
  refetch_snapshot : Envelope R

pub record SourceStateBroker (X R : Type 0) : Type 0 where
  pub ring_buffer : RingBuffer (Projected R)
  pub sources_by_id : OrderedMap JsString (ParsedSource X)
  pub children_by_parent : OrderedMap JsString (List (ParsedSource X))
  pub parent_of : OrderedMap JsString JsString
  pub queue : List SourceTransition
  pub clients : OrderedMap ℕ (List (Envelope R))
  pub closed : Bool

module _ {R : Type 0} where
  abbrev pub to_envelope : Event (Projected R) → Envelope R
  to_envelope event = row_envelope event.id event.payload.row

  abbrev pub envelopes_of : SinceResult (Projected R) → List (Envelope R)
  envelopes_of overflow = refetch_snapshot ∷ []
  envelopes_of (events es) = map to_envelope es

  -- `live$.next(event)`
  pub send_all : Envelope R → OrderedMap ℕ (List (Envelope R)) → OrderedMap ℕ (List (Envelope R))
  send_all envelope [] = []
  send_all envelope ((client, sent) ∷ rest) =
      (client, sent ++ envelope ∷ []) ∷ send_all envelope rest

module _ {X R : Type 0} where
  abbrev pub index_child :
      ParsedSource X → FileSource X → SourceStateBroker X R → SourceStateBroker X R
  index_child source child b = record b {
    children_by_parent =
        OrderedMap.set child.parent_id
          (or_else (OrderedMap.get child.parent_id b.children_by_parent) [] ++ source ∷ [])
          b.children_by_parent;
    parent_of = OrderedMap.set child.id child.parent_id b.parent_of;
  }

  abbrev pub index_id :
      ParsedSource X → Option JsString → SourceStateBroker X R → SourceStateBroker X R
  index_id source none b = b
  index_id source (some id) b = record b {
    sources_by_id = OrderedMap.set id source b.sources_by_id;
  }

  abbrev pub index_source : ParsedSource X → SourceStateBroker X R → SourceStateBroker X R
  index_source (reference s) b = b
  index_source (file s) b = index_child (file s) s (index_id (file s) (some s.id) b)
  index_source (glob s) b = index_id (glob s) s.id b
  index_source (endpoint s) b = index_id (endpoint s) s.id b
  index_source (empty s) b = index_id (empty s) (some s.id) b

  -- The loop of the constructor over the served registry.
  abbrev pub index_sources : List (ParsedSource X) → SourceStateBroker X R → SourceStateBroker X R
  index_sources [] b = b
  index_sources (s ∷ rest) b = index_sources rest (index_source s b)

  abbrev pub make_broker : RingBuffer (Projected R) → List (ParsedSource X) → SourceStateBroker X R
  make_broker ring served = index_sources served (record {
    ring_buffer = ring;
    sources_by_id = [];
    children_by_parent = [];
    parent_of = [];
    queue = [];
    clients = [];
    closed = false;
  })

  pub build_replay : Option ℕ → SourceStateBroker X R → List (Envelope R)
  build_replay none b = []
  build_replay (some last_id) b = envelopes_of (since last_id b.ring_buffer)

  pub subscribe : ℕ → Option ℕ → SourceStateBroker X R → SourceStateBroker X R
  subscribe client last_id b = record b {
    clients = OrderedMap.set client (build_replay last_id b) b.clients;
  }

  pub enqueue : SourceTransition → SourceStateBroker X R → SourceStateBroker X R
  enqueue transition b = if b.closed then b else record b { queue = b.queue ++ transition ∷ [] }

  -- A completed subject sends nothing more.
  pub publish : Projected R → SourceStateBroker X R → SourceStateBroker X R
  publish projected b =
      let recorded = append projected b.ring_buffer in
      record b {
        ring_buffer = recorded.0;
        clients = if b.closed then b.clients else send_all (to_envelope recorded.1) b.clients;
      }

  abbrev pub top_level_id : JsString → SourceStateBroker X R → JsString
  top_level_id source_id b = or_else (OrderedMap.get source_id b.parent_of) source_id

  abbrev pub publish_row : JsString → Option R → SourceStateBroker X R → SourceStateBroker X R
  publish_row id none b = b
  publish_row id (some row) b = publish (record { source_id = id; row = row }) b

  pub project :
      (ParsedSource X → List (ParsedSource X) → Option R)
      → SourceTransition
      → SourceStateBroker X R
      → SourceStateBroker X R
  project project_top_level_row transition b =
      let id = top_level_id transition.source_id b in
      elim (OrderedMap.get id b.sources_by_id) [
        | none ↦ b
        | some source ↦
            publish_row id
              (project_top_level_row source (or_else (OrderedMap.get id b.children_by_parent) [])) b
      ]

  abbrev pub project_next_of :
      (ParsedSource X → List (ParsedSource X) → Option R)
      → List SourceTransition
      → SourceStateBroker X R
      → SourceStateBroker X R
  project_next_of project_top_level_row [] b = b
  project_next_of project_top_level_row (t ∷ ts) b =
      project project_top_level_row t (record b { queue = ts })

  -- The next projection of the queue.
  pub project_next :
      (ParsedSource X → List (ParsedSource X) → Option R)
      → SourceStateBroker X R
      → SourceStateBroker X R
  project_next project_top_level_row b = project_next_of project_top_level_row b.queue b

  abbrev pub close : SourceStateBroker X R → SourceStateBroker X R
  close b = record b { closed = true }

pub data Call (X R : Type 0) : Type 0 where
  emits : SourceTransition → Call X R
  projects : (ParsedSource X → List (ParsedSource X) → Option R) → Call X R
  subscribes : ℕ → Option ℕ → Call X R
  closes : Call X R

module _ {X R : Type 0} where
  abbrev pub step : Call X R → SourceStateBroker X R → SourceStateBroker X R
  step (emits t) b = enqueue t b
  step (projects read) b = project_next read b
  step (subscribes client last_id) b = subscribe client last_id b
  step closes b = close b

  abbrev pub run : List (Call X R) → SourceStateBroker X R → SourceStateBroker X R
  run [] b = b
  run (c ∷ cs) b = run cs (step c b)
