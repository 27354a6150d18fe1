-- ===== src/Events/Broker/Stream.antt =====
-- What a client is sent: the history after its cursor.
use sparqly.Base.{
  ℕ, ◌≤◌, ◌<◌, ◌≡◌, refl, sym, ap, ◌∙◌, ◌≢◌, true, false, Option, none, some, List, [], ◌∷◌, ◌++◌,
  JsString, map, or_else, if_elim, nat_eq, text_eq, filter_by, filter_by-append, append_assoc,
  append-nil, arith, All, Bool-cases, inl, inr, ltb,
}
use sparqly.OrderedMap
use sparqly.OrderedMap.{OrderedMap, get-set}
use sparqly.Sources.{ParsedSource}
use sparqly.Events.Ring.{Event, SinceResult, events, overflow, append, since, later_than}
use sparqly.Events.Ring.Replay.{
  After, leaving, append-After, since_complete, since_ahead, append-next_id,
}
use sparqly.Events.Broker.{
  SourceTransition, Projected, Envelope, SourceStateBroker, to_envelope, envelopes_of, build_replay,
  subscribe, send_all, enqueue, publish, publish_row, top_level_id, project, project_next,
  project_next_of, Call, emits, projects, subscribes, closes, step, run,
}

get-send_all :
    {R : Type 0} (envelope : Envelope R) (client : ℕ) (clients : OrderedMap ℕ (List (Envelope R)))
    {sent : List (Envelope R)}
    → OrderedMap.get client clients ≡ some sent
    → OrderedMap.get client (send_all envelope clients) ≡ some (sent ++ envelope ∷ [])
unfolding OrderedMap.get send_all
get-send_all envelope client [] {sent} h = ground (arith, h)
get-send_all envelope client ((other, log) ∷ rest) {sent} h =
    elim (Bool-cases (nat_eq.beq other client)) [
      | inl is ↦ let same : log ≡ sent = ground (arith, h, is) in ground (arith, is, same)
      | inr differs ↦
          let tail = get-send_all envelope client rest {sent = sent} (ground (arith, h, differs)) in
          ground (arith, differs, tail)
    ]

map-append : {A B : Type 0} (f : A → B) (xs ys : List A) → map f (xs ++ ys) ≡ map f xs ++ map f ys
map-append f [] ys = refl
map-append f (x ∷ xs) ys = ap (λ zs. f x ∷ zs) (map-append f xs ys)

-- What a client with a cursor has to be sent of a history.
abbrev pub due : {R : Type 0} → ℕ → List (Event (Projected R)) → List (Envelope R)
due last past = map to_envelope (filter_by (later_than last) past)

due_append :
    {R : Type 0} (last : ℕ) (past : List (Event (Projected R))) (event : Event (Projected R))
    → ltb last event.id ≡ true
    → due last (past ++ event ∷ []) ≡ due last past ++ to_envelope event ∷ []
due_append last past event later =
    let one : filter_by (later_than last) (event ∷ []) ≡ event ∷ [] = rw later refl in
    ap (map to_envelope) (
      filter_by-append (later_than last) past (event ∷ [])
      ∙ ap (λ x. filter_by (later_than last) past ++ x) one)
    ∙ map-append to_envelope (filter_by (later_than last) past) (event ∷ [])

module _ {X R : Type 0} where
  -- The history: the events that the buffer has dropped, and those that it holds.
  abbrev pub history :
      List (Event (Projected R)) → SourceStateBroker X R → List (Event (Projected R))
  history dropped b = dropped ++ b.ring_buffer.stored

  -- The client has been sent the whole history after its cursor, and the broker is open.
  pub record Follows (client last : ℕ) (dropped : List (Event (Projected R)))
      (b : SourceStateBroker X R) : Type 0 where
    pub buffer : After dropped b.ring_buffer
    pub behind : last < b.ring_buffer.next_id
    pub open_ : b.closed ≡ false
    pub sent : OrderedMap.get client b.clients ≡ some (due last (history dropped b))

  publish-Follows :
      (client last : ℕ) (projected : Projected R) (dropped : List (Event (Projected R)))
      (b : SourceStateBroker X R)
      → Follows client last dropped b
      → Follows client last (dropped ++ leaving projected b.ring_buffer) (publish projected b)
        × (history (dropped ++ leaving projected b.ring_buffer) (publish projected b)
            ≡ history dropped b ++ (append projected b.ring_buffer).1 ∷ [])
  unfolding publish
  publish-Follows client last projected dropped b f =
      let (after, numbered, grown) = append-After projected dropped b.ring_buffer f.buffer in
      let event = (append projected b.ring_buffer).1 in
      let later : ltb last event.id ≡ true = ground (arith, numbered, f.behind) in
      let owed =
        sym (due_append last (history dropped b) event later) ∙ ap (due last) (sym grown) in
      let next = append-next_id projected b.ring_buffer in
      let got =
        get-send_all (to_envelope event) client b.clients {sent = due last (history dropped b)}
          f.sent in
      (
        record {
          buffer = after;
          behind = ground (arith, next, f.behind);
          open_ = f.open_;
          sent = rw f.open_ (got ∙ ap some owed);
        },
        grown,
      )

  -- A later state of the same broker: the client follows, and the history has only grown.
  abbrev pub Grown : ℕ → ℕ → List (Event (Projected R)) → SourceStateBroker X R → Type 0
  Grown client last past b =
      (dropped : List (Event (Projected R))) × Follows client last dropped b
      × ((more : List (Event (Projected R))) × (history dropped b ≡ past ++ more))

  Grown-refl :
      (client last : ℕ) (dropped : List (Event (Projected R))) (b : SourceStateBroker X R)
      → Follows client last dropped b
      → Grown client last (history dropped b) b
  Grown-refl client last dropped b f = (dropped, f, ([], sym (append-nil (history dropped b))))

  publish_row-Grown :
      (client last : ℕ) (id : JsString) (row : Option R) (dropped : List (Event (Projected R)))
      (b : SourceStateBroker X R)
      → Follows client last dropped b
      → Grown client last (history dropped b) (publish_row id row b)
  publish_row-Grown client last id none dropped b f = Grown-refl client last dropped b f
  publish_row-Grown client last id (some row) dropped b f =
      let projected : Projected R = record { source_id = id; row = row } in
      let (follows, same) = publish-Follows client last projected dropped b f in
      (
        dropped ++ leaving projected b.ring_buffer,
        follows,
        ((append projected b.ring_buffer).1 ∷ [], same),
      )

  -- What the queue holds does not matter to a client.
  with_queue :
      (client last : ℕ) (dropped : List (Event (Projected R))) (queue : List SourceTransition)
      (b : SourceStateBroker X R)
      → Follows client last dropped b
      → Follows client last dropped (record b { queue = queue })
  with_queue client last dropped queue b f = record {
    buffer = f.buffer;
    behind = f.behind;
    open_ = f.open_;
    sent = f.sent;
  }

  -- A call that leaves a client alone: it is not the close of the broker, nor another subscription
  -- under its number.
  abbrev pub Spares : ℕ → Call X R → Type 0
  Spares client (emits t) = Unit
  Spares client (projects read) = Unit
  Spares client (subscribes other last_id) = other ≢ client
  Spares client closes = ⊥

  project-Grown :
      (client last : ℕ) (read : ParsedSource X → List (ParsedSource X) → Option R)
      (t : SourceTransition) (dropped : List (Event (Projected R))) (b : SourceStateBroker X R)
      → Follows client last dropped b
      → Grown client last (history dropped b) (project read t b)
  unfolding project
  project-Grown client last read t dropped b f =
      let id = top_level_id t.source_id b in by_source (OrderedMap.get id b.sources_by_id)
    where
      by_source :
          (found : Option (ParsedSource X))
          → Grown client last (history dropped b) (elim found [
            | none ↦ b
            | some source ↦
                publish_row
                  (top_level_id t.source_id b)
                  (read source
                    (or_else (OrderedMap.get (top_level_id t.source_id b) b.children_by_parent) []))
                  b
          ])
      by_source none = Grown-refl client last dropped b f
      by_source (some source) = publish_row-Grown client last _ _ dropped b f

  step-Grown :
      (client last : ℕ) (c : Call X R) (dropped : List (Event (Projected R)))
      (b : SourceStateBroker X R)
      → Spares client c
      → Follows client last dropped b
      → Grown client last (history dropped b) (step c b)
  unfolding enqueue subscribe project_next
  step-Grown client last (emits t) dropped b s f =
      if_elim (Grown client last (history dropped b)) b.closed (Grown-refl client last dropped b f)
        (Grown-refl client last dropped _ (with_queue client last dropped (b.queue ++ t ∷ []) b f))
  step-Grown client last (projects read) dropped b s f = from_queue b.queue
    where
      from_queue :
          (queue : List SourceTransition)
          → Grown client last (history dropped b) (project_next_of read queue b)
      from_queue [] = Grown-refl client last dropped b f
      from_queue (t ∷ ts) =
          project-Grown client last read t dropped (record b { queue = ts })
            (with_queue client last dropped ts b f)
  step-Grown client last (subscribes other last_id) dropped b s f =
      Grown-refl client last dropped _ (record {
        buffer = f.buffer;
        behind = f.behind;
        open_ = f.open_;
        sent = ground (
          arith,
          f.sent,
          s,
          get-set other client (build_replay last_id b) b.clients,
          nat_eq.beq_iff other client,
        );
      })
  step-Grown client last closes dropped b s f = absurd s

  run-Grown :
      (client last : ℕ) (cs : List (Call X R)) (dropped : List (Event (Projected R)))
      (b : SourceStateBroker X R)
      → All (Spares client) cs
      → Follows client last dropped b
      → Grown client last (history dropped b) (run cs b)
  run-Grown client last [] dropped b s f = Grown-refl client last dropped b f
  run-Grown client last (c ∷ cs) dropped b s f =
      let (d, g, (more, e)) = step-Grown client last c dropped b s.0 f in
      let (d', g', (more', e')) = run-Grown client last cs d (step c b) s.1 g in
      (
        d',
        g',
        (more ++ more', e' ∙ ap (λ x. x ++ more') e ∙ append_assoc (history dropped b) more more'),
      )

  subscribe-Follows :
      (client last : ℕ) (dropped : List (Event (Projected R))) (b : SourceStateBroker X R)
      → After dropped b.ring_buffer
      → b.closed ≡ false
      → 0 < last
      → last < b.ring_buffer.next_id
      → since last b.ring_buffer ≢ overflow
      → Follows client last dropped (subscribe client (some last) b)
  unfolding subscribe build_replay
  subscribe-Follows client last dropped b a o positive behind near = record {
    buffer = a;
    behind = behind;
    open_ = o;
    sent = stored ∙ ap some (replayed (since last b.ring_buffer) refl);
  }
    where
      stored :
          OrderedMap.get client
            (OrderedMap.set client (envelopes_of (since last b.ring_buffer)) b.clients)
          ≡ some (envelopes_of (since last b.ring_buffer))
      stored =
          get-set client client (envelopes_of (since last b.ring_buffer)) b.clients
          ∙ rw ((nat_eq.beq_iff client client).1 refl) refl

      replayed :
          (r : SinceResult (Projected R))
          → since last b.ring_buffer ≡ r
          → envelopes_of r ≡ due last (history dropped b)
      replayed overflow e = absurd (near e)
      replayed (events xs) e =
          ap (map to_envelope) (since_complete last dropped xs b.ring_buffer a positive e)

  -- A client that comes with the id of an event that the broker has sent before, and that is not told
  -- to fetch a snapshot, is sent each event after that id once and in order, those that were recorded
  -- before it came back and those recorded since, whatever else happens before the broker closes.
  pub subscribe_complete :
      (client last : ℕ) (calls : List (Call X R)) (dropped : List (Event (Projected R)))
      (b : SourceStateBroker X R)
      → After dropped b.ring_buffer
      → b.closed ≡ false
      → 0 < last
      → last < b.ring_buffer.next_id
      → since last b.ring_buffer ≢ overflow
      → All (Spares client) calls
      → let end = run calls (subscribe client (some last) b) in
        (dropped' : List (Event (Projected R))) × After dropped' end.ring_buffer
        × (OrderedMap.get client end.clients ≡ some (due last (history dropped' end)))
        × ((more : List (Event (Projected R))) × (history dropped' end ≡ history dropped b ++ more))
  unfolding subscribe
  subscribe_complete client last calls dropped b a o positive behind near spared =
      let start = subscribe-Follows client last dropped b a o positive behind near in
      let (d, f, grown) =
        run-Grown client last calls dropped (subscribe client (some last) b) spared start in
      (d, f.buffer, f.sent, grown)

  -- A client whose cursor is above every id of this broker, as after a restart, which counts from 1
  -- again, is sent nothing at its return: neither the events of the broker nor the sentinel that asks
  -- it to fetch a snapshot.
  pub build_replay_ahead :
      (last : ℕ) (dropped : List (Event (Projected R))) (b : SourceStateBroker X R)
      → After dropped b.ring_buffer
      → b.ring_buffer.next_id ≤ last
      → build_replay (some last) b ≡ []
  unfolding build_replay
  build_replay_ahead last dropped b a h =
      ap envelopes_of (since_ahead last dropped b.ring_buffer a (omega (arith, h)))
