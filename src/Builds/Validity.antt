-- ===== src/Builds/Validity.antt =====
-- The invariant of the pool; a request and a cancellation keep it.
use sparqly.Base.{
  ℕ, ◌+◌, ◌≤◌, ◌<◌, ◌≡◌, refl, ◌⊎◌, inl, inr, Bool, true, false, none, List, [], ◌∷◌, ◌++◌,
  JsString, arith, length, includes, text_eq, nat_eq, All,
}
use sparqly.OrderedMap
use sparqly.OrderedMap.{OrderedMap, Distinct}
use sparqly.Builds.{
  Pool, Child, start, request, cancel, kill_running, record_outcome, record_cancel, record_failure,
  record_success, remove_first,
}
use sparqly.Builds.Slots.{Slots, start-Slots}
use sparqly.Builds.Queueing.{
  NoRepeat, Idle, set-Idle, append-NoRepeat, append-Idle, remove_first-Idle, remove_first-NoRepeat,
}

-- What is queued is not running, and waits only while every slot is taken.
pub record Waiting (p : Pool) : Type 0 where
  pub limit : length p.running ≤ p.concurrency
  pub apart : All (λ id. OrderedMap.get id p.running ≡ none) p.queue
  pub once : NoRepeat p.queue
  pub busy : (p.queue ≡ []) ⊎ (length p.running ≡ p.concurrency)
  pub closed : p.shutting_down ≡ true → p.queue ≡ []

pub record IsValid (p : Pool) : Type 0 where
  pub slots : Slots p
  pub waiting : Waiting p

request_outcome :
    (id : JsString) (now : ℕ) (p : Pool)
    → (request id now p ≡ p)
      ⊎ ((OrderedMap.get id p.running ≡ none)
          × (includes p.queue id ≡ false)
          × (length p.running < p.concurrency)
          × (request id now p ≡ start id p))
      ⊎ ((OrderedMap.get id p.running ≡ none)
          × (includes p.queue id ≡ false)
          × (p.concurrency ≤ length p.running)
          × (p.shutting_down ≡ false)
          × (request id now p ≡ record p { queue = p.queue ++ id ∷ [] }))
unfolding request
request_outcome id now p = ground arith

pub start-IsValid :
    (id : JsString) (p : Pool)
    → OrderedMap.get id p.running ≡ none
    → includes p.queue id ≡ false
    → length p.running < p.concurrency
    → (p.queue ≡ []) ⊎ (length p.running + 1 ≡ p.concurrency)
    → Slots p
    → All (Idle p.running) p.queue
    → NoRepeat p.queue
    → (p.shutting_down ≡ true → p.queue ≡ [])
    → IsValid (start id p)
start-IsValid id p idle new room busy s a o closed = record {
  slots = start-Slots id p idle s;
  waiting =
      unfold start in
      record {
        limit = ground (arith, OrderedMap.length-set id p.next_child p.running, idle);
        apart = set-Idle id p.next_child p.running p.queue new a;
        once = o;
        busy = ground (arith, OrderedMap.length-set id p.next_child p.running, idle, busy);
        closed = closed;
      };
}

pub request-IsValid : (id : JsString) (now : ℕ) (p : Pool) → IsValid p → IsValid (request id now p)
request-IsValid id now p v = elim (request_outcome id now p) [
  | inl same ↦ rw same v
  | inr (inl (idle, new, room, same)) ↦ rw same (
      start-IsValid id p idle new room (ground (arith, v.waiting.busy)) v.slots v.waiting.apart
        v.waiting.once v.waiting.closed)
  | inr (inr (idle, new, full, open_, same)) ↦ rw same (record {
    slots = record {
      distinct = v.slots.distinct;
      owned = v.slots.owned;
      live = v.slots.live;
      fresh = v.slots.fresh;
    };
    waiting = record {
      limit = v.waiting.limit;
      apart = append-Idle p.running p.queue id v.waiting.apart idle;
      once = append-NoRepeat p.queue id v.waiting.once new;
      busy = inr (omega (arith, v.waiting.limit));
      closed = λ shut. ground (arith, open_, shut);
    };
  })
]

-- What a call that leaves the slots, the children and the queue alone keeps.
pub same-IsValid :
    (p q : Pool)
    → q.concurrency ≡ p.concurrency
    → q.running ≡ p.running
    → q.children ≡ p.children
    → q.queue ≡ p.queue
    → q.shutting_down ≡ p.shutting_down
    → q.next_child ≡ p.next_child
    → IsValid p
    → IsValid q
same-IsValid p q ec er eh eq es en v = record {
  slots = record {
    distinct = rw er v.slots.distinct;
    owned = λ id n h. rw eh (v.slots.owned id n (rw er at h));
    live = λ n c h o. rw er (v.slots.live n c (rw eh at h) o);
    fresh = λ n h. rw eh (v.slots.fresh n (rw en at h));
  };
  waiting = record {
    limit = rw (er, ec) v.waiting.limit;
    apart = rw (er, eq) v.waiting.apart;
    once = rw eq v.waiting.once;
    busy = rw (er, eq, ec) v.waiting.busy;
    closed = λ shut. rw eq (v.waiting.closed (rw es at shut));
  };
}

cancel_outcome :
    (id : JsString) (p : Pool)
    → (cancel id p ≡ record p { queue = remove_first id p.queue })
      ⊎ (((cancel id p).concurrency ≡ p.concurrency)
          × ((cancel id p).running ≡ p.running)
          × ((cancel id p).children ≡ p.children)
          × ((cancel id p).queue ≡ p.queue)
          × ((cancel id p).shutting_down ≡ p.shutting_down)
          × ((cancel id p).next_child ≡ p.next_child))
unfolding cancel kill_running
cancel_outcome id p = ground arith

remove_first_nil : (id : JsString) (xs : List JsString) → xs ≡ [] → remove_first id xs ≡ []
unfolding remove_first
remove_first_nil id xs h = rw h refl

pub cancel-IsValid : (id : JsString) (p : Pool) → IsValid p → IsValid (cancel id p)
cancel-IsValid id p v = elim (cancel_outcome id p) [
  | inl same ↦ rw same (record {
    slots = record {
      distinct = v.slots.distinct;
      owned = v.slots.owned;
      live = v.slots.live;
      fresh = v.slots.fresh;
    };
    waiting = record {
      limit = v.waiting.limit;
      apart = remove_first-Idle p.running id p.queue v.waiting.apart;
      once = remove_first-NoRepeat id p.queue v.waiting.once;
      busy = ground (arith, v.waiting.busy, remove_first_nil id p.queue);
      closed = λ shut. remove_first_nil id p.queue (v.waiting.closed shut);
    };
  })
  | inr (ec, er, eh, eq, es, en) ↦ same-IsValid p (cancel id p) ec er eh eq es en v
]

pub record_outcome_same :
    (id : JsString) (c : Child) (failed : Bool) (now : ℕ) (p : Pool)
    → ((record_outcome id c failed now p).concurrency ≡ p.concurrency)
      × ((record_outcome id c failed now p).running ≡ p.running)
      × ((record_outcome id c failed now p).children ≡ p.children)
      × ((record_outcome id c failed now p).queue ≡ p.queue)
      × ((record_outcome id c failed now p).shutting_down ≡ p.shutting_down)
      × ((record_outcome id c failed now p).next_child ≡ p.next_child)
unfolding record_outcome record_cancel record_failure record_success
record_outcome_same id c failed now p = ground arith
