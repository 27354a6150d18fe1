-- ===== src/Builds/Slots.antt =====
-- The slots of the pool and the children that hold them.
use sparqly.Base.{
  ℕ, ◌≤◌, ◌≡◌, refl, ◌≢◌, inl, inr, true, false, none, some, [], JsString, arith, text_eq, nat_eq,
  Bool-cases, ◌==◌,
}
use sparqly.OrderedMap
use sparqly.OrderedMap.{OrderedMap, Distinct}
use sparqly.Builds.{Pool, Child, start, release}

-- A slot is taken by exactly one child that has not settled, and each such child has its slot.
pub record Slots (p : Pool) : Type 0 where
  pub distinct : Distinct p.running
  pub owned :
      (id : JsString) (n : ℕ)
      → OrderedMap.get id p.running ≡ some n
      → (c : Child) × (OrderedMap.get n p.children ≡ some c)
        × (c.source_id ≡ id)
        × (c.settled ≡ false)
  pub live :
      (n : ℕ) (c : Child)
      → OrderedMap.get n p.children ≡ some c
      → c.settled ≡ false
      → OrderedMap.get c.source_id p.running ≡ some n
  pub fresh : (n : ℕ) → p.next_child ≤ n → OrderedMap.get n p.children ≡ none

abbrev pub unsettled : JsString → Child
unsettled id = record {
  source_id = id;
  stderr_tail = [];
  exited = none;
  spawn_error = none;
  settled = false;
}

pub start-Slots :
    (id : JsString) (p : Pool) → OrderedMap.get id p.running ≡ none → Slots p → Slots (start id p)
unfolding start
start-Slots id p idle s = record {
  distinct = OrderedMap.set-Distinct id p.next_child p.running s.distinct;
  owned = λ j n h. elim (Bool-cases (id == j)) [
    | inl e ↦ (
      unsettled id,
      ground (
        arith,
        h,
        e,
        OrderedMap.get-set id j p.next_child p.running,
        OrderedMap.get-set p.next_child n (unsettled id) p.children,
      ),
      ground (arith, e, text_eq.beq_iff id j),
      refl,
    )
    | inr e ↦
        let (c, k, same, open_) =
          s.owned j n (ground (arith, h, e, OrderedMap.get-set id j p.next_child p.running)) in
        (
          c,
          ground (arith, k, s.fresh n, OrderedMap.get-set p.next_child n (unsettled id) p.children),
          same,
          open_,
        )
  ];
  live = λ n c h open_. elim (Bool-cases (p.next_child == n)) [
    | inl e ↦ ground (
      arith,
      h,
      e,
      OrderedMap.get-set p.next_child n (unsettled id) p.children,
      OrderedMap.get-set id c.source_id p.next_child p.running,
      text_eq.beq_iff id c.source_id,
    )
    | inr e ↦
        let k : OrderedMap.get n p.children ≡ some c =
          ground (arith, h, e, OrderedMap.get-set p.next_child n (unsettled id) p.children) in
        ground (
          arith,
          s.live n c k open_,
          idle,
          OrderedMap.get-set id c.source_id p.next_child p.running,
          text_eq.beq_iff id c.source_id,
        )
  ];
  fresh = λ n h.
      ground (arith, s.fresh n, h, OrderedMap.get-set p.next_child n (unsettled id) p.children);
}

-- The slot of a child that has not settled is freed; its other closure variables do not matter.
pub release-Slots :
    (n : ℕ) (c d : Child) (p : Pool)
    → OrderedMap.get n p.children ≡ some c
    → c.settled ≡ false
    → d.source_id ≡ c.source_id
    → Slots p
    → Slots (release n d p)
unfolding release
release-Slots n c d p here open_ same s = record {
  distinct = OrderedMap.delete-Distinct d.source_id p.running s.distinct;
  owned = λ j m h.
      let k : (OrderedMap.get j p.running ≡ some m) × (d.source_id ≢ j) =
        ground (
          arith,
          h,
          OrderedMap.get-delete d.source_id j p.running,
          text_eq.beq_iff d.source_id j,
        ) in
      let (x, e, of_j, o) = s.owned j m k.0 in
      (
        x,
        ground (
          arith,
          e,
          here,
          same,
          of_j,
          k.1,
          OrderedMap.get-set n m (record d { settled = true }) p.children,
        ),
        of_j,
        o,
      );
  live = λ m x h o.
      let k : (OrderedMap.get m p.children ≡ some x) × (n ≢ m) =
        ground (arith, h, o, OrderedMap.get-set n m (record d { settled = true }) p.children) in
      ground (
        arith,
        s.live m x k.0 o,
        s.live n c here open_,
        k.1,
        same,
        OrderedMap.get-delete d.source_id x.source_id p.running,
        text_eq.beq_iff d.source_id x.source_id,
      );
  fresh = λ m h.
      ground
        (arith, s.fresh m h, here, OrderedMap.get-set n m (record d { settled = true }) p.children);
}

pub set_child-Slots :
    (n : ℕ) (c d : Child) (p : Pool)
    → OrderedMap.get n p.children ≡ some c
    → d.source_id ≡ c.source_id
    → d.settled ≡ c.settled
    → Slots p
    → Slots (record p { children = OrderedMap.set n d p.children })
set_child-Slots n c d p here same state s = record {
  distinct = s.distinct;
  owned = λ j m h.
      let (x, e, of_j, o) = s.owned j m h in
      elim (Bool-cases (n == m)) [
        | inl k ↦ (
          d,
          ground (arith, k, OrderedMap.get-set n m d p.children),
          ground (arith, k, e, here, same, of_j),
          ground (arith, k, e, here, state, o),
        )
        | inr k ↦ (x, ground (arith, k, e, OrderedMap.get-set n m d p.children), of_j, o)
      ];
  live = λ m x h o. elim (Bool-cases (n == m)) [
    | inl k ↦
        ground
          (arith, k, h, o, here, same, state, s.live n c here, OrderedMap.get-set n m d p.children)
    | inr k ↦ s.live m x (ground (arith, k, h, OrderedMap.get-set n m d p.children)) o
  ];
  fresh = λ m h. ground (arith, s.fresh m h, here, OrderedMap.get-set n m d p.children);
}
