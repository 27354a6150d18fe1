-- ===== src/SavedQueries/Refinement.antt =====
-- The document implements a store of entries with compare-and-set by etag.
use sparqly.Base.{
  ◌≡◌, refl, ◌∙◌, Bool, true, false, Option, none, some, List, [], ◌∷◌, JsString, if◌then◌else◌,
  ◌==◌, text_eq, arith, ap, Option-cases, inl, inr,
}
use sparqly.OrderedMap
use sparqly.OrderedMap.{get-set, get-delete}
use sparqly.SavedQueries.{
  SavedQueryEntry, Payload, PutOutcome, created, updated, collision, stale, DeleteOutcome, deleted,
  missing, delete_stale, precondition_required, Document, derive_entry_etag, put, delete,
  upsert_entry, entry_of, written_entry,
}

-- The abstract store: what each slug holds, and nothing of the order or the text.
abbrev pub View : Type 0 → Type 0
View P = JsString → Option (SavedQueryEntry P)

pub data Mutation (P : Type 0) : Type 0 where
  puts : JsString → Payload P → Option JsString → Mutation P
  deletes : JsString → Option JsString → Mutation P

pub data Answer : Type 0 where
  put_answer : PutOutcome → Answer
  delete_answer : DeleteOutcome → Answer

module _ {P : Type 0} (digest : JsString → Option JsString → JsString → JsString) where
  abbrev pub view : Document P → View P
  view doc slug = OrderedMap.get slug doc

  -- The mutation of the service.
  abbrev pub mutate : Mutation P → Document P → Answer × Document P
  mutate (puts slug payload if_match) doc = (
    put_answer (put digest slug payload if_match doc).0,
    (put digest slug payload if_match doc).1,
  )
  mutate (deletes slug if_match) doc =
      (delete_answer (delete digest slug if_match doc).0, (delete digest slug if_match doc).1)

  -- The specification: a slug may be written if it is free, or if the caller names the etag of what
  -- it holds, and deleted only in the second case.
  abbrev pub may_write : Option (SavedQueryEntry P) → Option JsString → Bool
  may_write none if_match = true
  may_write (some existing) none = false
  may_write (some existing) (some etag) = etag == derive_entry_etag digest existing

  abbrev pub may_delete : Option (SavedQueryEntry P) → Option JsString → Bool
  may_delete none if_match = false
  may_delete (some existing) none = false
  may_delete (some existing) (some etag) = etag == derive_entry_etag digest existing

  abbrev pub assign : JsString → Option (SavedQueryEntry P) → View P → View P
  assign slug value v other = if slug == other then value else v other

  abbrev pub spec_view : Mutation P → View P → View P
  spec_view (puts slug payload if_match) v =
      if may_write (v slug) if_match
      then assign slug (some (written_entry (entry_of slug payload))) v
      else v
  spec_view (deletes slug if_match) v =
      if may_delete (v slug) if_match then assign slug none v else v

  abbrev pub put_spec : JsString → Option (SavedQueryEntry P) → Option JsString → PutOutcome
  put_spec etag none if_match = created etag
  put_spec etag (some existing) none = collision
  put_spec etag (some existing) (some given) =
      if given == derive_entry_etag digest existing then updated etag else stale

  abbrev pub delete_spec : Option (SavedQueryEntry P) → Option JsString → DeleteOutcome
  delete_spec held none = precondition_required
  delete_spec none (some given) = missing
  delete_spec (some existing) (some given) =
      if given == derive_entry_etag digest existing then deleted else delete_stale

  abbrev pub spec_answer : Mutation P → View P → Answer
  spec_answer (puts slug payload if_match) v =
      put_answer (put_spec (derive_entry_etag digest (entry_of slug payload)) (v slug) if_match)
  spec_answer (deletes slug if_match) v = delete_answer (delete_spec (v slug) if_match)

  mutate-view :
      (m : Mutation P) (doc : Document P) (other : JsString)
      → view (mutate m doc).1 other ≡ spec_view m (view doc) other
  unfolding put delete upsert_entry
  mutate-view (puts slug payload none) doc other = elim (Option-cases (OrderedMap.get slug doc)) [
    | inl e ↦ ground (arith, e, get-set slug other (written_entry (entry_of slug payload)) doc)
    | inr (x, e) ↦ ground (arith, e)
  ]
  mutate-view (puts slug payload (some etag)) doc other =
      elim (Option-cases (OrderedMap.get slug doc)) [
        | inl e ↦ ground (arith, e, get-set slug other (written_entry (entry_of slug payload)) doc)
        | inr (x, e) ↦
            ground (arith, e, get-set slug other (written_entry (entry_of slug payload)) doc)
      ]
  mutate-view (deletes slug none) doc other = elim (Option-cases (OrderedMap.get slug doc)) [
    | inl e ↦ ground (arith, e)
    | inr (x, e) ↦ ground (arith, e)
  ]
  mutate-view (deletes slug (some etag)) doc other = elim (Option-cases (OrderedMap.get slug doc)) [
    | inl e ↦ ground (arith, e)
    | inr (x, e) ↦ ground (arith, e, get-delete slug other doc)
  ]

  mutate_answer : (m : Mutation P) (doc : Document P) → (mutate m doc).0 ≡ spec_answer m (view doc)
  unfolding put delete
  mutate_answer (puts slug payload none) doc = elim (Option-cases (OrderedMap.get slug doc)) [
    | inl e ↦ ground (arith, e)
    | inr (x, e) ↦ ground (arith, e)
  ]
  mutate_answer (puts slug payload (some etag)) doc =
      elim (Option-cases (OrderedMap.get slug doc)) [
        | inl e ↦ ground (arith, e)
        | inr (x, e) ↦ ground (arith, e)
      ]
  mutate_answer (deletes slug none) doc = refl
  mutate_answer (deletes slug (some etag)) doc = elim (Option-cases (OrderedMap.get slug doc)) [
    | inl e ↦ ground (arith, e)
    | inr (x, e) ↦ ground (arith, e)
  ]

  -- The mutations that clients send, one after the other.
  abbrev pub mutate_all : List (Mutation P) → Document P → List Answer × Document P
  mutate_all [] doc = ([], doc)
  mutate_all (m ∷ ms) doc =
      let rest = mutate_all ms (mutate m doc).1 in ((mutate m doc).0 ∷ rest.0, rest.1)

  abbrev pub spec_all : List (Mutation P) → View P → List Answer × View P
  spec_all [] v = ([], v)
  spec_all (m ∷ ms) v = let rest = spec_all ms (spec_view m v) in (spec_answer m v ∷ rest.0, rest.1)

  -- After any sequence of mutations, the document shows what the specification holds, and each
  -- client was given the answer of the specification.
  pub mutate_all-spec_all :
      (ms : List (Mutation P)) (doc : Document P)
      → ((mutate_all ms doc).0 ≡ (spec_all ms (view doc)).0)
        × (view (mutate_all ms doc).1 ≡ (spec_all ms (view doc)).1)
  mutate_all-spec_all [] doc = (refl, refl)
  mutate_all-spec_all (m ∷ ms) doc =
      let here : view (mutate m doc).1 ≡ spec_view m (view doc) =
        λ i other. mutate-view m doc other i in
      let (answers, held) = mutate_all-spec_all ms (mutate m doc).1 in
      let answers' : (mutate_all ms (mutate m doc).1).0 ≡ (spec_all ms (spec_view m (view doc))).0 =
        answers ∙ ap (λ v. (spec_all ms v).0) here in
      (
        ap (λ a. a ∷ (mutate_all ms (mutate m doc).1).0) (mutate_answer m doc)
            ∙ ap (λ r. spec_answer m (view doc) ∷ r) answers',
        held ∙ ap (λ v. (spec_all ms v).1) here,
      )
