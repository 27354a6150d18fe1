-- ===== src/SavedQueries/Etags.antt =====
-- What the etag of an entry guards, and what it does not.
use sparqly.Base.{◌≡◌, Option, none, some, JsString, text_eq, arith, Option-cases, inl, inr}
use sparqly.OrderedMap
use sparqly.OrderedMap.{get-set}
use sparqly.SavedQueries.{
  SavedQueryEntry, Payload, PutOutcome, created, updated, collision, stale, Document,
  derive_entry_etag, get, put, upsert_entry, entry_of, written_entry,
}

-- The etag that an answer to a write carries.
abbrev pub etag_of : PutOutcome → Option JsString
etag_of (created etag) = some etag
etag_of (updated etag) = some etag
etag_of collision = none
etag_of stale = none

module _ {P : Type 0} (digest : JsString → Option JsString → JsString → JsString) where
  -- After a write that is accepted, a read answers what was written, an empty list of parameters left
  -- out, with the etag that the write answered; so that etag is accepted by the next write.
  pub get-put :
      (slug etag : JsString) (payload : Payload P) (if_match : Option JsString) (doc : Document P)
      → etag_of (put digest slug payload if_match doc).0 ≡ some etag
      → get digest slug (put digest slug payload if_match doc).1
        ≡ some (written_entry (entry_of slug payload), etag)
  unfolding get put upsert_entry derive_entry_etag
  get-put slug etag payload none doc h = elim (Option-cases (OrderedMap.get slug doc)) [
    | inl e ↦ ground (
      arith,
      h,
      e,
      get-set slug slug (written_entry (entry_of slug payload)) doc,
      text_eq.beq_iff slug slug,
    )
    | inr (x, e) ↦ ground (arith, h, e)
  ]
  get-put slug etag payload (some given) doc h =
      let new = written_entry (entry_of slug payload) in
      elim (Option-cases (OrderedMap.get slug doc)) [
        | inl e ↦ ground (arith, h, e, get-set slug slug new doc, text_eq.beq_iff slug slug)
        | inr (x, e) ↦ ground (arith, h, e, get-set slug slug new doc, text_eq.beq_iff slug slug)
      ]

  -- The etag does not cover the parameters: if the document has an entry under a slug, a write that
  -- changes only its parameters answers the etag of that entry again, and a second write that still
  -- names this etag is accepted; afterwards the document holds the second write's entry.
  pub put_again :
      (slug : JsString) (existing : SavedQueryEntry P) (first second : Payload P) (doc : Document P)
      → OrderedMap.get slug doc ≡ some existing
      → existing.slug ≡ slug
      → first.description ≡ existing.description
      → first.body ≡ existing.body
      → let etag = derive_entry_etag digest existing in
        let after = put digest slug first (some etag) doc in
        (after.0 ≡ updated etag)
        × ((put digest slug second (some etag) after.1).0
            ≡ updated (derive_entry_etag digest (entry_of slug second)))
        × (OrderedMap.get slug (put digest slug second (some etag) after.1).1
            ≡ some (written_entry (entry_of slug second)))
  unfolding put upsert_entry derive_entry_etag
  put_again slug existing first second doc h s d b =
      let etag = derive_entry_etag digest existing in
      let new = written_entry (entry_of slug first) in
      let newer = written_entry (entry_of slug second) in
      ground (
        arith,
        h,
        s,
        d,
        b,
        get-set slug slug new doc,
        get-set slug slug newer (OrderedMap.set slug new doc),
        text_eq.beq_iff slug slug,
        text_eq.beq_iff etag etag,
      )
