-- ===== src/SavedQueries.antt =====
-- libs/server/src/lib/saved-queries/saved-queries.service.ts over libs/core/src/lib/saved-queries
-- (sidecar-io.ts, entry-etag.ts, saved-query-entry.ts). The document is the map of entries that the
-- service reads and writes; `P` is a declaration of a parameter, `digest` the hash of the JSON text
-- of slug, description and body. The write mutex makes each mutation one step. The YAML text, and
-- documents that hold something else than entries, are not modelled.
mod Refinement
mod Etags
mod Tests
use mathlib.Core.List.{reverse}
use sparqly.Base.{
  ℕ, Bool, true, false, ◌||◌, ◌&&◌, Option, none, some, List, [], ◌∷◌, JsString, if◌then◌else◌,
  ◌==◌, text_eq, nat_eq, leb, map, includes,
}
use sparqly.OrderedMap
use sparqly.OrderedMap.{OrderedMap}

pub record SavedQueryEntry (P : Type 0) : Type 0 where
  pub slug : JsString
  pub description : Option JsString
  pub body : JsString
  pub parameters : Option (List P)

pub record Payload (P : Type 0) : Type 0 where
  pub description : Option JsString
  pub body : JsString
  pub parameters : Option (List P)

pub record SavedQueryEntrySummary : Type 0 where
  pub slug : JsString
  pub description : Option JsString
  pub has_parameters : Bool

-- `\s`
abbrev pub is_space : ℕ → Bool
is_space c =
    (leb 9 c && leb c 13)
    || (leb 0x2000 c && leb c 0x200a)
    || includes (32 ∷ 0xa0 ∷ 0x1680 ∷ 0x2028 ∷ 0x2029 ∷ 0x202f ∷ 0x205f ∷ 0x3000 ∷ 0xfeff ∷ []) c

-- `body.replace(/\s+/g, ' ')`; the flag tells that a space has just been written.
abbrev pub collapse : Bool → JsString → JsString
collapse after_space [] = []
collapse after_space (c ∷ s) =
    let spaced = collapse true s in
    let kept = collapse false s in
    if is_space c then (if after_space then spaced else 32 ∷ spaced) else c ∷ kept

abbrev pub trim_start : JsString → JsString
trim_start [] = []
trim_start (c ∷ s) = let rest = trim_start s in if is_space c then rest else c ∷ s

abbrev pub trim : JsString → JsString
trim s = reverse (trim_start (reverse (trim_start s)))

abbrev pub canonicalize_body : JsString → JsString
canonicalize_body body = trim (collapse false body)

abbrev pub Document : Type 0 → Type 0
Document P = OrderedMap JsString (SavedQueryEntry P)

pub data PutOutcome : Type 0 where
  created updated : JsString → PutOutcome
  collision stale : PutOutcome

pub data DeleteOutcome : Type 0 where
  deleted missing delete_stale precondition_required : DeleteOutcome

-- The guards of `put` for the entry that is there.
abbrev pub refusal : Option JsString → PutOutcome
refusal none = collision
refusal (some etag) = stale

module _ {P : Type 0} where
  -- An empty list of parameters is not written.
  abbrev pub written_parameters : Option (List P) → Option (List P)
  written_parameters none = none
  written_parameters (some []) = none
  written_parameters (some (p ∷ ps)) = some (p ∷ ps)

  abbrev pub written_entry : SavedQueryEntry P → SavedQueryEntry P
  written_entry entry = record entry { parameters = written_parameters entry.parameters }

  pub upsert_entry : SavedQueryEntry P → Document P → Document P
  upsert_entry entry doc = OrderedMap.set entry.slug (written_entry entry) doc

  abbrev pub entry_of : JsString → Payload P → SavedQueryEntry P
  entry_of slug payload = record {
    slug = slug;
    description = payload.description;
    body = payload.body;
    parameters = payload.parameters;
  }

  abbrev pub has_some : Option (List P) → Bool
  has_some none = false
  has_some (some []) = false
  has_some (some (p ∷ ps)) = true

  abbrev pub summary_of : JsString × SavedQueryEntry P → SavedQueryEntrySummary
  summary_of (slug, entry) = record {
    slug = slug;
    description = entry.description;
    has_parameters = has_some entry.parameters;
  }

  abbrev pub list_entries : Document P → List SavedQueryEntrySummary
  list_entries doc = map summary_of doc

  module _ (digest : JsString → Option JsString → JsString → JsString) where
    pub derive_entry_etag : SavedQueryEntry P → JsString
    derive_entry_etag entry = digest entry.slug entry.description (canonicalize_body entry.body)

    pub get : JsString → Document P → Option (SavedQueryEntry P × JsString)
    get slug doc = elim (OrderedMap.get slug doc) [
      | none ↦ none
      | some entry ↦ some (entry, derive_entry_etag entry)
    ]

    abbrev pub matches : Option JsString → SavedQueryEntry P → Bool
    matches none existing = false
    matches (some etag) existing = etag == derive_entry_etag existing

    pub put : JsString → Payload P → Option JsString → Document P → PutOutcome × Document P
    put slug payload if_match doc =
        let entry = entry_of slug payload in
        let written = upsert_entry entry doc in
        elim (OrderedMap.get slug doc) [
          | none ↦ (created (derive_entry_etag entry), written)
          | some existing ↦
              if matches if_match existing
              then (updated (derive_entry_etag entry), written)
              else (refusal if_match, doc)
        ]

    abbrev pub delete_found :
        JsString → JsString → Option (SavedQueryEntry P) → Document P → DeleteOutcome × Document P
    delete_found slug etag none doc = (missing, doc)
    delete_found slug etag (some existing) doc =
        if etag == derive_entry_etag existing
        then (deleted, OrderedMap.delete slug doc)
        else (delete_stale, doc)

    pub delete : JsString → Option JsString → Document P → DeleteOutcome × Document P
    delete slug none doc = (precondition_required, doc)
    delete slug (some etag) doc = delete_found slug etag (OrderedMap.get slug doc) doc
