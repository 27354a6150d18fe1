-- ===== src/SavedQueries/Tests.antt =====
-- Runs of the store of saved queries.
use sparqly.Base.{
  text_eq, ℕ, ◌≡◌, refl, true, Option, none, some, List, [], ◌∷◌, ◌++◌, JsString, codes,
}
use sparqly.OrderedMap
use sparqly.SavedQueries.{
  SavedQueryEntry, Payload, Document, updated, collision, stale, put, derive_entry_etag, entry_of,
  list_entries,
}
use sparqly.SavedQueries.Refinement.{
  Mutation, puts, deletes, view, mutate_all, spec_all, mutate_all-spec_all,
}
use sparqly.SavedQueries.Etags.{put_again}

-- A hash, and declarations of parameters that are numbers.
abbrev digest : JsString → Option JsString → JsString → JsString
digest slug none body = slug ++ 124 ∷ body
digest slug (some description) body = slug ++ 124 ∷ description ++ 124 ∷ body

abbrev payload : List ℕ → Payload ℕ
payload parameters = record {
  description = some (codes "All");
  body = codes "select *\n where {}";
  parameters = some parameters;
}

abbrev slug : JsString
slug = codes "all"

abbrev etag : JsString
etag = codes "all|All|select * where {}"

abbrev stored : SavedQueryEntry ℕ
stored = entry_of slug (payload (1 ∷ []))

abbrev document : Document ℕ
document = (slug, stored) ∷ []

put_run : (put digest slug (payload []) none document).0 ≡ collision
unfolding put OrderedMap.get
put_run = refl

put_runs : (put digest slug (payload []) (some (codes "old")) document).0 ≡ stale
unfolding put derive_entry_etag OrderedMap.get
put_runs = refl

summaries_run :
    list_entries document
    ≡ record { slug = slug; description = some (codes "All"); has_parameters = true } ∷ []
summaries_run = refl

put_again_example :
    let token = derive_entry_etag digest stored in
    let after = put digest slug (payload (2 ∷ [])) (some token) document in
    (after.0 ≡ updated token)
    × ((put digest slug (payload (3 ∷ [])) (some token) after.1).0
        ≡ updated (derive_entry_etag digest (entry_of slug (payload (3 ∷ [])))))
    × (OrderedMap.get slug (put digest slug (payload (3 ∷ [])) (some token) after.1).1
        ≡ some (entry_of slug (payload (3 ∷ []))))
unfolding OrderedMap.get
put_again_example =
    put_again digest slug stored (payload (2 ∷ [])) (payload (3 ∷ [])) document refl refl refl refl

abbrev mutations : List (Mutation ℕ)
mutations =
    puts slug (payload []) none
    ∷ puts slug (payload []) none
    ∷ puts slug (payload (2 ∷ [])) (some etag)
    ∷ deletes slug (some etag)
    ∷ []

mutate_all-spec_all_example :
    ((mutate_all digest mutations document).0
      ≡ (spec_all digest mutations (view digest document)).0)
    × (view digest (mutate_all digest mutations document).1
        ≡ (spec_all digest mutations (view digest document)).1)
mutate_all-spec_all_example = mutate_all-spec_all digest mutations document
