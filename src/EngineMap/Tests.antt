-- ===== src/EngineMap/Tests.antt =====
-- Loads of a source, and an unload and a reload while they wait.
use sparqly.Base.{ℕ, ◌≡◌, refl, none, List, [], ◌∷◌, codes, Result, ok, err}
use sparqly.SourceRows.{SourceRowError}
use sparqly.EngineMap.{
  LoadInfo, load_start, load_success, unload_done, init, load_via_worker, settled, ensure_entry,
  reload, unload_entry, unload, load_ends,
}
use sparqly.EngineMap.Unloading.{
  Step, touched, reloaded, unloaded, ended, run, run_ends, unload_final, reload_not_superseding,
}

abbrev old : LoadInfo
old = record { files = codes "a.ttl" ∷ []; load_ms = 12; quads = 3 }

abbrev new : LoadInfo
new = record { files = codes "a.ttl" ∷ codes "b.ttl" ∷ []; load_ms = 15; quads = 5 }

abbrev lost : SourceRowError
lost = record { kind = codes "worker-lost"; message = codes "the worker exited"; details = none }

reloaded_emits :
    (run
      (touched ∷ ended 0 (ok old) 100 ∷ reloaded ∷ ended 1 (ok new) 200 ∷ unloaded ∷ [])
      init).emitted
    ≡ load_start ∷ load_success ∷ load_start ∷ load_success ∷ unload_done ∷ []
unfolding ensure_entry load_via_worker reload load_ends unload unload_entry
reloaded_emits = refl

-- Two loads wait when the entry is unloaded.
abbrev two_waiting : List Step
two_waiting = touched ∷ reloaded ∷ []

abbrev both_end : List (ℕ × Result SourceRowError LoadInfo × ℕ)
both_end = (1, ok new, 100) ∷ (0, err lost, 110) ∷ []

unload_final_example :
    ((run_ends both_end (unload (run two_waiting init))).entry
      ≡ (unload (run two_waiting init)).entry)
    × ((run_ends both_end (unload (run two_waiting init))).emitted
        ≡ (unload (run two_waiting init)).emitted)
unfolding ensure_entry load_via_worker reload
unload_final_example = unload_final two_waiting both_end refl

reload_not_superseding_example :
    (load_ends 0 (ok old) 100 (reload (ensure_entry init))).entry
    ≡ settled (ok old) 100 (reload (ensure_entry init)).entry
unfolding ensure_entry load_via_worker
reload_not_superseding_example = reload_not_superseding 0 (ok old) 100 (ensure_entry init) refl
