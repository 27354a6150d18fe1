-- ===== src/Builds/Tail.antt =====
-- The tail of a child's standard error.
use sparqly.Base.{
  ℕ, zero, suc, ◌+◌, ◌-◌, ◌≤◌, ◌<◌, ◌≡◌, refl, List, [], ◌∷◌, ◌++◌, JsString, arith, leb, length,
  length-append, Bool-cases, inl, inr, ap, ◌∙◌, sym, append-nil, append_assoc,
}
use sparqly.Builds.{drop, slice_last, keep_tail}

drop_all : (k : ℕ) (s : JsString) → length s ≤ k → drop k s ≡ []
drop_all zero [] h = refl
drop_all zero (c ∷ s) h = absurd (omega arith)
drop_all (suc k) [] h = refl
drop_all (suc k) (c ∷ s) h = drop_all k s (omega arith)

length-drop : (k : ℕ) (s : JsString) → length (drop k s) ≡ length s - k
length-drop zero s = omega arith
length-drop (suc k) [] = omega arith
length-drop (suc k) (c ∷ s) = omega (arith, length-drop k s)

drop-append : (k : ℕ) (s t : JsString) → k ≤ length s → drop k (s ++ t) ≡ drop k s ++ t
drop-append zero s t h = refl
drop-append (suc k) [] t h = absurd (omega arith)
drop-append (suc k) (c ∷ s) t h = drop-append k s t (omega arith)

drop-drop : (j k : ℕ) (s : JsString) → drop j (drop k s) ≡ drop (k + j) s
drop-drop j zero s = ap (λ n. drop n s) (omega arith)
drop-drop j (suc k) [] = drop_all j [] (omega arith) ∙ sym (drop_all (suc k + j) [] (omega arith))
drop-drop j (suc k) (c ∷ s) =
    let step : suc k + j ≡ suc (k + j) = omega arith in rw step (drop-drop j k s)

-- The last `bound` units of a text, or all of it.
abbrev pub last_units : ℕ → JsString → JsString
last_units bound s = drop (length s - bound) s

keep_tail-last_units :
    (bound : ℕ) (tail text : JsString)
    → 0 < bound
    → keep_tail bound tail text ≡ last_units bound (tail ++ text)
unfolding keep_tail slice_last
keep_tail-last_units bound tail text h = elim (Bool-cases (leb (length tail + length text) bound)) [
  | inl e ↦
      let none_off : length (tail ++ text) - bound ≡ zero =
        ground (arith, e, length-append tail text) in
      rw (e, none_off) refl
  | inr e ↦ rw e (ground (arith, h))
]

last_units-append :
    (bound : ℕ) (s t : JsString)
    → last_units bound (last_units bound s ++ t) ≡ last_units bound (s ++ t)
last_units-append bound s t =
    let k = length s - bound in
    let fits : k ≤ length s = omega arith in
    let joined = drop-append k s t fits in
    rw (← joined) (
      drop-drop (length (drop k (s ++ t)) - bound) k (s ++ t)
      ∙ ap (λ n. drop n (s ++ t)) (omega (arith, length-drop k (s ++ t), length-append s t)))

-- The text that a child has written, chunk by chunk.
abbrev pub written : List JsString → JsString
written [] = []
written (chunk ∷ chunks) = chunk ++ written chunks

-- The listener of `data`, at each chunk.
abbrev pub collect : ℕ → JsString → List JsString → JsString
collect bound tail [] = tail
collect bound tail (chunk ∷ chunks) = collect bound (keep_tail bound tail chunk) chunks

collect-last_units :
    (bound : ℕ) (seen : JsString) (chunks : List JsString)
    → 0 < bound
    → collect bound (last_units bound seen) chunks ≡ last_units bound (seen ++ written chunks)
collect-last_units bound seen [] h = rw append-nil refl
collect-last_units bound seen (chunk ∷ chunks) h =
    rw
      (
        keep_tail-last_units bound (last_units bound seen) chunk h,
        last_units-append bound seen chunk,
      )
      (collect-last_units bound (seen ++ chunk) chunks h
        ∙ ap (last_units bound) (append_assoc seen chunk (written chunks)))

-- However the output of a child is cut into chunks, what is kept is the last `bound` code units of
-- it, and never more than `bound` of them, if the bound is not 0.
pub collect_bounded :
    (bound : ℕ) (chunks : List JsString)
    → 0 < bound
    → (collect bound [] chunks ≡ last_units bound (written chunks))
      × (length (collect bound [] chunks) ≤ bound)
collect_bounded bound chunks h =
    let nothing : last_units bound [] ≡ [] = drop_all (0 - bound) [] (omega arith) in
    let whole : collect bound [] chunks ≡ last_units bound (written chunks) =
      rw nothing at (collect-last_units bound [] chunks h) in
    (
      whole,
      rw whole (omega (arith, length-drop (length (written chunks) - bound) (written chunks))),
    )

-- With a bound of 0 nothing is dropped: `slice(-0)` keeps the whole text.
pub collect_unbounded :
    (tail : JsString) (chunks : List JsString) → collect 0 tail chunks ≡ tail ++ written chunks
unfolding keep_tail slice_last
collect_unbounded tail [] = rw append-nil refl
collect_unbounded tail (chunk ∷ chunks) =
    let all_kept : keep_tail 0 tail chunk ≡ tail ++ chunk = ground arith in
    rw all_kept
      (collect_unbounded (tail ++ chunk) chunks ∙ append_assoc tail chunk (written chunks))
