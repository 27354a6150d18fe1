-- ===== src/Builds/Queueing.antt =====
-- The queue of builds: no id twice, and none that is running.
use sparqly.Base.{
  ℕ, ◌≡◌, refl, false, none, List, [], ◌∷◌, ◌++◌, JsString, arith, includes, text_eq, nat_eq, All,
  ◌==◌,
}
use sparqly.OrderedMap
use sparqly.OrderedMap.{OrderedMap, Distinct}
use sparqly.Builds.{remove_first}

abbrev pub NoRepeat : List JsString → Type 0
NoRepeat [] = Unit
NoRepeat (x ∷ xs) = (includes xs x ≡ false) × NoRepeat xs

abbrev pub Idle : OrderedMap JsString ℕ → JsString → Type 0
Idle running id = OrderedMap.get id running ≡ none

pub set-Idle :
    (id : JsString) (n : ℕ) (running : OrderedMap JsString ℕ) (xs : List JsString)
    → includes xs id ≡ false
    → All (Idle running) xs
    → All (Idle (OrderedMap.set id n running)) xs
set-Idle id n running [] h a = tt
set-Idle id n running (x ∷ xs) h a = (
  ground (
    arith,
    h,
    a.0,
    text_eq.beq_iff x id,
    text_eq.beq_iff id x,
    OrderedMap.get-set id x n running,
  ),
  set-Idle id n running xs (ground (arith, h)) a.1,
)

pub delete-Idle :
    (id : JsString) (running : OrderedMap JsString ℕ) (xs : List JsString)
    → All (Idle running) xs
    → All (Idle (OrderedMap.delete id running)) xs
delete-Idle id running [] a = tt
delete-Idle id running (x ∷ xs) a =
    (ground (arith, a.0, OrderedMap.get-delete id x running), delete-Idle id running xs a.1)

pub includes-append :
    (xs : List JsString) (x y : JsString)
    → includes xs y ≡ false
    → (x == y) ≡ false
    → includes (xs ++ x ∷ []) y ≡ false
includes-append [] x y h k = ground arith
includes-append (z ∷ xs) x y h k = ground (arith, includes-append xs x y)

pub append-NoRepeat :
    (xs : List JsString) (x : JsString)
    → NoRepeat xs
    → includes xs x ≡ false
    → NoRepeat (xs ++ x ∷ [])
append-NoRepeat [] x n h = (refl, tt)
append-NoRepeat (y ∷ xs) x n h = (
  includes-append xs x y n.0 (ground (arith, h, text_eq.beq_iff x y, text_eq.beq_iff y x)),
  append-NoRepeat xs x n.1 (ground (arith, h)),
)

pub append-Idle :
    (running : OrderedMap JsString ℕ) (xs : List JsString) (x : JsString)
    → All (Idle running) xs
    → Idle running x
    → All (Idle running) (xs ++ x ∷ [])
append-Idle running [] x a h = (h, tt)
append-Idle running (y ∷ xs) x a h = (a.0, append-Idle running xs x a.1 h)

pub remove_first-Idle :
    (running : OrderedMap JsString ℕ) (id : JsString) (xs : List JsString)
    → All (Idle running) xs
    → All (Idle running) (remove_first id xs)
unfolding remove_first
remove_first-Idle running id [] a = tt
remove_first-Idle running id (x ∷ xs) a = ground (arith, remove_first-Idle running id xs a.1)

includes-remove_first :
    (id y : JsString) (xs : List JsString)
    → includes xs y ≡ false
    → includes (remove_first id xs) y ≡ false
unfolding remove_first
includes-remove_first id y [] h = refl
includes-remove_first id y (x ∷ xs) h = ground (arith, includes-remove_first id y xs)

pub remove_first-NoRepeat :
    (id : JsString) (xs : List JsString) → NoRepeat xs → NoRepeat (remove_first id xs)
unfolding remove_first
remove_first-NoRepeat id [] n = tt
remove_first-NoRepeat id (x ∷ xs) n =
    ground (arith, remove_first-NoRepeat id xs n.1, includes-remove_first id x xs n.0)
