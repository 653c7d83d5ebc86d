-- ===== src/Asyncs/Acquire.antt =====
-- What `acquireManyUvAsync` finds.
use a_nother_ws.Prelude.{
  ℕ, suc, ◌+◌, ◌≤◌, ◌<◌, ◌≡◌, refl, ◌∙◌, ap, List, [], ◌∷◌, ◌++◌, Option, none, some, false, ltb,
  arith, length, lt→leb, le→ltb, length-append,
}
use a_nother_ws.Asyncs.{AsyncContext, turn_one, search_run, take_found, acquire_many}

-- Queues that differ by moving objects from the front to the back, one at a time.
pub data IsTurned : List AsyncContext → List AsyncContext → Type 0 where
  same : {q : List AsyncContext} → IsTurned q q
  turn : {p q : List AsyncContext} → IsTurned p q → IsTurned p (turn_one q)

length-turn_one : (q : List AsyncContext) → length (turn_one q) ≡ length q
unfolding turn_one
length-turn_one [] = refl
length-turn_one (a ∷ q) = omega (arith, length-append q (a ∷ []))

pub length-IsTurned : {p q : List AsyncContext} → IsTurned p q → length q ≡ length p
length-IsTurned IsTurned.same = refl
length-IsTurned (IsTurned.turn {q = q} t) = length-turn_one q ∙ length-IsTurned t

-- All free, with identifiers that do not fall below `prev_id` or each other.
abbrev pub Ascends : ℕ → List AsyncContext → Type 0
Ascends prev_id [] = Unit {0}
Ascends prev_id (a ∷ q) = (a.context ≡ none) × (prev_id ≤ a.id) × Ascends a.id q

abbrev pub ids_of : List AsyncContext → List ℕ
ids_of [] = []
ids_of (a ∷ q) = a.id ∷ ids_of q

-- The objects acquired: free, in the order of their identifiers, neighbours in the queue turned,
-- and at its back afterwards.
pub record HasAcquired (num : ℕ) (q : List AsyncContext) (ids : List ℕ) (q' : List AsyncContext)
    : Type 0 where
  pub objects : List AsyncContext
  pub others : List AsyncContext
  pub neighbours : IsTurned q (objects ++ others)
  pub count : length objects ≡ num
  pub ascends : Ascends 0 objects
  pub named : ids ≡ ids_of objects
  pub at_back : q' ≡ others ++ objects

-- Nothing is acquired, and the queue is only turned.
abbrev pub Acquires : ℕ → List AsyncContext → Option (List ℕ) → List AsyncContext → Type 0
Acquires num q none q' = IsTurned q q'
Acquires num q (some ids) q' = HasAcquired num q ids q'

search_over :
    (fuel num begin_pos max_pos : ℕ) (q : List AsyncContext)
    → max_pos < begin_pos + num
    → search_run (suc fuel) num begin_pos max_pos q ≡ some (false, q)
unfolding search_run
search_over fuel num begin_pos max_pos q h = rw (lt→leb (begin_pos + num) max_pos h) refl

-- All objects of a queue at once are never acquired, even when all are free: the search stops
-- before its first round, and the queue stays as it is.
pub acquire_all_fails : (q : List AsyncContext) → acquire_many (length q) q ≡ some (none, q)
unfolding acquire_many take_found
acquire_all_fails [] = refl
acquire_all_fails (a ∷ q) =
    let n = length (a ∷ q) in
    let allowed : ltb n n ≡ false = le→ltb n n (omega arith) in
    let fuel : n + 1 ≡ suc n = omega arith in
    let over : search_run (n + 1) n 0 (length q) (a ∷ q) ≡ some (false, a ∷ q) =
      ap (λ k. search_run k n 0 (length q) (a ∷ q)) fuel
      ∙ search_over n n 0 (length q) (a ∷ q) (omega arith) in
    rw (allowed, over) refl
