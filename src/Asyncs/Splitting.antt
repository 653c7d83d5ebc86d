-- ===== src/Asyncs/Splitting.antt =====
-- Data sent in parts.
use a_nother_ws.Prelude.{ℕ, ◌+◌, ◌-◌, ◌≤◌, ◌<◌, ◌≡◌, List, [], ◌∷◌, ◌++◌, some, length, take, drop}
use a_nother_ws.Asyncs.{AsyncContext, Sender, attach}

abbrev pub total : List ℕ → ℕ
total [] = 0
total (n ∷ sizes) = n + total sizes

-- The sizes are of parts that have data and add up to `n`.
abbrev pub Parts : List ℕ → ℕ → Type 0
Parts [] n = n ≡ 0
Parts (k ∷ sizes) n = (0 < k) × (k ≤ n) × Parts sizes (n - k)

-- The parts of the data.
abbrev pub pieces : List ℕ → List ℕ → List (List ℕ)
pieces [] bytes = []
pieces (n ∷ sizes) bytes = take n bytes ∷ pieces sizes (drop n bytes)

abbrev pub joined : List (List ℕ) → List ℕ
joined [] = []
joined (p ∷ ps) = p ++ joined ps

-- One part for each object, in order.
abbrev pub attach_all : ℕ → List ℕ → List (List ℕ) → List AsyncContext → List AsyncContext
attach_all peer [] ps queue = queue
attach_all peer (async ∷ asyncs) [] queue = queue
attach_all peer (async ∷ asyncs) (p ∷ ps) queue =
    attach_all peer asyncs ps
      (attach async (some (record { peer = peer; data_sent = p; len = length p })) queue)

-- What is left in a sender after the parts.
pub record HasSent (asyncs sizes : List ℕ) (peer : ℕ) (bytes : List ℕ) (s s' : Sender)
    : Type 0 where
  pub attached : s'.queue ≡ attach_all peer asyncs (pieces sizes bytes) s.queue
  pub whole : joined (pieces sizes bytes) ≡ bytes
  pub same_connections : s'.connections ≡ s.connections
  pub woken : s'.woken ≡ s.woken ++ asyncs
  pub same_written : s'.written ≡ s.written
