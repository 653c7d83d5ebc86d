-- ===== src/Asyncs.antt =====
-- src/ws/CAsyncs.cpp: the queue of the objects through which other threads hand data to the loop,
-- and src/ws/CChecker.cpp, the connections that may be written to. A pointer to an object is its
-- `id`, a pointer to a connection is a number. The mutex makes each operation one step.
pub mod Acquire
pub mod Splitting
pub mod Registry
use a_nother_ws.Prelude.{
  ℕ, zero, suc, ◌+◌, ◌-◌, ◌≤◌, List, [], ◌∷◌, ◌++◌, Option, none, some, Bool, true, false, ◌&&◌,
  ◌||◌, not, ltb, leb, ◌==◌, if◌then◌else◌, length, take, drop, ◌>>=◌,
}
use a_nother_ws.Prelude.Word.{u32}
use a_nother_ws.Membuf.{Membuf, contents}
use a_nother_ws.Membuf
use a_nother_ws.Frame.Generator.{generate_websocket_frame}

pub record SendDataContext : Type 0 where
  pub peer : ℕ
  pub data_sent : List ℕ
  pub len : ℕ

-- `context` is `async.data`, `none` when it is NULL.
pub record AsyncContext : Type 0 where
  pub id : ℕ
  pub context : Option SendDataContext

-- The queue, the connections of the checker, the objects given to `uv_async_send`, and the data
-- given to `uv_write`, in the order of the calls.
pub record Sender : Type 0 where
  pub queue : List AsyncContext
  pub connections : List ℕ
  pub woken : List ℕ
  pub written : List (ℕ × List ℕ)

unfoldable pub check_connection : List ℕ → ℕ → Bool
check_connection [] client = false
check_connection (c ∷ connections) client = c == client || check_connection connections client

-- `insert` of a map leaves a key that is there.
pub register_connection : List ℕ → ℕ → List ℕ
register_connection connections client =
    if check_connection connections client then connections else client ∷ connections

pub unregister_connection : List ℕ → ℕ → List ℕ
unregister_connection [] client = []
unregister_connection (c ∷ connections) client =
    let rest = unregister_connection connections client in
    if c == client then connections else c ∷ rest

pub is_null_context : Option SendDataContext → Bool
is_null_context none = true
is_null_context (some x) = false

-- `async.data == NULL`
abbrev pub is_free : AsyncContext → Bool
is_free a = is_null_context a.context

-- The constructor's loop, from the object number `i` on.
pub init_queue : (size i : ℕ) → List AsyncContext
init_queue zero i = []
init_queue (suc size) i = record { id = i; context = none } ∷ init_queue size (i + 1)

-- `none` for NULL; the second part is the queue afterwards.
pub acquire_one : List AsyncContext → Option ℕ × List AsyncContext
acquire_one [] = (none, [])
acquire_one (a ∷ queue) = if is_free a then (some a.id, queue ++ (a ∷ [])) else (none, a ∷ queue)

-- The inner loop: whether the first `num` objects are free, with identifiers that do not fall.
-- There are as many, so that the queue is not left.
pub is_run : (num prev_id : ℕ) → List AsyncContext → Bool
is_run zero prev_id queue = true
is_run (suc num) prev_id [] = false
is_run (suc num) prev_id (a ∷ queue) =
    let rest = is_run num a.id queue in if not (is_free a) || ltb a.id prev_id then false else rest

pub turn_one : List AsyncContext → List AsyncContext
turn_one [] = []
turn_one (a ∷ queue) = queue ++ (a ∷ [])

-- The outer loop, with fuel for its rounds.
pub search_run :
    (fuel num begin_pos max_pos : ℕ) → List AsyncContext → Option (Bool × List AsyncContext)
search_run zero num begin_pos max_pos queue = none
search_run (suc fuel) num begin_pos max_pos queue =
    let next = search_run fuel num (begin_pos + 1) max_pos (turn_one queue) in
    if leb (begin_pos + num) max_pos
    then (if is_run num 0 queue then some (true, queue) else next)
    else some (false, queue)

-- The loop that takes the objects found, each from the front to the back.
pub take_run : ℕ → List AsyncContext → List ℕ × List AsyncContext
take_run zero queue = ([], queue)
take_run (suc num) [] = ([], [])
take_run (suc num) (a ∷ queue) =
    let (ids, queue') = take_run num (queue ++ (a ∷ [])) in (a.id ∷ ids, queue')

pub take_found : ℕ → Bool → List AsyncContext → Option (List ℕ) × List AsyncContext
take_found num true queue = let (ids, queue') = take_run num queue in (some ids, queue')
take_found num false queue = (none, queue)

-- The objects found, `none` for `false`, and the queue afterwards.
pub acquire_many : ℕ → List AsyncContext → Option (Option (List ℕ) × List AsyncContext)
acquire_many num [] = some (none, [])
acquire_many num (a ∷ queue) = if ltb (length (a ∷ queue)) num then some (none, a ∷ queue) else do
  found ← search_run (length (a ∷ queue) + 1) num 0 (length queue) (a ∷ queue)
  some (take_found num found.0 found.1)

-- `async->data = ctx` for the object `id`.
pub attach : ℕ → Option SendDataContext → List AsyncContext → List AsyncContext
attach id context [] = []
attach id context (a ∷ queue) =
    (if a.id == id then record a { context = context } else a) ∷ attach id context queue

-- `sendDataWithAsync` on an object; its pointers are not NULL. The field `len` is a `uint`.
pub send_on : ℕ → ℕ → List ℕ → Sender → Bool × Sender
send_on async peer data_sent s =
    if length data_sent == 0
    then (false, s)
    else if check_connection s.connections peer
    then (
      true,
      record s {
        queue =
            attach async
              (some (record { peer = peer; data_sent = data_sent; len = u32 (length data_sent) }))
              s.queue;
        woken = s.woken ++ (async ∷ []);
      },
    )
    else (false, s)

pub send_data_with_async : ℕ → List ℕ → Sender → Bool × Sender
send_data_with_async peer data_sent s =
    if check_connection s.connections peer
    then (let (async, queue') = acquire_one s.queue in
        elim async [
          | none ↦ (false, record s { queue = queue' })
          | some id ↦ send_on id peer data_sent (record s { queue = queue' })
        ])
    else (false, s)

-- `sendWebsocketMsg` on an object. `none` is a frame that cannot be made.
pub send_message_on : ℕ → ℕ → List ℕ → ℕ → Sender → Option (Bool × Sender)
send_message_on async peer message op s =
    let framed = generate_websocket_frame (Membuf.init 128) message op in
    if check_connection s.connections peer && not (length message == 0)
    then (do buf ← framed; some (send_on async peer (contents buf) s))
    else some (false, s)

pub send_websocket_msg : ℕ → List ℕ → ℕ → Sender → Option (Bool × Sender)
send_websocket_msg peer message op s =
    if check_connection s.connections peer
    then (let (async, queue') = acquire_one s.queue in
        elim async [
          | none ↦ some (false, record s { queue = queue' })
          | some id ↦ send_message_on id peer message op (record s { queue = queue' })
        ])
    else some (false, s)

-- The loop over the parts: the next size and the next object, while there is data at `dataptr`.
pub send_parts : (sizes asyncs : List ℕ) → ℕ → List ℕ → Sender → Bool × Sender
send_parts [] asyncs peer rest s = (true, s)
send_parts (n ∷ sizes) [] peer rest s = (false, s)
send_parts (n ∷ sizes) (async ∷ asyncs) peer rest s =
    let (ok, s') = send_on async peer (take n rest) s in
    let next = send_parts sizes asyncs peer (drop n rest) s' in if ok then next else (false, s')

-- Sending in parts, where `split` is the caller's function on a length, or NULL. The objects are
-- acquired with the sizes known, and `none` is a search that does not end.
pub send_sizes : List ℕ → ℕ → List ℕ → Sender → Option (Bool × Sender)
send_sizes sizes peer data_sent s = do
  found ← acquire_many (length sizes) s.queue
  some (elim found.0 [
    | none ↦ (false, record s { queue = found.1 })
    | some ids ↦ send_parts sizes ids peer data_sent (record s { queue = found.1 })
  ])

pub send_split : Option (ℕ → List ℕ) → ℕ → List ℕ → Sender → Option (Bool × Sender)
send_split none peer data_sent s =
    if check_connection s.connections peer && not (length data_sent == 0)
    then some (send_data_with_async peer data_sent s)
    else some (false, s)
send_split (some split) peer data_sent s =
    let sent = send_sizes (split (length data_sent)) peer data_sent s in
    if check_connection s.connections peer && not (length data_sent == 0)
    then sent
    else some (false, s)

pub send_message_split : Option (ℕ → List ℕ) → ℕ → List ℕ → ℕ → Sender → Option (Bool × Sender)
send_message_split none peer message op s =
    if check_connection s.connections peer && not (length message == 0)
    then send_websocket_msg peer message op s
    else some (false, s)
send_message_split (some split) peer message op s =
    let framed = generate_websocket_frame (Membuf.init 128) message op in
    if check_connection s.connections peer && not (length message == 0)
    then (do buf ← framed; send_sizes (split (length (contents buf))) peer (contents buf) s)
    else some (false, s)

-- `async_send_callback` on the object `a`, with `send_data_impl`: its two tests of the connection
-- see the same registry, and the length is what the context says.
pub async_send_callback : AsyncContext → Sender → Sender
async_send_callback a s = elim a.context [
  | none ↦ s
  | some ctx ↦ record s {
    queue = attach a.id none s.queue;
    written =
        if check_connection s.connections ctx.peer
        then s.written ++ ((ctx.peer, take ctx.len ctx.data_sent) ∷ [])
        else s.written;
  }
]
