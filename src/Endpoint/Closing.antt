-- ===== src/Endpoint/Closing.antt =====
-- The end of a connection: from a read that fails in src/ws/CWSServer.cpp to
-- `after_uv_close_client` of src/ws/uvutil.cpp.
use a_nother_ws.Prelude.{
  ℕ, ◌≡◌, refl, ap, ◌∙◌, List, Option, none, some, Bool, true, false, if◌then◌else◌, ◌>>=◌,
}
use a_nother_ws.Frame.{EndpointType}
use a_nother_ws.Connection.{Event, Connection, emit, tw_close_client, notify_close}
use a_nother_ws.Asyncs.Registry.{IsDistinct, HasSet, registry_is_set}
use a_nother_ws.Endpoint.{
  Peer, Read, opened, peer_of, read_failed, server_read, server_on_read, after_uv_close_client,
  after_close, freed,
}

-- A read that ends a connection: with the end of the stream, or with an error.
abbrev pub last_read : Option ℕ → Read
last_read none = Read.end_of_file
last_read (some code) = Read.failed code

closes : (c : Connection) → (tw_close_client c).is_closing ≡ true
unfolding tw_close_client
closes c = go c.is_closing refl
  where
    go :
        (b : Bool)
        → c.is_closing ≡ b
        → (if b
            then notify_close c
            else record (emit Event.uv_close (notify_close c)) { is_closing = true }).is_closing
          ≡ true
    go true e = same c.has_loop_data e
      where
        same :
            (d : Bool)
            → c.is_closing ≡ true
            → (if d then c else emit Event.on_close c).is_closing ≡ true
        same true e = e
        same false e = e
    go false e = refl

failed_closes :
    (c : Connection) (reason : Option ℕ) → (read_failed c (last_read reason)).is_closing ≡ true
failed_closes c none = closes c
failed_closes c (some code) = closes (emit (Event.on_error code) c)

-- A connection whose read fails, by an error or at the end of the stream, is closed, and when libuv
-- has closed it the registry, which has no connection twice, does not know it any more and knows
-- all others as before, and its handle is gone. The loop of the connection has its data.
pub closed_is_forgotten :
    (fuel id : ℕ) (connections : List ℕ) (reason : Option ℕ) (peer : Peer)
    → IsDistinct connections
    → peer.has_loop_data ≡ true
    → (out : Peer) × (server_on_read fuel (last_read reason) peer ≡ some out)
      × (out.is_closing ≡ true)
      × HasSet connections id false (after_uv_close_client id connections out).0
      × ((after_uv_close_client id connections out).1.data_of ≡ none)
unfolding server_on_read server_read after_close
closed_is_forgotten fuel id connections reason peer d has =
    let c = opened EndpointType.server peer in
    let out = peer_of (read_failed c (last_read reason)) in
    (
      out,
      ap
            (λ b.
              if b
              then (server_read fuel c (last_read reason) >>= (λ done. some (peer_of done)))
              else some (peer_of c))
            has
          ∙ read_lem fuel c reason,
      failed_closes c reason,
      (registry_is_set connections id d).1,
      gone (read_failed c (last_read reason)).handle.endpoint_type out,
    )
  where
    read_lem :
        (fuel : ℕ) (c : Connection) (reason : Option ℕ)
        → (server_read fuel c (last_read reason) >>= (λ done. some (peer_of done)))
          ≡ some (peer_of (read_failed c (last_read reason)))
    read_lem fuel c none = refl
    read_lem fuel c (some code) = refl

    gone : (e : EndpointType) (p : Peer) → (freed e (record p { data_of = none })).data_of ≡ none
    gone EndpointType.server p = refl
    gone EndpointType.client p = refl
