-- ===== src/Connection/View.antt =====
-- What an application sees of a connection, and what one frame does to it.
use a_nother_ws.Prelude.{
  ℕ, ◌+◌, ◌^◌, ◌≤◌, ◌≡◌, refl, ◌∙◌, ap, sym, subst, List, [], ◌∷◌, ◌++◌, some, inl, inr, Bool, true,
  false, arith, ◌==◌, if◌then◌else◌, length, Bool-cases,
}
use a_nother_ws.Membuf.{contents}
use a_nother_ws.Membuf.Valid.{IsValid, length-contents, clear-IsValid}
use a_nother_ws.Membuf.Contents.{append_data-HasAppended, clear_empties}
use a_nother_ws.Frame.{flag_websocket_text, flag_websocket_bin}
use a_nother_ws.Frame.Generator.{generate_pong_control_frame}
use a_nother_ws.Connection.{
  Event, Connection, Kind, set_flag, emit, notify_close, tw_close_client, append_to_merge,
  on_continuation, flag_proto, restart_merge, on_data_frame, on_kind,
}

-- The flags of a connection, the message that is being put together, and the events so far.
pub record View : Type 0 where
  pub proto_flag : ℕ
  pub merge : List ℕ
  pub merge_flag : ℕ
  pub is_closing : Bool
  pub events : List Event

abbrev pub view : Connection → View
view c = record {
  proto_flag = c.handle.proto_buf.flag;
  merge = contents c.handle.merge_buf;
  merge_flag = c.handle.merge_buf.flag;
  is_closing = c.is_closing;
  events = c.events;
}

abbrev pub note : Event → View → View
note e v = record v { events = v.events ++ (e ∷ []) }

-- A whole message, or the first part of one.
abbrev pub take_data : (flag fin : ℕ) → List ℕ → View → View
take_data flag fin payload v =
    if fin == 0
    then record v {
      proto_flag = set_flag v.proto_flag flag;
      merge = payload;
      merge_flag = set_flag v.merge_flag flag;
    }
    else note (Event.on_data payload (set_flag v.proto_flag flag))
        (record v { proto_flag = set_flag v.proto_flag flag })

-- What one frame does, where the loop has its data.
pub deliver : Kind → (fin : ℕ) → List ℕ → View → View
deliver Kind.continuation fin payload v =
    let merged = record v { merge = v.merge ++ payload } in
    if fin == 0 then merged else note (Event.on_data merged.merge v.merge_flag) merged
deliver Kind.text fin payload v = take_data flag_websocket_text fin payload v
deliver Kind.binary fin payload v = take_data flag_websocket_bin fin payload v
deliver Kind.close fin payload v =
    if v.is_closing then v else record (note Event.uv_close v) { is_closing = true }
deliver Kind.ping fin payload v = note (Event.send generate_pong_control_frame) v
deliver Kind.other fin payload v = v

-- A frame is served, and the handle is the same but for the flag and the merge buffer.
pub record Serves (v : View) (c : Connection) (limit : ℕ) (served : Connection) : Type 0 where
  pub seen : view served ≡ v
  pub valid : IsValid served.handle.merge_buf
  pub within : served.handle.merge_buf.size ≤ limit
  pub same_data : served.has_loop_data ≡ c.has_loop_data
  pub flag : ℕ
  pub same_handle : served.handle ≡ record c.handle {
    proto_buf = record c.handle.proto_buf { flag = flag };
    merge_buf = served.handle.merge_buf;
  }

append_to_merge-Serves :
    (c : Connection) (payload : List ℕ)
    → IsValid c.handle.merge_buf
    → contents c.handle.proto_buf ≡ payload
    → c.handle.merge_buf.size + length payload ≤ 2 ^ 31
    → (served : Connection) × (append_to_merge c ≡ some served)
      × Serves
          (record (view c) { merge = contents c.handle.merge_buf ++ payload })
          c
          (c.handle.merge_buf.size + length payload)
          served
      × (served.handle.is_eof ≡ c.handle.is_eof)
unfolding append_to_merge
append_to_merge-Serves c payload valid e small =
    let src = contents c.handle.proto_buf in
    let (merged, r, a) =
      append_data-HasAppended c.handle.merge_buf src valid (omega (arith, ap length e)) in
    let served : Connection = record c { handle = record c.handle { merge_buf = merged } } in
    let added : contents merged ≡ contents c.handle.merge_buf ++ payload =
      a.added ∙ ap (λ l. contents c.handle.merge_buf ++ l) e in
    (
      served,
      rw r refl,
      record {
        seen = λ i. record (view c) { merge = added i; merge_flag = a.same_flag i };
        valid = a.valid;
        within = omega (arith, a.new_size, ap length e);
        same_data = refl;
        flag = c.handle.proto_buf.flag;
        same_handle = refl;
      },
      refl,
    )

-- An event changes nothing else.
emit-Serves :
    (e : Event) (v : View) (c served : Connection) (limit : ℕ)
    → Serves v c limit served
    → Serves (note e v) c limit (emit e served)
emit-Serves e v c served limit s = record {
  seen = ap (note e) s.seen;
  valid = s.valid;
  within = s.within;
  same_data = s.same_data;
  flag = s.flag;
  same_handle = s.same_handle;
}

unchanged-Serves :
    (c : Connection) (n : ℕ)
    → IsValid c.handle.merge_buf
    → Serves (view c) c (c.handle.merge_buf.size + n) c
unchanged-Serves c n valid = record {
  seen = refl;
  valid = valid;
  within = omega arith;
  same_data = refl;
  flag = c.handle.proto_buf.flag;
  same_handle = refl;
}

on_continuation-Serves :
    (c : Connection) (payload : List ℕ)
    → IsValid c.handle.merge_buf
    → contents c.handle.proto_buf ≡ payload
    → c.handle.merge_buf.size + length payload ≤ 2 ^ 31
    → (served : Connection) × (on_continuation c ≡ some served)
      × Serves
          (deliver Kind.continuation c.handle.is_eof payload (view c))
          c
          (c.handle.merge_buf.size + length payload)
          served
unfolding on_continuation deliver
on_continuation-Serves c payload valid e small =
    let (merged, r, s, eof) = append_to_merge-Serves c payload valid e small in
    elim (Bool-cases (c.handle.is_eof == 0)) [
      | inl going ↦ (merged, rw (r, eof, going) refl, rw going s)
      | inr ended ↦ (
        emit (Event.on_data (contents merged.handle.merge_buf) merged.handle.merge_buf.flag) merged,
        rw (r, eof, ended) refl,
        rw ended (
            subst
              (λ w.
                Serves
                  (note (Event.on_data w.merge w.merge_flag)
                    (record (view c) { merge = contents c.handle.merge_buf ++ payload }))
                  c (c.handle.merge_buf.size + length payload)
                  (emit
                    (Event.on_data (contents merged.handle.merge_buf) merged.handle.merge_buf.flag)
                    merged))
              s.seen
              (emit-Serves
                (Event.on_data (contents merged.handle.merge_buf) merged.handle.merge_buf.flag)
                (record (view c) { merge = contents c.handle.merge_buf ++ payload }) c merged
                (c.handle.merge_buf.size + length payload) s)),
      )
    ]

-- The merge buffer is emptied, and its flag set.
restart_merge-lem :
    (flag : ℕ) (c : Connection)
    → IsValid c.handle.merge_buf
    → IsValid (restart_merge flag c).handle.merge_buf
      × (contents (restart_merge flag c).handle.merge_buf ≡ [])
      × ((restart_merge flag c).handle.merge_buf.flag ≡ set_flag c.handle.merge_buf.flag flag)
restart_merge-lem flag c valid =
    let v = clear-IsValid c.handle.merge_buf 0 valid in
    let (none_left, same) = clear_empties c.handle.merge_buf 0 valid in
    (
      record { block = v.block; fits = v.fits; word = v.word },
      none_left,
      ap (λ f. set_flag f flag) same,
    )

on_data_frame-Serves :
    (flag : ℕ) (c : Connection) (payload : List ℕ)
    → IsValid c.handle.merge_buf
    → contents c.handle.proto_buf ≡ payload
    → c.handle.merge_buf.size + length payload ≤ 2 ^ 31
    → (served : Connection) × (on_data_frame flag c ≡ some served)
      × Serves
          (take_data flag c.handle.is_eof payload (view c))
          c
          (c.handle.merge_buf.size + length payload)
          served
unfolding on_data_frame
on_data_frame-Serves flag c payload valid e small = elim (Bool-cases (c.handle.is_eof == 0)) [
  | inl first ↦
      let started = restart_merge flag (flag_proto flag c) in
      let (valid', emptied, flagged) = restart_merge-lem flag (flag_proto flag c) valid in
      let size : started.handle.merge_buf.size ≡ 0 =
        omega (arith, length-contents started.handle.merge_buf valid', ap length emptied) in
      let (served, r, s, eof) =
        append_to_merge-Serves started payload valid' e (omega (arith, size)) in
      (
        served,
        rw first r,
        rw first (record {
          seen = s.seen ∙ λ i. record (view (flag_proto flag c)) {
            merge = emptied i ++ payload;
            merge_flag = flagged i;
          };
          valid = s.valid;
          within = omega (arith, s.within, size);
          same_data = s.same_data;
          flag = s.flag;
          same_handle = s.same_handle;
        }),
      )
  | inr whole ↦ (
    emit (Event.on_data (contents c.handle.proto_buf) (set_flag c.handle.proto_buf.flag flag))
        (flag_proto flag c),
    rw whole refl,
    rw whole (record {
      seen =
          ap
            (λ l.
              note (Event.on_data l (set_flag c.handle.proto_buf.flag flag))
                (view (flag_proto flag c)))
            e;
      valid = valid;
      within = omega arith;
      same_data = refl;
      flag = set_flag c.handle.proto_buf.flag flag;
      same_handle = refl;
    }),
  )
]

notify_close-same : (c : Connection) → c.has_loop_data ≡ true → notify_close c ≡ c
notify_close-same c e = ap (λ b. if b then c else emit Event.on_close c) e

close-Serves :
    (c : Connection) (n fin : ℕ) (payload : List ℕ)
    → c.has_loop_data ≡ true
    → IsValid c.handle.merge_buf
    → Serves
        (deliver Kind.close fin payload (view c))
        c
        (c.handle.merge_buf.size + n)
        (tw_close_client c)
unfolding deliver tw_close_client
close-Serves c n fin payload loop valid =
    let limit = c.handle.merge_buf.size + n in
    let quiet = notify_close-same c loop in
    let closed : Connection = record (emit Event.uv_close c) { is_closing = true } in
    let same : tw_close_client c ≡ (if c.is_closing then c else closed) =
      ap (λ d. if c.is_closing then d else record (emit Event.uv_close d) { is_closing = true })
        quiet in
    let pick : (b : Bool)
        → Serves (if b then view c else view closed) c limit (if b then c else closed) =
      λ b.
        elim b
          as (λ k. Serves (if k then view c else view closed) c limit (if k then c else closed)) [
            | true ↦ unchanged-Serves c n valid
            | false ↦ record {
              seen = refl;
              valid = valid;
              within = omega arith;
              same_data = refl;
              flag = c.handle.proto_buf.flag;
              same_handle = refl;
            }
          ] in
    subst (Serves (deliver Kind.close fin payload (view c)) c limit) (sym same) (pick c.is_closing)

pub on_kind-Serves :
    (k : Kind) (c : Connection) (payload : List ℕ)
    → c.has_loop_data ≡ true
    → IsValid c.handle.merge_buf
    → contents c.handle.proto_buf ≡ payload
    → c.handle.merge_buf.size + length payload ≤ 2 ^ 31
    → (served : Connection) × (on_kind k c ≡ some served)
      × Serves
          (deliver k c.handle.is_eof payload (view c))
          c
          (c.handle.merge_buf.size + length payload)
          served
unfolding on_kind deliver
on_kind-Serves Kind.continuation c payload loop valid e small =
    on_continuation-Serves c payload valid e small
on_kind-Serves Kind.text c payload loop valid e small =
    on_data_frame-Serves flag_websocket_text c payload valid e small
on_kind-Serves Kind.binary c payload loop valid e small =
    on_data_frame-Serves flag_websocket_bin c payload valid e small
on_kind-Serves Kind.close c payload loop valid e small =
    (tw_close_client c, refl, close-Serves c (length payload) c.handle.is_eof payload loop valid)
on_kind-Serves Kind.ping c payload loop valid e small = (
  emit (Event.send generate_pong_control_frame) c,
  refl,
  emit-Serves (Event.send generate_pong_control_frame) (view c) c c
      (c.handle.merge_buf.size + length payload) (unchanged-Serves c (length payload) valid),
)
on_kind-Serves Kind.other c payload loop valid e small =
    (c, refl, unchanged-Serves c (length payload) valid)
