-- ===== src/Frame/Parser/Stages.antt =====
-- What a part of the parser is to return, by what the stream holds from there on, and the parts
-- from the payload back to the key.
use a_nother_ws.Prelude.{
  ℕ, ◌+◌, ◌-◌, ◌^◌, ◌≤◌, ◌<◌, max, ◌≡◌, refl, ◌∙◌, ap, sym, List, ◌++◌, some, true, false, arith,
  length, take, drop, length-append, length-drop, take-all, drop-drop, drop-append_ge,
  take-append_le,
}
use a_nother_ws.Membuf.{Membuf, contents}
use a_nother_ws.Membuf.Valid.{IsValid}
use a_nother_ws.Frame.Handle.{WebsocketHandle, ParseState, EndpointType}
use a_nother_ws.Frame.Reader.{Reader, read_char_from_buf_or_data}
use a_nother_ws.Frame.Reader.Position.{At, read_enough, read_short}
use a_nother_ws.Frame.Decode.{Outcome, need_more, too_long, bare, framed, fin_bit, opcode, mask_bit}
pub use a_nother_ws.Frame.Decode.{Reaches}
use a_nother_ws.Frame.Parser.{Parsing, sync}

-- The buffers of a connection that a parse leaves alone.
pub record Kept : Type 0 where
  pub flag : ℕ
  pub merge_buf : Membuf
  pub endpoint_type : EndpointType

-- How a parse ends: the value returned, the state, the bytes left in the buffer and the number of
-- bytes taken from the new data.
pub record Ended (kept : Kept) (ret : ℕ) (state : ParseState) (left : List ℕ) (count : ℕ)
    (out : WebsocketHandle × ℕ) : Type 0 where
  pub returned : out.1 ≡ ret
  pub parse_state : out.0.parse_state ≡ state
  pub valid : IsValid out.0.proto_buf
  pub holds : contents out.0.proto_buf ≡ left
  pub counted : out.0.read_count ≡ count
  pub same_flag : out.0.proto_buf.flag ≡ kept.flag
  pub same_merge : out.0.merge_buf ≡ kept.merge_buf
  pub same_endpoint : out.0.endpoint_type ≡ kept.endpoint_type
  pub key_size : length out.0.mask ≡ 4

-- The fields of a handle that tell what the first two bytes say; the extension bits are lost.
pub record Describes (b0 b1 : ℕ) (h : WebsocketHandle) : Type 0 where
  pub eof : h.is_eof ≡ fin_bit b0
  pub ext : h.df_ext ≡ 0
  pub op : h.type ≡ opcode b0
  pub masked : h.has_mask ≡ mask_bit b1

-- What the parser is to do with each outcome, having held the bytes `held` and got `input`.
abbrev pub Agrees : Kept → List ℕ → List ℕ → Outcome → WebsocketHandle × ℕ → Type 0
Agrees kept held input need_more out =
    Ended kept 0 ParseState.incomplete (held ++ input) (length input) out
Agrees kept held input too_long out =
    Ended kept 0 ParseState.failed (take 6 (held ++ input)) (6 - length held) out
Agrees kept held input (bare b0 b1) out =
    Ended kept 1 ParseState.complete (take 2 (held ++ input)) (2 - length held) out
    × Describes b0 b1 out.0
Agrees kept held input (framed b0 b1 header_len payload) out =
    Ended kept 1 ParseState.complete payload (header_len + length payload - length held) out
    × Describes b0 b1 out.0

-- A part of the parser returns, and in agreement with an outcome.
abbrev pub Yields : Kept → List ℕ → List ℕ → Outcome → Parsing → Type 0
Yields kept held input o p =
    (out : WebsocketHandle × ℕ) × (p ≡ some out) × Agrees kept held input o out

-- The handle in the middle of a parse.
pub record Midway (kept : Kept) (h : WebsocketHandle) : Type 0 where
  pub parse_state : h.parse_state ≡ ParseState.incomplete
  pub same_merge : h.merge_buf ≡ kept.merge_buf
  pub same_endpoint : h.endpoint_type ≡ kept.endpoint_type
  pub key_size : length h.mask ≡ 4

module _ (kept : Kept) (held input : List ℕ) where
  -- Stopping with all of the data in the buffer.
  pub sync-Ended :
      {h : WebsocketHandle} {r : Reader}
      → Midway kept h
      → At held input kept.flag (length held + length input) r
      → Ended kept 0 ParseState.incomplete (held ++ input) (length input) (sync h r, 0)
  sync-Ended {h} {r} m at = record {
    returned = refl;
    parse_state = m.parse_state;
    valid = at.valid;
    holds =
        at.view
        ∙ take-all (max (length held) (length held + length input)) (held ++ input)
            (omega (arith, length-append held input));
    counted = at.counted ∙ omega arith;
    same_flag = at.same_flag;
    same_merge = m.same_merge;
    same_endpoint = m.same_endpoint;
    key_size = m.key_size;
  }

module _ (held input : List ℕ) (flag : ℕ) (small : length held + length input ≤ 2 ^ 31) (pos : ℕ)
    (r : Reader) (at : At held input flag pos r) where
  -- A read whose bytes are the next of the stream.
  pub full_read :
      (bytes s : List ℕ)
      → drop pos (held ++ input) ≡ bytes ++ s
      → length bytes < 2 ^ 33
      → (r' : Reader) × (read_char_from_buf_or_data input r (length bytes)
          ≡ some (record { reader = r'; stored = bytes; done = true }))
        × At held input flag (pos + length bytes) r'
        × (drop (pos + length bytes) (held ++ input) ≡ s)
  full_read bytes s e word =
      let left : length bytes + length s ≡ length held + length input - pos = omega (
        arith,
        length-append bytes s,
        ap length e,
        length-drop pos (held ++ input),
        length-append held input,
      ) in
      let (r', got, at') =
        read_enough held input flag small pos r at (length bytes)
          (omega (arith, left, at.inside)) in
      let stored : take (length bytes) (drop pos (held ++ input)) ≡ bytes =
        ap (take (length bytes)) e
        ∙ take-append_le (length bytes) bytes s (omega arith)
        ∙ take-all (length bytes) bytes (omega arith) in
      let skip : length bytes - length bytes ≡ 0 = omega arith in
      (
        r',
        got ∙ ap (λ l. some (record { reader = r'; stored = l; done = true })) stored,
        at',
        sym (drop-drop (length bytes) pos (held ++ input))
            ∙ ap (drop (length bytes)) e
            ∙ drop-append_ge (length bytes) bytes s (omega arith)
            ∙ ap (λ k. drop k s) skip,
      )

  -- A read that the stream cannot serve.
  pub short_read :
      (n : ℕ) (s : List ℕ)
      → drop pos (held ++ input) ≡ s
      → length s < n
      → n < 2 ^ 33
      → (r' : Reader) × (read_char_from_buf_or_data input r n
          ≡ some (record { reader = r'; stored = s; done = false }))
        × At held input flag (length held + length input) r'
  short_read n s e lack word =
      let (r', got, at') = read_short held input flag small pos r at n word (
        omega (
          arith,
          ap length e,
          length-drop pos (held ++ input),
          length-append held input,
          at.inside,
        )) in
      (r', got ∙ ap (λ l. some (record { reader = r'; stored = l; done = false })) e, at')

-- The parse has passed `pos` bytes, and `s` is the rest of the stream.
pub record Here (kept : Kept) (held input : List ℕ) (pos : ℕ) (h : WebsocketHandle) (r : Reader)
    (s : List ℕ) : Type 0 where
  pub mid : Midway kept h
  pub at : At held input kept.flag pos r
  pub rest : drop pos (held ++ input) ≡ s

module _ (kept : Kept) (held input : List ℕ) (small : length held + length input ≤ 2 ^ 31) (pos : ℕ)
    (h : WebsocketHandle) (r : Reader) where
  -- The stream serves the read of `bytes`.
  pub reads :
      (bytes s : List ℕ)
      → length bytes < 2 ^ 33
      → Here kept held input pos h r (bytes ++ s)
      → (r' : Reader) × (read_char_from_buf_or_data input r (length bytes)
          ≡ some (record { reader = r'; stored = bytes; done = true }))
        × Here kept held input (pos + length bytes) h r' s
  reads bytes s word here =
      let (r', e, at', rest') =
        full_read held input kept.flag small pos r here.at bytes s here.rest word in
      (r', e, record { mid = here.mid; at = at'; rest = rest' })

  -- The stream ends within the read of `n` bytes, and the parser returns with a handle that
  -- differs from `h` in nothing that is kept.
  pub stops :
      (n : ℕ) (s : List ℕ) (h' : WebsocketHandle)
      → length s < n
      → n < 2 ^ 33
      → Here kept held input pos h r s
      → Midway kept h'
      → (r' : Reader) × (read_char_from_buf_or_data input r n
          ≡ some (record { reader = r'; stored = s; done = false }))
        × Agrees kept held input need_more (sync h' r', 0)
  stops n s h' lack word here mid =
      let (r', e, at') =
        short_read held input kept.flag small pos r here.at n s here.rest lack word in
      (r', e, sync-Ended kept held input mid at')
