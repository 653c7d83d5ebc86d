-- ===== src/Frame/Parser/Refine.antt =====
-- `try_parse_protocol` as a whole: it does with any stream, however it is cut into pieces, what the
-- frame at the head of the stream says.
use a_nother_ws.Prelude.{
  ℕ, ◌+◌, ◌^◌, ◌≤◌, ◌≡◌, ◌⊎◌, refl, ◌∙◌, sym, subst, List, [], ◌∷◌, ◌++◌, inl, inr, arith, length,
  take-all, take-append_le, Bool-cases, if◌then◌else◌, max,
}
use a_nother_ws.Membuf.{Membuf, contents, clear}
use a_nother_ws.Membuf.Valid.{IsValid, clear-IsValid}
use a_nother_ws.Membuf.Contents.{clear_empties}
use a_nother_ws.Frame.Handle.{WebsocketHandle, is_complete}
use a_nother_ws.Frame.Decode.{need_more, too_long, decode}
use a_nother_ws.Frame.Decode.Prefix.{decode_grows}
use a_nother_ws.Frame.Decode.TooLong.{LongField-append, decode-LongField, too_long_LongField}
use a_nother_ws.Frame.Reader.Position.{At}
use a_nother_ws.Frame.Parser.{start, start_reader, try_parse_protocol}
use a_nother_ws.Frame.Parser.Stages.{Kept, Agrees, Reaches, Yields, Here}
use a_nother_ws.Frame.Parser.Opening.{read_first-Yields}

-- The bytes that the next call starts from: those of a complete frame are dropped first.
abbrev pub held : WebsocketHandle → List ℕ
held h = if is_complete h.parse_state then [] else contents h.proto_buf

abbrev pub kept : WebsocketHandle → Kept
kept h = record {
  flag = h.proto_buf.flag;
  merge_buf = h.merge_buf;
  endpoint_type = h.endpoint_type;
}

-- A handle between two calls. What it holds is no whole frame, or the head of one too long.
pub record IsReady (h : WebsocketHandle) : Type 0 where
  pub valid : IsValid h.proto_buf
  pub key_size : length h.mask ≡ 4
  pub pending :
      (decode (held h) ≡ need_more) ⊎ ((decode (held h) ≡ too_long) × (length (held h) ≤ 6))

pub decode-nil : decode [] ≡ need_more
unfolding decode
decode-nil = refl

start_reader-At :
    (bytes input : List ℕ) (flag : ℕ) (buf : Membuf)
    → IsValid buf
    → contents buf ≡ bytes
    → buf.flag ≡ flag
    → At bytes input flag 0 (start_reader buf)
start_reader-At bytes input flag buf v holds same = record {
  valid = v;
  view =
      holds
      ∙ sym (take-all (max (length bytes) 0) bytes (omega arith))
      ∙ sym (take-append_le (max (length bytes) 0) bytes input (omega arith));
  passed = refl;
  used = omega arith;
  counted = omega arith;
  inside = omega arith;
  same_flag = same;
}

-- The start of a call: the reader stands before the bytes held.
start-Here :
    (h : WebsocketHandle) (input : List ℕ)
    → IsReady h
    → Here (kept h) (held h) input 0 (start h) (start_reader (start h).proto_buf) (held h ++ input)
unfolding start
start-Here h input ready = elim (Bool-cases (is_complete h.parse_state)) [
  | inl done ↦
      let (empty, same) = clear_empties h.proto_buf 0 ready.valid in
      rw done (record {
        mid = record {
          parse_state = refl;
          same_merge = refl;
          same_endpoint = refl;
          key_size = refl;
        };
        at =
            start_reader-At [] input h.proto_buf.flag (clear h.proto_buf 0)
              (clear-IsValid h.proto_buf 0 ready.valid) empty same;
        rest = refl;
      })
  | inr going ↦ rw going (record {
    mid = record {
      parse_state = refl;
      same_merge = refl;
      same_endpoint = refl;
      key_size = ready.key_size;
    };
    at =
        start_reader-At (contents h.proto_buf) input h.proto_buf.flag h.proto_buf ready.valid refl
          refl;
    rest = refl;
  })
]

-- What is held belongs to the frame that more bytes complete.
pub IsReady-Reaches :
    (h : WebsocketHandle) (input : List ℕ)
    → IsReady h
    → Reaches (length (held h)) (decode (held h ++ input))
IsReady-Reaches h input ready = elim ready.pending [
  | inl more ↦ decode_grows (held h) input more
  | inr (bad, few) ↦
      let field = LongField-append (held h) input (too_long_LongField (held h) bad) in
      subst (Reaches (length (held h))) (sym (decode-LongField (held h ++ input) field)) few
]

nonempty : (xs ys : List ℕ) (y : ℕ) → (b : ℕ) × (s : List ℕ) × (xs ++ (y ∷ ys) ≡ b ∷ s)
nonempty [] ys y = (y, ys, refl)
nonempty (x ∷ xs) ys y = (x, xs ++ (y ∷ ys), refl)

-- Parsing refines the decoding of the stream. A call with new data returns, and what it returns,
-- the state, the bytes left in the buffer, the number of bytes taken from the data and the fields
-- of the header are those of `decode` at the bytes held followed by the data: an incomplete frame
-- is kept whole, a length above 32 bits fails, and a frame is delivered without header and mask.
-- The handle is between two calls, there is data, and the bytes held and the data are at most
-- 2 ^ 31.
pub try_parse_protocol-Yields :
    (h : WebsocketHandle) (x : ℕ) (input : List ℕ)
    → IsReady h
    → length (held h) + length (x ∷ input) ≤ 2 ^ 31
    → Yields
        (kept h)
        (held h)
        (x ∷ input)
        (decode (held h ++ (x ∷ input)))
        (try_parse_protocol h (x ∷ input))
unfolding try_parse_protocol
try_parse_protocol-Yields h x input ready small =
    let (b, s, e) = nonempty (held h) input x in
    let here =
      subst (Here (kept h) (held h) (x ∷ input) 0 (start h) (start_reader (start h).proto_buf)) e
        (start-Here h (x ∷ input) ready) in
    let reach =
      subst (λ l. Reaches (length (held h)) (decode l)) e (IsReady-Reaches h (x ∷ input) ready) in
    let (out, r, a) =
      read_first-Yields (kept h) (held h) (x ∷ input) small (start h)
        (start_reader (start h).proto_buf) b s here reach in
    (out, r, subst (λ l. Agrees (kept h) (held h) (x ∷ input) (decode l) out) (sym e) a)
