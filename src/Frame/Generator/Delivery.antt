-- ===== src/Frame/Generator/Delivery.antt =====
-- A generated frame, and the parser at the other end.
use a_nother_ws.Prelude.{
  ℕ, ◌+◌, ◌*◌, ◌/◌, ◌%◌, ◌^◌, ◌≤◌, ◌<◌, ◌≡◌, ◌∙◌, ap, sym, subst, List, [], ◌∷◌, ◌++◌, append_assoc,
  some, arith, length, length-append,
}
use a_nother_ws.Membuf.{Membuf, contents}
use a_nother_ws.Membuf.Valid.{IsValid, length-contents}
use a_nother_ws.Frame.Handle.{WebsocketHandle, ParseState}
use a_nother_ws.Frame.Decode.{framed, decode}
use a_nother_ws.Frame.Parser.{try_parse_protocol}
use a_nother_ws.Frame.Parser.Stages.{Agrees}
use a_nother_ws.Frame.Parser.Refine.{held, kept, IsReady, try_parse_protocol-Yields}
use a_nother_ws.Frame.Generator.{generate_websocket_frame_without_fragment}
use a_nother_ws.Frame.Generator.Bytes.{body_of, length-body_of, generate-HasAppended}
use a_nother_ws.Frame.Generator.Roundtrip.{IsHeader, frame_IsHeader}

-- A complete frame with this payload and these header fields was taken from `count` bytes.
pub record Delivered (payload : List ℕ) (op fin m count : ℕ) (out : WebsocketHandle × ℕ)
    : Type 0 where
  pub returned : out.1 ≡ 1
  pub state : out.0.parse_state ≡ ParseState.complete
  pub holds : contents out.0.proto_buf ≡ payload
  pub eof : out.0.is_eof ≡ fin
  pub op_type : out.0.type ≡ op
  pub masked : out.0.has_mask ≡ m
  pub counted : out.0.read_count ≡ count

Agrees-Delivered :
    (h : WebsocketHandle) (input payload : List ℕ) (b1 len op fin m : ℕ) (out : WebsocketHandle × ℕ)
    → held h ≡ []
    → fin < 2
    → op < 16
    → b1 / 128 % 2 ≡ m
    → Agrees (kept h) (held h) input (framed (fin * 128 + op) b1 len payload) out
    → Delivered payload op fin m (len + length payload) out
Agrees-Delivered h input payload b1 len op fin m out none_held fin_small op_small bit (a, d) =
    record {
      returned = a.returned;
      state = a.parse_state;
      holds = a.holds;
      eof = d.eof ∙ omega arith;
      op_type = d.op ∙ omega arith;
      masked = d.masked ∙ bit;
      counted = a.counted ∙ omega (arith, ap length none_held);
    }

parse_any :
    (h : WebsocketHandle) (input : List ℕ)
    → IsReady h
    → 0 < length input
    → length (held h) + length input ≤ 2 ^ 31
    → (out : WebsocketHandle × ℕ) × (try_parse_protocol h input ≡ some out)
      × Agrees (kept h) (held h) input (decode (held h ++ input)) out
parse_any h [] ready some_data small = absurd (omega arith)
parse_any h (x ∷ input) ready some_data small = try_parse_protocol-Yields h x input ready small

pub IsHeader-Delivered :
    (h : WebsocketHandle) (payload rest header : List ℕ) (op fin m : ℕ)
    → IsReady h
    → held h ≡ []
    → fin < 2
    → op < 16
    → 0 < length (header ++ body_of m payload)
    → length (header ++ body_of m payload) + length rest ≤ 2 ^ 31
    → IsHeader fin op m payload header
    → (out : WebsocketHandle × ℕ) × (try_parse_protocol h ((header ++ body_of m payload) ++ rest)
        ≡ some out)
      × Delivered payload op fin m (length (header ++ body_of m payload)) out
IsHeader-Delivered h payload rest header op fin m ready none_held fin_small op_small some_data small
      made =
    let input = (header ++ body_of m payload) ++ rest in
    let size = length-append (header ++ body_of m payload) rest in
    let (out, e, a) =
      parse_any h input ready (omega (arith, size)) (omega (arith, size, ap length none_held)) in
    let found : decode (held h ++ input)
        ≡ framed (fin * 128 + op) made.second (length header) payload =
      ap (λ l. decode (l ++ input)) none_held
      ∙ ap decode (append_assoc header (body_of m payload) rest)
      ∙ made.read rest in
    let a' = subst (λ o. Agrees (kept h) (held h) input o out) found a in
    let total : length header + length payload ≡ length (header ++ body_of m payload) =
      omega (arith, length-append header (body_of m payload), length-body_of m payload) in
    (
      out,
      e,
      subst (λ n. Delivered payload op fin m n out) total
          (Agrees-Delivered h input payload made.second (length header) op fin m out none_held
            fin_small op_small made.masked a'),
    )

-- What is generated is what is parsed. Data of 1 to 2 ^ 32 - 1 bytes gives one frame at the end of
-- an empty buffer, at most 14 bytes longer than the data, and a parser that holds nothing, given
-- the frame with any bytes behind it, returns 1 and is complete: its buffer has the data, its
-- fields have the opcode, the FIN bit and the mask bit that were asked for, and it has taken the
-- frame and nothing more. The opcode has 4 bits, the other two are bits, and all is at most
-- 2 ^ 31 bytes.
pub generated_is_parsed :
    (buf : Membuf) (h : WebsocketHandle) (payload rest : List ℕ) (op fin m : ℕ)
    → IsValid buf
    → contents buf ≡ []
    → IsReady h
    → held h ≡ []
    → fin < 2
    → op < 16
    → m < 2
    → 0 < length payload
    → length payload + 14 + length rest ≤ 2 ^ 31
    → (sent : Membuf) × (out : WebsocketHandle × ℕ) × (generate_websocket_frame_without_fragment buf
          payload op fin m
        ≡ some sent)
      × (length (contents sent) ≤ length payload + 14)
      × (try_parse_protocol h (contents sent ++ rest) ≡ some out)
      × Delivered payload op fin m (length (contents sent)) out
generated_is_parsed buf h payload rest op fin m v empty ready none_held fin_small op_small m_small
      some_data small =
    let (header, made, few) =
      frame_IsHeader fin op m payload fin_small op_small m_small some_data (omega arith) in
    let (sent, e, a) =
      generate-HasAppended buf payload header op fin m v made.made
        (omega (arith, length-contents buf v, ap length empty)) in
    let wire : contents sent ≡ header ++ body_of m payload =
      a.added ∙ ap (λ l. l ++ (header ++ body_of m payload)) empty in
    let size : length (header ++ body_of m payload) ≡ length header + length payload =
      omega (arith, length-append header (body_of m payload), length-body_of m payload) in
    let (out, e', d) =
      IsHeader-Delivered h payload rest header op fin m ready none_held fin_small op_small
        (omega (arith, size)) (omega (arith, size)) made in
    (
      sent,
      out,
      e,
      omega (arith, ap length wire, size),
      ap (λ l. try_parse_protocol h (l ++ rest)) wire ∙ e',
      subst (λ l. Delivered payload op fin m (length l) out) (sym wire) d,
    )
