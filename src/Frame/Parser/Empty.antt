-- ===== src/Frame/Parser/Empty.antt =====
-- Frames without data.
use a_nother_ws.Prelude.{
  ℕ, ◌+◌, ◌^◌, ◌≤◌, ◌≡◌, refl, ◌∙◌, ap, subst, List, [], ◌∷◌, ◌++◌, some, arith, length, ◌==◌, true,
}
use a_nother_ws.Membuf.{contents}
use a_nother_ws.Frame.Handle.{WebsocketHandle, ParseState}
use a_nother_ws.Frame.Decode.{
  need_more, bare, short_length, decode, decode_length, decode_mask, decode_payload,
}
use a_nother_ws.Frame.Parser.{try_parse_protocol}
use a_nother_ws.Frame.Parser.Stages.{Agrees}
use a_nother_ws.Frame.Parser.Refine.{held, kept, IsReady, try_parse_protocol-Yields}
use a_nother_ws.Frame.Generator.{
  generate_close_control_frame, generate_ping_control_frame, generate_pong_control_frame,
}

decode_empty :
    (b0 b1 : ℕ) (rest : List ℕ) → short_length b1 ≡ 0 → decode (b0 ∷ b1 ∷ rest) ≡ bare b0 b1
unfolding decode decode_length
decode_empty b0 b1 rest e =
    let zero_length : (short_length b1 == 0) ≡ true = ap (λ n. n == 0) e in rw zero_length refl

-- The parser takes a frame without data for complete after two bytes, whether or not its mask bit
-- announces a key: it returns 1, has taken 2 bytes, and the buffer that is to hold the data holds
-- the two bytes of the header. The handle is between two calls and holds nothing, the short length
-- of the frame is 0, and all is at most 2 ^ 31 bytes.
pub empty_frame_keeps_header :
    (h : WebsocketHandle) (b0 b1 : ℕ) (rest : List ℕ)
    → IsReady h
    → held h ≡ []
    → short_length b1 ≡ 0
    → 2 + length rest ≤ 2 ^ 31
    → (out : WebsocketHandle × ℕ) × (try_parse_protocol h (b0 ∷ b1 ∷ rest) ≡ some out)
      × (out.1 ≡ 1)
      × (out.0.parse_state ≡ ParseState.complete)
      × (out.0.read_count ≡ 2)
      × (contents out.0.proto_buf ≡ b0 ∷ b1 ∷ [])
empty_frame_keeps_header h b0 b1 rest ready none_held e small =
    let input = b0 ∷ b1 ∷ rest in
    let (out, r, a) =
      try_parse_protocol-Yields h b0 (b1 ∷ rest) ready (omega (arith, ap length none_held)) in
    let found : decode (held h ++ input) ≡ bare b0 b1 =
      ap (λ l. decode (l ++ input)) none_held ∙ decode_empty b0 b1 rest e in
    let (a', d) =
      subst (λ l. Agrees (kept h) l input (bare b0 b1) out) none_held
        (subst (λ o. Agrees (kept h) (held h) input o out) found a) in
    (out, r, a'.returned, a'.parse_state, a'.counted, a'.holds)

decode_lone_header : (b : ℕ) → decode (b ∷ 2 ∷ []) ≡ need_more
unfolding decode decode_length decode_mask decode_payload
decode_lone_header b = refl

-- A parser that is given nothing but this frame waits for more.
abbrev pub IsLeftIncomplete : WebsocketHandle → List ℕ → Type 0
IsLeftIncomplete h frame =
    (out : WebsocketHandle × ℕ) × (try_parse_protocol h frame ≡ some out)
    × (out.0.parse_state ≡ ParseState.incomplete)
    × (contents out.0.proto_buf ≡ frame)

lone_header_IsLeftIncomplete :
    (h : WebsocketHandle) (b : ℕ) → IsReady h → held h ≡ [] → IsLeftIncomplete h (b ∷ 2 ∷ [])
lone_header_IsLeftIncomplete h b ready none_held =
    let input = b ∷ 2 ∷ [] in
    let (out, r, a) =
      try_parse_protocol-Yields h b (2 ∷ []) ready (omega (arith, ap length none_held)) in
    let found : decode (held h ++ input) ≡ need_more =
      ap (λ l. decode (l ++ input)) none_held ∙ decode_lone_header b in
    let a' = subst (λ o. Agrees (kept h) (held h) input o out) found a in
    (out, r, a'.parse_state, a'.holds ∙ ap (λ l. l ++ input) none_held)

-- The close, ping and pong frames announce two bytes of data and have none: a parser that holds
-- nothing and is given one of them alone is left with an incomplete frame. The handle is between
-- two calls and holds nothing.
pub control_frames_are_incomplete :
    (h : WebsocketHandle)
    → IsReady h
    → held h ≡ []
    → IsLeftIncomplete h generate_close_control_frame
      × IsLeftIncomplete h generate_ping_control_frame
      × IsLeftIncomplete h generate_pong_control_frame
unfolding generate_close_control_frame generate_ping_control_frame generate_pong_control_frame
control_frames_are_incomplete h ready none_held = (
  lone_header_IsLeftIncomplete h 0x88 ready none_held,
  lone_header_IsLeftIncomplete h 0x89 ready none_held,
  lone_header_IsLeftIncomplete h 0x8a ready none_held,
)
