-- ===== src/Frame/Generator/Fragments.antt =====
-- A message that is sent in fragments.
use a_nother_ws.Prelude.{
  ℕ, zero, suc, ◌+◌, ◌-◌, ◌*◌, ◌^◌, ◌≤◌, ◌<◌, ◌≡◌, refl, ◌∙◌, ap, subst, List, ◌++◌, append_assoc,
  some, inl, inr, true, false, ltb, ◌==◌, if◌then◌else◌, arith, length, take, drop, length-append,
  length-take, length-drop, take-append-drop, take-all, le_or_lt, le→ltb, lt→ltb,
}
use a_nother_ws.Prelude.Word.{u32}
use a_nother_ws.Membuf.{Membuf, contents}
use a_nother_ws.Membuf.Valid.{IsValid}
use a_nother_ws.Membuf.Contents.{HasAppended}
use a_nother_ws.Frame.Decode.{framed, mask_bit, decode}
use a_nother_ws.Frame.Handle.{data_frame_max_len}
use a_nother_ws.Frame.Generator.{
  generate_websocket_frame_without_fragment, fragment_op, fragment_fin, fragment_size,
  wrap_fragments, fragment_count, generate_websocket_frame,
}
use a_nother_ws.Frame.Generator.Bytes.{generate-HasAppended}
use a_nother_ws.Frame.Generator.Roundtrip.{IsHeader, frame_IsHeader}

-- A stream that carries a message in frames without a mask: the first has the opcode, the others
-- continue it, the last has the FIN bit and no other has, and each frame but the last has as much
-- data as a frame may have.
pub data Carries : ℕ → List ℕ → List ℕ → Type 0 where
  last :
      {op : ℕ} (b1 : ℕ) (header payload : List ℕ)
      → mask_bit b1 ≡ 0
      → 0 < length payload
      → length payload ≤ data_frame_max_len
      → ((rest : List ℕ)
          → decode (header ++ (payload ++ rest)) ≡ framed (128 + op) b1 (length header) payload)
      → Carries op (header ++ payload) payload
  more :
      {op : ℕ} (b1 : ℕ) (header chunk wire payload : List ℕ)
      → mask_bit b1 ≡ 0
      → length chunk ≡ data_frame_max_len
      → decode (header ++ (chunk ++ wire)) ≡ framed op b1 (length header) chunk
      → Carries 0 wire payload
      → Carries op (header ++ (chunk ++ wire)) (chunk ++ payload)

-- The opcode of the fragment number `counter`.
abbrev pub nth_op : ℕ → ℕ → ℕ
nth_op op counter = if counter == 0 then op else 0

nth_op-lt : (op counter : ℕ) → op < 16 → nth_op op counter < 16
nth_op-lt op counter h = ground arith

nth_op_next : (op counter : ℕ) → nth_op op (counter + 1) ≡ 0
nth_op_next op counter = ground arith

fragment_size-full : (n : ℕ) → data_frame_max_len < n → fragment_size n ≡ data_frame_max_len
fragment_size-full n h = rw (lt→ltb data_frame_max_len n h) refl

fragment_op-more :
    (op counter frag_num : ℕ)
    → counter + 1 < frag_num
    → fragment_op op counter frag_num ≡ nth_op op counter
fragment_op-more op counter frag_num h =
    let several : (frag_num == 1) ≡ false = ground arith in rw several refl

fragment_fin-more :
    (counter frag_num : ℕ) → counter + 1 < frag_num → fragment_fin counter frag_num ≡ 0
fragment_fin-more counter frag_num h =
    let several : (frag_num == 1) ≡ false = ground arith in
    let before : (counter == frag_num - 1) ≡ false = ground arith in
    rw (several, before) (ground arith)

appended_after :
    (before header chunk wire : List ℕ) {mid out : List ℕ}
    → out ≡ mid ++ wire
    → mid ≡ before ++ (header ++ chunk)
    → out ≡ before ++ (header ++ (chunk ++ wire))
appended_after before header chunk wire e e' =
    e
    ∙ ap (λ l. l ++ wire) e'
    ∙ append_assoc before (header ++ chunk) wire
    ∙ ap (λ l. before ++ l) (append_assoc header chunk wire)

-- What the loop leaves in the buffer.
pub record HasWrapped (op : ℕ) (payload : List ℕ) (buf out : Membuf) : Type 0 where
  pub wire : List ℕ
  pub valid : IsValid out
  pub added : contents out ≡ contents buf ++ wire
  pub carries : Carries op wire payload
  pub same_flag : out.flag ≡ buf.flag

-- One frame of the loop.
one_fragment :
    (buf : Membuf) (payload : List ℕ) (op fin : ℕ)
    → IsValid buf
    → op < 16
    → fin < 2
    → 0 < length payload
    → buf.size + length payload + 14 ≤ 2 ^ 31
    → (header : List ℕ) × (out : Membuf) × IsHeader fin op 0 payload header
      × (generate_websocket_frame_without_fragment buf payload op fin 0 ≡ some out)
      × HasAppended buf (header ++ payload) out
      × (length header ≤ 14)
one_fragment buf payload op fin v op_small fin_small some_data small =
    let (header, made, few) =
      frame_IsHeader fin op 0 payload fin_small op_small (omega arith) some_data (omega arith) in
    let (out, e, a) = generate-HasAppended buf payload header op fin 0 v made.made (omega arith) in
    (header, out, made, e, a, few)

module _ (op datalen frag_num : ℕ) (op_small : op < 16) (large : datalen ≤ 2 ^ 31)
    (enough : datalen ≤ frag_num * data_frame_max_len)
    (needed : frag_num * data_frame_max_len < datalen + data_frame_max_len) where
  -- The last round.
  last_HasWrapped :
      (left counter : ℕ) (buf : Membuf) (rest : List ℕ)
      → suc left + counter ≡ frag_num
      → length rest + counter * data_frame_max_len ≡ datalen
      → 0 < length rest
      → length rest ≤ data_frame_max_len
      → IsValid buf
      → buf.size + length rest + suc left * 14 ≤ 2 ^ 31
      → (out : Membuf) × (wrap_fragments
            (suc left)
            buf
            rest
            op
            datalen
            frag_num
            (counter * data_frame_max_len)
            counter
          ≡ some out)
        × HasWrapped (nth_op op counter) rest buf out
  unfolding wrap_fragments
  last_HasWrapped left counter buf rest all sum some_data few v small =
      let (header, out, made, e, a, short) =
        one_fragment buf rest (nth_op op counter) 1 v (nth_op-lt op counter op_small) (omega arith)
          some_data (omega arith) in
      let num = fragment_size (datalen - counter * data_frame_max_len) in
      let num_lem : num ≡ length rest = ground arith in
      let at_end : counter + 1 ≡ frag_num = omega arith in
      let chunk : take num rest ≡ rest = take-all num rest (omega (arith, num_lem)) in
      let op_lem : fragment_op op counter frag_num ≡ nth_op op counter = ground arith in
      let fin_lem : fragment_fin counter frag_num ≡ 1 = ground arith in
      let stop : ltb (counter * data_frame_max_len + num) datalen ≡ false =
        le→ltb (counter * data_frame_max_len + num) datalen (omega (arith, num_lem)) in
      (
        out,
        rw (chunk, op_lem, fin_lem, e, stop) refl,
        record {
          wire = header ++ rest;
          valid = a.valid;
          added = a.added;
          carries = Carries.last made.second header rest made.masked some_data few made.read;
          same_flag = a.same_flag;
        },
      )

  -- A round before the last, and then the others.
  more_HasWrapped :
      (left counter : ℕ) (buf : Membuf) (rest : List ℕ)
      → suc left + counter ≡ frag_num
      → length rest + counter * data_frame_max_len ≡ datalen
      → data_frame_max_len < length rest
      → IsValid buf
      → buf.size + length rest + suc left * 14 ≤ 2 ^ 31
      → ((buf' : Membuf)
          → IsValid buf'
          → buf'.size + (length rest - data_frame_max_len) + left * 14 ≤ 2 ^ 31
          → (out : Membuf) × (wrap_fragments left buf'
                (drop data_frame_max_len rest)
                op
                datalen
                frag_num
                ((counter + 1) * data_frame_max_len)
                (counter + 1)
              ≡ some out)
            × HasWrapped 0 (drop data_frame_max_len rest) buf' out)
      → (out : Membuf) × (wrap_fragments
            (suc left)
            buf
            rest
            op
            datalen
            frag_num
            (counter * data_frame_max_len)
            counter
          ≡ some out)
        × HasWrapped (nth_op op counter) rest buf out
  unfolding wrap_fragments
  more_HasWrapped left counter buf rest all sum many v small others =
      let chunk = take data_frame_max_len rest in
      let len : length chunk ≡ data_frame_max_len =
        omega (arith, length-take data_frame_max_len rest) in
      let (header, buf', made, e, a, short) =
        one_fragment buf chunk (nth_op op counter) 0 v (nth_op-lt op counter op_small) (omega arith)
          (omega (arith, len)) (omega (arith, len)) in
      let (out, e', w) =
        others buf' a.valid (omega (arith, a.new_size, length-append header chunk, len)) in
      let num = fragment_size (datalen - counter * data_frame_max_len) in
      let num_lem : num ≡ data_frame_max_len =
        fragment_size-full (datalen - counter * data_frame_max_len) (omega arith) in
      let op_lem : fragment_op op counter frag_num ≡ nth_op op counter =
        fragment_op-more op counter frag_num (omega arith) in
      let fin_lem : fragment_fin counter frag_num ≡ 0 =
        fragment_fin-more counter frag_num (omega arith) in
      let next : u32 (counter + 1) ≡ counter + 1 = omega arith in
      let passed : counter * data_frame_max_len + data_frame_max_len
          ≡ (counter + 1) * data_frame_max_len =
        omega arith in
      let going : ltb ((counter + 1) * data_frame_max_len) datalen ≡ true =
        lt→ltb ((counter + 1) * data_frame_max_len) datalen (omega arith) in
      let fewer : ltb (counter + 1) frag_num ≡ true = lt→ltb (counter + 1) frag_num (omega arith) in
      (
        out,
        rw (num_lem, op_lem, fin_lem, e, next, passed, going, fewer) e',
        record {
          wire = header ++ (chunk ++ w.wire);
          valid = w.valid;
          added = appended_after (contents buf) header chunk w.wire w.added a.added;
          carries =
              subst (Carries (nth_op op counter) (header ++ (chunk ++ w.wire)))
                (take-append-drop data_frame_max_len rest)
                (Carries.more made.second header chunk w.wire (drop data_frame_max_len rest)
                  made.masked len
                  (made.read w.wire
                    ∙ ap (λ b. framed b made.second (length header) chunk) (omega arith))
                  w.carries);
          same_flag = w.same_flag ∙ a.same_flag;
        },
      )

  -- The rounds from the fragment number `counter` on, with fuel for those that are left.
  pub wrap_fragments-HasWrapped :
      (left counter : ℕ) (buf : Membuf) (rest : List ℕ)
      → left + counter ≡ frag_num
      → length rest + counter * data_frame_max_len ≡ datalen
      → 0 < length rest
      → IsValid buf
      → buf.size + length rest + left * 14 ≤ 2 ^ 31
      → (out : Membuf) × (wrap_fragments left buf rest op datalen frag_num
            (counter * data_frame_max_len)
            counter
          ≡ some out)
        × HasWrapped (nth_op op counter) rest buf out
  wrap_fragments-HasWrapped zero counter buf rest all sum some_data v small = absurd (omega arith)
  wrap_fragments-HasWrapped (suc left) counter buf rest all sum some_data v small =
      elim (le_or_lt (length rest) data_frame_max_len) [
        | inl few ↦ last_HasWrapped left counter buf rest all sum some_data few v small
        | inr many ↦ more_HasWrapped left counter buf rest all sum many v small (λ buf' v' small'.
            let after = drop data_frame_max_len rest in
            let len : length after ≡ length rest - data_frame_max_len =
              length-drop data_frame_max_len rest in
            let (out, e, w) =
              wrap_fragments-HasWrapped left (counter + 1) buf' after (omega arith)
                (omega (arith, len)) (omega (arith, len)) v' (omega (arith, len)) in
            (out, e, subst (λ o. HasWrapped o after buf' out) (nth_op_next op counter) w))
      ]

fragment_count_lem :
    (n : ℕ)
    → (n ≤ fragment_count n * data_frame_max_len)
      × (fragment_count n * data_frame_max_len < n + data_frame_max_len)
fragment_count_lem n = (ground arith, ground arith)

-- A message of any length is sent whole. Sending returns, the buffer keeps what it had, and what is
-- added carries the message: it splits into frames without a mask, the first with the opcode of the
-- message and the others with opcode 0, the last with the FIN bit and no other with it, each but
-- the last with 65520 bytes of data and the last with at least one, and their data in sequence is
-- the message. The buffer is valid, the opcode has 4 bits, the message is not empty, and the buffer
-- with the message and 14 bytes for each frame is at most 2 ^ 31.
pub message_is_carried :
    (buf : Membuf) (payload : List ℕ) (op : ℕ)
    → IsValid buf
    → op < 16
    → 0 < length payload
    → buf.size + length payload + fragment_count (length payload) * 14 ≤ 2 ^ 31
    → (out : Membuf) × (generate_websocket_frame buf payload op ≡ some out)
      × HasWrapped op payload buf out
unfolding generate_websocket_frame
message_is_carried buf payload op v op_small some_data small =
    let n = length payload in
    let (enough, needed) = fragment_count_lem n in
    let not_zero : (n == 0) ≡ false = ground arith in
    rw not_zero (
      wrap_fragments-HasWrapped op n (fragment_count n) op_small (omega arith) enough needed
        (fragment_count n) 0 buf payload (omega arith) (omega arith) some_data v small)
