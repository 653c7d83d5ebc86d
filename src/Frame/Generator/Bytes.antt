-- ===== src/Frame/Generator/Bytes.antt =====
-- The bytes of one generated frame, in closed form.
use Prim.Native.Nat.{bit_and, bit_or}
use a_nother_ws.Prelude.{
  ℕ, ◌+◌, ◌-◌, ◌*◌, ◌%◌, ◌^◌, ◌≤◌, ◌<◌, ◌≡◌, refl, ◌∙◌, ap, ap₂, sym, List, [], ◌∷◌, ◌++◌,
  append_assoc, some, inl, inr, arith, le→leb, lt→leb, ◌==◌, if◌then◌else◌, length, take, drop,
  length-append, length-take, length-drop, take-all, take-append_le, drop-append_ge, drop-take,
  take-take, Bool-cases,
}
use a_nother_ws.Prelude.Word.{u8, ◌<<<◌}
use a_nother_ws.Prelude.Bits.{bit_and_low4, bit_and_low7, bit_or_low7, zero-bit_or}
use a_nother_ws.ByteOrder.{write_two_byte_length, write_four_byte_length}
use a_nother_ws.Membuf.{Membuf, contents, write_at}
use a_nother_ws.Membuf.Valid.{IsValid, length-contents, length-write_at, take-write_at}
use a_nother_ws.Membuf.Contents.{HasAppended, append_data-HasAppended}
use a_nother_ws.Frame.Mask.{do_mask, length-do_mask}
use a_nother_ws.Frame.Generator.{
  mask_key, first_header_byte, second_header_byte, header_of, header_for, mask_tail,
  generate_websocket_frame_without_fragment,
}

-- The first bytes in arithmetic.
pub first_header_byte_lem : (fin op : ℕ) → first_header_byte fin op ≡ fin % 2 * 128 + op % 16
unfolding first_header_byte
first_header_byte_lem fin op =
    let low : u8 (bit_and op 0x0f) ≡ op % 16 = omega (arith, bit_and_low4 op) in
    let high : bit_or 0 (u8 (fin <<< 7)) ≡ fin % 2 * 128 =
      omega (arith, zero-bit_or (u8 (fin <<< 7))) in
    ap₂ bit_or high low ∙ bit_or_low7 (fin % 2) (op % 16) (omega arith)

pub second_header_byte_lem :
    (enable_mask payload_len : ℕ)
    → second_header_byte enable_mask payload_len ≡ enable_mask % 2 * 128 + payload_len % 128
unfolding second_header_byte
second_header_byte_lem enable_mask payload_len =
    let low : u8 (bit_and payload_len 0x7f) ≡ payload_len % 128 =
      omega (arith, bit_and_low7 payload_len) in
    let high : bit_or 0 (u8 (enable_mask <<< 7)) ≡ enable_mask % 2 * 128 =
      omega (arith, zero-bit_or (u8 (enable_mask <<< 7))) in
    ap₂ bit_or high low ∙ bit_or_low7 (enable_mask % 2) (payload_len % 128) (omega arith)

mask_tail-IsValid : (buf : Membuf) (n : ℕ) → IsValid buf → n ≤ buf.size → IsValid (mask_tail buf n)
unfolding mask_tail
mask_tail-IsValid buf n v h =
    let src = do_mask (take n (drop (buf.size - n) buf.bytes)) mask_key in
    let len : length src ≡ n = omega (
      arith,
      length-do_mask (take n (drop (buf.size - n) buf.bytes)) mask_key,
      length-take n (drop (buf.size - n) buf.bytes),
      length-drop (buf.size - n) buf.bytes,
      v.block,
      v.fits,
    ) in
    record {
      block =
          length-write_at buf.bytes (buf.size - n) src (omega (arith, len, v.block, v.fits))
          ∙ v.block;
      fits = v.fits;
      word = v.word;
    }

-- Masking the data that was appended last.
contents-mask_tail :
    (buf : Membuf) (before payload : List ℕ)
    → IsValid buf
    → contents buf ≡ before ++ payload
    → contents (mask_tail buf (length payload)) ≡ before ++ do_mask payload mask_key
unfolding mask_tail
contents-mask_tail buf before payload v e =
    let n = length payload in
    let size : buf.size ≡ length before + n =
      omega (arith, length-contents buf v, ap length e, length-append before payload) in
    let off : buf.size - n ≡ length before = omega (arith, size) in
    let front : take (buf.size - n) buf.bytes ≡ before =
      sym (take-take (buf.size - n) buf.size buf.bytes (omega (arith, size)))
      ∙ ap (take (buf.size - n)) e
      ∙ ap (λ k. take k (before ++ payload)) off
      ∙ take-append_le (length before) before payload (omega arith)
      ∙ take-all (length before) before (omega arith) in
    let whole : buf.size - n + n ≡ buf.size = omega (arith, size) in
    let zeroed : length before - length before ≡ 0 = omega arith in
    let back : take n (drop (buf.size - n) buf.bytes) ≡ payload =
      sym (drop-take (buf.size - n) n buf.bytes)
      ∙ ap (λ k. drop (buf.size - n) (take k buf.bytes)) whole
      ∙ ap (drop (buf.size - n)) e
      ∙ ap (λ k. drop k (before ++ payload)) off
      ∙ drop-append_ge (length before) before payload (omega arith)
      ∙ ap (λ k. drop k payload) zeroed in
    let src = do_mask (take n (drop (buf.size - n) buf.bytes)) mask_key in
    let len : buf.size - n + length src ≡ buf.size = omega (
      arith,
      length-do_mask (take n (drop (buf.size - n) buf.bytes)) mask_key,
      ap length back,
      size,
    ) in
    ap (λ k. take k (write_at buf.bytes (buf.size - n) src)) (sym len)
    ∙ take-write_at buf.bytes (buf.size - n) src (omega (arith, size, v.block, v.fits))
    ∙ ap₂ (λ p q. p ++ do_mask q mask_key) front back

-- What follows the header of a frame.
abbrev pub body_of : ℕ → List ℕ → List ℕ
body_of enable_mask payload = if enable_mask == 0 then payload else do_mask payload mask_key

pub length-body_of : (m : ℕ) (payload : List ℕ) → length (body_of m payload) ≡ length payload
length-body_of m payload = ground (arith, length-do_mask payload mask_key)

mask_tail-same :
    (buf : Membuf) (n : ℕ)
    → ((mask_tail buf n).flag ≡ buf.flag) × ((mask_tail buf n).size ≡ buf.size)
unfolding mask_tail
mask_tail-same buf n = (refl, refl)

-- Where the length has a header, generating a frame returns, and what it appends to the buffer is
-- that header and the data, masked when a mask is asked for; the rest of the data and the flag stay
-- and the buffer stays valid. The buffer is valid and its new size is at most 2 ^ 31.
pub generate-HasAppended :
    (buf : Membuf) (payload header : List ℕ) (op fin enable_mask : ℕ)
    → IsValid buf
    → header_for fin op enable_mask (length payload) ≡ some header
    → buf.size + (length header + length payload) ≤ 2 ^ 31
    → (out : Membuf) × (generate_websocket_frame_without_fragment buf payload op fin enable_mask
        ≡ some out)
      × HasAppended buf (header ++ body_of enable_mask payload) out
unfolding generate_websocket_frame_without_fragment
generate-HasAppended buf payload header op fin enable_mask v e small =
    let (b1, e1, a1) = append_data-HasAppended buf header v (omega arith) in
    let (b2, e2, a2) = append_data-HasAppended b1 payload a1.valid (omega (arith, a1.new_size)) in
    let both : contents b2 ≡ (contents buf ++ header) ++ payload =
      a2.added ∙ ap (λ l. l ++ payload) a1.added in
    let size : b2.size ≡ buf.size + (length header + length payload) =
      omega (arith, a1.new_size, a2.new_size) in
    elim (Bool-cases (enable_mask == 0)) [
      | inl plain ↦ (
        b2,
        rw (e, generate_websocket_frame_without_fragment) (rw (e1, e2, plain)),
        rw plain (record {
          valid = a2.valid;
          added = both ∙ append_assoc (contents buf) header payload;
          new_size = omega (arith, size, length-append header payload);
          same_flag = a2.same_flag ∙ a1.same_flag;
        }),
      )
      | inr masked ↦ (
        mask_tail b2 (length payload),
        rw (e, generate_websocket_frame_without_fragment) (rw (e1, e2, masked)),
        rw masked (record {
          valid = mask_tail-IsValid b2 (length payload) a2.valid (omega (arith, size));
          added =
              contents-mask_tail b2 (contents buf ++ header) payload a2.valid both
              ∙ append_assoc (contents buf) header (do_mask payload mask_key);
          new_size =
              (mask_tail-same b2 (length payload)).1
              ∙ omega (
                arith,
                size,
                length-append header (do_mask payload mask_key),
                length-do_mask payload mask_key,
              );
          same_flag = (mask_tail-same b2 (length payload)).0 ∙ a2.same_flag ∙ a1.same_flag;
        }),
      )
    ]

-- The three forms of a header, whole.
pub header_for_short :
    (fin op m n : ℕ) → n ≤ 125 → header_for fin op m n ≡ some (header_of fin op m n [])
unfolding header_for
header_for_short fin op m n h =
    let exact : u8 n ≡ n = omega arith in
    rw (le→leb n 125 h) (ap (λ k. some (header_of fin op m k [])) exact)

pub header_for_two :
    (fin op m n : ℕ)
    → 125 < n
    → n ≤ 65535
    → header_for fin op m n ≡ some (header_of fin op m 126 (write_two_byte_length n))
unfolding header_for
header_for_two fin op m n h k = rw (lt→leb n 125 h, le→leb n 65535 k)

pub header_for_four :
    (fin op m n : ℕ)
    → 65535 < n
    → n < 2 ^ 32
    → header_for fin op m n
      ≡ some (header_of fin op m 127 (0 ∷ 0 ∷ 0 ∷ 0 ∷ write_four_byte_length n))
unfolding header_for
header_for_four fin op m n h k =
    rw (lt→leb n 125 (omega arith), lt→leb n 65535 h, le→leb n 0xffff_ffff (omega arith))
