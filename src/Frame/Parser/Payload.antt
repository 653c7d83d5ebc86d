-- ===== src/Frame/Parser/Payload.antt =====
-- The end of a parse: the mask taken off in place, and the header cut away.
use a_nother_ws.Prelude.{
  ℕ, ◌+◌, ◌-◌, ◌^◌, ◌≤◌, ◌<◌, max, ◌≡◌, refl, ◌∙◌, ap, sym, List, ◌++◌, inl, inr, false, arith,
  length, take, drop, length-append, length-take, length-drop, drop-append_ge, drop-take, le_or_lt,
  le→ltb, lt→ltb, ltb, ◌==◌, if◌then◌else◌, Bool-cases,
}
use a_nother_ws.Membuf.{Membuf, contents, write_at, remove}
use a_nother_ws.Membuf.Valid.{IsValid, length-contents, length-write_at, take-write_at}
use a_nother_ws.Membuf.Removal.{remove-HasRemoved}
use a_nother_ws.Frame.Handle.{WebsocketHandle, ParseState}
use a_nother_ws.Frame.Mask.{do_mask, length-do_mask}
use a_nother_ws.Frame.Reader.{Reader, read_char_from_buf_or_data}
use a_nother_ws.Frame.Reader.Position.{At, read_enough, read_short}
use a_nother_ws.Frame.Decode.{Outcome, need_more, framed}
use a_nother_ws.Frame.Parser.{sync, mask_payload, finish, read_payload}
use a_nother_ws.Frame.Parser.Stages.{Kept, Describes, Agrees, Reaches, Yields, Midway, sync-Ended}

-- Cutting a header off the front.
remove_header :
    (buf : Membuf) (header_len : ℕ)
    → IsValid buf
    → 0 < header_len
    → header_len < 2 ^ 64
    → (contents (remove buf 0 header_len) ≡ drop header_len (contents buf))
      × IsValid (remove buf 0 header_len)
      × ((remove buf 0 header_len).flag ≡ buf.flag)
remove_header buf header_len v pos word =
    let out = remove-HasRemoved buf 0 header_len v pos (omega arith) in
    let same : 0 + header_len ≡ header_len = omega arith in
    (out.left ∙ ap (λ k. drop k (contents buf)) same, out.valid, out.same_flag)

module _ (buf : Membuf) (header_len : ℕ) (mask : List ℕ) (v : IsValid buf)
    (inside : header_len ≤ buf.size) where
  unmasked : List ℕ
  unmasked = do_mask (take (buf.size - header_len) (drop header_len buf.bytes)) mask

  length-unmasked : header_len + length unmasked ≡ buf.size
  unfolding unmasked
  length-unmasked = omega (
    arith,
    length-do_mask (take (buf.size - header_len) (drop header_len buf.bytes)) mask,
    length-take (buf.size - header_len) (drop header_len buf.bytes),
    length-drop header_len buf.bytes,
    v.block,
    v.fits,
  )

  mask_payload-IsValid : IsValid (mask_payload buf header_len mask)
  unfolding mask_payload unmasked
  mask_payload-IsValid = record {
    block =
        length-write_at buf.bytes header_len unmasked
          (omega (arith, length-unmasked, v.block, v.fits))
        ∙ v.block;
    fits = v.fits;
    word = v.word;
  }

  -- The data behind the header is what the mask makes of it.
  contents-mask_payload :
      drop header_len (contents (mask_payload buf header_len mask))
      ≡ do_mask (drop header_len (contents buf)) mask
  unfolding mask_payload unmasked
  contents-mask_payload =
      let cut = take-write_at buf.bytes header_len unmasked (omega (arith, v.block, v.fits)) in
      let at_end : length (take header_len buf.bytes) ≡ header_len =
        omega (arith, length-take header_len buf.bytes, v.block, v.fits) in
      let split : header_len + (buf.size - header_len) ≡ buf.size = omega arith in
      ap (λ n. drop header_len (take n (write_at buf.bytes header_len unmasked)))
        (sym length-unmasked)
      ∙ ap (drop header_len) cut
      ∙ drop-append_ge header_len (take header_len buf.bytes) unmasked (omega (arith, at_end))
      ∙ ap (λ n. drop n unmasked) (front at_end)
      ∙ ap (λ l. do_mask l mask)
          (sym (drop-take header_len (buf.size - header_len) buf.bytes)
            ∙ ap (λ n. drop header_len (take n buf.bytes)) split)
    where
      front :
          length (take header_len buf.bytes) ≡ header_len
          → header_len - length (take header_len buf.bytes) ≡ 0
      front e = omega arith

mask_payload-flag :
    (buf : Membuf) (header_len : ℕ) (mask : List ℕ)
    → (mask_payload buf header_len mask).flag ≡ buf.flag
unfolding mask_payload
mask_payload-flag buf header_len mask = refl

-- The payload that the handle's mask field leaves of the bytes behind the header.
abbrev pub payload_of : WebsocketHandle → List ℕ → List ℕ
payload_of h s = if h.has_mask == 0 then s else do_mask s h.mask

abbrev pub payload_outcome : (b0 b1 header_len n : ℕ) → WebsocketHandle → List ℕ → Outcome
payload_outcome b0 b1 header_len n h s =
    if ltb (length s) n then need_more else framed b0 b1 header_len (payload_of h (take n s))

module _ (kept : Kept) (held input : List ℕ) (b0 b1 header_len n : ℕ) (h : WebsocketHandle)
    (m : Midway kept h) (d : Describes b0 b1 h) (pos : 0 < header_len)
    (word : header_len < 2 ^ 64) where
  cut-Agrees :
      (buf : Membuf) (payload : List ℕ) (count : ℕ)
      → IsValid buf
      → drop header_len (contents buf) ≡ payload
      → buf.flag ≡ kept.flag
      → count ≡ header_len + length payload - length held
      → Agrees kept held input (framed b0 b1 header_len payload) (
        record h {
          proto_buf = remove buf 0 header_len;
          read_count = count;
          parse_state = ParseState.complete;
        },
        1,
      )
  cut-Agrees buf payload count v left flag counted =
      let (rest, valid, same) = remove_header buf header_len v pos word in
      (
        record {
          returned = refl;
          parse_state = refl;
          valid = valid;
          holds = rest ∙ left;
          counted = counted;
          same_flag = same ∙ flag;
          same_merge = m.same_merge;
          same_endpoint = m.same_endpoint;
          key_size = m.key_size;
        },
        record { eof = d.eof; ext = d.ext; op = d.op; masked = d.masked },
      )

  -- With the whole frame in the buffer.
  finish-Agrees :
      (r : Reader)
      → At held input kept.flag (header_len + n) r
      → length held ≤ header_len + n
      → Agrees kept held input
          (framed b0 b1 header_len (payload_of h (take n (drop header_len (held ++ input)))))
          (finish h r header_len)
  unfolding finish
  finish-Agrees r at reach =
      let body = take n (drop header_len (held ++ input)) in
      let found : drop header_len (contents r.buf) ≡ body =
        ap (drop header_len) (at.view ∙ ap (λ k. take k (held ++ input)) (omega arith))
        ∙ drop-take header_len n (held ++ input) in
      let len : length body ≡ n = omega (
        arith,
        length-take n (drop header_len (held ++ input)),
        length-drop header_len (held ++ input),
        length-append held input,
        at.inside,
      ) in
      let size : header_len ≤ r.buf.size = omega (
        arith,
        length-contents r.buf at.valid,
        ap length at.view,
        length-take (max (length held) (header_len + n)) (held ++ input),
        length-append held input,
        at.inside,
      ) in
      elim (Bool-cases (h.has_mask == 0)) [
        | inl plain ↦ rw plain (
            cut-Agrees r.buf body r.read_count at.valid found at.same_flag
              (omega (arith, at.counted, len)))
        | inr masked ↦ rw masked (
            cut-Agrees (mask_payload r.buf header_len h.mask) (do_mask body h.mask) r.read_count
              (mask_payload-IsValid r.buf header_len h.mask at.valid size)
              (contents-mask_payload r.buf header_len h.mask at.valid size
                ∙ ap (λ l. do_mask l h.mask) found)
              (mask_payload-flag r.buf header_len h.mask ∙ at.same_flag)
              (omega (arith, at.counted, len, length-do_mask body h.mask)))
      ]

  pub length-payload_of : (s : List ℕ) → length (payload_of h s) ≡ length s
  length-payload_of s = ground (arith, length-do_mask s h.mask)

  reached :
      (s : List ℕ)
      → n ≤ length s
      → ltb (length s) n ≡ false
      → Reaches (length held) (payload_outcome b0 b1 header_len n h s)
      → length held ≤ header_len + n
  reached s enough test reach =
      let whole : length held ≤ header_len + length (payload_of h (take n s)) = rw test at reach in
      omega (arith, whole, length-payload_of (take n s), length-take n s)

  pub read_payload-Yields :
      (r : Reader)
      → length held + length input ≤ 2 ^ 31
      → h.real_payload_len ≡ n
      → n < 2 ^ 32
      → At held input kept.flag header_len r
      → Reaches
          (length held)
          (payload_outcome b0 b1 header_len n h (drop header_len (held ++ input)))
      → Yields kept held input
          (payload_outcome b0 b1 header_len n h (drop header_len (held ++ input)))
          (read_payload input h r header_len)
  unfolding read_payload
  read_payload-Yields r small len fit at reach =
      let s = drop header_len (held ++ input) in
      let left : length s ≡ length held + length input - header_len =
        omega (arith, length-drop header_len (held ++ input), length-append held input) in
      elim (le_or_lt n (length s)) [
        | inl enough ↦
            let (r', e, at') =
              read_enough held input kept.flag small header_len r at n
                (omega (arith, left, at.inside)) in
            let test : ltb (length s) n ≡ false = le→ltb (length s) n enough in
            let reach' : length held ≤ header_len + n = reached s enough test reach in
            (
              finish h r' header_len,
              rw (ap (read_char_from_buf_or_data input r) len ∙ e),
              rw test (finish-Agrees r' at' reach'),
            )
        | inr short ↦
            let (r', e, at') =
              read_short held input kept.flag small header_len r at n (omega arith)
                (omega (arith, left, at.inside)) in
            (
              (sync h r', 0),
              rw (ap (read_char_from_buf_or_data input r) len ∙ e),
              rw (lt→ltb (length s) n short) (sync-Ended kept held input m at'),
            )
      ]
