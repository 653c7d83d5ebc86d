-- ===== src/Frame/Reader/Position.antt =====
-- Where a reader stands in the stream: the bytes held from earlier calls, then the new data.
use a_nother_ws.Prelude.{
  ℕ, ◌+◌, ◌-◌, ◌^◌, ◌≤◌, ◌<◌, max, ◌≡◌, ◌∙◌, ap, ap₂, sym, subst, List, ◌++◌, some, inl, inr, true,
  false, arith, length, take, drop, length-append, length-take, length-drop, take-all,
  take-drop-take, take-append-take-drop, drop-append_ge, drop-drop, le_or_lt, le→leb, lt→leb, leb,
}
use a_nother_ws.Prelude.Word.{size_add, size_sub, size_add_lem, size_sub_lem}
use a_nother_ws.Membuf.{contents}
use a_nother_ws.Membuf.Valid.{IsValid, length-contents}
use a_nother_ws.Membuf.Contents.{append_data-HasAppended}
use a_nother_ws.Frame.Reader.{Reader, take_from_data, read_char_from_buf_or_data}

-- `r` has passed `pos` bytes of the stream; the buffer holds as many, or all that it held before.
pub record At (held input : List ℕ) (flag pos : ℕ) (r : Reader) : Type 0 where
  pub valid : IsValid r.buf
  pub view : contents r.buf ≡ take (max (length held) pos) (held ++ input)
  pub passed : r.buf_read ≡ pos
  pub used : r.data_read ≡ pos - length held
  pub counted : r.read_count ≡ pos - length held
  pub inside : pos ≤ length held + length input
  pub same_flag : r.buf.flag ≡ flag

module _ (held input : List ℕ) (flag : ℕ) (small : length held + length input ≤ 2 ^ 31) (pos : ℕ)
    (r : Reader) (at : At held input flag pos r) where
  stream : List ℕ
  stream = held ++ input

  length-stream : length stream ≡ length held + length input
  unfolding stream
  length-stream = length-append held input

  buf_size : r.buf.size ≡ max (length held) pos
  buf_size = omega (
    arith,
    length-contents r.buf at.valid,
    ap length at.view,
    length-take (max (length held) pos) (held ++ input),
    length-append held input,
    at.inside,
  )

  -- What the data still has is the stream behind the buffer.
  rest_of_data : drop r.data_read input ≡ drop r.buf.size stream
  unfolding stream
  rest_of_data =
      let used : r.data_read ≡ r.buf.size - length held = omega (arith, at.used, buf_size) in
      ap (λ k. drop k input) used
      ∙ sym (drop-append_ge r.buf.size held input (omega (arith, buf_size)))

  -- Bytes read within the buffer are those of the stream.
  from_buffer :
      (n : ℕ)
      → n + pos ≤ r.buf.size
      → take n (drop r.buf_read r.buf.bytes) ≡ take n (drop pos stream)
  unfolding stream
  from_buffer n h =
      ap (λ k. take n (drop k r.buf.bytes)) at.passed
      ∙ sym (take-drop-take n pos r.buf.size r.buf.bytes h)
      ∙ ap (λ l. take n (drop pos l)) at.view
      ∙ take-drop-take n pos (max (length held) pos) (held ++ input) (omega (arith, buf_size))

  available : size_sub r.buf.size r.buf_read ≡ r.buf.size - pos
  available =
      size_sub_lem r.buf.size r.buf_read (omega (arith, at.passed, buf_size))
        (omega (arith, buf_size, at.inside))
      ∙ ap (λ k. r.buf.size - k) at.passed

  -- Bytes read from the rest of the buffer and then from the data are those of the stream.
  from_both :
      (k : ℕ)
      → take (size_sub r.buf.size r.buf_read) (drop r.buf_read r.buf.bytes)
          ++ take k (drop r.data_read input)
        ≡ take (r.buf.size - pos + k) (drop pos stream)
  from_both k =
      let ahead : pos + (r.buf.size - pos) ≡ r.buf.size = omega (arith, buf_size) in
      ap₂ ◌++◌
        (ap (λ n. take n (drop r.buf_read r.buf.bytes)) available
          ∙ from_buffer (r.buf.size - pos) (omega (arith, buf_size)))
        (ap (take k) (
          rest_of_data
          ∙ ap (λ n. drop n stream) (sym ahead)
          ∙ sym (drop-drop (r.buf.size - pos) pos stream)))
      ∙ take-append-take-drop (r.buf.size - pos) k (drop pos stream)

  -- Copying the next `k` bytes of the data, with the whole buffer passed.
  fill :
      (k : ℕ)
      → r.buf.size + k ≤ length held + length input
      → (r' : Reader) × (take_from_data input
            (record r { buf_read = size_add r.buf_read (size_sub r.buf.size r.buf_read) })
            k
          ≡ some r')
        × At held input flag (r.buf.size + k) r'
  unfolding take_from_data stream
  fill k h =
      let src = take k (drop r.data_read input) in
      let copied : length src ≡ k = omega (
        arith,
        length-take k (drop r.data_read input),
        length-drop r.data_read input,
        at.used,
        buf_size,
      ) in
      let (out, e, a) = append_data-HasAppended r.buf src at.valid (omega (arith, copied)) in
      let whole : size_add r.buf_read (size_sub r.buf.size r.buf_read) ≡ r.buf.size =
        size_add_lem r.buf_read (size_sub r.buf.size r.buf_read)
          (omega (arith, available, at.passed, buf_size))
        ∙ omega (arith, available, at.passed, buf_size) in
      (
        record {
          buf = out;
          buf_read = size_add (size_add r.buf_read (size_sub r.buf.size r.buf_read)) k;
          data_read = size_add r.data_read k;
          read_count = size_add r.read_count k;
        },
        rw e,
        record {
          valid = a.valid;
          view =
              a.added
              ∙ ap₂ ◌++◌ (at.view ∙ ap (λ n. take n stream) (sym buf_size))
                  (ap (take k) rest_of_data)
              ∙ take-append-take-drop r.buf.size k stream
              ∙ ap (λ n. take n stream) (omega (arith, buf_size));
          passed = ap (λ n. size_add n k) whole ∙ size_add_lem r.buf.size k (omega arith);
          used =
              size_add_lem r.data_read k (omega (arith, at.used, buf_size))
              ∙ omega (arith, at.used, buf_size);
          counted =
              size_add_lem r.read_count k (omega (arith, at.counted, buf_size))
              ∙ omega (arith, at.counted, buf_size);
          inside = h;
          same_flag = a.same_flag ∙ at.same_flag;
        },
      )

  past_buffer :
      (n : ℕ) → n < 2 ^ 33 → r.buf.size < pos + n → leb (size_add r.buf_read n) r.buf.size ≡ false
  past_buffer n word beyond =
      lt→leb (size_add r.buf_read n) r.buf.size
        (omega (arith, size_add_lem r.buf_read n (omega (arith, at.passed, at.inside)), at.passed))

  missing :
      (n : ℕ)
      → n < 2 ^ 33
      → r.buf.size < pos + n
      → size_sub n (size_sub r.buf.size r.buf_read) ≡ pos + n - r.buf.size
  missing n word beyond =
      size_sub_lem n (size_sub r.buf.size r.buf_read) (omega (arith, available)) (omega arith)
      ∙ omega (arith, available, buf_size)

  needed :
      (n : ℕ)
      → n < 2 ^ 33
      → r.buf.size < pos + n
      → size_sub (size_add r.data_read n) (size_sub r.buf.size r.buf_read) ≡ pos + n - length held
  needed n word beyond =
      let sum : size_add r.data_read n ≡ r.data_read + n =
        size_add_lem r.data_read n (omega (arith, at.used, at.inside)) in
      size_sub_lem (size_add r.data_read n) (size_sub r.buf.size r.buf_read)
        (omega (arith, available, sum)) (omega (arith, sum, at.used, at.inside))
      ∙ omega (arith, available, sum, buf_size, at.used)

  data_has :
      (n : ℕ)
      → n < 2 ^ 33
      → r.buf.size < pos + n
      → pos + n ≤ length held + length input
      → leb (size_sub (size_add r.data_read n) (size_sub r.buf.size r.buf_read)) (length input)
        ≡ true
  data_has n word beyond h = le→leb _ (length input) (omega (arith, needed n word beyond))

  data_lacks :
      (n : ℕ)
      → n < 2 ^ 33
      → r.buf.size < pos + n
      → length held + length input < pos + n
      → leb (size_sub (size_add r.data_read n) (size_sub r.buf.size r.buf_read)) (length input)
        ≡ false
  data_lacks n word beyond h =
      lt→leb _ (length input) (omega (arith, needed n word beyond, buf_size))

  data_left : size_sub (length input) r.data_read ≡ length held + length input - r.buf.size
  data_left =
      size_sub_lem (length input) r.data_read (omega (arith, at.used, at.inside)) (omega arith)
      ∙ omega (arith, at.used, buf_size)

  -- Where the stream has `n` more bytes they are read, and the reader stands behind them.
  pub read_enough :
      (n : ℕ)
      → pos + n ≤ length held + length input
      → (r' : Reader) × (read_char_from_buf_or_data input r n
          ≡ some (record { reader = r'; stored = take n (drop pos (held ++ input)); done = true }))
        × At held input flag (pos + n) r'
  unfolding read_char_from_buf_or_data stream
  read_enough n h = elim (le_or_lt (pos + n) r.buf.size) [
    | inl held_all ↦
        let next : size_add r.buf_read n ≡ pos + n =
          size_add_lem r.buf_read n (omega (arith, at.passed)) ∙ omega (arith, at.passed) in
        (
          record r { buf_read = size_add r.buf_read n },
          rw (le→leb (size_add r.buf_read n) r.buf.size (omega (arith, next))) (
              ap
                (λ l. some (record {
                  reader = record r { buf_read = size_add r.buf_read n };
                  stored = l;
                  done = true;
                }))
                (from_buffer n (omega arith))),
          record {
            valid = at.valid;
            view = at.view ∙ ap (λ k. take k (held ++ input)) (omega (arith, buf_size));
            passed = next;
            used = omega (arith, at.used, buf_size);
            counted = omega (arith, at.counted, buf_size);
            inside = h;
            same_flag = at.same_flag;
          },
        )
    | inr beyond ↦
        let (r', e, at') = fill (pos + n - r.buf.size) (omega arith) in
        (
          r',
          rw
              (
                past_buffer n (omega arith) beyond,
                data_has n (omega arith) beyond h,
                missing n (omega arith) beyond,
                e,
                from_both (pos + n - r.buf.size),
              )
              (ap
                (λ k. some (record { reader = r'; stored = take k (drop pos stream); done = true }))
                (omega (arith, buf_size))),
          subst (λ k. At held input flag k r') (omega arith) at',
        )
  ]

  -- Where the stream ends before them, all of its rest is read and the reader stands at its end.
  pub read_short :
      (n : ℕ)
      → n < 2 ^ 33
      → length held + length input < pos + n
      → (r' : Reader) × (read_char_from_buf_or_data input r n
          ≡ some (record { reader = r'; stored = drop pos (held ++ input); done = false }))
        × At held input flag (length held + length input) r'
  unfolding read_char_from_buf_or_data stream
  read_short n word h =
      let beyond : r.buf.size < pos + n = omega (arith, buf_size, at.inside) in
      let k = length held + length input - r.buf.size in
      let (r', e, at') = fill k (omega (arith, buf_size, at.inside)) in
      let all : take (r.buf.size - pos + k) (drop pos stream) ≡ drop pos stream =
        take-all (r.buf.size - pos + k) (drop pos stream)
          (omega (arith, length-drop pos stream, length-stream, buf_size, at.inside)) in
      (
        r',
        rw (past_buffer n word beyond, data_lacks n word beyond h, data_left, e, from_both k, all),
        subst (λ k. At held input flag k r') (omega (arith, buf_size, at.inside)) at',
      )
