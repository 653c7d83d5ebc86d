-- ===== src/Membuf/Zeros.antt =====
-- Behind the data of a buffer the block stays cleared, which is what ends its data as a C string.
use a_nother_ws.Prelude.{
  ℕ, ◌+◌, ◌-◌, ◌^◌, ◌≤◌, ◌<◌, ◌≡◌, refl, ◌∙◌, ap, sym, List, [], ◌∷◌, ◌++◌, some, subst,
  some_returns, inl, inr, arith, length, take, drop, replicate, le_or_lt, lt→ltb, le→ltb,
  append_assoc, drop-all, length-append, length-take, drop-drop, take-append-drop, append-nil,
}
use a_nother_ws.Prelude.Text.{
  IsZeros, IsText, replicate-IsZeros, drop-IsZeros, append-IsZeros, drop_behind-IsZeros, c_string,
  c_string-text, c_string-zeros,
}
use a_nother_ws.Prelude.Word.{size_sub, size_sub_lem, u32}
use a_nother_ws.Membuf.{Membuf, realloc, write_at, contents, init, reserve, resize, append_data}
use a_nother_ws.Membuf.Valid.{IsValid, length-realloc}
use a_nother_ws.Membuf.Growth.{first_size_reaches}
use a_nother_ws.Membuf.Contents.{reserve-HasRoom}

abbrev pub HasZeroTail : Membuf → Type 0
HasZeroTail buf = IsZeros (drop buf.size buf.bytes)

pub init-HasZeroTail : (n : ℕ) → HasZeroTail (init n)
unfolding init
init-HasZeroTail n = replicate-IsZeros n

pub c_string-HasZeroTail :
    (buf : Membuf) → HasZeroTail buf → IsText (contents buf) → c_string buf.bytes ≡ contents buf
c_string-HasZeroTail buf z t =
    ap c_string (sym (take-append-drop buf.size buf.bytes))
    ∙ c_string-text (contents buf) (drop buf.size buf.bytes) t
    ∙ ap (λ l. contents buf ++ l) (c_string-zeros (drop buf.size buf.bytes) z)
    ∙ append-nil (contents buf)

resize-HasZeroTail : (buf : Membuf) (n : ℕ) → buf.size ≤ n → n < 2 ^ 32 → HasZeroTail (resize buf n)
unfolding resize
resize-HasZeroTail buf n h word =
    let block = realloc buf.bytes n in
    let gap : size_sub n buf.size ≡ n - buf.size = size_sub_lem n buf.size h (omega arith) in
    let nothing : drop (buf.size + size_sub n buf.size) block ≡ [] =
      drop-all (buf.size + size_sub n buf.size) block
        (omega (arith, gap, length-realloc buf.bytes n)) in
    drop_behind-IsZeros buf.size (take buf.size block)
      (replicate (size_sub n buf.size) 0 ++ drop (buf.size + size_sub n buf.size) block)
      (omega (arith, length-take buf.size block, length-realloc buf.bytes n))
      (append-IsZeros (replicate (size_sub n buf.size) 0)
        (drop (buf.size + size_sub n buf.size) block) (replicate-IsZeros (size_sub n buf.size))
        (subst IsZeros (sym nothing) IsZeros.end))

reserve-HasZeroTail :
    (buf : Membuf) (extra : ℕ)
    → IsValid buf
    → buf.size + extra ≤ 2 ^ 31
    → HasZeroTail buf
    → (room : Membuf) × (reserve buf extra ≡ some room) × HasZeroTail room
unfolding reserve
reserve-HasZeroTail buf extra v small z = elim (le_or_lt (buf.size + extra) buf.buffer_size) [
  | inl enough ↦
      (buf, rw (le→ltb (size_sub buf.buffer_size buf.size) extra (omega (arith, free))), z)
  | inr short ↦
      let (n, e, big, word) = first_size_reaches buf extra v.fits small short in
      let exact : u32 (buf.size + extra) ≡ buf.size + extra = omega arith in
      (
        resize buf n,
        rw (lt→ltb (size_sub buf.buffer_size buf.size) extra (omega (arith, free)), exact, e),
        resize-HasZeroTail buf n (omega arith) word,
      )
]
  where
    free : size_sub buf.buffer_size buf.size ≡ buf.buffer_size - buf.size
    free = size_sub_lem buf.buffer_size buf.size v.fits (omega (arith, v.word))

pub append_data-HasZeroTail :
    (buf : Membuf) (src : List ℕ)
    → IsValid buf
    → buf.size + length src ≤ 2 ^ 31
    → HasZeroTail buf
    → (out : Membuf) × (append_data buf src ≡ some out) × HasZeroTail out
unfolding append_data
append_data-HasZeroTail buf [] v small z = (buf, refl, z)
append_data-HasZeroTail buf (x ∷ src) v small z =
    let (room, e, zeros) = reserve-HasZeroTail buf (length (x ∷ src)) v small z in
    let (same, e', r) = reserve-HasRoom buf (length (x ∷ src)) v small in
    let agree : same ≡ room = some_returns same room (sym e' ∙ e) in
    let fits : room.size ≤ length room.bytes =
      subst (λ b. b.size ≤ length b.bytes) agree (omega (arith, r.valid.block, r.valid.fits)) in
    let behind = drop (room.size + length (x ∷ src)) room.bytes in
    let zero_behind : IsZeros behind =
      subst IsZeros (drop-drop (length (x ∷ src)) room.size room.bytes)
        (drop-IsZeros (length (x ∷ src)) (drop room.size room.bytes) zeros) in
    (
      record room {
        bytes = write_at room.bytes room.size (x ∷ src);
        size = room.size + length (x ∷ src);
      },
      rw e,
      subst (λ l. IsZeros (drop (room.size + length (x ∷ src)) l))
          (append_assoc (take room.size room.bytes) (x ∷ src) behind)
          (drop_behind-IsZeros (room.size + length (x ∷ src))
            (take room.size room.bytes ++ (x ∷ src)) behind
            (omega (
              arith,
              length-append (take room.size room.bytes) (x ∷ src),
              length-take room.size room.bytes,
              fits,
            ))
            zero_behind),
    )
