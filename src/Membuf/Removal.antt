-- ===== src/Membuf/Removal.antt =====
-- `membuf_remove`: the data that is left, and the byte that it writes behind it.
use a_nother_ws.Prelude.{
  ℕ, ◌+◌, ◌-◌, ◌^◌, ◌≤◌, ◌<◌, ◌≡◌, refl, ◌∙◌, ap, ap₂, sym, List, [], ◌∷◌, ◌++◌, inl, inr, arith,
  length, take, drop, length-append, length-take, length-drop, take-all, take-take, drop-all,
  take-drop-take, append-nil, subst, le_or_lt, le→leb, lt→leb,
}
use a_nother_ws.Prelude.Word.{size_add_lem}
use a_nother_ws.Membuf.{Membuf, write_at, contents, remove, end_mark}
use a_nother_ws.Membuf.Valid.{
  IsValid, length-write_at, length-contents, take-rewritten, take-write_at,
}

-- `data[size] = 0` keeps the data, and the block where `size` lies in it.
contents-end_mark :
    (buf : Membuf) → buf.size ≤ length buf.bytes → contents (end_mark buf) ≡ contents buf
unfolding end_mark
contents-end_mark buf h =
    ground (
      arith,
      take-rewritten buf.size buf.size buf.bytes ((0 ∷ []) ++ drop (buf.size + 1) buf.bytes),
    )

end_mark-IsValid :
    (buf : Membuf)
    → length buf.bytes ≡ buf.buffer_size
    → buf.size < buf.buffer_size
    → buf.buffer_size < 2 ^ 32
    → IsValid (end_mark buf)
unfolding end_mark
end_mark-IsValid buf e h w = ground (arith, length-write_at buf.bytes buf.size (0 ∷ []))

end_mark-flag : (buf : Membuf) → (end_mark buf).flag ≡ buf.flag
unfolding end_mark
end_mark-flag buf = ground arith

-- The struct before its last byte is written, where the data reaches past what is removed.
closed_up : Membuf → ℕ → ℕ → Membuf
closed_up buf offset size = record buf {
  bytes =
      write_at buf.bytes offset (take (buf.size - offset - size) (drop (offset + size) buf.bytes));
  size = buf.size - size;
}

-- The branches of `remove`.
remove_beyond : (buf : Membuf) (offset size : ℕ) → buf.size ≤ offset → remove buf offset size ≡ buf
unfolding remove
remove_beyond buf offset size h = rw (le→leb buf.size offset h)

remove_rest :
    (buf : Membuf) (offset size : ℕ)
    → offset < buf.size
    → offset + size < 2 ^ 64
    → buf.size ≤ offset + size
    → remove buf offset size ≡ end_mark (record buf { size = offset })
unfolding remove
remove_rest buf offset size h w far =
    rw (lt→leb buf.size offset h, size_add_lem offset size w, le→leb buf.size (offset + size) far)

remove_middle :
    (buf : Membuf) (offset size : ℕ)
    → offset + size < 2 ^ 64
    → offset + size < buf.size
    → remove buf offset size ≡ end_mark (closed_up buf offset size)
unfolding remove closed_up
remove_middle buf offset size w near = rw (
  lt→leb buf.size offset (omega arith),
  size_add_lem offset size w,
  lt→leb buf.size (offset + size) near,
)

module _ (buf : Membuf) (offset size : ℕ) (v : IsValid buf) (near : offset + size < buf.size) where
  moved : List ℕ
  moved = take (buf.size - offset - size) (drop (offset + size) buf.bytes)

  length-moved : length moved ≡ buf.size - offset - size
  unfolding moved
  length-moved = omega (
    arith,
    length-take (buf.size - offset - size) (drop (offset + size) buf.bytes),
    length-drop (offset + size) buf.bytes,
    v.block,
    v.fits,
  )

  -- What moves down is the data behind the removed part.
  moved_lem : moved ≡ drop (offset + size) (contents buf)
  unfolding moved
  moved_lem =
      sym
        (take-drop-take (buf.size - offset - size) (offset + size) buf.size buf.bytes (omega arith))
      ∙ take-all (buf.size - offset - size) (drop (offset + size) (contents buf))
          (omega (arith, length-drop (offset + size) (contents buf), length-contents buf v))

  closed_up_block : length (closed_up buf offset size).bytes ≡ buf.buffer_size
  unfolding closed_up moved
  closed_up_block =
      length-write_at buf.bytes offset moved (omega (arith, length-moved, v.block, v.fits))
      ∙ v.block

  contents-closed_up :
      contents (closed_up buf offset size)
      ≡ take offset (contents buf) ++ drop (offset + size) (contents buf)
  unfolding closed_up moved
  contents-closed_up =
      let reach : buf.size - size ≡ offset + length moved = omega (arith, length-moved) in
      ap (λ n. take n (write_at buf.bytes offset moved)) reach
      ∙ take-write_at buf.bytes offset moved (omega (arith, v.block, v.fits))
      ∙ ap₂ ◌++◌ (sym (take-take offset buf.size buf.bytes (omega arith))) moved_lem

-- `out` is `buf` with `size` bytes taken out at `offset`.
pub record HasRemoved (buf : Membuf) (offset size : ℕ) (out : Membuf) : Type 0 where
  pub valid : IsValid out
  pub left : contents out ≡ take offset (contents buf) ++ drop (offset + size) (contents buf)
  pub same_flag : out.flag ≡ buf.flag

rest-HasRemoved :
    (buf : Membuf) (offset size : ℕ)
    → IsValid buf
    → offset < buf.size
    → buf.size ≤ offset + size
    → HasRemoved buf offset size (end_mark (record buf { size = offset }))
rest-HasRemoved buf offset size v h far =
    let gone : drop (offset + size) (contents buf) ≡ [] =
      drop-all (offset + size) (contents buf) (omega (arith, length-contents buf v)) in
    record {
      valid =
          end_mark-IsValid (record buf { size = offset }) v.block (omega (arith, v.fits)) v.word;
      left =
          contents-end_mark (record buf { size = offset }) (omega (arith, v.block, v.fits))
          ∙ sym (take-take offset buf.size buf.bytes (omega arith))
          ∙ sym (append-nil (take offset (contents buf)))
          ∙ ap (λ l. take offset (contents buf) ++ l) (sym gone);
      same_flag = end_mark-flag (record buf { size = offset });
    }

middle-HasRemoved :
    (buf : Membuf) (offset size : ℕ)
    → IsValid buf
    → 0 < size
    → offset + size < buf.size
    → HasRemoved buf offset size (end_mark (closed_up buf offset size))
unfolding closed_up
middle-HasRemoved buf offset size v pos near =
    let whole = closed_up_block buf offset size v near in
    record {
      valid = end_mark-IsValid (closed_up buf offset size) whole (omega (arith, v.fits)) v.word;
      left =
          contents-end_mark (closed_up buf offset size) (omega (arith, whole, v.fits))
          ∙ contents-closed_up buf offset size v near;
      same_flag = end_mark-flag (closed_up buf offset size);
    }

-- Removing `size` bytes at `offset` from a valid buffer takes exactly those bytes out of its data,
-- and keeps the flag and the buffer valid. At least one byte is asked for, and the sum of both
-- numbers does not wrap.
pub remove-HasRemoved :
    (buf : Membuf) (offset size : ℕ)
    → IsValid buf
    → 0 < size
    → offset + size < 2 ^ 64
    → HasRemoved buf offset size (remove buf offset size)
remove-HasRemoved buf offset size v pos w = elim (le_or_lt buf.size offset) [
  | inl beyond ↦
      let all : take offset (contents buf) ≡ contents buf =
        take-all offset (contents buf) (omega (arith, length-contents buf v)) in
      let gone : drop (offset + size) (contents buf) ≡ [] =
        drop-all (offset + size) (contents buf) (omega (arith, length-contents buf v)) in
      rw (remove_beyond buf offset size beyond) (record {
        valid = v;
        left = sym (append-nil (contents buf)) ∙ ap₂ ◌++◌ (sym all) (sym gone);
        same_flag = refl;
      })
  | inr inside ↦ elim (le_or_lt buf.size (offset + size)) [
    | inl far ↦
        rw (remove_rest buf offset size inside w far) (rest-HasRemoved buf offset size v inside far)
    | inr near ↦
        rw (remove_middle buf offset size w near) (middle-HasRemoved buf offset size v pos near)
  ]
]

end_mark_overruns :
    (buf : Membuf)
    → length buf.bytes ≡ buf.buffer_size
    → buf.size ≡ buf.buffer_size
    → ¬ IsValid (end_mark buf)
unfolding end_mark
end_mark_overruns buf block full w = ground (
  arith,
  w.block,
  length-append (take buf.size buf.bytes) ((0 ∷ []) ++ drop (buf.size + 1) buf.bytes),
  length-take buf.size buf.bytes,
)

closed_up_full :
    (buf : Membuf) (offset : ℕ)
    → buf.size ≡ buf.buffer_size
    → (closed_up buf offset 0).size ≡ (closed_up buf offset 0).buffer_size
unfolding closed_up
closed_up_full buf offset full = omega arith

-- Removing no bytes from a valid buffer that is full writes the closing 0 one byte past the
-- block: the block is no longer of the size that the struct says. The offset lies in the data.
pub remove_nothing_overruns :
    (buf : Membuf) (offset : ℕ)
    → IsValid buf
    → buf.size ≡ buf.buffer_size
    → offset < buf.size
    → ¬ IsValid (remove buf offset 0)
unfolding closed_up
remove_nothing_overruns buf offset v full h w =
    let near : offset + 0 < buf.size = omega arith in
    let steps : remove buf offset 0 ≡ end_mark (closed_up buf offset 0) =
      remove_middle buf offset 0 (omega (arith, v.word, v.fits)) near in
    end_mark_overruns (closed_up buf offset 0) (closed_up_block buf offset 0 v near)
      (closed_up_full buf offset full) (subst IsValid steps w)
