-- ===== src/Frame/Parser/Length.antt =====
-- The reads of the first two bytes and of the length fields.
use a_nother_ws.Prelude.{ℕ, ◌+◌, ◌^◌, ◌≤◌, ◌<◌, refl, List, [], ◌∷◌, arith, length}
use a_nother_ws.ByteOrder.{
  read_two_byte_length, read_four_byte_length, read_two_byte_length-lt, read_four_byte_length-lt,
}
use a_nother_ws.Frame.Handle.{WebsocketHandle}
use a_nother_ws.Frame.Reader.{Reader}
use a_nother_ws.Frame.Decode.{need_more, decode_two, decode_low}
use a_nother_ws.Frame.Parser.{sync, read_length_two, read_length_low}
use a_nother_ws.Frame.Parser.Stages.{Kept, Describes, Reaches, Yields, Here, reads, stops}
use a_nother_ws.Frame.Parser.Header.{read_mask-Yields}

-- A length that is stored in the handle changes nothing that is kept.
abbrev pub with_length : WebsocketHandle → ℕ → WebsocketHandle
with_length h n = record h { real_payload_len = n }

pub with_length-Here :
    (kept : Kept) (held input : List ℕ) (pos : ℕ) (h : WebsocketHandle) (r : Reader) (s : List ℕ)
    (n : ℕ)
    → Here kept held input pos h r s
    → Here kept held input pos (with_length h n) r s
with_length-Here kept held input pos h r s n here = record {
  mid = record {
    parse_state = here.mid.parse_state;
    same_merge = here.mid.same_merge;
    same_endpoint = here.mid.same_endpoint;
    key_size = here.mid.key_size;
  };
  at = here.at;
  rest = here.rest;
}

pub with_length-Describes :
    (b0 b1 : ℕ) (h : WebsocketHandle) (n : ℕ)
    → Describes b0 b1 h
    → Describes b0 b1 (with_length h n)
with_length-Describes b0 b1 h n d = record {
  eof = d.eof;
  ext = d.ext;
  op = d.op;
  masked = d.masked;
}

module _ (kept : Kept) (held input : List ℕ) (small : length held + length input ≤ 2 ^ 31)
    (b0 b1 : ℕ) where
  module _ (h : WebsocketHandle) (d : Describes b0 b1 h) (r : Reader) where
    two_missing :
        (s : List ℕ)
        → Here kept held input 2 h r s
        → length s < 2
        → Yields kept held input need_more (read_length_two input h r)
    unfolding read_length_two
    two_missing s here lack =
        let (r', got, a) =
          stops kept held input small 2 h r 2 s h lack (omega arith) here here.mid in
        ((sync h r', 0), rw got, a)

    pub read_length_two-Yields :
        (s : List ℕ)
        → Here kept held input 2 h r s
        → Reaches (length held) (decode_two b0 b1 s)
        → Yields kept held input (decode_two b0 b1 s) (read_length_two input h r)
    unfolding decode_two read_length_two
    read_length_two-Yields [] here reach = two_missing [] here (omega arith)
    read_length_two-Yields (n1 ∷ []) here reach = two_missing (n1 ∷ []) here (omega arith)
    read_length_two-Yields (n1 ∷ n0 ∷ s) here reach =
        let field = n1 ∷ n0 ∷ [] in
        let n = read_two_byte_length field in
        let (r', got, next) = reads kept held input small 2 h r field s (omega arith) here in
        let (out, e, a) =
          read_mask-Yields kept held input small b0 b1 4 n (with_length h n)
            (with_length-Describes b0 b1 h n d) (omega arith) (omega arith) refl
            (omega (arith, read_two_byte_length-lt field)) r' s
            (with_length-Here kept held input 4 h r' s n next) reach in
        (out, rw got e, a)

    low_missing :
        (s : List ℕ)
        → Here kept held input 6 h r s
        → length s < 4
        → Yields kept held input need_more (read_length_low input h r)
    unfolding read_length_low
    low_missing s here lack =
        let (r', got, a) =
          stops kept held input small 6 h r 4 s h lack (omega arith) here here.mid in
        ((sync h r', 0), rw got, a)

    pub read_length_low-Yields :
        (s : List ℕ)
        → Here kept held input 6 h r s
        → Reaches (length held) (decode_low b0 b1 s)
        → Yields kept held input (decode_low b0 b1 s) (read_length_low input h r)
    unfolding decode_low read_length_low
    read_length_low-Yields [] here reach = low_missing [] here (omega arith)
    read_length_low-Yields (n3 ∷ []) here reach = low_missing (n3 ∷ []) here (omega arith)
    read_length_low-Yields (n3 ∷ n2 ∷ []) here reach = low_missing (n3 ∷ n2 ∷ []) here (omega arith)
    read_length_low-Yields (n3 ∷ n2 ∷ n1 ∷ []) here reach =
        low_missing (n3 ∷ n2 ∷ n1 ∷ []) here (omega arith)
    read_length_low-Yields (n3 ∷ n2 ∷ n1 ∷ n0 ∷ s) here reach =
        let field = n3 ∷ n2 ∷ n1 ∷ n0 ∷ [] in
        let n = read_four_byte_length field in
        let (r', got, next) = reads kept held input small 6 h r field s (omega arith) here in
        let (out, e, a) =
          read_mask-Yields kept held input small b0 b1 10 n (with_length h n)
            (with_length-Describes b0 b1 h n d) (omega arith) (omega arith) refl
            (omega (arith, read_four_byte_length-lt field)) r' s
            (with_length-Here kept held input 10 h r' s n next) reach in
        (out, rw got e, a)
