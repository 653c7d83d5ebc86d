-- ===== src/Connection/Total.antt =====
-- Every stream splits, unless it has a frame that is too long.
use a_nother_ws.Prelude.{
  ℕ, zero, suc, ◌+◌, ◌*◌, ◌^◌, ◌≤◌, ◌≡◌, ◌⊎◌, inl, inr, refl, subst, List, [], ◌∷◌, ◌++◌, some,
  arith, length, take, drop, length-drop,
}
use a_nother_ws.Frame.Decode.{Outcome, need_more, too_long, bare, framed, decode}
use a_nother_ws.Frame.Decode.Within.{Within, decode-Within}
use a_nother_ws.Frame.Parser.Refine.{held}
use a_nother_ws.Connection.{Connection, server_loop}
use a_nother_ws.Connection.Stream.{Message, message_of, Splits, IsServing, HasServedAll}
use a_nother_ws.Connection.Loops.{server_loop_delivers}

-- Behind some whole frames a length above 32 bits stands.
pub data IsOverlong : List ℕ → Type 0 where
  here : {s : List ℕ} → decode s ≡ too_long → IsOverlong s
  behind_whole :
      {s : List ℕ} (b0 b1 len : ℕ) (payload : List ℕ)
      → decode s ≡ framed b0 b1 len payload
      → IsOverlong (drop (len + length payload) s)
      → IsOverlong s
  behind_empty :
      {s : List ℕ} (b0 b1 : ℕ) → decode s ≡ bare b0 b1 → IsOverlong (drop 2 s) → IsOverlong s

-- The stream splits, into at most one message for two bytes.
pub record IsSplit (s : List ℕ) : Type 0 where
  pub messages : List Message
  pub left : List ℕ
  pub splits : Splits s messages left
  pub few : length messages * 2 ≤ length s

add_whole :
    (s : List ℕ) (b0 b1 len : ℕ) (payload : List ℕ)
    → decode s ≡ framed b0 b1 len payload
    → Within (length s) (framed b0 b1 len payload)
    → IsSplit (drop (len + length payload) s) ⊎ IsOverlong (drop (len + length payload) s)
    → IsSplit s ⊎ IsOverlong s
add_whole s b0 b1 len payload e (inside, two) (inl sp) = inl (record {
  messages = message_of b0 payload ∷ sp.messages;
  left = sp.left;
  splits = Splits.whole b0 b1 len payload e sp.splits;
  few = omega (arith, sp.few, length-drop (len + length payload) s);
})
add_whole s b0 b1 len payload e within (inr bad) =
    inr (IsOverlong.behind_whole b0 b1 len payload e bad)

add_empty :
    (s : List ℕ) (b0 b1 : ℕ)
    → decode s ≡ bare b0 b1
    → 2 ≤ length s
    → IsSplit (drop 2 s) ⊎ IsOverlong (drop 2 s)
    → IsSplit s ⊎ IsOverlong s
add_empty s b0 b1 e inside (inl sp) = inl (record {
  messages = message_of b0 (take 2 s) ∷ sp.messages;
  left = sp.left;
  splits = Splits.empty b0 b1 e sp.splits;
  few = omega (arith, sp.few, length-drop 2 s);
})
add_empty s b0 b1 e inside (inr bad) = inr (IsOverlong.behind_empty b0 b1 e bad)

outcome-IsSplit :
    (n : ℕ) (s : List ℕ) (o : Outcome) → decode s ≡ o → length s ≤ n → IsSplit s ⊎ IsOverlong s
outcome-IsSplit n s need_more e h =
    inl (record { messages = []; left = s; splits = Splits.stop e; few = omega arith })
outcome-IsSplit n s too_long e h = inr (IsOverlong.here e)
outcome-IsSplit zero s (bare b0 b1) e h =
    let inside : 2 ≤ length s = subst (Within (length s)) e (decode-Within s) in
    absurd (omega arith)
outcome-IsSplit zero s (framed b0 b1 len payload) e h =
    let (inside, two) = subst (Within (length s)) e (decode-Within s) in absurd (omega arith)
outcome-IsSplit (suc n) s (bare b0 b1) e h =
    let inside : 2 ≤ length s = subst (Within (length s)) e (decode-Within s) in
    add_empty s b0 b1 e inside
      (outcome-IsSplit n (drop 2 s) (decode (drop 2 s)) refl (omega (arith, length-drop 2 s)))
outcome-IsSplit (suc n) s (framed b0 b1 len payload) e h =
    let within = subst (Within (length s)) e (decode-Within s) in
    let rest = drop (len + length payload) s in
    add_whole s b0 b1 len payload e within (
      outcome-IsSplit n rest (decode rest) refl
        (omega (arith, length-drop (len + length payload) s, within.0, within.1)))

-- Whatever bytes arrive, the server serves them or they have a frame that is too long. Unless some
-- frame of the stream, that is what is held followed by the new data, has a length above 32 bits,
-- the stream splits into frames with the head of one more behind them, the loop ends within as
-- many rounds as the stream has bytes and one more, what the application sees is the frames
-- delivered in order, and the head is held. The connection is between two reads, its loop has its
-- data, and the message put together and the stream are at most 2 ^ 31.
pub server_loop_ends :
    (c : Connection) (x : ℕ) (input : List ℕ) (limit : ℕ)
    → IsServing c limit
    → limit + length (held c.handle ++ (x ∷ input)) ≤ 2 ^ 31
    → ((ms : List Message) × (left : List ℕ) × (out : Connection) × Splits
          (held c.handle ++ (x ∷ input))
          ms
          left
        × (server_loop (length (held c.handle ++ (x ∷ input)) + 1) c (x ∷ input) ≡ some out)
        × HasServedAll c ms left (limit + length (held c.handle ++ (x ∷ input))) out)
      ⊎ IsOverlong (held c.handle ++ (x ∷ input))
server_loop_ends c x input limit serving small =
    let s = held c.handle ++ (x ∷ input) in
    elim (outcome-IsSplit (length s) s (decode s) refl (omega arith)) [
      | inl sp ↦
          let (out, e, all) =
            server_loop_delivers (length s + 1) c x input sp.left sp.messages limit sp.splits
              serving small (omega (arith, sp.few)) in
          inl (sp.messages, sp.left, out, sp.splits, e, all)
      | inr bad ↦ inr bad
    ]
