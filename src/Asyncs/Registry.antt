-- ===== src/Asyncs/Registry.antt =====
-- The connections of src/ws/CChecker.cpp as a set.
use a_nother_ws.Prelude.{
  ℕ, ◌≡◌, ◌≢◌, refl, ◌∙◌, ap, sym, List, [], ◌∷◌, inl, inr, Bool, true, false, ◌||◌, ◌==◌, ==_iff,
  Bool-cases,
}
use a_nother_ws.Asyncs.{check_connection, register_connection, unregister_connection}

-- No connection stands twice, as in a map.
abbrev pub IsDistinct : List ℕ → Type 0
IsDistinct [] = Unit {0}
IsDistinct (c ∷ cs) = (check_connection cs c ≡ false) × IsDistinct cs

same_test : (x : ℕ) → (x == x) ≡ true
same_test x = (==_iff x x).1 refl

other_test : (x y : ℕ) → (x ≢ y) → (x == y) ≡ false
other_test x y h = elim (Bool-cases (x == y)) [ inl e ↦ absurd (h ((==_iff x y).0 e)) | inr e ↦ e ]

-- One operation on the registry: the connection named is known afterwards or not, and no other is
-- touched.
pub record HasSet (cs : List ℕ) (x : ℕ) (known : Bool) (after : List ℕ) : Type 0 where
  pub distinct : IsDistinct after
  pub set : check_connection after x ≡ known
  pub same_others : (y : ℕ) → x ≢ y → check_connection after y ≡ check_connection cs y

register-HasSet :
    (cs : List ℕ) (x : ℕ) → IsDistinct cs → HasSet cs x true (register_connection cs x)
unfolding register_connection check_connection
register-HasSet cs x d = elim (Bool-cases (check_connection cs x)) [
  | inl known ↦ rw known (record { distinct = d; set = known; same_others = λ y h. refl })
  | inr new ↦ rw new (record {
    distinct = (new, d);
    set = ap (λ b. b || check_connection cs x) (same_test x);
    same_others = λ y h. ap (λ b. b || check_connection cs y) (other_test x y h);
  })
]

unregister-HasSet :
    (cs : List ℕ) (x : ℕ) → IsDistinct cs → HasSet cs x false (unregister_connection cs x)
unfolding unregister_connection check_connection
unregister-HasSet [] x d = record { distinct = tt; set = refl; same_others = λ y h. refl }
unregister-HasSet (c ∷ cs) x (new, d) = elim (Bool-cases (c == x)) [
  | inl here ↦
      let same : c ≡ x = (==_iff c x).0 here in
      rw here (record {
        distinct = d;
        set = ap (check_connection cs) (sym same) ∙ new;
        same_others = λ y h.
            sym (ap (λ b. b || check_connection cs y) (ap (λ k. k == y) same ∙ other_test x y h));
      })
  | inr there ↦
      let ih = unregister-HasSet cs x d in
      let apart : x ≢ c = λ e. absurd (differ (sym (ap (λ k. c == k) e) ∙ there) (same_test c)) in
      rw there (record {
        distinct = (ih.same_others c apart ∙ new, ih.distinct);
        set = ap (λ b. b || check_connection (unregister_connection cs x) x) there ∙ ih.set;
        same_others = λ y h. ap (λ b. (c == y) || b) (ih.same_others y h);
      })
]
  where
    differ : {b : Bool} → b ≡ false → b ≡ true → ⊥
    differ e h = cc

-- The registry is a set of connections: registering makes a connection known, unregistering makes it
-- unknown, neither touches another connection, and neither leaves one twice. The registry has
-- none twice before.
pub registry_is_set :
    (cs : List ℕ) (x : ℕ)
    → IsDistinct cs
    → HasSet cs x true (register_connection cs x) × HasSet cs x false (unregister_connection cs x)
registry_is_set cs x d = (register-HasSet cs x d, unregister-HasSet cs x d)
