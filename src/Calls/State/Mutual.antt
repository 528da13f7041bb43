-- ===== src/Calls/State/Mutual.antt =====
-- A call joins two users: each of them is in the call that the other is in, calls.service.ts.
use zevra_server.Prelude.{
  ℕ, ◌≤◌, String, true, false, false≢true, ◌||◌, List, Option, some, ◌≡◌, refl, ◌∙◌, ap, sym, subst,
  arith, ◌==◌, eq_iff, Bool-cases, inl, inr, ◌⊎◌,
}
use zevra_server.Redis.{Redis}
use zevra_server.Calls.State.{field_of}
use zevra_server.Calls.State.Views.{named, fields}
use zevra_server.Calls.State.Entries.{text_of_mono}

-- The call with these fields is one of two different users, both of whom are in it, and of `u`.
abbrev pub Joins : (String → Option String) → List (String × String) → String → String → Type 0
Joins name fs u id =
    ((id == "") ≡ false)
    × ((field_of "initiatorId" fs == "") ≡ false)
    × ((field_of "targetId" fs == "") ≡ false)
    × ((field_of "initiatorId" fs == field_of "targetId" fs) ≡ false)
    × ((field_of "initiatorId" fs == u) || (field_of "targetId" fs == u) ≡ true)
    × (name (field_of "initiatorId" fs) ≡ some id)
    × (name (field_of "targetId" fs) ≡ some id)

module _ (r : Redis) where
  -- From a time on, every call that a user's key names joins the user with another.
  abbrev pub IsMutual : ℕ → r.State → Type 0
  IsMutual now s =
      (t : ℕ)
      → now ≤ t
      → (u id : String) → named r t s u ≡ some id
      → Joins (named r t s) (fields r t s id) u id

  pub IsMutual-later : (now t : ℕ) (s : r.State) → now ≤ t → IsMutual now s → IsMutual t s
  IsMutual-later now t s h m t' h' = m t' (omega arith)

  named_mono :
      (now t : ℕ) (s : r.State) (u id : String)
      → now ≤ t
      → named r t s u ≡ some id
      → named r now s u ≡ some id
  named_mono now t s u id h k = text_of_mono now t _ id h k

-- A write about one call, of the users `a` and `b`, leaves the other calls as they were.
module _ (r : Redis) (now : ℕ) (s s' : r.State) (a b id : String)
    (keys : (t : ℕ) (u : String)
      → (a == u) ≡ false
      → (b == u) ≡ false
      → named r t s' u ≡ named r t s u)
    (rooms : (t : ℕ) (j : String) → (id == j) ≡ false → fields r t s' j ≡ fields r t s j)
    (others : (u : String) → (a == u) ≡ false → (b == u) ≡ false → named r now s u ≡ some id → ⊥)
    (only : (u j : String) → (a ≡ u) ⊎ (b ≡ u) → named r now s u ≡ some j → id ≡ j)
    (own : (t : ℕ)
      → now ≤ t
      → (u j : String) → (a ≡ u) ⊎ (b ≡ u)
      → named r t s' u ≡ some j
      → Joins (named r t s') (fields r t s' j) u j)
    (before : IsMutual r now s) where
  other_call :
      (u j : String)
      → (a == u) ≡ false
      → (b == u) ≡ false
      → named r now s u ≡ some j
      → (id == j) ≡ false
  other_call u j ha hb k = elim (Bool-cases (id == j)) [
    | inl e ↦ absurd (others u ha hb (k ∙ ap some (sym ((eq_iff id j).0 e))))
    | inr e ↦ e
  ]

  moved : {c u : String} → (c ≡ a) ⊎ (c ≡ b) → c ≡ u → (a ≡ u) ⊎ (b ≡ u)
  moved (inl p) q = inl (sym p ∙ q)
  moved (inr p) q = inr (sym p ∙ q)

  -- A user of another call is neither `a` nor `b`.
  other_user :
      (c u j : String)
      → (c ≡ a) ⊎ (c ≡ b)
      → (id == j) ≡ false
      → named r now s u ≡ some j
      → (c == u) ≡ false
  other_user c u j h e k = elim (Bool-cases (c == u)) [
    | inl same ↦
        absurd (false≢true (sym e ∙ (eq_iff id j).1 (only u j (moved h ((eq_iff c u).0 same)) k)))
    | inr differ ↦ differ
  ]

  same_key_of :
      (t : ℕ)
      → now ≤ t
      → (u j : String) → (id == j) ≡ false
      → named r t s u ≡ some j
      → named r t s' u ≡ some j
  same_key_of t h u j e k =
      let k' = named_mono r now t s u j h k in
      keys t u (other_user a u j (inl refl) e k') (other_user b u j (inr refl) e k') ∙ k

  other-Joins :
      (t : ℕ)
      → now ≤ t
      → (u j : String) → (a == u) ≡ false
      → (b == u) ≡ false
      → named r t s' u ≡ some j
      → Joins (named r t s') (fields r t s' j) u j
  other-Joins t h u j ha hb k =
      let k' : named r t s u ≡ some j = sym (keys t u ha hb) ∙ k in
      let e = other_call u j ha hb (named_mono r now t s u j h k') in
      let (p0, p1, p2, p3, p4, p5, p6) = before t h u j k' in
      subst (λ fs. Joins (named r t s') fs u j) (sym (rooms t j e))
        (p0, p1, p2, p3, p4, same_key_of t h _ j e p5, same_key_of t h _ j e p6)

  pub framed : IsMutual r now s'
  framed t h u j k = elim (Bool-cases (a == u)) [
    | inl ea ↦ own t h u j (inl ((eq_iff a u).0 ea)) k
    | inr na ↦ elim (Bool-cases (b == u)) [
      | inl eb ↦ own t h u j (inr ((eq_iff b u).0 eb)) k
      | inr nb ↦ other-Joins t h u j na nb k
    ]
  ]
