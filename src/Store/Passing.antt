-- ===== src/Store/Passing.antt =====
-- Whether some row passes a test, before and after a statement.
use mathlib.Core.Option.{some-injective}
use zevra_server.Prelude.{
  suc, ◌++◌, false≢true, ◌≤◌, ◌≡◌, refl, ◌∙◌, ap, sym, Bool, true, false, not, ◌&&◌, List, [], ◌∷◌,
  some, arith, keep, any, find, update_where, length, Bool-cases, inl, inr,
}

module _ {A : Type 0} where
  pub any_mono :
      (p q : A → Bool)
      → ((x : A) → p x ≡ true → q x ≡ true)
      → (xs : List A) → any p xs ≡ true
      → any q xs ≡ true
  unfolding any
  any_mono p q h [] e = e
  any_mono p q h (x ∷ xs) e = ground (arith, h x, any_mono p q h xs)

  pub any-delete :
      (p q : A → Bool) (xs : List A) → any p (keep (λ x. not (q x)) xs) ≡ true → any p xs ≡ true
  unfolding any keep
  any-delete p q [] e = e
  any-delete p q (x ∷ xs) e = ground (arith, any-delete p q xs)

  -- What passes the test and is not deleted is left.
  pub any-delete_other :
      (p q : A → Bool)
      → ((x : A) → q x ≡ true → p x ≡ false)
      → (xs : List A) → any p xs ≡ true
      → any p (keep (λ x. not (q x)) xs) ≡ true
  unfolding any keep
  any-delete_other p q h [] e = e
  any-delete_other p q h (x ∷ xs) e = ground (arith, h x, any-delete_other p q h xs)

  pub any-update_same :
      (p q : A → Bool) (f : A → A)
      → ((x : A) → p (f x) ≡ p x)
      → (xs : List A) → any p (update_where q f xs) ≡ any p xs
  unfolding any update_where
  any-update_same p q f h [] = refl
  any-update_same p q f h (x ∷ xs) = ground (arith, h x, any-update_same p q f h xs)

  pub any-update_gain :
      (p q : A → Bool) (f : A → A)
      → ((x : A) → p x ≡ true → p (f x) ≡ true)
      → (xs : List A) → any p xs ≡ true
      → any p (update_where q f xs) ≡ true
  unfolding any update_where
  any-update_gain p q f h [] e = e
  any-update_gain p q f h (x ∷ xs) e = ground (arith, h x, any-update_gain p q f h xs)

  pub keep-not_none :
      (q : A → Bool) (xs : List A) → length (keep q xs) ≤ 0 → keep (λ x. not (q x)) xs ≡ xs
  unfolding keep
  keep-not_none q [] h = refl
  keep-not_none q (x ∷ xs) h = ground (arith, keep-not_none q xs)

  -- The one deleted element fails the test.
  pub any-delete_one :
      (p q : A → Bool) (g : A) (xs : List A)
      → find q xs ≡ some g
      → length (keep q xs) ≤ 1
      → p g ≡ false
      → any p xs ≡ true
      → any p (keep (λ x. not (q x)) xs) ≡ true
  unfolding any keep find
  any-delete_one p q g [] f u n e = e
  any-delete_one p q g (x ∷ xs) f u n e = elim (Bool-cases (q x)) [
    | inl h ↦
        let px = ap p (some-injective x g (rw h at f)) ∙ n in
        let few = keep-not_none q xs (omega (arith, rw h at u)) in rw (h, few) (rw px at e)
    | inr h ↦ elim (Bool-cases (p x)) [
      | inl k ↦ rw (h, k) refl
      | inr k ↦ rw (h, k) (any-delete_one p q g xs (rw h at f) (rw h at u) n (rw k at e))
    ]
  ]

  pub any-update_hit :
      (p q r : A → Bool) (f : A → A)
      → ((x : A) → q x ≡ true → p x ≡ true → r (f x) ≡ true)
      → (xs : List A) → any (λ x. q x && p x) xs ≡ true
      → any r (update_where q f xs) ≡ true
  unfolding any update_where
  any-update_hit p q r f h [] e = e
  any-update_hit p q r f h (x ∷ xs) e = ground (arith, h x, any-update_hit p q r f h xs)

  pub any-keep_sub : (p q : A → Bool) (xs : List A) → any p (keep q xs) ≡ true → any p xs ≡ true
  unfolding any keep
  any-keep_sub p q [] e = e
  any-keep_sub p q (x ∷ xs) e = ground (arith, any-keep_sub p q xs)

  -- An update that the test does not see keeps the number of rows that pass.
  pub length-update_same :
      (p q : A → Bool) (f : A → A)
      → ((x : A) → p (f x) ≡ p x)
      → (xs : List A) → length (keep p (update_where q f xs)) ≡ length (keep p xs)
  unfolding keep update_where
  length-update_same p q f h [] = refl
  length-update_same p q f h (x ∷ xs) = ground (arith, h x, length-update_same p q f h xs)

  pub none_kept : (p : A → Bool) (xs : List A) → any p xs ≡ false → length (keep p xs) ≤ 0
  unfolding any keep
  none_kept p [] h = omega arith
  none_kept p (x ∷ xs) h = ground (arith, none_kept p xs)

  pub any-append : (p : A → Bool) (xs ys : List A) → any p xs ≡ true → any p (xs ++ ys) ≡ true
  unfolding any
  any-append p [] ys h = elim (false≢true h) [ ]
  any-append p (x ∷ xs) ys h = ground (arith, any-append p xs ys)

  pub any-append_last :
      (p : A → Bool) (xs : List A) (y : A)
      → any p (xs ++ y ∷ []) ≡ true
      → p y ≡ false
      → any p xs ≡ true
  unfolding any
  any-append_last p [] y h n = ground arith
  any-append_last p (x ∷ xs) y h n = ground (arith, any-append_last p xs y)

  pub find-any :
      (p q : A → Bool) (x : A) (xs : List A) → find p xs ≡ some x → q x ≡ true → any q xs ≡ true
  unfolding any find
  find-any p q x [] e h = ground arith
  find-any p q x (y ∷ ys) e h = elim (Bool-cases (p y)) [
    | inl k ↦ rw (ap q (some-injective y x (rw k at e)) ∙ h) refl
    | inr k ↦ elim (Bool-cases (q y)) [
      | inl j ↦ rw j refl
      | inr j ↦ rw j (find-any p q x ys (rw k at e) h)
    ]
  ]

  pub find-pass : (p : A → Bool) (x : A) (xs : List A) → find p xs ≡ some x → p x ≡ true
  unfolding find
  find-pass p x [] e = ground arith
  find-pass p x (y ∷ ys) e = elim (Bool-cases (p y)) [
    | inl k ↦ ap p (sym (some-injective y x (rw k at e))) ∙ k
    | inr k ↦ find-pass p x ys (rw k at e)
  ]

  too_many : (xs : List A) → suc (length xs) ≤ 0 → ⊥
  too_many xs h = ground arith

  missing :
      (p q : A → Bool) (x : A) (xs : List A)
      → length (keep p xs) ≤ 0
      → find (λ y. p y && q y) xs ≡ some x
      → ⊥
  unfolding keep find
  missing p q x [] u e = ground arith
  missing p q x (y ∷ ys) u e = elim (Bool-cases (p y)) [
    | inr h ↦ missing p q x ys (rw h at u) (rw h at e)
    | inl h ↦ elim (too_many (keep p ys) (rw h at u)) [ ]
  ]

  -- The one element that passes a test is found by it, also when it is searched by more.
  pub find-weaker :
      (p q : A → Bool) (x : A) (xs : List A)
      → length (keep p xs) ≤ 1
      → find (λ y. p y && q y) xs ≡ some x
      → find p xs ≡ some x
  unfolding keep find
  find-weaker p q x [] u e = e
  find-weaker p q x (y ∷ ys) u e = elim (Bool-cases (p y)) [
    | inr h ↦ rw h (find-weaker p q x ys (rw h at u) (rw h at e))
    | inl h ↦ elim (Bool-cases (q y)) [
      | inl k ↦ rw h (rw (h, k) at e)
      | inr k ↦ elim (missing p q x ys (ground arith) (rw (h, k) at e)) [ ]
    ]
  ]
