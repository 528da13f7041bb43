-- ===== src/Store/Laws.antt =====
-- Lists under the tests of statements.
use mathlib.Core.Option.{none-ne-some, some-injective}
use zevra_server.Prelude.{
  find, some, subst, none, ◌≡◌, refl, inl, inr, Bool, true, false, false≢true, not, ◌&&◌, List, [],
  ◌∷◌, ◌++◌, arith, keep, any, update_where, length, ◌≤◌, Bool-cases,
}

module _ {ℓ} {A : Type ℓ} where
  -- Every element passes the test.
  abbrev pub All {κ} : (A → Type κ) → List A → Type κ
  All P [] = Unit
  All P (x ∷ xs) = P x × All P xs

  pub All-keep {κ} : (P : A → Type κ) (p : A → Bool) (xs : List A) → All P xs → All P (keep p xs)
  unfolding keep
  All-keep P p [] h = tt
  All-keep P p (x ∷ xs) (h, hs) = elim (Bool-cases (p x)) [
    | inl e ↦ rw e (h, All-keep P p xs hs)
    | inr e ↦ rw e (All-keep P p xs hs)
  ]

  pub All-append {κ} : (P : A → Type κ) (xs ys : List A) → All P xs → All P ys → All P (xs ++ ys)
  All-append P [] ys h k = k
  All-append P (x ∷ xs) ys (h, hs) k = (h, All-append P xs ys hs k)

  pub keep_absent : (p : A → Bool) (xs : List A) → any p xs ≡ false → keep p xs ≡ []
  unfolding keep any
  keep_absent p [] h = refl
  keep_absent p (x ∷ xs) h = ground (arith, keep_absent p xs)

  pub keep-keep_implied :
      (p q : A → Bool)
      → ((x : A) → p x ≡ true → q x ≡ true)
      → (xs : List A) → keep p (keep q xs) ≡ keep p xs
  unfolding keep
  keep-keep_implied p q h [] = refl
  keep-keep_implied p q h (x ∷ xs) = ground (arith, h x, keep-keep_implied p q h xs)

  pub keep-update_other :
      (p q : A → Bool) (f : A → A)
      → ((x : A) → q x ≡ true → (p x ≡ false) × (p (f x) ≡ false))
      → (xs : List A) → keep p (update_where q f xs) ≡ keep p xs
  unfolding keep update_where
  keep-update_other p q f h [] = refl
  keep-update_other p q f h (x ∷ xs) = ground (arith, h x, keep-update_other p q f h xs)

  pub keep-keep : (p q : A → Bool) (xs : List A) → keep p (keep q xs) ≡ keep (λ x. q x && p x) xs
  unfolding keep
  keep-keep p q [] = refl
  keep-keep p q (x ∷ xs) = ground (arith, keep-keep p q xs)

  pub keep_cong : {p q : A → Bool} → ((x : A) → p x ≡ q x) → (xs : List A) → keep p xs ≡ keep q xs
  unfolding keep
  keep_cong h [] = refl
  keep_cong h (x ∷ xs) = ground (arith, h x, keep_cong h xs)

  pub any_cong : {p q : A → Bool} → ((x : A) → p x ≡ q x) → (xs : List A) → any p xs ≡ any q xs
  unfolding any
  any_cong h [] = refl
  any_cong h (x ∷ xs) = ground (arith, h x, any_cong h xs)

  -- A test fails on all elements exactly when it keeps none.
  pub any-keep : (p : A → Bool) (xs : List A) → any p xs ≡ any (λ x. true) (keep p xs)
  unfolding any keep
  any-keep p [] = refl
  any-keep p (x ∷ xs) = ground (arith, any-keep p xs)

-- The rows that a deletion of those with `p` and without `q` spares.
module _ {ℓ} {A : Type ℓ} (p q : A → Bool) where
  abbrev pub spared : List A → List A
  spared = keep (λ x. not (p x && not (q x)))

  pub keep-spared : (l : List A) → keep p (spared l) ≡ keep (λ x. p x && q x) l
  unfolding keep
  keep-spared [] = refl
  keep-spared (x ∷ l) = ground (arith, keep-spared l)

  pub keep-spared_other : (l : List A) → keep (λ x. not (p x)) (spared l) ≡ keep (λ x. not (p x)) l
  unfolding keep
  keep-spared_other [] = refl
  keep-spared_other (x ∷ l) = ground (arith, keep-spared_other l)

  pub any-spared : (l : List A) → any (λ x. p x && q x) (spared l) ≡ any (λ x. p x && q x) l
  unfolding any keep
  any-spared [] = refl
  any-spared (x ∷ l) = ground (arith, any-spared l)

module _ {ℓ} {A : Type ℓ} where
  pub length-keep : (p : A → Bool) (xs : List A) → length (keep p xs) ≤ length xs
  unfolding keep
  length-keep p [] = omega arith
  length-keep p (x ∷ xs) = ground (arith, length-keep p xs)

  pub any-some : (p : A → Bool) (xs : List A) → any p xs ≡ true → 1 ≤ length (keep p xs)
  unfolding any keep
  any-some p [] h = ground arith
  any-some p (x ∷ xs) h = ground (arith, any-some p xs)

  pub keep-none : (p : A → Bool) (xs : List A) → keep p (keep (λ x. not (p x)) xs) ≡ []
  unfolding keep
  keep-none p [] = refl
  keep-none p (x ∷ xs) = ground (arith, keep-none p xs)

  length-zero : (xs : List A) → length xs ≤ 0 → xs ≡ []
  length-zero [] h = refl
  length-zero (x ∷ xs) h = ground arith

  -- A test that some element passes, and at most one.
  pub one_kept :
      (p : A → Bool) (xs : List A)
      → any p xs ≡ true
      → length (keep p xs) ≤ 1
      → (x : A) × (keep p xs ≡ x ∷ []) × (p x ≡ true)
  unfolding any keep
  one_kept p [] h k = elim (false≢true h) [ ]
  one_kept p (x ∷ xs) h k = elim (Bool-cases (p x)) [
    | inl e ↦ (x, ground (arith, length-zero (keep p xs)), e)
    | inr e ↦ let (y, f, g) = one_kept p xs (ground arith) (ground arith) in (y, rw e f, g)
  ]

  pub length-keep-keep :
      (p q : A → Bool) (xs : List A) → length (keep p (keep q xs)) ≤ length (keep p xs)
  unfolding keep
  length-keep-keep p q [] = omega arith
  length-keep-keep p q (x ∷ xs) = ground (arith, length-keep-keep p q xs)

module _ {ℓ} {A : Type ℓ} where
  pub find-none : (p : A → Bool) (xs : List A) → find p xs ≡ none → any p xs ≡ false
  unfolding find any
  find-none p [] h = refl
  find-none p (x ∷ xs) h = ground (arith, find-none p xs)

  pub find-holds : (p : A → Bool) (xs : List A) (y : A) → find p xs ≡ some y → p y ≡ true
  unfolding find
  find-holds p [] y h = absurd (none-ne-some y h)
  find-holds p (x ∷ xs) y h = elim (Bool-cases (p x)) [
    | inl e ↦ subst (λ z. p z ≡ true) (some-injective x y (rw e at h)) e
    | inr e ↦ find-holds p xs y (rw e at h)
  ]

  pub find-absent : (p : A → Bool) (xs : List A) → any p xs ≡ false → find p xs ≡ none
  unfolding find any
  find-absent p [] h = refl
  find-absent p (x ∷ xs) h = ground (arith, find-absent p xs)

  pub update_where-absent :
      (p : A → Bool) (f : A → A) (xs : List A) → any p xs ≡ false → update_where p f xs ≡ xs
  unfolding update_where any
  update_where-absent p f [] h = refl
  update_where-absent p f (x ∷ xs) h = ground (arith, update_where-absent p f xs)

  -- After the update no row passes a test that the updated rows and the spared ones fail.
  pub any-update_where :
      (p q : A → Bool) (f : A → A)
      → ((x : A) → p x ≡ true → q (f x) ≡ false)
      → ((x : A) → p x ≡ false → q x ≡ false)
      → (xs : List A) → any q (update_where p f xs) ≡ false
  unfolding update_where any
  any-update_where p q f h k [] = refl
  any-update_where p q f h k (x ∷ xs) = ground (arith, h x, k x, any-update_where p q f h k xs)

  pub keep-All : (p : A → Bool) (xs : List A) → All (λ x. p x ≡ true) xs → keep p xs ≡ xs
  unfolding keep
  keep-All p [] h = refl
  keep-All p (x ∷ xs) (h, hs) = rw (h, keep-All p xs hs) refl

  pub drop-All :
      (p : A → Bool) (xs : List A) → All (λ x. p x ≡ true) xs → keep (λ x. not (p x)) xs ≡ []
  unfolding keep
  drop-All p [] h = refl
  drop-All p (x ∷ xs) (h, hs) = rw (h, drop-All p xs hs) refl

  pub keep-keep_same : (p : A → Bool) (xs : List A) → keep p (keep p xs) ≡ keep p xs
  unfolding keep
  keep-keep_same p [] = refl
  keep-keep_same p (x ∷ xs) = ground (arith, keep-keep_same p xs)

  pub All-keep_self : (p : A → Bool) (xs : List A) → All (λ x. p x ≡ true) (keep p xs)
  unfolding keep
  All-keep_self p [] = tt
  All-keep_self p (x ∷ xs) = elim (Bool-cases (p x)) [
    | inl e ↦ rw e (e, All-keep_self p xs)
    | inr e ↦ rw e (All-keep_self p xs)
  ]
