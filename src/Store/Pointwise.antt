-- ===== src/Store/Pointwise.antt =====
-- Relations between the rows before and after a statement.
use zevra_server.Prelude.{◌≡◌, true, Bool, List, [], ◌∷◌, update_where, Bool-cases, inl, inr}

-- What a statement does to every row, by position.
module _ {ℓ} {A : Type ℓ} (R : A → A → Type 0) where
  abbrev pub Pointwise : List A → List A → Type 0
  Pointwise [] [] = Unit
  Pointwise [] (y ∷ ys) = ⊥
  Pointwise (x ∷ xs) [] = ⊥
  Pointwise (x ∷ xs) (y ∷ ys) = R x y × Pointwise xs ys

  pub Pointwise-refl : ((x : A) → R x x) → (xs : List A) → Pointwise xs xs
  Pointwise-refl h [] = tt
  Pointwise-refl h (x ∷ xs) = (h x, Pointwise-refl h xs)

  pub Pointwise-trans :
      ((x y z : A) → R x y → R y z → R x z)
      → (xs ys zs : List A) → Pointwise xs ys
      → Pointwise ys zs
      → Pointwise xs zs
  Pointwise-trans t [] [] [] h k = tt
  Pointwise-trans t [] [] (z ∷ zs) h k = k
  Pointwise-trans t [] (y ∷ ys) zs h k = elim h [ ]
  Pointwise-trans t (x ∷ xs) [] zs h k = elim h [ ]
  Pointwise-trans t (x ∷ xs) (y ∷ ys) [] h k = k
  Pointwise-trans t (x ∷ xs) (y ∷ ys) (z ∷ zs) (h, hs) (k, ks) =
      (t x y z h k, Pointwise-trans t xs ys zs hs ks)

  pub Pointwise-update_where :
      (p : A → Bool) (f : A → A)
      → ((x : A) → R x x)
      → ((x : A) → p x ≡ true → R x (f x))
      → (xs : List A) → Pointwise xs (update_where p f xs)
  unfolding update_where
  Pointwise-update_where p f r h [] = tt
  Pointwise-update_where p f r h (x ∷ xs) = elim (Bool-cases (p x)) [
    | inl e ↦ rw e (h x e, Pointwise-update_where p f r h xs)
    | inr e ↦ rw e (r x, Pointwise-update_where p f r h xs)
  ]
