-- ===== src/Redis/Values/Sorted.antt =====
-- Sorted sets under the commands that change them.
use zevra_server.Prelude.{
  ℕ, zero, suc, String, ◌≡◌, refl, ◌∙◌, ap, false, inl, inr, Option, none, some, List, [], ◌∷◌,
  ◌++◌, map, arith, eq_refl, eq_iff, Bool-cases, ◌==◌, keep, any,
}
use zevra_server.Redis.Values.{
  Entry, sorted, z_rem, effect, live, is_past, sorted_of, or_gone, value_of, with_value, without,
  take, drop,
}

-- No member twice, as in every sorted set.
abbrev pub IsDistinct : List (ℕ × String) → Type 0
IsDistinct [] = Unit
IsDistinct ((s, x) ∷ l) = (any (λ e. e.1 == x) l ≡ false) × IsDistinct l

abbrev pub names : List (ℕ × String) → List String
names = map (λ e. e.1)

sorted_of-or_gone :
    (now : ℕ) (e : Entry) (l : List (ℕ × String))
    → is_past now e.deadline ≡ false
    → sorted_of (live now (or_gone sorted (some e) l)) ≡ l
unfolding sorted_of or_gone value_of with_value live
sorted_of-or_gone now e [] h = refl
sorted_of-or_gone now e (x ∷ l) h = rw h refl

pub sorted_of-z_rem :
    (now : ℕ) (e : Option Entry) (ms : List String)
    → sorted_of (live now (effect now (z_rem ms) (live now e)))
      ≡ without ms (sorted_of (live now e))
unfolding sorted_of effect or_gone value_of live without keep
sorted_of-z_rem now none ms = refl
sorted_of-z_rem now (some e) ms = elim (Bool-cases (is_past now e.deadline)) [
  | inl past ↦ rw past refl
  | inr lasting ↦ rw lasting (sorted_of-or_gone now e _ lasting)
]

without_absent :
    (m : String) (ms : List String) (l : List (ℕ × String))
    → any (λ e. e.1 == m) l ≡ false
    → without (m ∷ ms) l ≡ without ms l
unfolding without keep any
without_absent m ms [] h = refl
without_absent m ms ((s, x) ∷ l) h = ground (arith, without_absent m ms l, eq_iff m x, eq_iff x m)

pub without_nil : (l : List (ℕ × String)) → without [] l ≡ l
unfolding without keep any
without_nil [] = refl
without_nil (e ∷ l) = rw (without_nil l)

-- Removing the first members of a sorted set leaves the others.
pub without-take :
    (n : ℕ) (l : List (ℕ × String)) → IsDistinct l → without (names (take n l)) l ≡ drop n l
unfolding without keep any
without-take zero l d = without_nil l
without-take (suc n) [] d = refl
without-take (suc n) ((s, x) ∷ l) (fresh, d) =
    rw eq_refl (without_absent x (names (take n l)) l fresh ∙ without-take n l d)

pub names-take-drop :
    (n : ℕ) (l : List (ℕ × String)) → names (take n l) ++ names (drop n l) ≡ names l
names-take-drop zero l = refl
names-take-drop (suc n) [] = refl
names-take-drop (suc n) (e ∷ l) = ap (◌∷◌ e.1) (names-take-drop n l)
