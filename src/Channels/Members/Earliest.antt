-- ===== src/Channels/Members/Earliest.antt =====
-- The longest-standing member, channels.service.ts.
use mathlib.Core.Option.{some-injective}
use zevra_server.Prelude.{
  ◌≡◌, ◌≢◌, refl, ◌∙◌, ap, sym, Bool, true, List, [], ◌∷◌, Option, none, some, arith, any, leb,
  Bool-cases, inl, inr, ◌⊎◌,
}
use zevra_server.Schema.{Membership}
use zevra_server.Store.Laws.{All}
use zevra_server.Channels.Members.{earliest, earlier}

earlier-pass :
    (r : Membership → Bool) (x m : Membership) (o : Option Membership)
    → earlier x o ≡ some m
    → r m ≡ true
    → (r x ≡ true) ⊎ (o ≡ some m)
unfolding earlier
earlier-pass r x m none e h = inl (ap r (some-injective x m e) ∙ h)
earlier-pass r x m (some k) e h = elim (Bool-cases (leb x.joined_at k.joined_at)) [
  | inl l ↦ inl (ap r (some-injective x m (rw l at e)) ∙ h)
  | inr l ↦ inr (rw l at e)
]

pub earliest-any :
    (r : Membership → Bool) (m : Membership) (xs : List Membership)
    → earliest xs ≡ some m
    → r m ≡ true
    → any r xs ≡ true
unfolding earliest any
earliest-any r m [] e h = ground arith
earliest-any r m (x ∷ xs) e h = elim (earlier-pass r x m (earliest xs) e h) [
  | inl k ↦ rw k refl
  | inr k ↦ rw (earliest-any r m xs k h) (ground arith)
]

earlier-All :
    (r : Membership → Bool) (x m : Membership) (o : Option Membership)
    → r x ≡ true
    → (o ≡ some m → r m ≡ true)
    → earlier x o ≡ some m
    → r m ≡ true
unfolding earlier
earlier-All r x m none h k e = ap r (sym (some-injective x m e)) ∙ h
earlier-All r x m (some j) h k e = elim (Bool-cases (leb x.joined_at j.joined_at)) [
  | inl l ↦ ap r (sym (some-injective x m (rw l at e))) ∙ h
  | inr l ↦ k (rw l at e)
]

pub earliest-All :
    (r : Membership → Bool) (xs : List Membership) (m : Membership)
    → All (λ x. r x ≡ true) xs
    → earliest xs ≡ some m
    → r m ≡ true
unfolding earliest
earliest-All r [] m h e = ground arith
earliest-All r (x ∷ xs) m (h, hs) e =
    earlier-All r x m (earliest xs) h (λ k. earliest-All r xs m hs k) e

earlier-some : (x : Membership) (o : Option Membership) → earlier x o ≢ none
unfolding earlier
earlier-some x none e = ground arith
earlier-some x (some k) e = ground arith

pub earliest-none : (xs : List Membership) → earliest xs ≡ none → xs ≡ []
unfolding earliest
earliest-none [] e = refl
earliest-none (x ∷ xs) e = elim (earlier-some x (earliest xs) e) [ ]
