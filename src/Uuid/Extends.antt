-- ===== src/Uuid/Extends.antt =====
-- The pattern of a UUID reads 36 characters and leaves what follows.
use Prim.Native.String.{◌++◌ as ◌+++◌}
use Prim.Native.Char.{code}
use mathlib.Core.Option.{none-ne-some, some-injective}
use text.Mathlib.TextLemmas.{nil-append, cons-append}
use zevra_server.Prelude.{
  ℕ, zero, suc, ◌+◌, String, List, [], ◌∷◌, ◌++◌, Option, some, ◌≡◌, refl, ◌∙◌, ap, arith, length,
  Option-cases, inl, inr, true, false, Bool-cases, sym, subst, false≢true, ◌==◌, eq_iff,
}
use zevra_server.Js.{JsValue, undefined, null, boolean, number, string, array, object, codes}
use zevra_server.Redis.Values.{take}
use zevra_server.Uuid.{
  after_hex, after_char, after_uuid, is_hex_digit, ◌>>=◌, is_end, is_uuid_text, uuid_of,
}

abbrev Reader : Type 0
Reader = List ℕ → Option (List ℕ)

-- What `f` reads does not depend on what follows, and is of length `n`.
abbrev Reads : ℕ → Reader → Type 0
Reads n f =
    (cs r : List ℕ)
    → f cs ≡ some r
    → (length cs ≡ n + length r) × ((t : List ℕ) → f (cs ++ t) ≡ some (r ++ t))

after_hex-Reads : (n : ℕ) → Reads n (after_hex n)
unfolding after_hex
after_hex-Reads zero cs r h = (
  omega (arith, ap length (some-injective cs r h)),
  λ t. ap (λ l. some (l ++ t)) (some-injective cs r h),
)
after_hex-Reads (suc n) [] r h = ground arith
after_hex-Reads (suc n) (c ∷ cs) r h = elim (Bool-cases (is_hex_digit c)) [
  | inl hex ↦
      let ih = after_hex-Reads n cs r (rw hex at h) in (omega (arith, ih.0), λ t. rw hex (ih.1 t))
  | inr other ↦ absurd (ground arith)
]

after_char-Reads : (c : ℕ) → Reads 1 (after_char c)
unfolding after_char
after_char-Reads c [] r h = ground arith
after_char-Reads c (d ∷ cs) r h = (ground arith, λ t. ground arith)

bind-Reads : (n m : ℕ) (f g : Reader) → Reads n f → Reads m g → Reads (n + m) (λ cs. f cs >>= g)
bind-Reads n m f g hf hg cs r h = elim (Option-cases (f cs)) [
  | inl e ↦ absurd (ground arith)
  | inr (a, e) ↦
      let h' : g a ≡ some r = ap (λ o. o >>= g) (sym e) ∙ h in
      (
        omega (arith, (hf cs a e).0, (hg a r h').0),
        λ t. ap (λ o. o >>= g) ((hf cs a e).1 t) ∙ (hg a r h').1 t,
      )
]

pub after_uuid-Reads : Reads 36 after_uuid
unfolding after_uuid
after_uuid-Reads = bind-Reads 8 28 (after_hex 8) _ (after_hex-Reads 8) (
    bind-Reads 1 27 (after_char b'-') _ (after_char-Reads b'-') (
      bind-Reads 4 23 (after_hex 4) _ (after_hex-Reads 4) (
        bind-Reads 1 22 (after_char b'-') _ (after_char-Reads b'-') (
          bind-Reads 4 18 (after_hex 4) _ (after_hex-Reads 4) (
            bind-Reads 1 17 (after_char b'-') _ (after_char-Reads b'-') (
              bind-Reads 4 13 (after_hex 4) _ (after_hex-Reads 4) (
                bind-Reads 1 12 (after_char b'-') (after_hex 12) (after_char-Reads b'-')
                  (after_hex-Reads 12))))))))

pub take-exact : (n : ℕ) (cs t : List ℕ) → length cs ≡ n → take n (cs ++ t) ≡ cs
take-exact zero [] t h = refl
take-exact zero (c ∷ cs) t h = absurd (omega arith)
take-exact (suc n) [] t h = absurd (omega arith)
take-exact (suc n) (c ∷ cs) t h = ap (λ l. c ∷ l) (take-exact n cs t (omega arith))

pub codes-append : (s t : String) → codes (s +++ t) ≡ codes s ++ codes t
codes-append String.[] t = ap codes (nil-append t)
codes-append (String.◌∷◌ c s) t =
    ap codes (cons-append c s t) ∙ ap (λ l. code c ∷ l) (codes-append s t)

pub is_uuid_text-uuid_of :
    (v : JsValue) (id : String) → uuid_of v ≡ some id → is_uuid_text id ≡ true
unfolding uuid_of
is_uuid_text-uuid_of (string s) id h = elim (Bool-cases (is_uuid_text s)) [
  | inl e ↦ subst (λ x. is_uuid_text x ≡ true) (some-injective s id (rw e at h)) e
  | inr e ↦ absurd (none-ne-some id (rw e at h))
]
is_uuid_text-uuid_of undefined id h = absurd (none-ne-some id h)
is_uuid_text-uuid_of null id h = absurd (none-ne-some id h)
is_uuid_text-uuid_of (boolean x) id h = absurd (none-ne-some id h)
is_uuid_text-uuid_of (number x) id h = absurd (none-ne-some id h)
is_uuid_text-uuid_of (array x) id h = absurd (none-ne-some id h)
is_uuid_text-uuid_of (object x) id h = absurd (none-ne-some id h)

pub uuid_of-full : (v : JsValue) (id : String) → uuid_of v ≡ some id → (id == "") ≡ false
unfolding is_uuid_text after_uuid after_hex is_end
uuid_of-full v id h = elim (Bool-cases (id == "")) [
  | inl e ↦ absurd (
      false≢true
        (subst (λ x. is_uuid_text x ≡ true) ((eq_iff id "").0 e) (is_uuid_text-uuid_of v id h)))
  | inr e ↦ e
]
