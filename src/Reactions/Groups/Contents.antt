-- ===== src/Reactions/Groups/Contents.antt =====
-- What the groups hold after the loop of `getReactions`, and in the order of `Object.values`.
use zevra_server.Prelude.{
  ℕ, suc, ◌≡◌, refl, ◌∙◌, sym, ap, subst, String, Bool, true, false, true≢false, List, [], ◌∷◌,
  ◌++◌, append-nil, append_assoc, arith, any, keep, map, max, length, length-append, if◌then◌else◌,
  Bool-cases, inl, inr, ◌==◌, eq_iff,
}
use zevra_server.Schema.{Reaction}
use zevra_server.Store.Laws.{All}
use zevra_server.Reactions.Groups.{Group, add_row, overtakes, overtakes_self, place, in_key_order}
use zevra_server.Reactions.{has_emoji}

-- The user ids under an emoji; none if there is no group for it.
abbrev pub ids_of : String → List Group → List String
ids_of e [] = []
ids_of e (g ∷ gs) = if g.emoji == e then g.user_ids else ids_of e gs

abbrev pub IsCounted : Group → Type 0
IsCounted g = g.count ≡ length g.user_ids

abbrev with_row : String → Reaction → List String → List String
with_row e r ids = if r.emoji == e then ids ++ r.user_id ∷ [] else ids

same_emoji : (r e g : String) → (g == r) ≡ true → (g == e) ≡ true → (r == e) ≡ true
same_emoji r e g h k = (eq_iff r e).1 (sym ((eq_iff g r).0 h) ∙ (eq_iff g e).0 k)

other_emoji : (r e g : String) → (g == r) ≡ true → (g == e) ≡ false → (r == e) ≡ false
other_emoji r e g h k = subst (λ x. (x == e) ≡ false) ((eq_iff g r).0 h) k

third_emoji : (r e g : String) → (g == r) ≡ false → (g == e) ≡ true → (r == e) ≡ false
third_emoji r e g h k = ground (arith, eq_iff g r, eq_iff g e, eq_iff r e)

ids_of-add_row :
    (e : String) (r : Reaction) (gs : List Group)
    → ids_of e (add_row r gs) ≡ with_row e r (ids_of e gs)
unfolding add_row
ids_of-add_row e r [] = refl
ids_of-add_row e r (g ∷ gs) = elim (Bool-cases (g.emoji == r.emoji)) [
  | inl h ↦ elim (Bool-cases (g.emoji == e)) [
    | inl k ↦ rw (h, k, same_emoji r.emoji e g.emoji h k) refl
    | inr k ↦ rw (h, k, other_emoji r.emoji e g.emoji h k) refl
  ]
  | inr h ↦ elim (Bool-cases (g.emoji == e)) [
    | inl k ↦ rw (h, k, third_emoji r.emoji e g.emoji h k) refl
    | inr k ↦ rw (h, k) (ids_of-add_row e r gs)
  ]
]

-- The groups of rows none of which has an inherited name.
abbrev pub collected : List Group → List Reaction → List Group
collected gs [] = gs
collected gs (r ∷ rs) = collected (add_row r gs) rs

pub ids_of-collected :
    (e : String) (rs : List Reaction) (gs : List Group)
    → ids_of e (collected gs rs) ≡ ids_of e gs ++ map (λ r. r.user_id) (keep (has_emoji e) rs)
unfolding keep
ids_of-collected e [] gs = sym (append-nil (ids_of e gs))
ids_of-collected e (r ∷ rs) gs =
    ids_of-collected e rs (add_row r gs) ∙ elim (Bool-cases (r.emoji == e)) [
      | inl h ↦
          rw (ids_of-add_row e r gs, h)
            (append_assoc (ids_of e gs) (r.user_id ∷ [])
              (map (λ x. x.user_id) (keep (has_emoji e) rs)))
      | inr h ↦ rw (ids_of-add_row e r gs, h) refl
    ]

add_row-IsCounted :
    (r : Reaction) (gs : List Group) → All IsCounted gs → All IsCounted (add_row r gs)
unfolding add_row
add_row-IsCounted r [] h = (refl, tt)
add_row-IsCounted r (g ∷ gs) (h, hs) = elim (Bool-cases (g.emoji == r.emoji)) [
  | inl k ↦ rw k (omega (arith, h, length-append g.user_ids (r.user_id ∷ [])), hs)
  | inr k ↦ rw k (h, add_row-IsCounted r gs hs)
]

pub collected-IsCounted :
    (rs : List Reaction) (gs : List Group) → All IsCounted gs → All IsCounted (collected gs rs)
collected-IsCounted [] gs h = h
collected-IsCounted (r ∷ rs) gs h = collected-IsCounted rs (add_row r gs) (add_row-IsCounted r gs h)

-- The number of groups for an emoji.
abbrev pub groups_for : String → List Group → ℕ
groups_for e gs = length (keep (λ g. g.emoji == e) gs)

groups_for-add_row :
    (e : String) (r : Reaction) (gs : List Group)
    → groups_for e (add_row r gs)
      ≡ (if r.emoji == e then max 1 (groups_for e gs) else groups_for e gs)
unfolding add_row keep
groups_for-add_row e r [] = elim (Bool-cases (r.emoji == e)) [
  | inl h ↦ rw h refl
  | inr h ↦ rw h refl
]
groups_for-add_row e r (g ∷ gs) = elim (Bool-cases (g.emoji == r.emoji)) [
  | inl h ↦ elim (Bool-cases (g.emoji == e)) [
    | inl k ↦ rw (h, k, same_emoji r.emoji e g.emoji h k) (omega arith)
    | inr k ↦ rw (h, k, other_emoji r.emoji e g.emoji h k) refl
  ]
  | inr h ↦ elim (Bool-cases (g.emoji == e)) [
    | inl k ↦
        let u = third_emoji r.emoji e g.emoji h k in
        rw (h, k, u) (ap suc (rw u at (groups_for-add_row e r gs)))
    | inr k ↦ rw (h, k) (groups_for-add_row e r gs)
  ]
]

pub groups_for-collected :
    (e : String) (rs : List Reaction) (gs : List Group)
    → groups_for e (collected gs rs)
      ≡ (if any (has_emoji e) rs then max 1 (groups_for e gs) else groups_for e gs)
unfolding any
groups_for-collected e [] gs = refl
groups_for-collected e (r ∷ rs) gs =
    groups_for-collected e rs (add_row r gs) ∙ elim (Bool-cases (r.emoji == e)) [
      | inl h ↦ rw (groups_for-add_row e r gs, h) (twice (any (has_emoji e) rs) (groups_for e gs))
      | inr h ↦ rw (groups_for-add_row e r gs, h) refl
    ]
  where
    twice : (t : Bool) (n : ℕ) → (if t then max 1 (max 1 n) else max 1 n) ≡ max 1 n
    twice true n = omega arith
    twice false n = refl

-- The order of the groups changes neither the users under an emoji nor the number of its groups.
ids_of-place :
    (e : String) (g : Group) (gs : List Group) → ids_of e (place g gs) ≡ ids_of e (g ∷ gs)
unfolding place
ids_of-place e g [] = refl
ids_of-place e g (x ∷ xs) = elim (Bool-cases (overtakes x.emoji g.emoji)) [
  | inr o ↦ rw o refl
  | inl o ↦ elim (Bool-cases (x.emoji == e)) [
    | inl h ↦ rw (o, h, apart h o) refl
    | inr h ↦ rw (o, h) (ids_of-place e g xs)
  ]
]
  where
    apart : (x.emoji == e) ≡ true → overtakes x.emoji g.emoji ≡ true → (g.emoji == e) ≡ false
    apart h o = elim (Bool-cases (g.emoji == e)) [
      | inr k ↦ k
      | inl k ↦
          let same = (eq_iff g.emoji e).0 k ∙ sym ((eq_iff x.emoji e).0 h) in
          elim (true≢false (sym o ∙ ap (overtakes x.emoji) same ∙ overtakes_self x.emoji)) [ ]
    ]

groups_for-place :
    (e : String) (g : Group) (gs : List Group) → groups_for e (place g gs) ≡ groups_for e (g ∷ gs)
unfolding place keep
groups_for-place e g [] = refl
groups_for-place e g (x ∷ xs) = ground (arith, groups_for-place e g xs)

place-IsCounted :
    (g : Group) (gs : List Group) → IsCounted g → All IsCounted gs → All IsCounted (place g gs)
unfolding place
place-IsCounted g [] h hs = (h, tt)
place-IsCounted g (x ∷ xs) h (k, ks) = elim (Bool-cases (overtakes x.emoji g.emoji)) [
  | inl o ↦ rw o (k, place-IsCounted g xs h ks)
  | inr o ↦ rw o (h, (k, ks))
]

pub ids_of-in_key_order : (e : String) (gs : List Group) → ids_of e (in_key_order gs) ≡ ids_of e gs
unfolding in_key_order
ids_of-in_key_order e [] = refl
ids_of-in_key_order e (g ∷ gs) =
    ids_of-place e g (in_key_order gs) ∙ rw (ids_of-in_key_order e gs) refl

pub groups_for-in_key_order :
    (e : String) (gs : List Group) → groups_for e (in_key_order gs) ≡ groups_for e gs
unfolding in_key_order keep
groups_for-in_key_order e [] = refl
groups_for-in_key_order e (g ∷ gs) =
    groups_for-place e g (in_key_order gs) ∙ elim (Bool-cases (g.emoji == e)) [
      | inl h ↦ rw h (ap suc (groups_for-in_key_order e gs))
      | inr h ↦ rw h (groups_for-in_key_order e gs)
    ]

pub in_key_order-IsCounted : (gs : List Group) → All IsCounted gs → All IsCounted (in_key_order gs)
unfolding in_key_order
in_key_order-IsCounted [] h = tt
in_key_order-IsCounted (g ∷ gs) (h, hs) =
    place-IsCounted g (in_key_order gs) h (in_key_order-IsCounted gs hs)
