-- ===== src/Reactions/Grouping.antt =====
-- The groups of `getReactions`, reactions.service.ts.
use mathlib.Core.List.{Perm}
use mathlib.Core.List.Permᴰ
use zevra_server.Prelude.{
  ◌≡◌, refl, ◌∙◌, String, Bool, true, false, List, [], ◌∷◌, any, keep, map, if◌then◌else◌,
  Bool-cases, inl, inr, ◌⊎◌, ◌==◌,
}
use zevra_server.Schema.{Reaction, Message}
use zevra_server.Store.{Backend, World}
use zevra_server.Errors.Thrown.{Result, ok, thrown, thrown≢ok}
use zevra_server.Store.Laws.{All}
use zevra_server.Reactions.Groups.{
  Group, add_row, group_rows, is_inherited, type_error, in_key_order,
}
use zevra_server.Reactions.Groups.Contents.{
  ids_of, IsCounted, collected, groups_for, ids_of-collected, collected-IsCounted,
  groups_for-collected, ids_of-in_key_order, groups_for-in_key_order, in_key_order-IsCounted,
}
use zevra_server.Reactions.{has_emoji, values_of, grouped, load_target, get_reactions}

-- One group for every emoji of the rows and none for another; it lists the users of the rows with
-- the emoji in some order, with the right count.
abbrev pub IsGrouping : List Reaction → List Group → Type 0
IsGrouping rs gs =
    ((e : String)
      → (groups_for e gs ≡ (if any (has_emoji e) rs then 1 else 0))
        × Perm (ids_of e gs) (map (λ r. r.user_id) (keep (has_emoji e) rs)))
    × All IsCounted gs

collected-IsGrouping : (rs : List Reaction) → IsGrouping rs (in_key_order (collected [] rs))
unfolding keep
collected-IsGrouping rs = (
  λ e. (
    groups_for-in_key_order e (collected [] rs) ∙ groups_for-collected e rs [],
    rw (ids_of-in_key_order e (collected [] rs), ids_of-collected e rs []) (∣ Permᴰ.refl _ ∣₁),
  ),
  in_key_order-IsCounted (collected [] rs) (collected-IsCounted rs [] tt),
)

abbrev pub has_inherited : Reaction → Bool
has_inherited r = is_inherited r.emoji

group_rows-throws :
    (rs : List Reaction) (gs : List Group)
    → group_rows gs rs ≡ (if any has_inherited rs then thrown type_error else ok (collected gs rs))
unfolding group_rows any
group_rows-throws [] gs = refl
group_rows-throws (r ∷ rs) gs = elim (Bool-cases (is_inherited r.emoji)) [
  | inl h ↦ rw h refl
  | inr h ↦ rw h (group_rows-throws rs (add_row r gs))
]

module _ (b : Backend) (w : World b) (message_id : String) where
  abbrev pub rows_of : List Reaction
  rows_of = keep (λ r. r.message_id == message_id) (b.reactions.rows w.reactions)

  -- What a member is answered.
  abbrev pub IsAnswer : Result (List Group) → Type 0
  IsAnswer answer =
      ((any has_inherited rows_of ≡ false)
        × (gs : List Group) × (answer ≡ ok gs)
        × IsGrouping rows_of gs)
      ⊎ ((any has_inherited rows_of ≡ true) × (answer ≡ thrown type_error))

  grouped-IsAnswer :
      (r : Result Message) (m : Message) → r ≡ ok m → IsAnswer (grouped b w message_id r)
  unfolding grouped values_of
  grouped-IsAnswer (thrown e) m h = elim (thrown≢ok h) [ ]
  grouped-IsAnswer (ok t) m h = elim (Bool-cases (any has_inherited rows_of)) [
    | inl i ↦ inr (i, rw (group_rows-throws rows_of [], i) refl)
    | inr i ↦ inl (
      i,
      in_key_order (collected [] rows_of),
      rw (group_rows-throws rows_of [], i) refl,
      collected-IsGrouping rows_of,
    )
  ]

  -- A member who asks for the reactions to a message of the channel gets one group for every emoji
  -- among them and no other group; it lists the users who reacted with the emoji, in some order,
  -- with their number as its count. If some emoji is a name that every object inherits, the answer
  -- is a TypeError instead.
  pub get_reactions-IsGrouping :
      (user_id channel_id : String) (target : Message)
      → load_target b w user_id channel_id message_id ≡ ok target
      → IsAnswer (get_reactions b w message_id user_id channel_id)
  unfolding get_reactions
  get_reactions-IsGrouping user_id channel_id target h = grouped-IsAnswer _ target h
