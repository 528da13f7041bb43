-- ===== src/Reactions/Unique.antt =====
-- One reaction per user and message, reactions.service.ts.
use zevra_server.Prelude.{
  ℕ, ◌≤◌, ◌≡◌, refl, ◌∙◌, ap, sym, subst, String, Bool, true, false, not, ◌&&◌, List, [], ◌∷◌,
  arith, keep, any, length, Bool-cases, ◌==◌, inl, inr, eq_refl, both_eq_iff, eq_iff, and_true,
}
use zevra_server.Schema.{Reaction}
use zevra_server.Store.{Backend, World}
use zevra_server.Store.Laws.{keep-keep_implied, length-keep, one_kept, length-keep-keep}
use zevra_server.Errors.Thrown.{ok, thrown≢ok}
use zevra_server.Reactions.{
  is_mine, has_emoji, replace, add_reaction, remove_reaction, ReactionActor, finish_add,
  AddReactionResult, Removal,
}
use zevra_server.Reactions.OnePerUser.{new_row, mine-replace, others-replace}
use zevra_server.Reactions.Branches.{add_reaction_cases, remove_reaction_cases}

-- Every user has at most one reaction to every message.
abbrev pub OnePerUser : List Reaction → Type 0
OnePerUser l = (m u : String) → length (keep (is_mine m u) l) ≤ 1

same_pair : String → String → String → String → Bool
same_pair m u m2 u2 = m == m2 && u == u2

is_mine-other :
    (m u m2 u2 : String)
    → same_pair m u m2 u2 ≡ false
    → (r : Reaction) → is_mine m2 u2 r ≡ true
    → not (is_mine m u r) ≡ true
unfolding same_pair
is_mine-other m u m2 u2 h r e = ground (
  arith,
  both_eq_iff r.message_id m r.user_id u,
  both_eq_iff r.message_id m2 r.user_id u2,
  both_eq_iff m m2 u u2,
)

-- The rows of one user on one message change, all others stay.
module _ (m u : String) (l k : List Reaction)
    (others : keep (λ r. not (is_mine m u r)) k ≡ keep (λ r. not (is_mine m u r)) l) where
  keep-elsewhere :
      (m2 u2 : String)
      → same_pair m u m2 u2 ≡ false
      → keep (is_mine m2 u2) k ≡ keep (is_mine m2 u2) l
  keep-elsewhere m2 u2 h =
      sym
        (keep-keep_implied (is_mine m2 u2) (λ r. not (is_mine m u r)) (is_mine-other m u m2 u2 h) k)
      ∙ ap (keep (is_mine m2 u2)) others
      ∙ keep-keep_implied (is_mine m2 u2) (λ r. not (is_mine m u r)) (is_mine-other m u m2 u2 h) l

  OnePerUser-elsewhere : length (keep (is_mine m u) k) ≤ 1 → OnePerUser l → OnePerUser k
  unfolding same_pair
  OnePerUser-elsewhere h one m2 u2 = elim (Bool-cases (same_pair m u m2 u2)) [
    | inl e ↦
        (let (p, q) = (both_eq_iff m m2 u u2).0 e in
          subst (λ x. length (keep (is_mine x u2) k) ≤ 1) p
            (subst (λ x. length (keep (is_mine m x) k) ≤ 1) q h))
    | inr e ↦ rw (keep-elsewhere m2 u2 e) (one m2 u2)
  ]

module _ (b : Backend) where
  abbrev rows : b.reactions.State → List Reaction
  rows = b.reactions.rows

  module _ (w : World b) (actor : ReactionActor) (channel_id message_id emoji : String) where
    abbrev mine : Reaction → Bool
    mine = is_mine message_id actor.id

    abbrev others : List Reaction → List Reaction
    others = keep (λ r. not (mine r))

    abbrev wanted : Reaction → Bool
    wanted r = mine r && has_emoji emoji r

    module _ (id : String) (now : ℕ) (unique : OnePerUser (rows w.reactions)) where
      abbrev after : List Reaction
      after = rows (replace b w.reactions message_id actor.id emoji id now).table

      wanted_bound : length (keep wanted (rows w.reactions)) ≤ 1
      wanted_bound =
          let sub =
            keep-keep_implied wanted mine (λ r h. (and_true (mine r) (has_emoji emoji r) h).0)
              (rows w.reactions) in
          let small = length-keep wanted (keep mine (rows w.reactions)) in
          let one = unique message_id actor.id in
          let bound = rw sub at small in omega (arith, bound, one)

      -- One row is left, with the wanted emoji.
      replace_one : (row : Reaction) × (keep mine after ≡ row ∷ []) × (has_emoji emoji row ≡ true)
      replace_one = elim (Bool-cases (any wanted (rows w.reactions))) [
        | inl e ↦
            let (row, f, g) = one_kept wanted (rows w.reactions) e wanted_bound in
            (
              row,
              mine-replace b message_id actor.id emoji id now w.reactions ∙ rw e f,
              (and_true (mine row) (has_emoji emoji row) g).1,
            )
        | inr e ↦ (
          new_row b message_id actor.id emoji id now w.reactions,
          mine-replace b message_id actor.id emoji id now w.reactions ∙ rw e refl,
          eq_refl emoji,
        )
      ]

      replace-OnePerUser : OnePerUser after
      replace-OnePerUser =
          let (row, e, f) = replace_one in
          OnePerUser-elsewhere message_id actor.id (rows w.reactions) after
            (others-replace b message_id actor.id emoji id now w.reactions) (rw e (omega arith))
            unique

      -- Adding a reaction, accepted or refused, keeps at most one reaction per user and message.
      pub add_reaction-OnePerUser :
          OnePerUser (rows (add_reaction b w actor channel_id message_id emoji id now).0.reactions)
      unfolding finish_add
      add_reaction-OnePerUser =
          elim (add_reaction_cases b w actor channel_id message_id emoji id now) [
            | inl (e, h) ↦ rw h unique
            | inr (m, found, live, h) ↦ rw h replace-OnePerUser
          ]

      -- An accepted reaction is the only one that the user has on the message, and all other
      -- reactions are those there were, when each user had at most one per message.
      pub add_reaction-Sets :
          (r : AddReactionResult)
          → (add_reaction b w actor channel_id message_id emoji id now).1 ≡ ok r
          → let k = rows (add_reaction b w actor channel_id message_id emoji id now).0.reactions in
            ((row : Reaction) × (keep mine k ≡ row ∷ []) × (row.emoji ≡ emoji))
            × (others k ≡ others (rows w.reactions))
      unfolding finish_add
      add_reaction-Sets r h =
          elim (add_reaction_cases b w actor channel_id message_id emoji id now) [
            | inl (e, f) ↦ elim (thrown≢ok (rw f at h)) [ ]
            | inr (m, found, live, f) ↦
                let (row, g, i) = replace_one in
                rw f (
                  (row, g, (eq_iff row.emoji emoji).0 i),
                  others-replace b message_id actor.id emoji id now w.reactions,
                )
          ]

    -- An accepted removal takes away the reactions of the user to the message with the emoji and
    -- leaves all others.
    pub remove_reaction-Removes :
        (r : Removal)
        → (remove_reaction b w actor channel_id message_id emoji).1 ≡ ok r
        → rows (remove_reaction b w actor channel_id message_id emoji).0.reactions
          ≡ keep (λ x. not (wanted x)) (rows w.reactions)
    remove_reaction-Removes r h =
        elim (remove_reaction_cases b w actor channel_id message_id emoji) [
          | inl (e, f) ↦ elim (thrown≢ok (rw f at h)) [ ]
          | inr e ↦ rw e (b.reactions.rows_delete wanted w.reactions)
        ]

    -- Removing a reaction, accepted or refused, keeps at most one per user and message.
    remove_reaction-OnePerUser :
        OnePerUser (rows w.reactions)
        → OnePerUser (rows (remove_reaction b w actor channel_id message_id emoji).0.reactions)
    remove_reaction-OnePerUser unique m u =
        elim (remove_reaction_cases b w actor channel_id message_id emoji) [
          | inl (e, f) ↦ rw f (unique m u)
          | inr e ↦
              rw (e, b.reactions.rows_delete wanted w.reactions)
                (omega (
                  arith,
                  length-keep-keep (is_mine m u) (λ x. not (wanted x)) (rows w.reactions),
                  unique m u,
                ))
        ]
