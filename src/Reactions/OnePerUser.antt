-- ===== src/Reactions/OnePerUser.antt =====
-- The rows that the transaction of `addReaction` leaves, reactions.service.ts.
use zevra_server.Prelude.{
  ℕ, ◌≡◌, refl, ◌∙◌, String, Bool, true, not, ◌&&◌, List, [], ◌∷◌, ◌++◌, keep, any, if◌then◌else◌,
  Bool-cases, inl, inr, keep-append, append-nil, eq_refl,
}
use zevra_server.Schema.{Reaction}
use zevra_server.Store.{Backend, insert_unless}
use zevra_server.Store.Laws.{keep_absent, spared, keep-spared, keep-spared_other, any-spared}
use zevra_server.Reactions.{is_mine, has_emoji, replace}

module _ (b : Backend) where
  abbrev rows : b.reactions.State → List Reaction
  rows = b.reactions.rows

  rows-insert_unless :
      (p : Reaction → Bool) (r : Reaction) (t : b.reactions.State)
      → rows (insert_unless b.reactions p r t)
        ≡ (if any p (rows t) then rows t else rows t ++ r ∷ [])
  unfolding insert_unless
  rows-insert_unless p r t = elim (Bool-cases (any p (rows t))) [
    | inl e ↦ rw e refl
    | inr e ↦ rw e (b.reactions.rows_insert r t)
  ]

  module _ (message_id user_id emoji id : String) (now : ℕ) (t : b.reactions.State) where
    abbrev mine : Reaction → Bool
    mine = is_mine message_id user_id

    abbrev pub same : Reaction → Bool
    same r = mine r && has_emoji emoji r

    abbrev pub new_row : Reaction
    new_row = record {
      id = id;
      emoji = emoji;
      created_at = now;
      message_id = message_id;
      user_id = user_id;
    }

    abbrev left : List Reaction
    left = spared mine (has_emoji emoji) (rows t)

    new_row-mine : mine new_row ≡ true
    new_row-mine = simp eq_refl

    keep-new_row-mine : keep mine (left ++ new_row ∷ []) ≡ keep mine left ++ new_row ∷ []
    unfolding keep
    keep-new_row-mine = keep-append mine left (new_row ∷ []) ∙ rw new_row-mine refl

    keep-new_row_other :
        keep (λ r. not (mine r)) (left ++ new_row ∷ []) ≡ keep (λ r. not (mine r)) left ++ []
    unfolding keep
    keep-new_row_other = keep-append (λ r. not (mine r)) left (new_row ∷ []) ∙ rw new_row-mine refl

    rows-replace :
        rows (replace b t message_id user_id emoji id now).table
        ≡ (if any same (rows t) then left else left ++ new_row ∷ [])
    unfolding replace
    rows-replace =
        rows-insert_unless same new_row _
        ∙ rw
            (
              b.reactions.rows_delete (λ r. mine r && not (has_emoji emoji r)) t,
              any-spared mine (has_emoji emoji) (rows t),
            )
            refl

    -- After the transaction the user's reactions to the message are the old ones with this emoji,
    -- or the new one if there was none.
    pub mine-replace :
        keep (is_mine message_id user_id) (rows (replace b t message_id user_id emoji id now).table)
        ≡ (if any same (rows t) then keep same (rows t) else new_row ∷ [])
    mine-replace = elim (Bool-cases (any same (rows t))) [
      | inl e ↦ rw (rows-replace, e) (keep-spared mine (has_emoji emoji) (rows t))
      | inr e ↦
          rw (rows-replace, e)
            (keep-new_row-mine
              ∙ rw (keep-spared mine (has_emoji emoji) (rows t), keep_absent same (rows t) e) refl)
    ]

    pub others-replace :
        keep
          (λ r. not (is_mine message_id user_id r))
          (rows (replace b t message_id user_id emoji id now).table)
        ≡ keep (λ r. not (is_mine message_id user_id r)) (rows t)
    others-replace = elim (Bool-cases (any same (rows t))) [
      | inl e ↦ rw (rows-replace, e) (keep-spared_other mine (has_emoji emoji) (rows t))
      | inr e ↦
          rw (rows-replace, e)
            (keep-new_row_other ∙ append-nil _ ∙ keep-spared_other mine (has_emoji emoji) (rows t))
    ]
