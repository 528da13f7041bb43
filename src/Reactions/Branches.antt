-- ===== src/Reactions/Branches.antt =====
-- The branches of `addReaction` and `removeReaction`, reactions.service.ts.
use zevra_server.Prelude.{
  ℕ, ◌≡◌, refl, String, true, false, ◌&&◌, Option, none, some, arith, any, Bool-cases, ◌==◌, inl,
  inr, ◌⊎◌, ◌↔◌, eq_iff,
}
use zevra_server.Schema.{Message}
use zevra_server.Store.{Backend, World, select_one}
use zevra_server.Errors.Thrown.{Thrown, Result, ok, thrown, bad_request}
use zevra_server.Reactions.{
  is_mine, has_emoji, replace, add_reaction, remove_reaction, add_to, remove_from, finish_add,
  load_target, check_target, ReactionActor,
}

module _ (b : Backend) where
  -- The message exists in the channel, is not deleted, and the user is a member.
  abbrev pub IsTarget : World b → String → String → Message → Type 0
  IsTarget w user_id channel_id m =
      (m.channel_id ≡ channel_id)
      × (any (λ x. x.channel_id == m.channel_id && x.user_id == user_id)
            (b.memberships.rows w.memberships)
          ≡ true)

  check_target-ok_iff :
      (w : World b) (user_id channel_id : String) (o : Option Message) (m : Message)
      → (check_target b w user_id channel_id o ≡ ok m)
        ↔ ((o ≡ some m) × IsTarget w user_id channel_id m)
  unfolding check_target
  check_target-ok_iff w user_id channel_id none m = ground arith
  check_target-ok_iff w user_id channel_id (some x) m =
      ground (arith, eq_iff x.channel_id channel_id)

  pub load_target-ok_iff :
      (w : World b) (user_id channel_id message_id : String) (m : Message)
      → (load_target b w user_id channel_id message_id ≡ ok m) ↔ (
          (select_one b.messages (λ x. x.id == message_id) w.messages ≡ some m)
          × IsTarget w user_id channel_id m)
  unfolding load_target
  load_target-ok_iff w user_id channel_id message_id m =
      check_target-ok_iff w user_id channel_id _ m

  module _ (w : World b) (actor : ReactionActor) (channel_id message_id emoji : String) where
    add_to_cases :
        (id : String) (now : ℕ) (r : Result Message)
        → ((e : Thrown) × (add_to b w actor channel_id message_id emoji id now r ≡ (w, thrown e)))
          ⊎ ((m : Message) × (r ≡ ok m)
              × (m.is_deleted ≡ false)
              × (add_to b w actor channel_id message_id emoji id now r
                  ≡ finish_add b w actor channel_id message_id emoji
                      (replace b w.reactions message_id actor.id emoji id now)))
    unfolding add_to
    add_to_cases id now (thrown e) = inl (e, refl)
    add_to_cases id now (ok m) = elim (Bool-cases m.is_deleted) [
      | inl e ↦ inl (bad_request "Message has been deleted", rw e refl)
      | inr e ↦ inr (m, refl, e, rw e refl)
    ]

    pub add_reaction_cases :
        (id : String) (now : ℕ)
        → ((e : Thrown) × (add_reaction b w actor channel_id message_id emoji id now
              ≡ (w, thrown e)))
          ⊎ ((m : Message) × (load_target b w actor.id channel_id message_id ≡ ok m)
              × (m.is_deleted ≡ false)
              × (add_reaction b w actor channel_id message_id emoji id now
                  ≡ finish_add b w actor channel_id message_id emoji
                      (replace b w.reactions message_id actor.id emoji id now)))
    unfolding add_reaction
    add_reaction_cases id now = add_to_cases id now _

    remove_from_cases :
        (r : Result Message)
        → ((e : Thrown) × (remove_from b w actor channel_id message_id emoji r ≡ (w, thrown e)))
          ⊎ ((remove_from b w actor channel_id message_id emoji r).0.reactions
              ≡ b.reactions.delete
                  (λ x. is_mine message_id actor.id x && has_emoji emoji x)
                  w.reactions)
    unfolding remove_from
    remove_from_cases (thrown e) = inl (e, refl)
    remove_from_cases (ok m) =
        elim (Bool-cases (
          any (λ x. is_mine message_id actor.id x && has_emoji emoji x)
            (b.reactions.rows w.reactions))) [ inl e ↦ inr (rw e refl) | inr e ↦ inr (rw e refl) ]

    pub remove_reaction_cases :
        ((e : Thrown) × (remove_reaction b w actor channel_id message_id emoji ≡ (w, thrown e)))
        ⊎ ((remove_reaction b w actor channel_id message_id emoji).0.reactions
            ≡ b.reactions.delete
                (λ x. is_mine message_id actor.id x && has_emoji emoji x)
                w.reactions)
    unfolding remove_reaction
    remove_reaction_cases = remove_from_cases _
