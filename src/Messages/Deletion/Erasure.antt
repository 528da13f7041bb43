-- ===== src/Messages/Deletion/Erasure.antt =====
-- What a deletion leaves in the table of messages, messages.service.ts.
use zevra_server.Prelude.{
  ℕ, ◌≡◌, refl, ap, sym, subst, String, Bool, true, false, not, ◌&&◌, List, [], ◌∷◌, Option, none,
  some, keep, any, find, update_where, Bool-cases, inl, inr, ◌==◌, eq_iff,
}
use zevra_server.Js.{null}
use zevra_server.Schema.{Message}
use zevra_server.Store.{Backend, World}
use zevra_server.Store.Laws.{All, keep-none, any-update_where}
use zevra_server.Store.Passing.{length-update_same}
use zevra_server.Errors.Thrown.{ok, thrown≢ok}
use zevra_server.Messages.Sending.{is_of}
use zevra_server.Messages.Sending.Sequence.{IsContiguous, sequences}
use zevra_server.Messages.Deletion.{
  DeletedMessage, erased, erase, told, delete_found, delete_message,
}

-- A deleted message keeps neither its ciphertext nor its metadata.
abbrev pub IsErased : Message → Type 0
IsErased m = m.is_deleted ≡ true → (m.encrypted_content ≡ "") × (m.metadata ≡ null)

-- Deleted messages are erased, and the numbers of every channel have no gaps.
abbrev pub IsTidy : List Message → Type 0
IsTidy l = All IsErased l × IsContiguous l

sequences-update :
    (c : String) (q : Message → Bool) (now : ℕ) (l : List Message)
    → sequences c (update_where q (erased now) l) ≡ sequences c l
unfolding keep update_where
sequences-update c q now [] = refl
sequences-update c q now (m ∷ l) = elim (Bool-cases (q m)) [
  | inl e ↦ elim (Bool-cases (is_of c m)) [
    | inl f ↦ rw (e, f) (ap (λ r. m.sequence_number ∷ r) (sequences-update c q now l))
    | inr f ↦ rw (e, f) (sequences-update c q now l)
  ]
  | inr e ↦ elim (Bool-cases (is_of c m)) [
    | inl f ↦ rw (e, f) (ap (λ r. m.sequence_number ∷ r) (sequences-update c q now l))
    | inr f ↦ rw (e, f) (sequences-update c q now l)
  ]
]

update-IsErased :
    (q : Message → Bool) (now : ℕ) (l : List Message)
    → All IsErased l
    → All IsErased (update_where q (erased now) l)
unfolding update_where
update-IsErased q now [] h = tt
update-IsErased q now (m ∷ l) (h, hs) = elim (Bool-cases (q m)) [
  | inl e ↦ rw e (λ x. (refl, refl), update-IsErased q now l hs)
  | inr e ↦ rw e (h, update-IsErased q now l hs)
]

update-IsTidy :
    (q : Message → Bool) (now : ℕ) (l : List Message)
    → IsTidy l
    → IsTidy (update_where q (erased now) l)
update-IsTidy q now l (h, k) = (
  update-IsErased q now l h,
  λ c.
      rw (sequences-update c q now l, length-update_same (is_of c) q (erased now) (λ x. refl) l)
        (k c),
)

none-live :
    (message_id : String) (now : ℕ) (l : List Message)
    → any
        (λ x. x.id == message_id && not x.is_deleted)
        (update_where (λ m. m.id == message_id) (erased now) l)
      ≡ false
none-live message_id now l =
    any-update_where (λ m. m.id == message_id) (λ x. x.id == message_id && not x.is_deleted)
      (erased now) (λ x h. rw h refl) (λ x h. rw h refl) l

module _ (b : Backend) where
  abbrev rows : World b → List Message
  rows w = b.messages.rows w.messages

  erase-messages :
      (w : World b) (msg : Message) (message_id : String) (now : ℕ)
      → rows (erase b w msg message_id now)
        ≡ update_where (λ m. m.id == message_id) (erased now) (rows w)
  unfolding erase
  erase-messages w msg message_id now =
      b.messages.rows_update (λ m. m.id == message_id) (erased now) w.messages

  told-messages :
      (w : World b) (msg : Message) (message_id : String) (now : ℕ)
      → (told b w msg message_id now).messages ≡ w.messages
  unfolding told
  told-messages w msg message_id now = refl

  delete_found-IsTidy :
      (w : World b) (user_id message_id : String) (now : ℕ) (o : Option Message)
      → IsTidy (rows w)
      → IsTidy (rows (delete_found b w user_id message_id now o).0)
  unfolding delete_found told erase
  delete_found-IsTidy w user_id message_id now none h = h
  delete_found-IsTidy w user_id message_id now (some msg) h =
      elim (Bool-cases (msg.sender_id == user_id)) [
        | inr e ↦ rw e h
        | inl e ↦ elim (Bool-cases msg.is_deleted) [
          | inl f ↦ rw (e, f) h
          | inr f ↦
              rw (e, f)
                (subst IsTidy (sym (erase-messages w msg message_id now))
                  (update-IsTidy (λ m. m.id == message_id) now (rows w) h))
        ]
      ]

  -- Deleting a message, accepted or refused, leaves every deleted message without ciphertext and
  -- metadata, and the numbers of every channel without gaps.
  pub delete_message-IsTidy :
      (w : World b) (user_id message_id : String) (now : ℕ)
      → IsTidy (rows w)
      → IsTidy (rows (delete_message b w user_id message_id now).0)
  unfolding delete_message
  delete_message-IsTidy w user_id message_id now h =
      delete_found-IsTidy w user_id message_id now _ h

  abbrev pub Deletes : World b → String → String → World b → Message → Type 0
  Deletes w user_id message_id v m =
      (m.sender_id ≡ user_id)
      × (m.is_deleted ≡ false
          → (any (λ x. x.id == message_id && not x.is_deleted) (rows v) ≡ false)
            × (keep (λ x. x.message_id == message_id) (b.reactions.rows v.reactions) ≡ []))

  delete_found-Deletes :
      (w : World b) (user_id message_id : String) (now : ℕ) (o : Option Message)
      (r : DeletedMessage)
      → (delete_found b w user_id message_id now o).1 ≡ ok r
      → (m : Message) × (o ≡ some m)
        × Deletes w user_id message_id (delete_found b w user_id message_id now o).0 m
  unfolding delete_found told erase
  delete_found-Deletes w user_id message_id now none r h = elim (thrown≢ok h) [ ]
  delete_found-Deletes w user_id message_id now (some msg) r h =
      elim (Bool-cases (msg.sender_id == user_id)) [
        | inr e ↦ elim (thrown≢ok (rw e at h)) [ ]
        | inl e ↦ (
          msg,
          refl,
          (
            (eq_iff msg.sender_id user_id).0 e,
            λ f.
                rw (e, f)
                  (
                    rw (b.messages.rows_update (λ m. m.id == message_id) (erased now) w.messages)
                        (none-live message_id now (rows w)),
                    rw (b.reactions.rows_delete (λ x. x.message_id == message_id) w.reactions) (
                        keep-none (λ x. x.message_id == message_id) (b.reactions.rows w.reactions)),
                  ),
          ),
        )
      ]

  -- Only the sender's deletion is accepted; it leaves no live message with the id and none of the
  -- reactions to it, unless the message had been deleted before.
  pub delete_message-Deletes :
      (w : World b) (user_id message_id : String) (now : ℕ) (r : DeletedMessage)
      → (delete_message b w user_id message_id now).1 ≡ ok r
      → (m : Message) × (find (λ x. x.id == message_id) (rows w) ≡ some m)
        × Deletes w user_id message_id (delete_message b w user_id message_id now).0 m
  unfolding delete_message
  delete_message-Deletes w user_id message_id now r h =
      delete_found-Deletes w user_id message_id now _ r h
