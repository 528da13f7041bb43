-- ===== src/Livekit/Rooms.antt =====
-- The names of rooms are read back as what they were made of, livekit.service.ts.
use Prim.Native.String.{◌++◌ as ◌+++◌}
use zevra_server.Prelude.{
  ℕ, String, true, false≢true, ◌||◌, List, [], ◌∷◌, ◌++◌, Option, none, some, ◌≡◌, refl, ◌∙◌, ap,
  sym, arith, any, Bool-cases, inl, inr, append-nil,
}
use zevra_server.Js.{codes}
use zevra_server.Redis.Values.{take}
use zevra_server.Store.{Backend, World}
use zevra_server.Uuid.{after_uuid, after_char, is_end, is_uuid_text, same_uuid}
use zevra_server.Uuid.Extends.{after_uuid-Reads, take-exact, codes-append}
use zevra_server.Livekit.{
  after_word, second_user, dm_users, group_channel, group_access, access, authorize_room_access,
  get_dm_room_name, get_group_room_name, is_after, is_active_member,
}

after_uuid-text : (s : String) → is_uuid_text s ≡ true → after_uuid (codes s) ≡ some []
unfolding is_uuid_text
after_uuid-text s h = end_of (after_uuid (codes s)) h
  where
    end_of : (o : Option (List ℕ)) → is_end o ≡ true → o ≡ some []
    end_of (some []) h = refl
    end_of (some (c ∷ cs)) h = elim (false≢true h) [ ]
    end_of none h = elim (false≢true h) [ ]

module _ (x : String) (hx : is_uuid_text x ≡ true) where
  take-uuid : (t : List ℕ) → take 36 (codes x ++ t) ≡ codes x
  take-uuid t =
      take-exact 36 (codes x) t
        (omega (arith, (after_uuid-Reads (codes x) [] (after_uuid-text x hx)).0))

  take_all : take 36 (codes x) ≡ codes x
  take_all = ap (take 36) (sym (append-nil (codes x))) ∙ take-uuid []

  after_uuid-append : (t : List ℕ) → after_uuid (codes x ++ t) ≡ some t
  after_uuid-append t = (after_uuid-Reads (codes x) [] (after_uuid-text x hx)).1 t

module _ (x : String) (hx : is_uuid_text x ≡ true) where
  group_channel-name : group_channel (codes (get_group_room_name x)) ≡ some (codes x)
  unfolding group_channel get_group_room_name after_word is_end
  group_channel-name =
      rw (codes-append "group-" x) (rw (after_uuid-text x hx) (ap some (take_all x hx)))

  second_user-name :
      (y : String)
      → is_uuid_text y ≡ true
      → second_user (codes x ++ b'-' ∷ codes y) (codes y) ≡ some (codes x, codes y)
  unfolding second_user is_end
  second_user-name y hy = rw (after_uuid-text y hy) (
      ap some (
        ap (λ l. (l, take 36 (codes y))) (take-uuid x hx (b'-' ∷ codes y))
        ∙ ap (λ l. (codes x, l)) (take_all y hy)))

  dm_users-name :
      (y : String)
      → is_uuid_text y ≡ true
      → dm_users (codes ("dm-" +++ (x +++ ("-" +++ y)))) ≡ some (codes x, codes y)
  unfolding dm_users second_user after_word after_char is_end
  dm_users-name y hy = rw (codes-append "dm-" (x +++ ("-" +++ y))) (
      rw (codes-append x ("-" +++ y)) (
        rw (codes-append "-" y)
          (rw (after_uuid-append x hx (b'-' ∷ codes y), dm_users) (second_user-name y hy))))

module _ (b : Backend) (w : World b) where
  -- For two UUIDs in either case, a user may join the room of the direct channel of the two exactly
  -- if the user's id is one of them, in either case, whatever the order of the two and whatever the
  -- tables hold.
  pub authorize_room_access-dm :
      (x y user_id : String)
      → is_uuid_text x ≡ true
      → is_uuid_text y ≡ true
      → authorize_room_access b w (get_dm_room_name x y) user_id
        ≡ (same_uuid x user_id || same_uuid y user_id)
  unfolding authorize_room_access access get_dm_room_name same_uuid
  authorize_room_access-dm x y user_id hx hy = elim (Bool-cases (is_after x y)) [
    | inl swapped ↦ rw swapped (rw (dm_users-name y hy x hx) (ground arith))
    | inr sorted ↦ rw sorted (rw (dm_users-name x hx y hy) refl)
  ]

  dm_users-group : (c : String) → dm_users (codes (get_group_room_name c)) ≡ none
  unfolding dm_users get_group_room_name after_word
  dm_users-group c = rw (codes-append "group-" c) refl

  pub authorize_room_access-group :
      (channel_id user_id : String)
      → is_uuid_text channel_id ≡ true
      → authorize_room_access b w (get_group_room_name channel_id) user_id
        ≡ any (is_active_member (codes channel_id) user_id) (b.memberships.rows w.memberships)
  unfolding authorize_room_access access group_access
  authorize_room_access-group c user_id h = rw (dm_users-group c, group_channel-name c h) refl
