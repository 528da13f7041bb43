-- ===== src/Reactions/Groups/Tests.antt =====
-- Array indices come first, in ascending order, and other emojis in the order of their making.
use zevra_server.Prelude.{String, [], ◌∷◌, ◌≡◌, refl, map}
use zevra_server.Js.Decimal.{number_of}
use zevra_server.Reactions.Groups.{
  Group, in_key_order, place, overtakes, key_index, index_first, no_leading_zero,
}

abbrev group_of : String → Group
group_of emoji = record { emoji = emoji; user_ids = "u" ∷ []; count = 1 }

in_key_order-mixed :
    map
      (λ g. g.emoji)
      (in_key_order
        (map group_of ("smile" ∷ "10" ∷ "07" ∷ "3" ∷ "heart" ∷ "4294967295" ∷ "0" ∷ [])))
    ≡ "0" ∷ "3" ∷ "10" ∷ "smile" ∷ "07" ∷ "heart" ∷ "4294967295" ∷ []
unfolding in_key_order place overtakes key_index index_first no_leading_zero number_of
in_key_order-mixed = refl
