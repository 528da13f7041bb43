-- ===== src/Redis/Cache/Bounded.antt =====
-- The recent messages of a channel, redis-cache.service.ts.
use zevra_server.Prelude.{
  ℕ, zero, suc, ◌-◌, ◌+◌, ◌≤◌, ◌≡◌, refl, ◌∙◌, ap, sym, String, false, List, [], ◌∷◌, ◌++◌, Option,
  none, some, arith, length, length-append, Bool-cases, inl, inr,
}
use mathlib.Core.Option.{some-injective}
use zevra_server.Redis.{
  Redis, RedisKey, up, message_cache_key, message_cache_size, message_cache_seconds,
}
use zevra_server.Redis.Laws.{entry-run_self}
use zevra_server.Redis.Values.{
  Entry, items, r_push, l_trim, expire, live, items_of, value_of, effect, with_value, with_deadline,
  or_gone, is_past, last_of, drop,
}
use zevra_server.Redis.Session.{Client, when_up, multi}
use zevra_server.Redis.Cache.{cache_message}

length-drop : (n : ℕ) (xs : List String) → length (drop n xs) ≡ length xs - n
length-drop zero xs = omega arith
length-drop (suc n) [] = omega arith
length-drop (suc n) (x ∷ xs) = omega (arith, length-drop n xs)

drop-snoc :
    (n : ℕ) (xs : List String) (x : String)
    → n ≤ length xs
    → drop n (xs ++ x ∷ []) ≡ drop n xs ++ x ∷ []
drop-snoc zero xs x h = refl
drop-snoc (suc n) [] x h = ground arith
drop-snoc (suc n) (y ∷ xs) x h = drop-snoc n xs x (omega arith)

-- The list that is cached: at most 50, the new message last.
abbrev pub trimmed : List String → String → List String
trimmed old x = last_of message_cache_size (old ++ x ∷ [])

length-trimmed : (old : List String) (x : String) → length (trimmed old x) ≤ 50
unfolding last_of
length-trimmed old x = omega (arith, length-drop (length (old ++ x ∷ []) - 50) (old ++ x ∷ []))

trimmed-last :
    (old : List String) (x : String) → trimmed old x ≡ drop (length old + 1 - 50) old ++ x ∷ []
unfolding last_of
trimmed-last old x =
    rw (length-append old (x ∷ [])) (drop-snoc (length old + 1 - 50) old x (omega arith))

abbrev made : Option ℕ → List String → Entry
made d l = record { value = items l; deadline = d }

or_gone-snoc :
    (d : Option ℕ) (l ys : List String) (v : String)
    → or_gone items (some (made d l)) (ys ++ v ∷ []) ≡ some (made d (ys ++ v ∷ []))
unfolding or_gone with_value
or_gone-snoc d l [] v = refl
or_gone-snoc d l (y ∷ ys) v = refl

live-made :
    (now : ℕ) (d : Option ℕ) (l : List String)
    → is_past now d ≡ false
    → live now (some (made d l)) ≡ some (made d l)
unfolding live
live-made now d l h = rw h refl

-- The effect of the three commands on the entry.
abbrev steps : ℕ → String → Option Entry → Option Entry
steps now v e =
    effect now (expire message_cache_seconds)
      (live now (effect now (l_trim message_cache_size) (live now (effect now (r_push v) e))))

push-made :
    (now : ℕ) (v : String) (e : Option Entry) (x : Option Entry)
    → live now e ≡ x
    → (d : Option ℕ) × (is_past now d ≡ false)
      × (effect now (r_push v) x ≡ some (made d (items_of x ++ v ∷ [])))
unfolding effect with_value live is_past
push-made now v e none h = (none, refl, refl)
push-made now v none (some x) h = ground arith
push-made now v (some y) (some x) h = elim (Bool-cases (is_past now y.deadline)) [
  | inl p ↦ ground arith
  | inr p ↦ (
    x.deadline,
    ap (λ e. is_past now e.deadline) (sym (some-injective y x (rw p at h))) ∙ p,
    refl,
  )
]

trim-made :
    (now : ℕ) (d : Option ℕ) (old : List String) (v : String)
    → effect now (l_trim message_cache_size) (some (made d (old ++ v ∷ [])))
      ≡ some (made d (trimmed old v))
unfolding effect items_of value_of
trim-made now d old v =
    rw (trimmed-last old v) (or_gone-snoc d (old ++ v ∷ []) (drop (length old + 1 - 50) old) v)

expire-made :
    (now : ℕ) (d : Option ℕ) (l : List String)
    → items_of (live now (effect now (expire message_cache_seconds) (some (made d l)))) ≡ l
unfolding effect with_deadline items_of value_of live is_past
expire-made now d l = ground arith

steps-items :
    (now : ℕ) (v : String) (e : Option Entry) (x : Option Entry)
    → live now e ≡ x
    → items_of (live now (steps now v x)) ≡ trimmed (items_of x) v
steps-items now v e x h =
    let (d, alive, pushed) = push-made now v e x h in
    rw
      (
        pushed,
        live-made now d (items_of x ++ v ∷ []) alive,
        trim-made now d (items_of x) v,
        live-made now d (trimmed (items_of x) v) alive,
      )
      (expire-made now d (trimmed (items_of x) v))

module _ (r : Redis) where
  -- The cached messages of a channel, the oldest first.
  abbrev pub cached : ℕ → Client r → String → List String
  cached now c channel_id = items_of (live now (r.entry c.store (message_cache_key channel_id)))

  entry-multi :
      (now : ℕ) (v : String) (k : RedisKey) (s : r.State)
      → r.entry
          (multi r now k
            (r_push v ∷ l_trim message_cache_size ∷ expire message_cache_seconds ∷ [])
            s)
          k
        ≡ steps now v (live now (r.entry s k))
  unfolding multi
  entry-multi now v k s =
      entry-run_self r now k (expire message_cache_seconds) _
      ∙ ap (λ e. effect now (expire message_cache_seconds) (live now e))
          (entry-run_self r now k (l_trim message_cache_size) _
            ∙ ap (λ e. effect now (l_trim message_cache_size) (live now e))
                (entry-run_self r now k (r_push v) s))

  -- While Redis answers, a message that is cached becomes the last of the channel's messages, the
  -- oldest are dropped beyond 50, and no other is.
  pub cache_message-Trims :
      (c : Client r) (channel_id message : String) (now : ℕ)
      → c.link ≡ up
      → let old = cached now c channel_id in
        let new = cached now (cache_message r c channel_id message now) channel_id in
        (new ≡ drop (length old + 1 - 50) old ++ message ∷ []) × (length new ≤ 50)
  unfolding cache_message when_up
  cache_message-Trims c channel_id message now h =
      let k = message_cache_key channel_id in
      let after =
        ap (λ e. items_of (live now e)) (entry-multi now message k c.store)
        ∙ steps-items now message (r.entry c.store k) _ refl in
      rw (h, after)
        (
          trimmed-last (cached now c channel_id) message,
          length-trimmed (cached now c channel_id) message,
        )
