-- ===== src/Redis/Laws.antt =====
-- The law of commands at the key itself and at another one.
use zevra_server.Prelude.{ℕ, ◌≡◌, ◌∙◌, ap, true, false, eq_refl, if◌then◌else◌}
use zevra_server.Redis.{Redis, RedisKey, same_key, Link, up, down, failing}
use zevra_server.Redis.Values.{Command, effect, live}

pub same_key_self : (k : RedisKey) → same_key k k ≡ true
same_key_self k = simp eq_refl

-- What holds of both results of a method holds of the one for the state of the link.
pub by_link {ℓ} :
    {A : Type ℓ} (P : A → Type 0) {x y : A} → P x → P y → (l : Link) → P (elim l [ up ↦ x | _ ↦ y ])
by_link P px py up = px
by_link P px py down = py
by_link P px py failing = py

module _ (r : Redis) (now : ℕ) (k : RedisKey) (c : Command) (s : r.State) where
  pub entry-run_self : r.entry (r.run now k c s) k ≡ effect now c (live now (r.entry s k))
  entry-run_self =
      r.entry_run now k c s k
      ∙ ap (λ b. if b then effect now c (live now (r.entry s k)) else r.entry s k) (same_key_self k)

  pub entry-run_other :
      (j : RedisKey) → same_key k j ≡ false → r.entry (r.run now k c s) j ≡ r.entry s j
  entry-run_other j h =
      r.entry_run now k c s j
      ∙ ap (λ b. if b then effect now c (live now (r.entry s k)) else r.entry s j) h
