-- ===== src/Keys/Upload.antt =====
-- Which sender keys an upload leaves, keys.service.ts.
use zevra_server.Prelude.{
  ℕ, ◌≡◌, refl, ◌∙◌, sym, String, Bool, true, false, not, List, [], ◌∷◌, ◌++◌, append-nil,
  append_assoc, Option, none, arith, keep, map, length, eqb, ltb, Option-cases, inl, inr, ◌⊎◌,
  eq_refl, keep-append,
}
use zevra_server.Js.{distinct_from, includes}
use zevra_server.Schema.{SenderKey}
use zevra_server.Store.{Backend, World}
use zevra_server.Store.Laws.{All, keep-none, keep-All, drop-All, keep-keep_same}
use zevra_server.Errors.Thrown.{Thrown, Result, ok, thrown, thrown≢ok}
use zevra_server.Keys.{
  SenderKeyItem, upload_sender_keys, store_keys, insert_all, is_own_key, new_sender_key,
  refuse_upload, stored_or, active_members,
}

refuse_upload-none :
    (d m o : Bool) → refuse_upload d m o ≡ none → (d ≡ false) × (m ≡ true) × (o ≡ false)
unfolding refuse_upload
refuse_upload-none false true false h = (refl, refl, refl)
refuse_upload-none _ _ _ h = ground arith

new_sender_key-IsOwn :
    (owner_id group_id : String) (epoch : ℕ) (new_id : String → String) (now : ℕ)
    (items : List SenderKeyItem)
    → All
        (λ k. is_own_key owner_id group_id epoch k ≡ true)
        (map (new_sender_key owner_id group_id epoch new_id now) items)
unfolding is_own_key
new_sender_key-IsOwn owner_id group_id epoch new_id now [] = tt
new_sender_key-IsOwn owner_id group_id epoch new_id now (i ∷ items) = (
  rw (eq_refl group_id, eq_refl owner_id) (ground arith),
  new_sender_key-IsOwn owner_id group_id epoch new_id now items,
)

module _ (b : Backend) where
  abbrev keys : World b → List SenderKey
  keys w = b.sender_keys.rows w.sender_keys

  rows-insert_all :
      (rs : List SenderKey) (t : b.sender_keys.State)
      → b.sender_keys.rows (insert_all b rs t) ≡ b.sender_keys.rows t ++ rs
  unfolding insert_all
  rows-insert_all [] t = sym (append-nil _)
  rows-insert_all (r ∷ rs) t =
      rows-insert_all rs (b.sender_keys.insert r t)
      ∙ rw (b.sender_keys.rows_insert r t) (append_assoc (b.sender_keys.rows t) (r ∷ []) rs)

  -- The upload is allowed.
  abbrev pub IsAllowed : World b → String → String → List SenderKeyItem → Type 0
  IsAllowed w owner_id group_id items =
      let receiver_ids = distinct_from [] (map (λ i. i.receiver_id) items) in
      let members = active_members b w group_id (owner_id ∷ receiver_ids) in
      (length receiver_ids ≡ length items)
      × (includes members owner_id ≡ true)
      × (keep (λ id. not (includes members id)) receiver_ids ≡ [])

  module _ (w : World b) (owner_id group_id : String) (epoch : ℕ) (items : List SenderKeyItem)
      (new_id : String → String) (now : ℕ) where
    abbrev uploaded : World b × Result (Unit {0})
    uploaded = upload_sender_keys b w owner_id group_id epoch items new_id now

    abbrev new_rows : List SenderKey
    new_rows = map (new_sender_key owner_id group_id epoch new_id now) items

    abbrev own : SenderKey → Bool
    own = is_own_key owner_id group_id epoch

    abbrev refused : Option Thrown
    refused =
        let receiver_ids = distinct_from [] (map (λ i. i.receiver_id) items) in
        let members = active_members b w group_id (owner_id ∷ receiver_ids) in
        refuse_upload (not (eqb (length receiver_ids) (length items))) (includes members owner_id)
          (ltb 0 (length (keep (λ id. not (includes members id)) receiver_ids)))

    refused-IsAllowed : refused ≡ none → IsAllowed w owner_id group_id items
    refused-IsAllowed h =
        let (d, m, o) = refuse_upload-none _ _ _ h in (ground arith, m, ground arith)

    -- An upload is refused and changes nothing, or is allowed and stored.
    upload_cases :
        ((e : Thrown) × (uploaded ≡ (w, thrown e)))
        ⊎ (IsAllowed w owner_id group_id items × (uploaded ≡ store_keys b w own new_rows))
    unfolding upload_sender_keys stored_or
    upload_cases = elim (Option-cases refused) [
      | inl e ↦ inr (refused-IsAllowed e, rw e refl)
      | inr (x, e) ↦ inl (x, rw e refl)
    ]

    store_keys-ok :
        (rs : List SenderKey)
        → (store_keys b w own rs).1 ≡ ok tt
        → keys (store_keys b w own rs).0 ≡ keep (λ k. not (own k)) (keys w) ++ rs
    unfolding store_keys
    store_keys-ok [] h = elim (thrown≢ok h) [ ]
    store_keys-ok (r ∷ rs) h =
        rows-insert_all (r ∷ rs) (b.sender_keys.delete own w.sender_keys)
        ∙ rw (b.sender_keys.rows_delete own w.sender_keys) refl

    store_keys-thrown :
        (e : Thrown) (rs : List SenderKey)
        → (store_keys b w own rs).1 ≡ thrown e
        → (store_keys b w own rs).0 ≡ w
    unfolding store_keys
    store_keys-thrown e [] h = refl
    store_keys-thrown e (r ∷ rs) h = elim (thrown≢ok (sym h)) [ ]

    -- After an accepted upload the owner's keys of the group and the epoch are exactly the uploaded
    -- ones, in order, and all other keys stay; the owner and every receiver were members and no
    -- receiver was named twice.
    pub upload_sender_keys-Replaces :
        uploaded.1 ≡ ok tt
        → IsAllowed w owner_id group_id items
          × (keep own (keys uploaded.0) ≡ new_rows)
          × (keep (λ k. not (own k)) (keys uploaded.0) ≡ keep (λ k. not (own k)) (keys w))
    upload_sender_keys-Replaces h = elim upload_cases [
      | inl (e, f) ↦ elim (thrown≢ok (rw f at h)) [ ]
      | inr (a, f) ↦
          let all = new_sender_key-IsOwn owner_id group_id epoch new_id now items in
          rw (f, store_keys-ok new_rows (rw f at h))
            (
              a,
              keep-append own (keep (λ k. not (own k)) (keys w)) new_rows
                  ∙ rw (keep-none own (keys w), keep-All own new_rows all) refl,
              keep-append (λ k. not (own k)) (keep (λ k. not (own k)) (keys w)) new_rows
                  ∙ rw (keep-keep_same (λ k. not (own k)) (keys w), drop-All own new_rows all)
                      (append-nil _),
            )
    ]

    -- A refused upload changes nothing.
    pub upload_sender_keys-refused : (e : Thrown) → uploaded.1 ≡ thrown e → uploaded.0 ≡ w
    upload_sender_keys-refused e h = elim upload_cases [
      | inl (x, f) ↦ rw f refl
      | inr (a, f) ↦ rw f (store_keys-thrown e new_rows (rw f at h))
    ]
