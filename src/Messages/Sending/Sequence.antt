-- ===== src/Messages/Sending/Sequence.antt =====
-- The sequence numbers of a channel, messages.service.ts.
use zevra_server.Prelude.{
  ℕ, zero, suc, ◌+◌, ◌<◌, ◌≡◌, refl, ◌∙◌, ap, sym, String, Bool, true, false, ◌&&◌, List, [], ◌∷◌,
  ◌++◌, append-nil, Option, none, some, arith, any, keep, map, length, length-append, keep-append,
  max, Bool-cases, inl, inr, ◌⊎◌, eq_iff, subst, eqb,
}
use zevra_server.Schema.{User, Channel, Message}
use zevra_server.Store.{Backend, World}
use zevra_server.Errors.Thrown.{Thrown}
use zevra_server.Messages.{MessagePayload, MessageDeliveryJob}
use zevra_server.Messages.Limits.{SendMessageInput, assert_send_limits}
use zevra_server.Messages.Sending.{
  max_sequence, is_of, next_sequence, new_message, insert_with_sequence, Host, Answers, Sent, send,
  send_if, send_as, store_and_send, dispatch_new_message, deliver, enqueue, refused, dispatched,
  is_signed,
}

-- 1, …, n
abbrev pub upto : ℕ → List ℕ
upto zero = []
upto (suc n) = upto n ++ suc n ∷ []

abbrev pub sequences : String → List Message → List ℕ
sequences channel_id l = map (λ m. m.sequence_number) (keep (is_of channel_id) l)

-- The messages of every channel are numbered from 1 without gaps, in the order of their insertion.
abbrev pub IsContiguous : List Message → Type 0
IsContiguous l =
    (channel_id : String) → sequences channel_id l ≡ upto (length (keep (is_of channel_id) l))

highest : List ℕ → ℕ
highest [] = 0
highest (n ∷ ns) = max n (highest ns)

highest-append : (ns ms : List ℕ) → highest (ns ++ ms) ≡ max (highest ns) (highest ms)
unfolding highest
highest-append [] ms = omega arith
highest-append (n ∷ ns) ms = omega (arith, highest-append ns ms)

highest-upto : (n : ℕ) → highest (upto n) ≡ n
unfolding highest
highest-upto zero = refl
highest-upto (suc n) = omega (arith, highest-append (upto n) (suc n ∷ []), highest-upto n)

max_sequence-highest :
    (l : List Message) → max_sequence l ≡ highest (map (λ m. m.sequence_number) l)
unfolding max_sequence highest
max_sequence-highest [] = refl
max_sequence-highest (m ∷ l) = ap (max m.sequence_number) (max_sequence-highest l)

map-append_one :
    (l : List Message) (m : Message)
    → map (λ x. x.sequence_number) (l ++ m ∷ [])
      ≡ map (λ x. x.sequence_number) l ++ m.sequence_number ∷ []
map-append_one [] m = refl
map-append_one (x ∷ l) m = ap (λ r. x.sequence_number ∷ r) (map-append_one l m)

keep-hit :
    (c : String) (l : List Message) (m : Message)
    → is_of c m ≡ true
    → keep (is_of c) (l ++ m ∷ []) ≡ keep (is_of c) l ++ m ∷ []
unfolding keep
keep-hit c l m h = keep-append (is_of c) l (m ∷ []) ∙ rw h refl

keep-miss :
    (c : String) (l : List Message) (m : Message)
    → is_of c m ≡ false
    → keep (is_of c) (l ++ m ∷ []) ≡ keep (is_of c) l
unfolding keep
keep-miss c l m h = keep-append (is_of c) l (m ∷ []) ∙ rw h (append-nil _)

length-snoc : (l : List Message) (m : Message) → length (l ++ m ∷ []) ≡ suc (length l)
length-snoc l m = omega (arith, length-append l (m ∷ []))

next :
    (c : String) (l : List Message)
    → sequences c l ≡ upto (length (keep (is_of c) l))
    → max_sequence (keep (is_of c) l) ≡ length (keep (is_of c) l)
next c l h = max_sequence-highest (keep (is_of c) l) ∙ ap highest h ∙ highest-upto _

number_lem :
    (c : String) (l : List Message) (m : Message)
    → m.sequence_number ≡ max_sequence (keep (is_of c) l) + 1
    → max_sequence (keep (is_of c) l) ≡ length (keep (is_of c) l)
    → m.sequence_number ≡ suc (length (keep (is_of c) l))
number_lem c l m a e = omega (arith, a, e)

contiguous_here :
    (c : String) (l : List Message) (m : Message)
    → IsContiguous l
    → m.sequence_number ≡ max_sequence (keep (is_of m.channel_id) l) + 1
    → is_of c m ≡ true
    → sequences c (l ++ m ∷ []) ≡ upto (length (keep (is_of c) (l ++ m ∷ [])))
contiguous_here c l m h e y =
    let here =
      subst (λ x. m.sequence_number ≡ max_sequence (keep (is_of x) l) + 1)
        ((eq_iff m.channel_id c).0 y) e in
    rw (keep-hit c l m y, length-snoc (keep (is_of c) l) m)
      (map-append_one (keep (is_of c) l) m ∙ rw (number_lem c l m here (next c l (h c)), h c) refl)

-- A message with the next number of its channel is added.
append-IsContiguous :
    (l : List Message) (m : Message)
    → IsContiguous l
    → m.sequence_number ≡ max_sequence (keep (is_of m.channel_id) l) + 1
    → IsContiguous (l ++ m ∷ [])
append-IsContiguous l m h e c = elim (Bool-cases (is_of c m)) [
  | inr n ↦ rw (keep-miss c l m n) (h c)
  | inl y ↦ contiguous_here c l m h e y
]

eqb-false : (a n : ℕ) → a < n → eqb a n ≡ false
eqb-false a n h = ground arith

below-max :
    (l : List Message) (p : Message → Bool) (n : ℕ)
    → max_sequence (keep p l) < n
    → any (λ m. p m && eqb m.sequence_number n) l ≡ false
unfolding max_sequence keep any
below-max [] p n h = refl
below-max (m ∷ l) p n h = elim (Bool-cases (p m)) [
  | inl e ↦
      rw (e, eqb-false m.sequence_number n (omega (arith, rw e at h)))
        (below-max l p n (omega (arith, rw e at h)))
  | inr e ↦ rw e (below-max l p n (rw e at h))
]

module _ (b : Backend) where
  abbrev rows : World b → List Message
  rows w = b.messages.rows w.messages

  next_lem :
      (w : World b) (c : String) → next_sequence b w c ≡ max_sequence (keep (is_of c) (rows w)) + 1
  unfolding next_sequence
  next_lem w c = refl

  module _ (host : Host) (answers : Answers) (now : ℕ) where
    -- What the rest of a call does is not to the messages table.
    enqueue-messages :
        (w : World b) (accepts : Bool) (job : MessageDeliveryJob)
        → (enqueue b w host accepts job now).0.messages ≡ w.messages
    unfolding enqueue
    enqueue-messages w true job = refl
    enqueue-messages w false job = refl

    deliver-messages :
        (w : World b) (accepts : Bool) (p : MessagePayload) (ids : List String)
        (o : Option (List String))
        → (deliver b w host accepts p ids o now).0.messages ≡ w.messages
    unfolding deliver
    deliver-messages w accepts p [] o = refl
    deliver-messages w accepts p (u ∷ us) o = enqueue-messages w accepts _

    dispatch-messages :
        (w : World b) (p : MessagePayload) (x : Option String)
        → (dispatch_new_message b w host answers p x now).0.messages ≡ w.messages
    unfolding dispatch_new_message
    dispatch-messages w p x = deliver-messages _ answers.queue_accepts p _ answers.connected

    store-messages :
        (w : World b) (input : SendMessageInput) (x : Option String) (username id : String)
        → (store_and_send b host answers input x username id now
            (insert_with_sequence b w input id now)).world.messages
          ≡ b.messages.insert
              (new_message input id (next_sequence b w input.channel_id) now)
              w.messages
    unfolding store_and_send insert_with_sequence dispatched
    store-messages w input x username id = dispatch-messages _ _ x

    -- A call changes nothing in the table, or adds the message with the next number.
    abbrev Extends : World b → SendMessageInput → String → Sent b → Type 0
    Extends w input id s =
        (s.world.messages ≡ w.messages)
        ⊎ (s.world.messages
            ≡ b.messages.insert (new_message input id (next_sequence b w input.channel_id) now)
                w.messages)

    send_as-Extends :
        (w : World b) (input : SendMessageInput) (x : Option String) (id : String)
        (o : Option (User × Channel))
        → Extends w input id (send_as b w host answers input x id now o)
    unfolding send_as refused
    send_as-Extends w input x id none = inl refl
    send_as-Extends w input x id (some (user, channel)) = elim (Bool-cases channel.is_archived) [
      | inl e ↦ rw e (inl refl)
      | inr e ↦ elim (Bool-cases (is_signed b host input user)) [
        | inl f ↦ rw (e, f) (inr (store-messages w input x user.username id))
        | inr f ↦ rw (e, f) (inl refl)
      ]
    ]

    send_if-Extends :
        (w : World b) (input : SendMessageInput) (x : Option String) (id : String)
        (o : Option Thrown)
        → Extends w input id (send_if b w host answers input x id now o)
    unfolding send_if refused
    send_if-Extends w input x id (some e) = inl refl
    send_if-Extends w input x id none = send_as-Extends w input x id _

    -- Sending, accepted or refused, keeps the messages of every channel numbered from 1 without
    -- gaps, in the order of their insertion.
    pub send-IsContiguous :
        (w : World b) (input : SendMessageInput) (except_socket_id : Option String) (id : String)
        → IsContiguous (rows w)
        → IsContiguous (rows (send b w host answers input except_socket_id id now).world)
    unfolding send new_message next_sequence
    send-IsContiguous w input except_socket_id id h =
        elim (send_if-Extends w input except_socket_id id (assert_send_limits input)) [
          | inl e ↦ subst (λ t. IsContiguous (b.messages.rows t)) (sym e) h
          | inr e ↦
              let msg = new_message input id (next_sequence b w input.channel_id) now in
              subst (λ t. IsContiguous (b.messages.rows t)) (sym e)
                (subst IsContiguous (sym (b.messages.rows_insert msg w.messages))
                  (append-IsContiguous (rows w) msg h (next_lem w input.channel_id)))
        ]

  -- No message of a channel has its next sequence number.
  next_sequence-fresh :
      (w : World b) (channel_id : String)
      → any
          (λ m. is_of channel_id m && eqb m.sequence_number (next_sequence b w channel_id))
          (rows w)
        ≡ false
  unfolding next_sequence
  next_sequence-fresh w channel_id = below-max (rows w) (is_of channel_id) _ (omega arith)
