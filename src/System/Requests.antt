-- ===== src/System/Requests.antt =====
-- What subscriptions and their ends keep.
use mesquitte_client.Base.{
  ℕ, ◌≢◌, refl, inl, inr, Bool, true, false, Option, none, some, List, [], ◌∷◌, ◌++◌, String, All,
  nat_key, nat_beq, if◌then◌else◌, Option-cases,
}
use mesquitte_client.Codec.{Codec, QualityOfService}
use mesquitte_client.Subscription.{Subscription, subscription_new}
use mesquitte_client.Token.{
  Token, InnerToken, invalid_topic, modify, SubscribeOwn, add_subscriptions, add_topic,
}
use mesquitte_client.Packets.{VariablePacket}
use mesquitte_client.State.{Cache, World}
use mesquitte_client.Net.Subscribing.{own_subscriptions}
use mesquitte_client.Net.Sound.{Sound, IsAllowed}
use mesquitte_client.Client.{
  Wait, filters_of, subscriptions_of, then_add, subscribe_packet, name_topics, unsubscribe_packet,
}
use mesquitte_client.System.{Waits}
use mesquitte_client.System.Keeping.{
  IsOpen, Keeps, stays-Keeps, trans-Keeps, Goes-Keeps, tokens-Goes,
}
use mesquitte_client.System.Sending.{Runs, trans-Runs, reject-Keeps, hand_over-Runs}

All-append {ℓ κ} :
    {A : Type ℓ} (P : A → Type κ) (xs ys : List A) → All P xs → All P ys → All P (xs ++ ys)
All-append P [] ys h g = g
All-append P (x ∷ xs) ys (p, h) g = (p, All-append P xs ys h g)

pub if-Allowed :
    {k : Codec} (b : Bool) (i j : InnerToken (SubscribeOwn k))
    → All (IsAllowed k) i.own.subscriptions
    → All (IsAllowed k) j.own.subscriptions
    → All (IsAllowed k) (if b then i else j).own.subscriptions
if-Allowed true i j x y = x
if-Allowed false i j x y = y

pub filters_of-Allowed :
    (k : Codec) (topics : List (String × QualityOfService)) (callback : ℕ)
    → filters_of k topics ≢ none
    → All (IsAllowed k) (subscriptions_of topics callback)
unfolding filters_of
filters_of-Allowed k [] callback h = tt
filters_of-Allowed k ((topic, qos) ∷ topics) callback h =
    elim (Option-cases (k.topic_filter_new topic)) [
      | inl bad ↦ absurd (h (rw (filters_of, bad)))
      | inr (filter, good) ↦
          ((filter, good), filters_of-Allowed k topics callback (λ e. h (rw (filters_of, good, e))))
    ]

-- The filter of a subscription to one topic
abbrev pub filter_of :
    (k : Codec) → String → QualityOfService → Option (List (k.TopicFilter × QualityOfService))
filter_of k topic qos = elim (k.topic_filter_new topic) [
  | none ↦ none
  | some filter ↦ some ((filter, qos) ∷ [])
]

pub filter_of-Allowed :
    (k : Codec) (topic : String) (qos : QualityOfService) (callback : ℕ)
    → filter_of k topic qos ≢ none
    → All (IsAllowed k) (subscription_new topic qos callback ∷ [])
filter_of-Allowed k topic qos callback h = elim (Option-cases (k.topic_filter_new topic)) [
  | inl bad ↦ absurd (h (rw (filter_of, bad)))
  | inr good ↦ (good, tt)
]

module _ {k : Codec} {c : Cache k.PublishPacket} where
  -- The token is given subscriptions to valid topics.
  adds-Keeps :
      (r : ℕ) (subs : List Subscription) (w : World k c)
      → All (IsAllowed k) subs
      → Sound w
      → Keeps w (record w {
        tokens = record (w.tokens) {
          subscribes = modify r (add_subscriptions subs) w.tokens.subscribes;
        };
      })
  unfolding add_subscriptions
  adds-Keeps r subs w allowed v = record {
    sound = record {
      ids = v.ids;
      table = v.table;
      listed = v.listed;
      heap = λ s.
          if-Allowed (nat_beq r s) _ (w.tokens.subscribes.cell s)
            (All-append (IsAllowed k) (own_subscriptions r w) subs (v.heap r) allowed) (v.heap s);
    };
    open_channel = λ h. h;
  }

  then_add-Runs :
      (r : ℕ) (subs : List Subscription) (w : World k c) (o : Option (World k c))
      → All (IsAllowed k) subs
      → Runs w o
      → Runs w (then_add r subs o)
  then_add-Runs r subs w none allowed h = h
  then_add-Runs r subs w (some w') allowed h = trans-Keeps h (adds-Keeps r subs w' allowed h.sound)

  pub subscribe_packet-Runs :
      (r : ℕ) (filters : Option (List (k.TopicFilter × QualityOfService)))
      (subs : List Subscription) (wait : Wait k c) (id : ℕ) (w : World k c)
      → (filters ≢ none → All (IsAllowed k) subs)
      → Waits wait
      → Sound w
      → IsOpen w
      → Runs w (subscribe_packet r filters subs wait id w)
  unfolding subscribe_packet
  subscribe_packet-Runs r none subs wait id w allowed waits v channel =
      reject-Keeps invalid_topic (Token.subscribe r) w v
  subscribe_packet-Runs r (some fs) subs wait id w allowed waits v channel =
      then_add-Runs r subs w _ (allowed (λ h. cc))
        (hand_over-Runs (VariablePacket.subscribe id fs) (Token.subscribe r) wait w waits v channel)

  name_topics-Keeps :
      (topics : List String) (r : ℕ) (w : World k c) → Sound w → Keeps w (name_topics topics r w).0
  unfolding name_topics
  name_topics-Keeps [] r w v = stays-Keeps w v
  name_topics-Keeps (topic ∷ topics) r w v =
      let named : World k c = record w {
        tokens = record (w.tokens) {
          unsubscribes = modify r (add_topic topic) w.tokens.unsubscribes;
        };
      } in
      let a = Goes-Keeps w named (tokens-Goes w named.tokens (λ s. refl) v) in
      elim (Option-cases (k.topic_filter_new topic)) [
        | inl bad ↦ rw (name_topics, bad) (stays-Keeps w v)
        | inr (filter, good) ↦
            rw (name_topics, good) (trans-Keeps a (name_topics-Keeps topics r named a.sound))
      ]

  pub unsubscribe_packet-Runs :
      (r : ℕ) (topics : List String) (wait : Wait k c) (id : ℕ) (w : World k c)
      → Waits wait
      → Sound w
      → IsOpen w
      → Runs w (unsubscribe_packet r topics wait id w)
  unfolding unsubscribe_packet
  unsubscribe_packet-Runs r topics wait id w waits v channel =
      let a = name_topics-Keeps topics r w v in
      elim (Option-cases (name_topics topics r w).1) [
        | inl bad ↦
            rw (unsubscribe_packet, bad)
              (trans-Keeps a (reject-Keeps invalid_topic (Token.unsubscribe r) _ a.sound))
        | inr (fs, good) ↦
            rw (unsubscribe_packet, good)
              (trans-Runs _ a (
                hand_over-Runs (VariablePacket.unsubscribe id fs) (Token.unsubscribe r) wait _ waits
                  a.sound (a.open_channel channel)))
      ]
