-- ===== src/System/Reachable.antt =====
-- Every state that a client can come to, from `MqttClient::new` on.
use mathlib.Core.List.{Memᴰ}
use mesquitte_client.Base.{
  ℕ, ◌≡◌, ◌≢◌, ◌↔◌, refl, subst, true, false, Bool, Option, none, some, List, [], String,
}
use mesquitte_client.Codec.{Codec, QualityOfService}
use mesquitte_client.Subscription.{Subscription}
use mesquitte_client.Pkid.Issue.{packet_ids_new-IsValid, clean_up-IsValid}
use mesquitte_client.Topics.{match_topic, tokenize_topic}
use mesquitte_client.Trie.Matching.{Matches}
use mesquitte_client.State.{Cache}
use mesquitte_client.Options.{ClientOptions}
use mesquitte_client.Net.Sound.{same-Sound}
use mesquitte_client.Topics.Listed.{clear-IsWithin, new-IsListed}
use mesquitte_client.Client.{
  MqttClient, client_new, is_connected, Wait, publish, disconnect, subscribe, subscribe_multiple,
  unsubscribe, Dial, connect, start_over, ready, renew_session,
}
use mesquitte_client.Client.Renewed.{answered}
use mesquitte_client.Client.Restored.{entries, renew_session_lem}
use mesquitte_client.System.{
  empty_heap, Waits, Step, tasks, drops, publishes, subscribes, subscribes_multiple, unsubscribes,
  disconnects, connects, starts_over, Steps, start, later,
}
use mesquitte_client.System.Keeping.{task-Keeps, own-clean}
use mesquitte_client.System.Operations.{
  IsFit, Continues, publish-Continues, subscribe-Continues, subscribe_multiple-Continues,
  unsubscribe-Continues, disconnect-Continues,
}
use mesquitte_client.System.Renewal.{listed_entry}
use mesquitte_client.System.Reconnecting.{Leaves, connect-Leaves}

module _ {k : Codec} {c : Cache k.PublishPacket} (options : ClientOptions) where
  pub client_new-IsFit : (now : ℕ) → IsFit options (client_new {c = c} options now (empty_heap k))
  unfolding client_new
  client_new-IsFit now = record {
    same = refl;
    sound = record {
      ids = packet_ids_new-IsValid;
      table = tt;
      listed = new-IsListed [];
      heap = λ r. tt;
    };
    open_channel = λ h. absurd (cc h);
  }

  pub start_over-IsFit :
      (client : MqttClient k c) → IsFit options client → IsFit options (start_over client)
  unfolding start_over
  start_over-IsFit client v = record {
    same = v.same;
    sound =
        same-Sound client.world (start_over client).world refl
          (clear-IsWithin client.world.state.topic_manager) (own-clean client.world) v.sound
          (clean_up-IsValid client.world.state.packet_ids client.world.tokens v.sound.ids);
    open_channel = v.open_channel;
  }

  pub step-IsFit :
      {client client' : MqttClient k c}
      → Step client client'
      → IsFit options client
      → IsFit options client'
  step-IsFit (tasks client w' s) v =
      let a = task-Keeps s v.sound in
      record {
        same = v.same;
        sound = a.sound;
        open_channel = λ e. a.open_channel (v.open_channel e);
      }
  step-IsFit (drops client) v = record {
    same = v.same;
    sound = v.sound;
    open_channel = λ e. absurd (cc e);
  }
  step-IsFit (publishes topic qos retained payload wait client client' waits h) v =
      subst (Continues options) h
        (publish-Continues options topic qos retained payload wait client waits v)
  step-IsFit (subscribes topic qos callback wait client client' waits h) v =
      subst (Continues options) h
        (subscribe-Continues options topic qos callback wait client waits v)
  step-IsFit (subscribes_multiple topics callback wait client client' waits h) v =
      subst (Continues options) h
        (subscribe_multiple-Continues options topics callback wait client waits v)
  step-IsFit (unsubscribes topics wait client client' waits h) v =
      subst (Continues options) h (unsubscribe-Continues options topics wait client waits v)
  step-IsFit (disconnects wait client client' waits h) v =
      subst (Continues options) h (disconnect-Continues options wait client waits v)
  step-IsFit (connects now dial client client' h) v =
      subst (Leaves options dial) h (connect-Leaves options now dial client v)
  step-IsFit (starts_over client) v = start_over-IsFit client v

  pub steps-IsFit :
      {client client' : MqttClient k c}
      → Steps client client'
      → IsFit options client
      → IsFit options client'
  steps-IsFit (start client) v = v
  steps-IsFit (later ss s) v = step-IsFit s (steps-IsFit ss v)

  pub Continues-not_none : (o : Option (MqttClient k c)) → Continues options o → o ≢ none
  Continues-not_none none h e = h
  Continues-not_none (some client) h e = cc e

  -- None of the caller's operations panics.
  abbrev pub NeverPanics : Wait k c → MqttClient k c → Type 0
  NeverPanics wait client =
      ((topic : String) (qos : QualityOfService) (retained : Bool) (payload : List ℕ)
        → (publish topic qos retained payload wait client).1 ≢ none)
      × ((topic : String) (qos : QualityOfService) (callback : ℕ)
          → (subscribe topic qos callback wait client).1 ≢ none)
      × ((topics : List (String × QualityOfService)) (callback : ℕ)
          → (subscribe_multiple topics callback wait client).1 ≢ none)
      × ((topics : List String) → (unsubscribe topics wait client).1 ≢ none)
      × ((disconnect wait client).1 ≢ none)
      × ((at : ℕ) (dial : Dial k) → Leaves options dial (connect at dial client).1)

  pub operations-Continues :
      (client : MqttClient k c) (wait : Wait k c)
      → IsFit options client
      → Waits wait
      → NeverPanics wait client
  operations-Continues client wait v waits = (
    λ topic qos retained payload.
        Continues-not_none _
          (publish-Continues options topic qos retained payload wait client waits v),
    λ topic qos callback.
        Continues-not_none _ (subscribe-Continues options topic qos callback wait client waits v),
    λ topics callback.
        Continues-not_none _
          (subscribe_multiple-Continues options topics callback wait client waits v),
    λ topics. Continues-not_none _ (unsubscribe-Continues options topics wait client waits v),
    Continues-not_none _ (disconnect-Continues options wait client waits v),
    λ at dial. connect-Leaves options at dial client v,
  )

-- Whatever a new client went through, its identifiers and the last one issued are those of the
-- protocol, every entry of its table has the name of its topic, which is
-- a valid filter, as is the topic of each subscription that a token of `subscribe` holds, every subscription in its trie stands at its
-- filter, for which the table has an entry, its options are the same, and if it is connected it has a
-- channel.
pub steps_new-IsFit :
    {k : Codec} {c : Cache k.PublishPacket} (options : ClientOptions) (now : ℕ)
    (client : MqttClient k c)
    → Steps (client_new options now (empty_heap k)) client
    → IsFit options client
steps_new-IsFit options now client ss = steps-IsFit options ss (client_new-IsFit options now)

-- In a build without overflow checks: whatever a new client went through, none of the caller's
-- operations panics on it, also when only steps of the tasks come while the operation waits on the
-- channel, except `connect`, which panics only where the transport does or the greeting cannot be built
-- from the options. `connect` never ends only where the transport does not, or no first frame ever
-- comes; else it leaves a client as any that a new one comes to.
pub operations_never_panic :
    {k : Codec} {c : Cache k.PublishPacket} (options : ClientOptions) (now : ℕ)
    (client : MqttClient k c) (wait : Wait k c)
    → Steps (client_new options now (empty_heap k)) client
    → Waits wait
    → ((topic : String) (qos : QualityOfService) (retained : Bool) (payload : List ℕ)
        → (publish topic qos retained payload wait client).1 ≢ none)
      × ((topic : String) (qos : QualityOfService) (callback : ℕ)
          → (subscribe topic qos callback wait client).1 ≢ none)
      × ((topics : List (String × QualityOfService)) (callback : ℕ)
          → (subscribe_multiple topics callback wait client).1 ≢ none)
      × ((topics : List String) → (unsubscribe topics wait client).1 ≢ none)
      × ((disconnect wait client).1 ≢ none)
      × ((at : ℕ) (dial : Dial k) → Leaves options dial (connect at dial client).1)
operations_never_panic options now client wait ss waits =
    operations-Continues options client wait (steps_new-IsFit options now client ss) waits

-- Whatever a new client went through, if it is connected, then the renewal after a connection without
-- a session ends, where each subscription is granted by a SUBACK that is handled after `subscribe` has
-- returned and before the next one is renewed, and no other task runs meanwhile; a topic is then
-- delivered to exactly the subscriptions of the table whose filter matches it, and no filter is lost:
-- where a topic was delivered to a subscription before, it is now delivered to one with the same filter.
pub renewal_restores :
    {k : Codec} {c : Cache k.PublishPacket} (options : ClientOptions) (now : ℕ)
    (client : MqttClient k c) (code : k.SubscribeReturnCode)
    → Steps (client_new options now (empty_heap k)) client
    → is_connected client ≡ true
    → k.is_failure code ≡ false
    → (client' : MqttClient k c) × (renew_session false (λ topic. answered code) client
        ≡ ready client')
      × ((s : Subscription) (topic : String)
          → Memᴰ s (match_topic topic client'.world.state.topic_manager) ↔ (
              Memᴰ s (entries client.world.state.subscriptions)
              × Matches (tokenize_topic s.topic) (tokenize_topic topic)))
      × ((s : Subscription) (topic : String)
          → Memᴰ s (match_topic topic client.world.state.topic_manager)
          → (t : Subscription) × (t.topic ≡ s.topic)
            × Memᴰ t (match_topic topic client'.world.state.topic_manager))
renewal_restores {k = k} options now client code ss online good =
    let v = steps_new-IsFit options now client ss in
    let (sent, channel) = v.open_channel online in
    let (client', ended, delivered) =
      renew_session_lem client sent code online v.sound.ids.last_high channel v.sound.table good in
    (
      client',
      ended,
      delivered,
      λ s topic before.
          let state = client.world.state in
          let (t, same, entry, fits) =
            listed_entry k state.topic_manager state.subscriptions s topic v.sound.listed
              v.sound.table before in
          (t, same, (delivered t topic).1 (entry, fits)),
    )
