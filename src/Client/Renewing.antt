-- ===== src/Client/Renewing.antt =====
-- The renewal of the subscriptions in `block`, after a connection without a session.
use mesquitte_client.Base.{
  Bool, true, false, Option, none, some, List, [], ◌∷◌, String, if◌then◌else◌,
}
use mesquitte_client.Codec.{Codec}
use mesquitte_client.Subscription.{Subscription}
use mesquitte_client.Token.{Token, state_of}
use mesquitte_client.Pkid.{clean_up}
use mesquitte_client.Topics.{clear}
use mesquitte_client.State.{Cache}
use mesquitte_client.Client.Shared.{MqttClient, Wait, Await, ready, hangs, panics}
use mesquitte_client.Client.Requests.{subscribe}

-- How one renewal goes: the wait for the channel, and what happens until its token is complete.
pub record Renewal (k : Codec) (c : Cache k.PublishPacket) : Type 0 where
  pub wait : Wait k c
  pub until : MqttClient k c → MqttClient k c

module _ {k : Codec} {c : Cache k.PublishPacket} where
  abbrev pub is_complete : Token → MqttClient k c → Bool
  is_complete token client = (state_of token client.world.tokens).complete

  -- `token.await`; its error is only logged.
  abbrev pub awaited : Token → Renewal k c → Option (MqttClient k c) → Await (MqttClient k c)
  awaited token renewal none = panics
  awaited token renewal (some client) =
      let client' = renewal.until client in
      if is_complete token client' then ready client' else hangs

  unfoldable pub renew_one :
      Renewal k c → String → Subscription → MqttClient k c → Await (MqttClient k c)
  renew_one renewal topic sub client =
      let (r, client') = subscribe topic sub.qos sub.handler renewal.wait client in
      awaited (Token.subscribe r) renewal client'

  -- The loop over the table, which is copied before
  unfoldable pub resubscribe :
      (String → Renewal k c)
      → List (String × Subscription)
      → MqttClient k c
      → Await (MqttClient k c)
  unfolding renew_one
  resubscribe renewals [] client = ready client
  resubscribe renewals ((topic, sub) ∷ subs) client =
      elim (renew_one (renewals topic) topic sub client) [
        | ready client' ↦ resubscribe renewals subs client'
        | hangs ↦ hangs
        | panics ↦ panics
      ]

  -- `packet_ids.clean_up()` and `topic_manager.clear()`
  unfoldable pub start_over : MqttClient k c → MqttClient k c
  start_over client =
      let (ids, ts) = clean_up (client.world.state.packet_ids, client.world.tokens) in
      record client {
        world = record (client.world) {
          state = record (client.world.state) {
            packet_ids = ids;
            topic_manager = clear client.world.state.topic_manager;
          };
          tokens = ts;
        };
      }

  unfoldable pub renew_session :
      (session_present : Bool) → (String → Renewal k c) → MqttClient k c → Await (MqttClient k c)
  unfolding resubscribe start_over
  renew_session true renewals client = ready client
  renew_session false renewals client =
      resubscribe renewals client.world.state.subscriptions (start_over client)
