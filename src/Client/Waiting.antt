-- ===== src/Client/Waiting.antt =====
-- A subscription whose packet is in the channel: what holds when the other tasks run.
use mesquitte_client.Base.{
  ℕ, ◌<◌, ◌≡◌, refl, sym, ap, subst, ◌∙◌, true, some, List, [], ◌∷◌, ◌++◌, nat_beq, if◌then◌else◌,
  arith, nat_beq_iff,
}
use mesquitte_client.Codec.{Codec, QualityOfService}
use mesquitte_client.Subscription.{Subscription}
use mesquitte_client.Token.{Token, default_subscribe, new_subscribe, modify, add_subscriptions}
use mesquitte_client.Pkid.{get_id, get_token}
use mesquitte_client.Pkid.Issue.{IsFull}
use mesquitte_client.Packets.{VariablePacket, PacketAndToken, new_with}
use mesquitte_client.State.{Cache, World}
use mesquitte_client.Net.Subscribing.{own_subscriptions}
use mesquitte_client.Client.Shared.{MqttClient, is_connected, Wait, hand_over, put}
use mesquitte_client.Client.Requests.{subscribe, subscribe_packet}
use mesquitte_client.Client.Publishing.{with_ids, numbered-Issued}

module _ {k : Codec} {c : Cache k.PublishPacket} where
  -- The client's world once the token of a subscription is there
  abbrev pub subscribing : MqttClient k c → World k c
  subscribing client = record (client.world) { tokens = (new_subscribe client.world.tokens).1 }

  -- What is put into the channel.
  abbrev pub requested :
      ℕ → k.TopicFilter → QualityOfService → ℕ → List (PacketAndToken k) → World k c → World k c
  requested r filter qos id sent w = record w {
    state = record (w.state) {
      outgoing_tx = some (
          sent
          ++ new_with (VariablePacket.subscribe id ((filter, qos) ∷ [])) (Token.subscribe r) ∷ []);
    };
  }

  -- The token is given the subscription.
  abbrev pub given : ℕ → Subscription → World k c → World k c
  given r sub w = record w {
    tokens = record (w.tokens) {
      subscribes = modify r (add_subscriptions (sub ∷ [])) w.tokens.subscribes;
    };
  }

  subscribe_packet_sent :
      (r : ℕ) (filter : k.TopicFilter) (qos : QualityOfService) (sub : Subscription)
      (wait : Wait k c) (id : ℕ) (w : World k c) (sent : List (PacketAndToken k))
      → w.state.outgoing_tx ≡ some sent
      → wait.accepted ≡ true
      → subscribe_packet r (some ((filter, qos) ∷ [])) (sub ∷ []) wait id w
        ≡ some (given r sub (wait.others (requested r filter qos id sent w)))
  unfolding subscribe_packet hand_over
  subscribe_packet_sent r filter qos sub wait id w sent open_channel taken =
      rw (hand_over, open_channel, taken)

  new_token_is_empty :
      (client : MqttClient k c)
      → own_subscriptions client.world.tokens.subscribes.next (subscribing client) ≡ []
  new_token_is_empty client =
      let r = client.world.tokens.subscribes.next in
      let self : nat_beq r r ≡ true = (nat_beq_iff r r).1 refl in
      subst
        (λ b.
          (if b
            then default_subscribe k
            else client.world.tokens.subscribes.cell r).own.subscriptions
          ≡ [])
        (sym self) refl

  -- What a subscription that is sent has done when the other tasks run.
  pub record Sent (client : MqttClient k c) (sub : Subscription) (filter : k.TopicFilter)
      (sent : List (PacketAndToken k)) (wait : Wait k c) : Type 0 where
    pub id : ℕ
    pub before : World k c
    pub number :
        id
        ≡ (get_id client.world.state.packet_ids
            (Token.subscribe client.world.tokens.subscribes.next)).1
    pub waits :
        get_token before.state.packet_ids id
        ≡ some (Token.subscribe client.world.tokens.subscribes.next)
    pub others :
        (j : ℕ)
        → get_token before.state.packet_ids j ≡ (
            if nat_beq id j
            then some (Token.subscribe client.world.tokens.subscribes.next)
            else get_token client.world.state.packet_ids j)
    pub last : before.state.packet_ids.last_issued_id < 65536
    pub channel :
        before.state.outgoing_tx
        ≡ some (
            sent
            ++ new_with
                (VariablePacket.subscribe id ((filter, sub.qos) ∷ []))
                (Token.subscribe client.world.tokens.subscribes.next)
              ∷ [])
    pub empty : own_subscriptions client.world.tokens.subscribes.next before ≡ []
    pub trie : before.state.topic_manager ≡ client.world.state.topic_manager
    pub table : before.state.subscriptions ≡ client.world.state.subscriptions
    pub result :
        (subscribe sub.topic sub.qos sub.handler wait client).1
        ≡ some (record client {
          world = given client.world.tokens.subscribes.next sub (wait.others before);
        })

  pub subscribe-Sent :
      (sub : Subscription) (filter : k.TopicFilter) (wait : Wait k c) (client : MqttClient k c)
      (sent : List (PacketAndToken k))
      → is_connected client ≡ true
      → client.world.state.packet_ids.last_issued_id < 65536
      → ¬ IsFull client.world.state.packet_ids
      → k.topic_filter_new sub.topic ≡ some filter
      → client.world.state.outgoing_tx ≡ some sent
      → wait.accepted ≡ true
      → Sent client sub filter sent wait
  unfolding subscribe get_token
  subscribe-Sent sub filter wait client sent h low free valid channel taken =
      let r = client.world.tokens.subscribes.next in
      let (id, ids, i, number, run) =
        numbered-Issued (Token.subscribe r)
          (subscribe_packet r (some ((filter, sub.qos) ∷ [])) (sub ∷ []) wait) (subscribing client)
          low free in
      let own = i.entry id in
      let sent_it =
        subscribe_packet_sent r filter sub.qos sub wait id (with_ids ids (subscribing client)) sent
          channel taken in
      record {
        id = id;
        before = requested r filter sub.qos id sent (with_ids ids (subscribing client));
        number = number;
        waits = ground arith;
        others = i.entry;
        last = omega (arith, i.last, i.high);
        channel = refl;
        empty = new_token_is_empty client;
        trie = refl;
        table = refl;
        result = rw (h, valid) (ap (put client) (run ∙ sent_it));
      }
