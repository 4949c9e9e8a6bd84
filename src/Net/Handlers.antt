-- ===== src/Net/Handlers.antt =====
-- The handlers. Each runs under the locks that it takes, so it is one step on the shared state. A
-- result of `none` is a panic.
use mesquitte_client.Base.{
  ℕ, suc, Option, none, some, List, [], ◌∷◌, String, if◌then◌else◌, insert_sorted,
}
use mesquitte_client.Codec.{Codec, QualityOfService, level0, level1, level2}
use mesquitte_client.Subscription.{Subscription}
use mesquitte_client.Token.{
  Token, subscribe, unsubscribe, flow_complete, modify, set_result, get_subscription,
}
use mesquitte_client.Pkid.{get_token, free_id}
use mesquitte_client.Topics.{TopicManager, match_topic, add, remove}
use mesquitte_client.Packets.{VariablePacket}
use mesquitte_client.State.{Cache, message_from, State, World, spawn_all}

unfoldable pub handle_pubrec : {k : Codec} → ℕ → VariablePacket k
handle_pubrec pkid = VariablePacket.pubrel pkid

-- The loop of `handle_unsuback`
abbrev pub remove_all : List String → TopicManager → TopicManager
remove_all [] m = m
remove_all (topic ∷ topics) m = remove_all topics (remove topic m).0

module _ {k : Codec} {c : Cache k.PublishPacket} where
  -- `Option::unwrap`, then the packet
  abbrev pub reply_with :
      Option ℕ → (ℕ → VariablePacket k) → World k c → Option (World k c × Option (VariablePacket k))
  reply_with none packet w = none
  reply_with (some id) packet w = some (w, some (packet id))

  abbrev pub store_pending : Option ℕ → k.PublishPacket → World k c → World k c
  store_pending none packet w = w
  store_pending (some id) packet w = record w {
    state = record (w.state) { pending_packets = c.insert id packet w.state.pending_packets };
  }

  -- The match of `handle_publish`
  abbrev pub publish_at :
      QualityOfService
      → Option ℕ
      → List Subscription
      → k.PublishPacket
      → World k c
      → Option (World k c × Option (VariablePacket k))
  publish_at level0 pkid subs packet w = some (spawn_all subs (message_from k packet) w, none)
  publish_at level1 pkid subs packet w =
      reply_with pkid VariablePacket.puback (spawn_all subs (message_from k packet) w)
  publish_at level2 pkid subs packet w =
      reply_with pkid VariablePacket.pubrec (store_pending pkid packet w)

  unfoldable pub handle_publish :
      k.PublishPacket → World k c → Option (World k c × Option (VariablePacket k))
  handle_publish packet w =
      let (qos, pkid) = k.split (k.qos packet) in
      publish_at qos pkid (match_topic (k.topic_name packet) w.state.topic_manager) packet w

  -- Completes a token and releases its identifier.
  abbrev pub finish : Token → ℕ → World k c → World k c
  finish token id w = record w {
    tokens = flow_complete token w.tokens;
    state = record (w.state) { packet_ids = free_id id w.state.packet_ids };
  }

  unfoldable pub handle_puback : ℕ → World k c → World k c
  handle_puback pkid w = elim (get_token w.state.packet_ids pkid) [
    | none ↦ w
    | some token ↦ finish token pkid w
  ]

  unfoldable pub handle_pubrel : ℕ → World k c → World k c × VariablePacket k
  handle_pubrel pkid w =
      let (packet, store) = c.remove pkid w.state.pending_packets in
      let w' : World k c = record w { state = record (w.state) { pending_packets = store } } in
      elim packet [
        | none ↦ (w', VariablePacket.pubcomp pkid)
        | some p ↦ (
          spawn_all (match_topic (k.topic_name p) w.state.topic_manager) (message_from k p) w',
          VariablePacket.pubcomp pkid,
        )
      ]

  unfoldable pub handle_pubcomp : ℕ → World k c → World k c
  handle_pubcomp pkid w = elim (get_token w.state.packet_ids pkid) [
    | none ↦ w
    | some token ↦ finish token pkid w
  ]

  -- A granted subscription goes into the trie and into the table.
  abbrev pub register : Subscription → State k c → State k c
  register sub s = record s {
    topic_manager = add sub s.topic_manager;
    subscriptions = insert_sorted sub.topic sub s.subscriptions;
  }

  abbrev pub register_when : k.SubscribeReturnCode → Option Subscription → State k c → State k c
  register_when code none s = s
  register_when code (some sub) s = if k.is_failure code then s else register sub s

  -- A round of the loop of `handle_suback`, on the token's cell `r`
  abbrev pub suback_round : ℕ → k.SubscribeReturnCode → ℕ → World k c → World k c
  suback_round i code r w =
      let subscribes = modify r (set_result i code) w.tokens.subscribes in
      record w {
        tokens = record (w.tokens) { subscribes = subscribes };
        state = register_when code (get_subscription i (subscribes.cell r).own) w.state;
      }

  unfoldable pub suback_loop : ℕ → List k.SubscribeReturnCode → ℕ → World k c → World k c
  unfolding set_result
  suback_loop i [] r w = w
  suback_loop i (code ∷ codes) r w = suback_loop (suc i) codes r (suback_round i code r w)

  abbrev pub suback_token : Option Token → ℕ → List k.SubscribeReturnCode → World k c → World k c
  suback_token (some (subscribe r)) pkid codes w =
      finish (subscribe r) pkid (suback_loop 0 codes r w)
  suback_token _ pkid codes w = w

  unfoldable pub handle_suback : ℕ → List k.SubscribeReturnCode → World k c → World k c
  unfolding suback_loop
  handle_suback pkid codes w = suback_token (get_token w.state.packet_ids pkid) pkid codes w

  abbrev pub unsuback_token : Option Token → ℕ → World k c → World k c
  unsuback_token (some (unsubscribe r)) pkid w =
      let topics = (w.tokens.unsubscribes.cell r).own.subs in
      finish (unsubscribe r) pkid (record w {
        state = record (w.state) { topic_manager = remove_all topics w.state.topic_manager };
      })
  unsuback_token _ pkid w = w

  unfoldable pub handle_unsuback : ℕ → World k c → World k c
  handle_unsuback pkid w = unsuback_token (get_token w.state.packet_ids pkid) pkid w
