-- ===== src/State.antt =====
-- src/state.rs and src/message.rs: what the client and its tasks share.
use mesquitte_client.Base.{ℕ, ◌≡◌, ◌⊎◌, Bool, Option, none, some, List, [], ◌++◌, map, String}
use mesquitte_client.Codec.{Codec, QualityOfService}
use mesquitte_client.Subscription.{Subscription}
use mesquitte_client.Token.{Tokens}
use mesquitte_client.Pkid.{PacketIds, packet_ids_new}
use mesquitte_client.Topics.{TopicManager, topic_manager_new}
use mesquitte_client.Packets.{PacketAndToken}

-- The crate moka's `Cache<u16, V>`, a parameter: an entry may be evicted at any time, and what is
-- removed is gone.
pub record Cache (V : Type 0) : Type 1 where
  pub Store : Type 0
  pub empty : Store
  pub contains_key : ℕ → Store → Bool
  pub insert : ℕ → V → Store → Store
  pub remove : ℕ → Store → Option V × Store
  pub remove-insert :
      (id : ℕ) (v : V) (s : Store)
      → ((remove id (insert id v s)).0 ≡ some v) ⊎ ((remove id (insert id v s)).0 ≡ none)
  pub remove-remove : (id : ℕ) (s : Store) → (remove id (remove id s).1).0 ≡ none

pub record Message : Type 0 where
  pub topic : String
  pub payload : List ℕ
  pub qos : QualityOfService
  pub packet_id : Option ℕ
  pub dup : Bool
  pub retain : Bool

-- `Message::from(&PublishPacket)`
unfoldable pub message_from : (k : Codec) → k.PublishPacket → Message
message_from k packet =
    let (qos, packet_id) = k.split (k.qos packet) in
    record {
      topic = k.topic_name packet;
      payload = k.payload packet;
      qos = qos;
      packet_id = packet_id;
      dup = k.dup packet;
      retain = k.retain packet;
    }

-- `outgoing_tx` is `some` when there is a channel; the list is what was sent into it so far, taken out of it
-- or not. The channel holds eight packets at a time: a send waits for room, which is an argument of it.
pub record State (k : Codec) (c : Cache k.PublishPacket) : Type 0 where
  pub packet_ids : PacketIds
  pub topic_manager : TopicManager
  pub subscriptions : List (String × Subscription)
  pub pending_packets : c.Store
  pub outgoing_tx : Option (List (PacketAndToken k))
  pub last_sent_packet_at : ℕ

unfoldable pub state_new : {k : Codec} {c : Cache k.PublishPacket} → ℕ → State k c
state_new {c} now = record {
  packet_ids = packet_ids_new;
  topic_manager = topic_manager_new;
  subscriptions = [];
  pending_packets = c.empty;
  outgoing_tx = none;
  last_sent_packet_at = now;
}

-- The shared state with the heap of tokens, and the handlers that were spawned, in order, each with
-- its message.
pub record World (k : Codec) (c : Cache k.PublishPacket) : Type 0 where
  pub state : State k c
  pub tokens : Tokens k
  pub spawned : List (ℕ × Message)

-- A task for each subscription's handler.
abbrev pub spawn_all :
    {k : Codec} {c : Cache k.PublishPacket} → List Subscription → Message → World k c → World k c
spawn_all subs msg w = record w {
  spawned = w.spawned ++ map (λ (s : Subscription). (s.handler, msg)) subs;
}
