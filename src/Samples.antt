-- ===== src/Samples.antt =====
-- Data for the examples: a codec and a cache over plain data, a heap with no token, a client.
use mesquitte_client.Base.{
  ℕ, ◌≡◌, inl, Option, none, some, List, [], ◌∷◌, String, Bool, false, refl, nat_beq, nat_beq_iff,
  nat_key, get, contains_key, insert, remove, get-insert, get-remove, arith,
}
use mesquitte_client.Codec.{Codec, QualityOfService, QosWithPacketIdentifier}
use mesquitte_client.Subscription.{Subscription}
use mesquitte_client.Token.{Tokens}
use mesquitte_client.Pkid.{packet_ids_new}
use mesquitte_client.Topics.{topic_manager_new, add}
use mesquitte_client.State.{Cache, World}
use mesquitte_client.System.{empty_heap}

-- A codec over plain data: return codes are bytes, every text is a topic.
abbrev pub split_plain : QosWithPacketIdentifier → QualityOfService × Option ℕ
split_plain QosWithPacketIdentifier.level0 = (QualityOfService.level0, none)
split_plain (QosWithPacketIdentifier.level1 id) = (QualityOfService.level1, some id)
split_plain (QosWithPacketIdentifier.level2 id) = (QualityOfService.level2, some id)

pub record PlainPublish : Type 0 where
  pub name : String
  pub bytes : List ℕ
  pub level : QosWithPacketIdentifier
  pub again : Bool
  pub kept : Bool

abbrev pub plain : Codec
plain = record {
  ConnectReturnCode = ℕ;
  connection_accepted = 0;
  is_accepted = λ c. nat_beq c 0;
  to_u8 = λ c. c;
  SubscribeReturnCode = ℕ;
  is_failure = λ c. nat_beq c 128;
  TopicName = String;
  topic_name_new = λ s. some s;
  TopicFilter = String;
  topic_filter_new = λ s. some s;
  LastWill = String × List ℕ;
  last_will_new = λ t m. some (t, m);
  split = split_plain;
  PublishPacket = PlainPublish;
  publish_new = λ t q b. record { name = t; bytes = b; level = q; again = false; kept = false };
  set_retain = λ r p. record p { kept = r };
  topic_name = λ p. p.name;
  payload = λ p. p.bytes;
  qos = λ p. p.level;
  dup = λ p. p.again;
  retain = λ p. p.kept;
  is_accepted_iff = λ c. nat_beq_iff c 0;
  split-level0 = refl;
  split-level1 = λ id. refl;
  split-level2 = λ id. refl;
}

-- The same, but no text is a topic.
abbrev pub refusing : Codec
refusing = record plain {
  topic_name_new = λ s. none;
  topic_filter_new = λ s. none;
  last_will_new = λ t m. none;
}

abbrev pub tokens_of : (k : Codec) → Tokens k
tokens_of k = empty_heap k

abbrev pub no_tokens : Tokens plain
no_tokens = tokens_of plain

pub plain_kept : {V : Type 0} (id : ℕ) (v : V) (s : List (ℕ × V)) → get id (insert id v s) ≡ some v
plain_kept id v s = ground (arith, get-insert id id v s)

pub plain_gone : {V : Type 0} (id : ℕ) (s : List (ℕ × V)) → get id (remove id s) ≡ none
plain_gone id s = ground (arith, get-remove id id s)

-- A cache that evicts nothing.
abbrev pub plain_cache : Cache PlainPublish
plain_cache = record {
  Store = List (ℕ × PlainPublish);
  empty = [];
  contains_key = contains_key;
  insert = insert;
  remove = λ id s. (get id s, remove id s);
  remove-insert = λ id v s. inl (plain_kept id v s);
  remove-remove = λ id s. plain_gone id s;
}

pub plain_cache_keeps :
    (id : ℕ) (p : PlainPublish) (s : List (ℕ × PlainPublish))
    → (plain_cache.remove id (plain_cache.insert id p s)).0 ≡ some p
plain_cache_keeps = plain_kept

abbrev pub news : Subscription
news = record { topic = "sport/+"; qos = QualityOfService.level1; handler = 5 }

-- A connected client with one subscription, and no operation in flight.
abbrev pub connected : World plain plain_cache
connected = record {
  state = record {
    packet_ids = packet_ids_new;
    topic_manager = add news topic_manager_new;
    subscriptions = ("sport/+", news) ∷ [];
    pending_packets = [];
    outgoing_tx = some [];
    last_sent_packet_at = 0;
  };
  tokens = no_tokens;
  spawned = [];
}
