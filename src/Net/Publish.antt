-- ===== src/Net/Publish.antt =====
-- Messages from the server: what is delivered, and what is answered.
use mesquitte_client.Base.{
  ℕ, zero, suc, ◌≡◌, refl, true, Option, none, some, List, [], ◌∷◌, ◌++◌, arith, nat_key,
}
use mesquitte_client.Codec.{Codec, QosWithPacketIdentifier}
use mesquitte_client.Topics.{match_topic}
use mesquitte_client.Packets.{VariablePacket}
use mesquitte_client.State.{Cache, Message, message_from, World, spawn_all}
use mesquitte_client.Net.Handlers.{handle_publish, publish_at, handle_pubrel}
use mesquitte_client.Net.Loops.{Frame, packet, read_from_server}

module _ {k : Codec} {c : Cache k.PublishPacket} where
  -- The handlers of the subscriptions that match the packet's topic, spawned once each.
  abbrev pub deliver : k.PublishPacket → World k c → World k c
  deliver p w = spawn_all (match_topic (k.topic_name p) w.state.topic_manager) (message_from k p) w

  abbrev pub keep_pending : ℕ → k.PublishPacket → World k c → World k c
  keep_pending id p w = record w {
    state = record (w.state) { pending_packets = c.insert id p w.state.pending_packets };
  }

  -- What a publication at each level asks for.
  abbrev pub expected :
      QosWithPacketIdentifier → k.PublishPacket → World k c → World k c × Option (VariablePacket k)
  expected QosWithPacketIdentifier.level0 p w = (deliver p w, none)
  expected (QosWithPacketIdentifier.level1 id) p w = (deliver p w, some (VariablePacket.puback id))
  expected (QosWithPacketIdentifier.level2 id) p w =
      (keep_pending id p w, some (VariablePacket.pubrec id))

publish_at-expected :
    {k : Codec} {c : Cache k.PublishPacket} (q : QosWithPacketIdentifier) (p : k.PublishPacket)
    (w : World k c)
    → publish_at
        (k.split q).0
        (k.split q).1
        (match_topic (k.topic_name p) w.state.topic_manager)
        p
        w
      ≡ some (expected q p w)
publish_at-expected {k} QosWithPacketIdentifier.level0 p w = rw k.split-level0
publish_at-expected {k} (QosWithPacketIdentifier.level1 id) p w = rw (k.split-level1 id)
publish_at-expected {k} (QosWithPacketIdentifier.level2 id) p w = rw (k.split-level2 id)

-- `handle_publish` never panics: a message at level 0 is delivered, one at level 1 is delivered and
-- acknowledged under its identifier, one at level 2 is kept and not yet delivered.
pub handle_publish_lem :
    {k : Codec} {c : Cache k.PublishPacket} (p : k.PublishPacket) (w : World k c)
    → handle_publish p w ≡ some (expected (k.qos p) p w)
unfolding handle_publish
handle_publish_lem {k} p w = publish_at-expected (k.qos p) p w

abbrev pub replicate {ℓ} : {A : Type ℓ} → ℕ → A → List A
replicate zero a = []
replicate (suc n) a = a ∷ replicate n a

abbrev pub pubrel_frame : {k : Codec} → ℕ → Frame k
pubrel_frame id = packet (VariablePacket.pubrel id) true

abbrev pub publish_frame : (k : Codec) → k.PublishPacket → Frame k
publish_frame k p = packet (VariablePacket.publish p) true

module _ {k : Codec} {c : Cache k.PublishPacket} (id : ℕ) where
  abbrev pub released : World k c → World k c
  released w = record w {
    state = record (w.state) { pending_packets = (c.remove id w.state.pending_packets).1 };
  }

  pub pubrel_missing :
      (w : World k c)
      → (c.remove id w.state.pending_packets).0 ≡ none
      → handle_pubrel id w ≡ (released w, VariablePacket.pubcomp id)
  unfolding handle_pubrel
  pubrel_missing w h = rw (handle_pubrel, h)

  pub pubrel_kept :
      (p : k.PublishPacket) (w : World k c)
      → (c.remove id w.state.pending_packets).0 ≡ some p
      → handle_pubrel id w ≡ (deliver p (released w), VariablePacket.pubcomp id)
  unfolding handle_pubrel
  pubrel_kept p w h = rw (handle_pubrel, h)

  abbrev Ends : List (Frame k) → World k c → List (VariablePacket k) → List (ℕ × Message) → Type 0
  Ends frames w resps spawned =
      (w' : World k c) × (read_from_server frames w ≡ some (w', resps)) × (w'.spawned ≡ spawned)

  read_pubrel :
      (frames : List (Frame k)) (w w' : World k c) {resps : List (VariablePacket k)}
      {spawned : List (ℕ × Message)}
      → handle_pubrel id w ≡ (w', VariablePacket.pubcomp id)
      → Ends frames w' resps spawned
      → Ends (pubrel_frame id ∷ frames) w (VariablePacket.pubcomp id ∷ resps) spawned
  unfolding read_from_server
  read_pubrel frames w w' h (w'', run, same) = (w'', ground arith, same)

  later_pubrels :
      (n : ℕ) (w : World k c)
      → (c.remove id w.state.pending_packets).0 ≡ none
      → Ends (replicate n (pubrel_frame id)) w (replicate n (VariablePacket.pubcomp id)) w.spawned
  unfolding read_from_server
  later_pubrels zero w h = (w, refl, refl)
  later_pubrels (suc n) w h =
      read_pubrel (replicate n (pubrel_frame id)) w (released w) (pubrel_missing w h)
        (later_pubrels n (released w) (c.remove-remove id w.state.pending_packets))

  first_pubrel :
      (n : ℕ) (p : k.PublishPacket) (w : World k c)
      → (c.remove id w.state.pending_packets).0 ≡ some p
      → Ends
          (replicate (suc n) (pubrel_frame id))
          w
          (replicate (suc n) (VariablePacket.pubcomp id))
          (deliver p w).spawned
  first_pubrel n p w h =
      read_pubrel (replicate n (pubrel_frame id)) w (deliver p (released w)) (pubrel_kept p w h)
        (later_pubrels n (deliver p (released w)) (c.remove-remove id w.state.pending_packets))

  read_publish :
      (p : k.PublishPacket) (frames : List (Frame k)) (w : World k c)
      {resps : List (VariablePacket k)} {spawned : List (ℕ × Message)}
      → k.qos p ≡ QosWithPacketIdentifier.level2 id
      → Ends frames (keep_pending id p w) resps spawned
      → Ends (publish_frame k p ∷ frames) w (VariablePacket.pubrec id ∷ resps) spawned
  unfolding read_from_server
  read_publish p frames w q (w', run, same) = (w', ground (arith, handle_publish_lem p w), same)

  publishes :
      (m n : ℕ) (p : k.PublishPacket) (w : World k c)
      → k.qos p ≡ QosWithPacketIdentifier.level2 id
      → (c.remove id w.state.pending_packets).0 ≡ some p
      → ((s : c.Store) → (c.remove id (c.insert id p s)).0 ≡ some p)
      → Ends
          (replicate m (publish_frame k p) ++ replicate (suc n) (pubrel_frame id))
          w
          (replicate m (VariablePacket.pubrec id) ++ replicate (suc n) (VariablePacket.pubcomp id))
          (deliver p w).spawned
  publishes zero n p w q kept holds = first_pubrel n p w kept
  publishes (suc m) n p w q kept holds =
      read_publish p _ w q
        (publishes m n p (keep_pending id p w) q (holds w.state.pending_packets) holds)

-- Exactly once: when a message at level 2 comes one or more times and then its release comes one or
-- more times, and the cache keeps what it is given, the read loop answers each of them and each handler
-- that matches its topic is spawned with the message exactly once.
pub exactly_once :
    {k : Codec} {c : Cache k.PublishPacket} (id m n : ℕ) (p : k.PublishPacket) (w : World k c)
    → k.qos p ≡ QosWithPacketIdentifier.level2 id
    → ((s : c.Store) → (c.remove id (c.insert id p s)).0 ≡ some p)
    → (w' : World k c) × (read_from_server
          (replicate (suc m) (publish_frame k p) ++ replicate (suc n) (pubrel_frame id))
          w
        ≡ some (
          w',
          replicate (suc m) (VariablePacket.pubrec id)
              ++ replicate (suc n) (VariablePacket.pubcomp id),
        ))
      × (w'.spawned ≡ (deliver p w).spawned)
exactly_once id m n p w q holds =
    read_publish id p _ w q
      (publishes id m n p (keep_pending id p w) q (holds w.state.pending_packets) holds)
