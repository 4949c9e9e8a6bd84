-- ===== src/Net/Reading.antt =====
-- The read loop never panics, and keeps the invariants of the shared state.
use mesquitte_client.Base.{
  ℕ, sym, subst, inl, inr, Bool, true, false, Option, none, some, List, [], ◌∷◌, String,
  Option-cases, nat_key,
}
use mesquitte_client.Codec.{Codec, QosWithPacketIdentifier}
use mesquitte_client.Subscription.{Subscription}
use mesquitte_client.Token.{Token, subscribe, unsubscribe}
use mesquitte_client.Pkid.{get_token}
use mesquitte_client.Pkid.Issue.{IsValid, free_id-IsValid}
use mesquitte_client.Topics.{TopicManager, add, remove}
use mesquitte_client.Packets.{VariablePacket}
use mesquitte_client.State.{Cache, State, World}
use mesquitte_client.Net.Handlers.{
  finish, handle_puback, handle_pubrel, handle_pubcomp, register, suback_token, handle_suback,
  remove_all, unsuback_token, handle_unsuback,
}
use mesquitte_client.Net.Loops.{
  Next, respond, proceed, stop, after_publish, dispatch, Frame, packet, failure, closed,
  read_from_server,
}
use mesquitte_client.Trie.Pruned.{IsPruned, insert_at-IsPruned, remove_at-IsPruned}
use mesquitte_client.Net.Publish.{expected, handle_publish_lem}
use mesquitte_client.Net.Subscribing.{
  own_subscriptions, register_all, suback_token-Subscribes, granted,
}

-- The identifiers are those of the protocol, and the trie has no dead branch.
pub record Inv {k : Codec} {c : Cache k.PublishPacket} (s : State k c) : Type 0 where
  pub ids : IsValid s.packet_ids
  pub trie : IsPruned s.topic_manager.root

remove_all-IsPruned :
    (topics : List String) (m : TopicManager)
    → IsPruned m.root
    → IsPruned (remove_all topics m).root
unfolding remove
remove_all-IsPruned [] m v = v
remove_all-IsPruned (topic ∷ topics) m v =
    remove_all-IsPruned topics (remove topic m).0 (remove_at-IsPruned _ m.root v)

module _ {k : Codec} {c : Cache k.PublishPacket} where
  expected-Inv :
      (q : QosWithPacketIdentifier) (p : k.PublishPacket) (w : World k c)
      → Inv w.state
      → Inv (expected q p w).0.state
  expected-Inv QosWithPacketIdentifier.level0 p w v = v
  expected-Inv (QosWithPacketIdentifier.level1 id) p w v = v
  expected-Inv (QosWithPacketIdentifier.level2 id) p w v = record { ids = v.ids; trie = v.trie }

  finish-Inv : (t : Token) (id : ℕ) (w : World k c) → Inv w.state → Inv (finish t id w).state
  finish-Inv t id w v = record { ids = free_id-IsValid id w.state.packet_ids v.ids; trie = v.trie }

  puback-Inv : (id : ℕ) (w : World k c) → Inv w.state → Inv (handle_puback id w).state
  unfolding handle_puback
  puback-Inv id w v = elim (Option-cases (get_token w.state.packet_ids id)) [
    | inl unknown ↦ rw (handle_puback, unknown) v
    | inr (t, known) ↦ rw (handle_puback, known) (finish-Inv t id w v)
  ]

  pubcomp-Inv : (id : ℕ) (w : World k c) → Inv w.state → Inv (handle_pubcomp id w).state
  unfolding handle_pubcomp
  pubcomp-Inv id w v = elim (Option-cases (get_token w.state.packet_ids id)) [
    | inl unknown ↦ rw (handle_pubcomp, unknown) v
    | inr (t, known) ↦ rw (handle_pubcomp, known) (finish-Inv t id w v)
  ]

  pubrel-Inv : (id : ℕ) (w : World k c) → Inv w.state → Inv (handle_pubrel id w).0.state
  unfolding handle_pubrel
  pubrel-Inv id w v = elim (Option-cases (c.remove id w.state.pending_packets).0) [
    | inl missing ↦ rw (handle_pubrel, missing) (record { ids = v.ids; trie = v.trie })
    | inr (p, kept) ↦ rw (handle_pubrel, kept) (record { ids = v.ids; trie = v.trie })
  ]

  register_all-IsPruned :
      (subs : List Subscription) (s : State k c)
      → IsPruned s.topic_manager.root
      → IsPruned (register_all subs s).topic_manager.root
  unfolding add
  register_all-IsPruned [] s v = v
  register_all-IsPruned (sub ∷ subs) s v =
      register_all-IsPruned subs (register sub s) (insert_at-IsPruned _ sub _ v)

  suback-Inv :
      (t : Option Token) (id : ℕ) (codes : List k.SubscribeReturnCode) (w : World k c)
      → Inv w.state
      → Inv (suback_token t id codes w).state
  suback-Inv (some (subscribe r)) id codes w v =
      let (same, _, _) = suback_token-Subscribes id r codes w in
      subst Inv (sym same) (record {
        ids = free_id-IsValid id w.state.packet_ids v.ids;
        trie =
            register_all-IsPruned (granted k.is_failure codes (own_subscriptions r w)) w.state
              v.trie;
      })
  suback-Inv none id codes w v = v
  suback-Inv _ id codes w v = v

  unsuback-Inv :
      (t : Option Token) (id : ℕ) (w : World k c) → Inv w.state → Inv (unsuback_token t id w).state
  unsuback-Inv (some (unsubscribe r)) id w v = record {
    ids = free_id-IsValid id w.state.packet_ids v.ids;
    trie = remove_all-IsPruned (w.tokens.unsubscribes.cell r).own.subs w.state.topic_manager v.trie;
  }
  unsuback-Inv none id w v = v
  unsuback-Inv _ id w v = v

  abbrev Proceeds : Option (World k c × Next k) → Type 0
  Proceeds none = ⊥
  Proceeds (some (w, n)) = Inv w.state

  after_publish-Proceeds :
      (r : World k c × Option (VariablePacket k))
      → Inv r.0.state
      → Proceeds (after_publish (some r))
  after_publish-Proceeds (w, none) v = v
  after_publish-Proceeds (w, some resp) v = v

  -- No packet makes a handler panic.
  dispatch-Proceeds : (p : VariablePacket k) (w : World k c) → Inv w.state → Proceeds (dispatch p w)
  unfolding dispatch handle_suback handle_unsuback
  dispatch-Proceeds (VariablePacket.publish p) w v =
      subst (λ r. Proceeds (after_publish r)) (sym (handle_publish_lem p w))
        (after_publish-Proceeds _ (expected-Inv (k.qos p) p w v))
  dispatch-Proceeds (VariablePacket.puback id) w v = puback-Inv id w v
  dispatch-Proceeds (VariablePacket.pubrec id) w v = v
  dispatch-Proceeds (VariablePacket.pubrel id) w v = pubrel-Inv id w v
  dispatch-Proceeds (VariablePacket.pubcomp id) w v = pubcomp-Inv id w v
  dispatch-Proceeds (VariablePacket.suback id codes) w v =
      suback-Inv (get_token w.state.packet_ids id) id codes w v
  dispatch-Proceeds (VariablePacket.unsuback id) w v =
      unsuback-Inv (get_token w.state.packet_ids id) id w v
  dispatch-Proceeds VariablePacket.disconnect w v = v
  dispatch-Proceeds VariablePacket.pingresp w v = v
  dispatch-Proceeds _ w v = v

  -- What is left of a run that went through.
  abbrev pub Survives : Option (World k c × List (VariablePacket k)) → Type 0
  Survives none = ⊥
  Survives (some (w, resps)) = Inv w.state

  respond-Survives :
      (resp : VariablePacket k) (r : Option (World k c × List (VariablePacket k)))
      → Survives r
      → Survives (elim r [ none ↦ none | some (w, resps) ↦ some (w, resp ∷ resps) ])
  respond-Survives resp none v = v
  respond-Survives resp (some (w, resps)) v = v

  round-Survives :
      (frames : List (Frame k)) (open_channel : Bool) (r : Option (World k c × Next k))
      → Proceeds r
      → ((w : World k c) → Inv w.state → Survives (read_from_server frames w))
      → Survives (elim r [
        | none ↦ none
        | some (w', stop) ↦ some (w', [])
        | some (w', proceed) ↦ read_from_server frames w'
        | some (w', respond resp) ↦ elim open_channel [
          | false ↦ some (w', [])
          | true ↦ elim (read_from_server frames w') [
            | none ↦ none
            | some (w'', resps) ↦ some (w'', resp ∷ resps)
          ]
        ]
      ])
  round-Survives frames open_channel none v rest = v
  round-Survives frames open_channel (some (w', stop)) v rest = v
  round-Survives frames open_channel (some (w', proceed)) v rest = rest w' v
  round-Survives frames false (some (w', respond resp)) v rest = v
  round-Survives frames true (some (w', respond resp)) v rest =
      respond-Survives resp (read_from_server frames w') (rest w' v)

-- From a state whose identifiers are those of the protocol and whose trie has no dead branch,
-- whatever frames come, the read loop gets through them without a panic and leaves such a state.
pub read_from_server-Survives :
    {k : Codec} {c : Cache k.PublishPacket} (frames : List (Frame k)) (w : World k c)
    → Inv w.state
    → Survives (read_from_server frames w)
unfolding read_from_server
read_from_server-Survives [] w v = v
read_from_server-Survives (failure ∷ frames) w v = v
read_from_server-Survives (closed ∷ frames) w v = v
read_from_server-Survives (packet p open_channel ∷ frames) w v =
    round-Survives frames open_channel (dispatch p w) (dispatch-Proceeds p w v)
      (λ w' v'. read_from_server-Survives frames w' v')
