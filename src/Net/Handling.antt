-- ===== src/Net/Handling.antt =====
-- The packets from the server, one by one: what they keep of such a world.
use mesquitte_client.Base.{
  ℕ, suc, ◌≡◌, refl, sym, ap, subst, ◌∙◌, inl, inr, Option, none, some, List, [], ◌∷◌, All, String,
  Option-cases, nat_key,
}
use mesquitte_client.Codec.{Codec, QosWithPacketIdentifier}
use mesquitte_client.Token.{Token, subscribe, unsubscribe, SubscribeOwn, set_result}
use mesquitte_client.Pkid.{get_token}
use mesquitte_client.Packets.{VariablePacket}
use mesquitte_client.State.{Cache, State, World}
use mesquitte_client.Net.Handlers.{
  finish, remove_all, handle_puback, handle_pubrel, handle_pubcomp, suback_token, handle_suback,
  unsuback_token, handle_unsuback, suback_loop, suback_round,
}
use mesquitte_client.Net.Loops.{Next, after_publish, dispatch}
use mesquitte_client.Net.Publish.{
  expected, handle_publish_lem, deliver, keep_pending, released, pubrel_missing, pubrel_kept,
}
use mesquitte_client.Net.Subscribing.{
  own_subscriptions, granted, suback_token-Subscribes, subscriptions-set_result,
}
use mesquitte_client.Pkid.Issue.{IsValid, free_id-IsValid}
use mesquitte_client.Topics.{TopicManager, remove}
use mesquitte_client.Topics.Listed.{IsWithin, IsListed, remove-IsWithin}
use mesquitte_client.Net.Unsubscribing.{own_topics}
use mesquitte_client.Net.Sound.{
  IsAllowed, IsNamed, Sound, Goes, stays-Goes, same-Goes, register_all-IsNamed,
  register_all-IsListed, All-granted, finish-own, outgoing_tx-register_all, modify_keeps,
}

remove_all-IsWithin : (topics : List String) (m : TopicManager) → IsWithin (remove_all topics m) m
remove_all-IsWithin [] m f s h = h
remove_all-IsWithin (topic ∷ topics) m f s h =
    remove-IsWithin topic m f s (remove_all-IsWithin topics (remove topic m).0 f s h)

module _ {k : Codec} {c : Cache k.PublishPacket} where
  suback_loop-own :
      (i : ℕ) (codes : List k.SubscribeReturnCode) (s : ℕ) (w : World k c) (r : ℕ)
      → own_subscriptions r (suback_loop i codes s w) ≡ own_subscriptions r w
  unfolding suback_loop set_result
  suback_loop-own i [] s w r = refl
  suback_loop-own i (code ∷ codes) s w r =
      suback_loop-own (suc i) codes s (suback_round i code s w) r
      ∙ modify_keeps (λ (own : SubscribeOwn k). own.subscriptions) (set_result i code) s r
          w.tokens.subscribes (subscriptions-set_result i code)

  suback-Goes :
      (t : Option Token) (id : ℕ) (codes : List k.SubscribeReturnCode) (w : World k c)
      → Sound w
      → Goes w (suback_token t id codes w)
  suback-Goes (some (subscribe s)) id codes w v =
      let (same, _, _) = suback_token-Subscribes id s codes w in
      let sound : Sound (suback_token (some (subscribe s)) id codes w) = record {
        ids =
            subst (λ (x : State k c). IsValid x.packet_ids) (sym same)
              (free_id-IsValid id w.state.packet_ids v.ids);
        table =
            subst (λ (x : State k c). All (IsNamed k) x.subscriptions) (sym same)
              (register_all-IsNamed (granted k.is_failure codes (own_subscriptions s w)) w.state
                (All-granted (IsAllowed k) k.is_failure codes (own_subscriptions s w) (v.heap s))
                v.table);
        listed =
            subst (λ (x : State k c). IsListed x.topic_manager x.subscriptions) (sym same)
              (register_all-IsListed (granted k.is_failure codes (own_subscriptions s w)) w.state
                v.listed);
        heap = λ r.
            subst (All (IsAllowed k))
              (sym (
                finish-own (subscribe s) id (suback_loop 0 codes s w) r
                ∙ suback_loop-own 0 codes s w r))
              (v.heap r);
      } in
      record {
        sound = sound;
        channel =
            ap (λ (x : State k c). x.outgoing_tx) same
            ∙ outgoing_tx-register_all (granted k.is_failure codes (own_subscriptions s w)) w.state;
      }
  suback-Goes none id codes w v = stays-Goes w v
  suback-Goes _ id codes w v = stays-Goes w v

  unsuback-Goes :
      (t : Option Token) (id : ℕ) (w : World k c) → Sound w → Goes w (unsuback_token t id w)
  unsuback-Goes (some (unsubscribe s)) id w v =
      same-Goes w (unsuback_token (some (unsubscribe s)) id w) refl refl
        (remove_all-IsWithin (own_topics s w) w.state.topic_manager)
        (finish-own (unsubscribe s) id w) v (free_id-IsValid id w.state.packet_ids v.ids)
  unsuback-Goes none id w v = stays-Goes w v
  unsuback-Goes _ id w v = stays-Goes w v

  finished-Goes :
      (t : Option Token) (id : ℕ) (w : World k c)
      → Sound w
      → let w' : World k c = elim t [ none ↦ w | some u ↦ finish u id w ] in Goes w w'
  finished-Goes none id w v = stays-Goes w v
  finished-Goes (some t) id w v =
      same-Goes w (finish t id w) refl refl (λ f x h. h) (finish-own t id w) v
        (free_id-IsValid id w.state.packet_ids v.ids)

  pubrel-Goes : (id : ℕ) (w : World k c) → Sound w → Goes w (handle_pubrel id w).0
  pubrel-Goes id w v = elim (Option-cases (c.remove id w.state.pending_packets).0) [
    | inl missing ↦
        subst (λ x. Goes w x.0) (sym (pubrel_missing id w missing))
          (same-Goes w (released id w) refl refl (λ f x h. h) (λ r. refl) v v.ids)
    | inr (p, kept) ↦
        subst (λ x. Goes w x.0) (sym (pubrel_kept id p w kept))
          (same-Goes w (deliver p (released id w)) refl refl (λ f x h. h) (λ r. refl) v v.ids)
  ]

  expected-Goes :
      (q : QosWithPacketIdentifier) (p : k.PublishPacket) (w : World k c)
      → Sound w
      → Goes w (expected q p w).0
  expected-Goes QosWithPacketIdentifier.level0 p w v =
      same-Goes w (deliver p w) refl refl (λ f x h. h) (λ r. refl) v v.ids
  expected-Goes (QosWithPacketIdentifier.level1 id) p w v =
      same-Goes w (deliver p w) refl refl (λ f x h. h) (λ r. refl) v v.ids
  expected-Goes (QosWithPacketIdentifier.level2 id) p w v =
      same-Goes w (keep_pending id p w) refl refl (λ f x h. h) (λ r. refl) v v.ids

  -- A packet is handled without a panic, to such a world.
  abbrev pub Handles : World k c → Option (World k c × Next k) → Type 0
  Handles w none = ⊥
  Handles w (some (w', n)) = Goes w w'

  after_publish-Handles :
      (w : World k c) (r : World k c × Option (VariablePacket k))
      → Goes w r.0
      → Handles w (after_publish (some r))
  after_publish-Handles w (w', none) v = v
  after_publish-Handles w (w', some resp) v = v

  -- No packet makes a handler panic, and each leads to such a world.
  pub dispatch-Handles : (p : VariablePacket k) (w : World k c) → Sound w → Handles w (dispatch p w)
  unfolding dispatch handle_suback handle_unsuback handle_puback handle_pubcomp
  dispatch-Handles (VariablePacket.publish p) w v =
      subst (λ r. Handles w (after_publish r)) (sym (handle_publish_lem p w))
        (after_publish-Handles w _ (expected-Goes (k.qos p) p w v))
  dispatch-Handles (VariablePacket.puback id) w v =
      finished-Goes (get_token w.state.packet_ids id) id w v
  dispatch-Handles (VariablePacket.pubrec id) w v = stays-Goes w v
  dispatch-Handles (VariablePacket.pubrel id) w v = pubrel-Goes id w v
  dispatch-Handles (VariablePacket.pubcomp id) w v =
      finished-Goes (get_token w.state.packet_ids id) id w v
  dispatch-Handles (VariablePacket.suback id codes) w v =
      let t = get_token w.state.packet_ids id in suback-Goes t id codes w v
  dispatch-Handles (VariablePacket.unsuback id) w v =
      let t = get_token w.state.packet_ids id in unsuback-Goes t id w v
  dispatch-Handles VariablePacket.disconnect w v = stays-Goes w v
  dispatch-Handles VariablePacket.pingresp w v = stays-Goes w v
  dispatch-Handles _ w v = stays-Goes w v
