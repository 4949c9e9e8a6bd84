-- ===== src/System/Handling.antt =====
-- No packet from the server registers a token.
use mesquitte_client.Base.{
  ℕ, suc, ◌≡◌, refl, sym, ap, subst, ◌∙◌, inl, inr, Option, none, some, List, [], ◌∷◌, nat_key,
  Option-cases,
}
use mesquitte_client.Codec.{Codec, QosWithPacketIdentifier}
use mesquitte_client.Token.{Token, Tokens, subscribe, unsubscribe, flow_complete}
use mesquitte_client.Pkid.{PacketIds, get_token}
use mesquitte_client.Packets.{VariablePacket}
use mesquitte_client.State.{Cache, State, World}
use mesquitte_client.Net.{
  dispatch, finish, handle_puback, handle_pubrel, handle_pubcomp, handle_suback, handle_unsuback,
  suback_token, suback_loop, suback_round, unsuback_token, after_publish,
}
use mesquitte_client.Net.Publish.{
  expected, handle_publish_lem, deliver, keep_pending, released, pubrel_missing, pubrel_kept,
}
use mesquitte_client.Net.Subscribing.{suback_token-Subscribes}
use mesquitte_client.System.Lasting.{
  IsDone, flow_complete-IsDone, flow_complete-Lasts, suback_loop-Lasts,
}
use mesquitte_client.System.Limits.{
  limits, limits-flow_complete, Releases, kept-Releases, stays-Releases, freed-Releases,
}

-- The one token that waits under an identifier
only_done :
    {k : Codec} (id : ℕ) (t u : Token) (ids : PacketIds) (ts : Tokens k)
    → get_token ids id ≡ some t
    → get_token ids id ≡ some u
    → IsDone t ts
    → IsDone u ts
only_done id t u ids ts h g d = let same : t ≡ u = cc (h, g) in subst (λ x. IsDone x ts) same d

module _ {k : Codec} {c : Cache k.PublishPacket} where
  finish-Releases :
      (t : Token) (id : ℕ) (w : World k c)
      → get_token w.state.packet_ids id ≡ some t
      → Releases w (finish t id w)
  finish-Releases t id w h =
      freed-Releases id w (finish t id w) refl (limits-flow_complete t w.tokens)
        (flow_complete-Lasts t w.tokens)
        (λ u g.
          only_done id t u w.state.packet_ids (flow_complete t w.tokens) h g
            (flow_complete-IsDone t w.tokens))

  suback_loop-limits :
      (i : ℕ) (codes : List k.SubscribeReturnCode) (r : ℕ) (w : World k c)
      → limits (suback_loop i codes r w).tokens ≡ limits w.tokens
  unfolding suback_loop
  suback_loop-limits i [] r w = refl
  suback_loop-limits i (code ∷ codes) r w =
      suback_loop-limits (suc i) codes r (suback_round i code r w)

  suback-Releases :
      (t : Option Token) (id : ℕ) (codes : List k.SubscribeReturnCode) (w : World k c)
      → get_token w.state.packet_ids id ≡ t
      → Releases w (suback_token t id codes w)
  suback-Releases (some (subscribe r)) id codes w h =
      let (same, _, _) = suback_token-Subscribes id r codes w in
      let looped = (suback_loop 0 codes r w).tokens in
      freed-Releases id w (suback_token (some (subscribe r)) id codes w)
        (ap (λ (s : State k c). s.packet_ids) same)
        (limits-flow_complete (subscribe r) looped ∙ suback_loop-limits 0 codes r w)
        (λ u d. flow_complete-Lasts (subscribe r) looped u (suback_loop-Lasts 0 codes r w u d))
        (λ u g.
          only_done id (subscribe r) u w.state.packet_ids (flow_complete (subscribe r) looped) h g
            (flow_complete-IsDone (subscribe r) looped))
  suback-Releases none id codes w h = stays-Releases w
  suback-Releases _ id codes w h = stays-Releases w

  unsuback-Releases :
      (t : Option Token) (id : ℕ) (w : World k c)
      → get_token w.state.packet_ids id ≡ t
      → Releases w (unsuback_token t id w)
  unsuback-Releases (some (unsubscribe r)) id w h =
      freed-Releases id w (unsuback_token (some (unsubscribe r)) id w) refl
        (limits-flow_complete (unsubscribe r) w.tokens)
        (flow_complete-Lasts (unsubscribe r) w.tokens)
        (λ u g.
          only_done id (unsubscribe r) u w.state.packet_ids (flow_complete (unsubscribe r) w.tokens)
            h g (flow_complete-IsDone (unsubscribe r) w.tokens))
  unsuback-Releases none id w h = stays-Releases w
  unsuback-Releases _ id w h = stays-Releases w

  finished-Releases :
      (t : Option Token) (id : ℕ) (w : World k c)
      → get_token w.state.packet_ids id ≡ t
      → Releases w (elim t [ none ↦ w | some u ↦ finish u id w ])
  finished-Releases none id w h = stays-Releases w
  finished-Releases (some t) id w h = finish-Releases t id w h

  pubrel-Releases : (id : ℕ) (w : World k c) → Releases w (handle_pubrel id w).0
  pubrel-Releases id w = elim (Option-cases (c.remove id w.state.pending_packets).0) [
    | inl missing ↦
        subst (λ x. Releases w x.0) (sym (pubrel_missing id w missing))
          (kept-Releases w (released id w) refl refl (λ t h. h))
    | inr (p, kept) ↦
        subst (λ x. Releases w x.0) (sym (pubrel_kept id p w kept))
          (kept-Releases w (deliver p (released id w)) refl refl (λ t h. h))
  ]

  expected-Releases :
      (q : QosWithPacketIdentifier) (p : k.PublishPacket) (w : World k c)
      → Releases w (expected q p w).0
  expected-Releases QosWithPacketIdentifier.level0 p w =
      kept-Releases w (deliver p w) refl refl (λ t h. h)
  expected-Releases (QosWithPacketIdentifier.level1 id) p w =
      kept-Releases w (deliver p w) refl refl (λ t h. h)
  expected-Releases (QosWithPacketIdentifier.level2 id) p w =
      kept-Releases w (keep_pending id p w) refl refl (λ t h. h)

  -- What is left of a handler
  abbrev pub Lets {ℓ} : {A : Type ℓ} → World k c → Option (World k c × A) → Type 0
  Lets w none = Unit
  Lets w (some (w', a)) = Releases w w'

  after_publish-Lets :
      (w : World k c) (r : World k c × Option (VariablePacket k))
      → Releases w r.0
      → Lets w (after_publish (some r))
  after_publish-Lets w (w', none) h = h
  after_publish-Lets w (w', some resp) h = h

  pub dispatch-Lets : (p : VariablePacket k) (w : World k c) → Lets w (dispatch p w)
  unfolding dispatch handle_suback handle_unsuback handle_puback handle_pubcomp
  dispatch-Lets (VariablePacket.publish p) w =
      subst (λ r. Lets w (after_publish r)) (sym (handle_publish_lem p w))
        (after_publish-Lets w (expected (k.qos p) p w) (expected-Releases (k.qos p) p w))
  dispatch-Lets (VariablePacket.puback id) w =
      finished-Releases (get_token w.state.packet_ids id) id w refl
  dispatch-Lets (VariablePacket.pubrec id) w = stays-Releases w
  dispatch-Lets (VariablePacket.pubrel id) w = pubrel-Releases id w
  dispatch-Lets (VariablePacket.pubcomp id) w =
      finished-Releases (get_token w.state.packet_ids id) id w refl
  dispatch-Lets (VariablePacket.suback id codes) w =
      suback-Releases (get_token w.state.packet_ids id) id codes w refl
  dispatch-Lets (VariablePacket.unsuback id) w =
      unsuback-Releases (get_token w.state.packet_ids id) id w refl
  dispatch-Lets VariablePacket.disconnect w = stays-Releases w
  dispatch-Lets VariablePacket.pingresp w = stays-Releases w
  dispatch-Lets _ w = stays-Releases w
