-- ===== src/System/Sending.antt =====
-- What a publication keeps, and what every operation is made of. Where the channel is there, none of it panics.
use mesquitte_client.Base.{
  ℕ, refl, sym, subst, inl, inr, Bool, true, false, Option, none, some, List, [], ◌∷◌, ◌++◌, String,
  nat_key, nat_beq, if◌then◌else◌, Option-cases,
}
use mesquitte_client.Codec.{Codec, QualityOfService, QosWithPacketIdentifier}
use mesquitte_client.Token.{
  Token, TokenError, internal_server_error, packet_id_error, invalid_topic, set_error,
}
use mesquitte_client.Pkid.{get_id}
use mesquitte_client.Pkid.Issue.{get_id-IsValid}
use mesquitte_client.Packets.{VariablePacket, PacketAndToken, new_with}
use mesquitte_client.State.{Cache, World}
use mesquitte_client.Net.Sound.{Sound, same-Sound, own-set_error}
use mesquitte_client.Client.{Wait, hand_over, reject, numbered, publish_packet, publish_level}
use mesquitte_client.System.{Waits}
use mesquitte_client.System.Keeping.{
  IsOpen, Keeps, trans-Keeps, Goes-Keeps, tokens-Goes, Tasks-Keeps,
}

module _ {k : Codec} {c : Cache k.PublishPacket} where
  -- The operation goes through.
  abbrev pub Runs : World k c → Option (World k c) → Type 0
  Runs w none = ⊥
  Runs w (some w') = Keeps w w'

  pub trans-Runs : {w w' : World k c} (r : Option (World k c)) → Keeps w w' → Runs w' r → Runs w r
  trans-Runs none a h = h
  trans-Runs (some w'') a b = trans-Keeps a b

  pub reject-Keeps : (e : TokenError) (t : Token) (w : World k c) → Sound w → Keeps w (reject e t w)
  reject-Keeps e t w v =
      Goes-Keeps w _ (tokens-Goes w (set_error t e w.tokens) (own-set_error t e w.tokens) v)

  accepts :
      (packet : VariablePacket k) (t : Token) (wait : Wait k c) (w : World k c)
      (sent : List (PacketAndToken k)) (taken : Bool)
      → Waits wait
      → Sound w
      → Keeps w (
          if taken
          then wait.others (record w {
            state = record (w.state) { outgoing_tx = some (sent ++ new_with packet t ∷ []) };
          })
          else reject internal_server_error t (wait.others w))
  accepts packet t wait w sent false waits v =
      let a = Tasks-Keeps (waits w) v in
      trans-Keeps a (reject-Keeps internal_server_error t _ a.sound)
  accepts packet t wait w sent true waits v =
      let w' : World k c = record w {
        state = record (w.state) { outgoing_tx = some (sent ++ new_with packet t ∷ []) };
      } in
      let a : Keeps w w' = record {
        sound = same-Sound w w' refl (λ f x h. h) (λ r. refl) v v.ids;
        open_channel = λ h. (_, refl);
      } in
      trans-Keeps a (Tasks-Keeps (waits w') a.sound)

  pub hand_over-Runs :
      (packet : VariablePacket k) (t : Token) (wait : Wait k c) (w : World k c)
      → Waits wait
      → Sound w
      → IsOpen w
      → Runs w (hand_over packet t wait w)
  unfolding hand_over
  hand_over-Runs packet t wait w waits v (sent, channel) =
      subst
        (λ o. Runs w (elim o [
          | none ↦ none
          | some sent ↦ some (
              if wait.accepted
              then wait.others (record w {
                state = record (w.state) { outgoing_tx = some (sent ++ new_with packet t ∷ []) };
              })
              else reject internal_server_error t (wait.others w))
        ]))
        (sym channel) (accepts packet t wait w sent wait.accepted waits v)

  pub if-Runs :
      (w : World k c) (b : Bool) (r r' : Option (World k c))
      → Runs w r
      → Runs w r'
      → Runs w (if b then r else r')
  if-Runs w true r r' x y = x
  if-Runs w false r r' x y = y

  pub numbered-Runs :
      (t : Token) (rest : ℕ → World k c → Option (World k c)) (w : World k c)
      → ((id : ℕ) (w' : World k c) → Sound w' → IsOpen w' → Runs w' (rest id w'))
      → Sound w
      → IsOpen w
      → Runs w (numbered t rest w)
  unfolding numbered
  numbered-Runs t rest w h v channel =
      let (ids, pkid) = get_id w.state.packet_ids t in
      let w' : World k c = record w { state = record (w.state) { packet_ids = ids } } in
      let a : Keeps w w' = record {
        sound =
            same-Sound w w' refl (λ f x h. h) (λ r. refl) v
              (get_id-IsValid w.state.packet_ids t v.ids);
        open_channel = λ x. x;
      } in
      if-Runs w (nat_beq pkid 0) (some (reject packet_id_error t w')) (rest pkid w')
        (trans-Keeps a (reject-Keeps packet_id_error t w' a.sound))
        (trans-Runs (rest pkid w') a (h pkid w' a.sound channel))

  pub publish_packet-Runs :
      (r : ℕ) (topic : String) (retained : Bool) (payload : List ℕ) (wait : Wait k c)
      (qos : QosWithPacketIdentifier) (w : World k c)
      → Waits wait
      → Sound w
      → IsOpen w
      → Runs w (publish_packet r topic retained payload wait qos w)
  unfolding publish_packet
  publish_packet-Runs r topic retained payload wait qos w waits v channel =
      elim (Option-cases (k.topic_name_new topic)) [
        | inl bad ↦ rw (publish_packet, bad) (reject-Keeps invalid_topic (Token.publish r) w v)
        | inr (name, good) ↦
            rw (publish_packet, good) (hand_over-Runs _ (Token.publish r) wait w waits v channel)
      ]

  pub publish_level-Runs :
      (q : QualityOfService) (r : ℕ)
      (rest : QosWithPacketIdentifier → World k c → Option (World k c)) (w : World k c)
      → ((q : QosWithPacketIdentifier) (w' : World k c)
          → Sound w'
          → IsOpen w'
          → Runs w' (rest q w'))
      → Sound w
      → IsOpen w
      → Runs w (publish_level q r rest w)
  publish_level-Runs QualityOfService.level0 r rest w h v channel = h _ w v channel
  publish_level-Runs QualityOfService.level1 r rest w h v channel =
      numbered-Runs (Token.publish r) _ w (λ id. h (QosWithPacketIdentifier.level1 id)) v channel
  publish_level-Runs QualityOfService.level2 r rest w h v channel =
      numbered-Runs (Token.publish r) _ w (λ id. h (QosWithPacketIdentifier.level2 id)) v channel
