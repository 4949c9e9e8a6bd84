-- ===== src/Net/Unsubscribing.antt =====
-- UNSUBACK.
use mesquitte_client.Base.{
  ℕ, ◌≡◌, refl, sym, ap, subst, ◌∙◌, Bool, false, some, List, [], ◌∷◌, ◌||◌, String, if◌then◌else◌,
  arith, nat_key,
}
use mesquitte_client.Codec.{Codec}
use mesquitte_client.Token.{subscribe, unsubscribe, state_of, token_beq_iff}
use mesquitte_client.Token.Laws.{done}
use mesquitte_client.Pkid.{get_token}
use mesquitte_client.Topics.{TopicManager, remove, tokenize_topic}
use mesquitte_client.State.{Cache, State, World}
use mesquitte_client.Net.Handlers.{handle_suback, remove_all, unsuback_token, handle_unsuback}
use mesquitte_client.Net.Acks.{Finished, finish-Finished}
use mesquitte_client.Net.Subscribing.{
  granted, granted_nil, subscribed, own_subscriptions, handle_suback_lem,
}
use mesquitte_client.Trie.Paths.{subs_at, subs_at-remove_at, tokens_beq}

-- Whether the tokens are those of one of the topics.
abbrev pub listed : List String → List String → Bool
listed f [] = false
listed f (topic ∷ topics) = tokens_beq (tokenize_topic topic) f || listed f topics

subs_at-remove_all :
    (topics f : List String) (m : TopicManager)
    → subs_at f (remove_all topics m).root ≡ (if listed f topics then [] else subs_at f m.root)
unfolding remove
subs_at-remove_all [] f m = refl
subs_at-remove_all (topic ∷ topics) f m = ground (
  arith,
  subs_at-remove_all topics f (remove topic m).0,
  subs_at-remove_at (tokenize_topic topic) f m.root,
)

module _ {k : Codec} {c : Cache k.PublishPacket} where
  abbrev pub own_topics : ℕ → World k c → List String
  own_topics r w = (w.tokens.unsubscribes.cell r).own.subs

  -- What an UNSUBACK does for the token whose cell is `r`.
  pub record Unsubscribes (id r : ℕ) (w w' : World k c) : Type 0 where
    pub removed :
        (f : List String)
        → subs_at f w'.state.topic_manager.root
          ≡ (if listed f (own_topics r w) then [] else subs_at f w.state.topic_manager.root)
    pub table : w'.state.subscriptions ≡ w.state.subscriptions
    pub finished : Finished (unsubscribe r) id w w'
    pub spawned : w'.spawned ≡ w.spawned

  unsuback_token-Unsubscribes :
      (id r : ℕ) (w : World k c) → Unsubscribes id r w (unsuback_token (some (unsubscribe r)) id w)
  unsuback_token-Unsubscribes id r w =
      let topics = own_topics r w in
      let ended = finish-Finished (unsubscribe r) id (record w {
        state = record (w.state) { topic_manager = remove_all topics w.state.topic_manager };
      }) in
      record {
        removed = λ f. subs_at-remove_all topics f w.state.topic_manager;
        table = refl;
        finished = record { states = ended.states; errors = ended.errors; ids = ended.ids };
        spawned = refl;
      }

-- An UNSUBACK for a waiting request takes every subscription to its topics out of the trie and no other,
-- completes the token and releases the identifier; the table from which subscriptions are renewed
-- after a reconnection keeps the topics.
pub handle_unsuback_lem :
    {k : Codec} {c : Cache k.PublishPacket} (id r : ℕ) (w : World k c)
    → get_token w.state.packet_ids id ≡ some (unsubscribe r)
    → Unsubscribes id r w (handle_unsuback id w)
unfolding handle_unsuback
handle_unsuback_lem id r w h =
    subst (λ t. Unsubscribes id r w (unsuback_token t id w)) (sym h)
      (unsuback_token-Unsubscribes id r w)

-- A SUBACK that comes before the token was given its subscriptions completes the token and
-- subscribes to nothing, whatever the server granted.
pub suback_before_subscriptions :
    {k : Codec} {c : Cache k.PublishPacket} (id r : ℕ) (codes : List k.SubscribeReturnCode)
    (w : World k c)
    → get_token w.state.packet_ids id ≡ some (subscribe r)
    → own_subscriptions r w ≡ []
    → let w' = handle_suback id codes w in
      (w'.state.topic_manager ≡ w.state.topic_manager)
      × (w'.state.subscriptions ≡ w.state.subscriptions)
      × (state_of (subscribe r) w'.tokens ≡ done)
suback_before_subscriptions {k} {c} id r codes w h e =
    let (same, finished, _) = handle_suback_lem id r codes w h in
    let none_granted : granted k.is_failure codes (own_subscriptions r w) ≡ [] =
      ap (granted k.is_failure codes) e ∙ granted_nil k.is_failure codes in
    let kept = same ∙ ap (λ subs. subscribed {c = c} id subs w.state) none_granted in
    (
      ap (λ (s : State k c). s.topic_manager) kept,
      ap (λ (s : State k c). s.subscriptions) kept,
      finished.states (subscribe r) ∙ (rw ((token_beq_iff (subscribe r) (subscribe r)).1 refl)),
    )
