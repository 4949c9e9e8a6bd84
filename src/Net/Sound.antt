-- ===== src/Net/Sound.antt =====
-- What the tasks of a connection keep: the identifiers, the trie, the table of the subscriptions, and
-- the subscriptions that the tokens hold.
use mesquitte_client.Base.{
  ℕ, ◌≡◌, ◌∙◌, refl, sym, ap, subst, inl, inr, Bool, some, List, [], ◌∷◌, String, All, arith,
  Bool-cases, insert_sorted, nat_key,
}
use mesquitte_client.Codec.{Codec}
use mesquitte_client.Subscription.{Subscription}
use mesquitte_client.Token.{
  Token, TokenError, Tokens, connect, disconnect, publish, subscribe, unsubscribe, flow_complete,
  set_error, flow_complete_inner, set_error_inner, poll, poll_inner, connection_lost, SubscribeOwn,
  Cells, modify,
}
use mesquitte_client.Pkid.{fail_all}
use mesquitte_client.State.{Cache, State, World}
use mesquitte_client.Net.Handlers.{finish, register}
use mesquitte_client.Net.Subscribing.{own_subscriptions, granted, register_all}
use mesquitte_client.Pkid.Issue.{IsValid}
use mesquitte_client.Topics.Listed.{IsWithin, IsListed, within-IsListed, add-IsListed}

-- A subscription to a valid topic
abbrev pub IsAllowed : (k : Codec) → Subscription → Type 0
IsAllowed k sub = (filter : k.TopicFilter) × (k.topic_filter_new sub.topic ≡ some filter)

-- An entry of the table has the name of its topic, which is a valid filter.
abbrev pub IsNamed : (k : Codec) → String × Subscription → Type 0
IsNamed k (topic, sub) = (topic ≡ sub.topic) × IsAllowed k sub

All-insert_sorted {ℓ κ} :
    {V : Type ℓ} (P : String × V → Type κ) (key : String) (v : V) (m : List (String × V))
    → P (key, v)
    → All P m
    → All P (insert_sorted key v m)
unfolding insert_sorted
All-insert_sorted P key v [] p h = (p, tt)
All-insert_sorted P key v ((j, w) ∷ m) p (q, h) = ground (arith, All-insert_sorted P key v m p h)

pub All-granted {ℓ κ} :
    {A : Type ℓ} (P : Subscription → Type κ) (failed : A → Bool) (codes : List A)
    (subs : List Subscription)
    → All P subs
    → All P (granted failed codes subs)
All-granted P failed [] subs h = tt
All-granted P failed (code ∷ codes) [] h = tt
All-granted P failed (code ∷ codes) (sub ∷ subs) (p, h) = elim (Bool-cases (failed code)) [
  | inl bad ↦ rw bad (All-granted P failed codes subs h)
  | inr good ↦ rw good (p, All-granted P failed codes subs h)
]

pub own-flow_complete :
    {k : Codec} (t : Token) (ts : Tokens k) (r : ℕ)
    → ((flow_complete t ts).subscribes.cell r).own ≡ (ts.subscribes.cell r).own
unfolding flow_complete flow_complete_inner
own-flow_complete (connect s) ts r = refl
own-flow_complete (disconnect s) ts r = refl
own-flow_complete (publish s) ts r = refl
own-flow_complete (unsubscribe s) ts r = refl
own-flow_complete (subscribe s) ts r = ground arith

pub own-set_error :
    {k : Codec} (t : Token) (e : TokenError) (ts : Tokens k) (r : ℕ)
    → ((set_error t e ts).subscribes.cell r).own ≡ (ts.subscribes.cell r).own
unfolding set_error set_error_inner
own-set_error (connect s) e ts r = refl
own-set_error (disconnect s) e ts r = refl
own-set_error (publish s) e ts r = refl
own-set_error (unsubscribe s) e ts r = refl
own-set_error (subscribe s) e ts r = ground arith

pub own-poll :
    {k : Codec} (waker : ℕ) (t : Token) (ts : Tokens k) (r : ℕ)
    → ((poll waker t ts).0.subscribes.cell r).own ≡ (ts.subscribes.cell r).own
unfolding poll poll_inner
own-poll waker (connect s) ts r = refl
own-poll waker (disconnect s) ts r = refl
own-poll waker (publish s) ts r = refl
own-poll waker (unsubscribe s) ts r = refl
own-poll waker (subscribe s) ts r = ground (arith, Bool-cases (ts.subscribes.cell s).state.complete)

pub own-fail_all :
    {k : Codec} (m : List (ℕ × Token)) (ts : Tokens k) (r : ℕ)
    → ((fail_all m ts).subscribes.cell r).own ≡ (ts.subscribes.cell r).own
unfolding fail_all
own-fail_all [] ts r = refl
own-fail_all ((_, t) ∷ m) ts r =
    own-fail_all m (set_error t connection_lost ts) r ∙ own-set_error t connection_lost ts r

-- What a method does not change, it changes in no cell.
pub modify_keeps :
    {X Y : Type 0} (g : X → Y) (f : X → X) (s r : ℕ) (cells : Cells X)
    → ((x : X) → g (f x) ≡ g x)
    → g ((modify s f cells).cell r).own ≡ g (cells.cell r).own
modify_keeps g f s r cells h = ground (arith, h (cells.cell s).own)

module _ {k : Codec} {c : Cache k.PublishPacket} where
  -- The world of a client at any time.
  pub record Sound (w : World k c) : Type 0 where
    pub ids : IsValid w.state.packet_ids
    pub table : All (IsNamed k) w.state.subscriptions
    pub listed : IsListed w.state.topic_manager w.state.subscriptions
    pub heap : (r : ℕ) → All (IsAllowed k) (own_subscriptions r w)

  -- A step to such a world, which leaves the channel.
  pub record Goes (w w' : World k c) : Type 0 where
    pub sound : Sound w'
    pub channel : w'.state.outgoing_tx ≡ w.state.outgoing_tx

  pub stays-Goes : (w : World k c) → Sound w → Goes w w
  stays-Goes w v = record { sound = v; channel = refl }

  -- A step that leaves the table and the subscriptions of the tokens, and adds none to the trie.
  pub same-Sound :
      (w w' : World k c)
      → w'.state.subscriptions ≡ w.state.subscriptions
      → IsWithin w'.state.topic_manager w.state.topic_manager
      → ((r : ℕ) → own_subscriptions r w' ≡ own_subscriptions r w)
      → Sound w
      → IsValid w'.state.packet_ids
      → Sound w'
  same-Sound w w' table within own v ids = record {
    ids = ids;
    listed = subst (IsListed w'.state.topic_manager) (sym table) (
        within-IsListed w'.state.topic_manager w.state.topic_manager w.state.subscriptions within
          v.listed);
    table = subst (All (IsNamed k)) (sym table) v.table;
    heap = λ r. subst (All (IsAllowed k)) (sym (own r)) (v.heap r);
  }

  pub register_all-IsNamed :
      (subs : List Subscription) (s : State k c)
      → All (IsAllowed k) subs
      → All (IsNamed k) s.subscriptions
      → All (IsNamed k) (register_all subs s).subscriptions
  register_all-IsNamed [] s h v = v
  register_all-IsNamed (sub ∷ subs) s (p, h) v =
      register_all-IsNamed subs (register sub s) h
        (All-insert_sorted (IsNamed k) sub.topic sub s.subscriptions (refl, p) v)

  pub register_all-IsListed :
      (subs : List Subscription) (s : State k c)
      → IsListed s.topic_manager s.subscriptions
      → let s' = register_all subs s in IsListed s'.topic_manager s'.subscriptions
  register_all-IsListed [] s v = v
  register_all-IsListed (sub ∷ subs) s v =
      register_all-IsListed subs (register sub s)
        (add-IsListed sub s.topic_manager s.subscriptions v)

  pub finish-own :
      (t : Token) (id : ℕ) (w : World k c) (r : ℕ)
      → own_subscriptions r (finish t id w) ≡ own_subscriptions r w
  finish-own t id w r =
      ap (λ (own : SubscribeOwn k). own.subscriptions) (own-flow_complete t w.tokens r)

  pub outgoing_tx-register_all :
      (subs : List Subscription) (s : State k c) → (register_all subs s).outgoing_tx ≡ s.outgoing_tx
  outgoing_tx-register_all [] s = refl
  outgoing_tx-register_all (sub ∷ subs) s = outgoing_tx-register_all subs (register sub s)

  pub same-Goes :
      (w w' : World k c)
      → w'.state.subscriptions ≡ w.state.subscriptions
      → w'.state.outgoing_tx ≡ w.state.outgoing_tx
      → IsWithin w'.state.topic_manager w.state.topic_manager
      → ((r : ℕ) → own_subscriptions r w' ≡ own_subscriptions r w)
      → Sound w
      → IsValid w'.state.packet_ids
      → Goes w w'
  same-Goes w w' table channel within own v ids = record {
    sound = same-Sound w w' table within own v ids;
    channel = channel;
  }
