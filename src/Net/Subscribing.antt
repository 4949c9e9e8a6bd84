-- ===== src/Net/Subscribing.antt =====
-- SUBACK and UNSUBACK: what is subscribed and what is not.
use mesquitte_client.Base.{
  ℕ, zero, suc, ◌≡◌, refl, sym, ap, subst, ◌∙◌, inl, inr, Bool, true, some, List, [], ◌∷◌,
  if◌then◌else◌, arith, Option-cases, Bool-cases, nat_beq, nat_key, get_elem?, drop,
}
use mesquitte_client.Codec.{Codec}
use mesquitte_client.Subscription.{Subscription}
use mesquitte_client.Token.{
  Cells, SubscribeOwn, Token, connect, disconnect, publish, subscribe, unsubscribe, Tokens, modify,
  set_result, get_subscription, state_of, error_of,
}
use mesquitte_client.Pkid.{get_token, free_id}
use mesquitte_client.State.{Cache, State, World}
use mesquitte_client.Net.Handlers.{
  register, register_when, suback_round, suback_loop, suback_token, handle_suback,
}
use mesquitte_client.Net.Acks.{Finished, finish-Finished}

-- The subscriptions that the server granted, paired with its codes by position.
abbrev pub granted {ℓ} : {A : Type ℓ} → (A → Bool) → List A → List Subscription → List Subscription
granted failed [] subs = []
granted failed (code ∷ codes) [] = []
granted failed (code ∷ codes) (sub ∷ subs) =
    if failed code then granted failed codes subs else sub ∷ granted failed codes subs

pub granted_nil {ℓ} :
    {A : Type ℓ} (failed : A → Bool) (codes : List A) → granted failed codes [] ≡ []
granted_nil failed [] = refl
granted_nil failed (code ∷ codes) = refl

pub own-modify :
    {X : Type 0} (r : ℕ) (f : X → X) (cells : Cells X)
    → ((modify r f cells).cell r).own ≡ f (cells.cell r).own
own-modify r f cells = rw (nat_beq_refl r)
  where
    nat_beq_refl : (n : ℕ) → nat_beq n n ≡ true
    nat_beq_refl n = ground arith

pub state-modify :
    {X : Type 0} (r s : ℕ) (f : X → X) (cells : Cells X)
    → (((modify r f cells).cell s).state ≡ (cells.cell s).state)
      × (((modify r f cells).cell s).error ≡ (cells.cell s).error)
state-modify r s f cells = ground arith

module _ {k : Codec} where
  pub subscriptions-set_result :
      (i : ℕ) (code : k.SubscribeReturnCode) (own : SubscribeOwn k)
      → (set_result i code own).subscriptions ≡ own.subscriptions
  unfolding set_result
  subscriptions-set_result i code own = elim (Option-cases (get_elem? own.subscriptions i)) [
    | inl missing ↦ rw (set_result, missing)
    | inr (sub, there) ↦ rw (set_result, there)
  ]

  pub tokens_kept :
      (r : ℕ) (f : SubscribeOwn k → SubscribeOwn k) (ts : Tokens k) (u : Token)
      → let ts' : Tokens k = record ts { subscribes = modify r f ts.subscribes } in
        (state_of u ts' ≡ state_of u ts) × (error_of u ts' ≡ error_of u ts)
  unfolding state_of error_of
  tokens_kept r f ts (connect s) = (refl, refl)
  tokens_kept r f ts (disconnect s) = (refl, refl)
  tokens_kept r f ts (publish s) = (refl, refl)
  tokens_kept r f ts (unsubscribe s) = (refl, refl)
  tokens_kept r f ts (subscribe s) = state-modify r s f ts.subscribes

module _ {k : Codec} {c : Cache k.PublishPacket} where
  abbrev pub register_all : List Subscription → State k c → State k c
  register_all [] s = s
  register_all (sub ∷ subs) s = register_all subs (register sub s)

  abbrev pub own_subscriptions : ℕ → World k c → List Subscription
  own_subscriptions r w = (w.tokens.subscribes.cell r).own.subscriptions

  -- `set_result` records a code and leaves the subscriptions.
  round_subscriptions :
      (i : ℕ) (code : k.SubscribeReturnCode) (r : ℕ) (w : World k c)
      → own_subscriptions r (suback_round i code r w) ≡ own_subscriptions r w
  round_subscriptions i code r w =
      ap (λ (own : SubscribeOwn k). own.subscriptions)
        (own-modify r (set_result i code) w.tokens.subscribes)
      ∙ subscriptions-set_result i code _

  suback_round-state :
      (i : ℕ) (code : k.SubscribeReturnCode) (r : ℕ) (w : World k c)
      → (suback_round i code r w).state
        ≡ register_when code (get_elem? (own_subscriptions r w) i) w.state
  unfolding get_subscription
  suback_round-state i code r w =
      ap (λ subs. register_when code (get_elem? subs i) w.state) (round_subscriptions i code r w)

  -- One code is used up with the subscription at its position.
  register_step :
      (i : ℕ) (code : k.SubscribeReturnCode) (codes : List k.SubscribeReturnCode)
      (subs : List Subscription) (s : State k c)
      → register_all
          (granted k.is_failure codes (drop (suc i) subs))
          (register_when code (get_elem? subs i) s)
        ≡ register_all (granted k.is_failure (code ∷ codes) (drop i subs)) s
  register_step zero code codes [] s = ap (λ g. register_all g s) (granted_nil k.is_failure codes)
  register_step (suc i) code codes [] s =
      ap (λ g. register_all g s) (granted_nil k.is_failure codes)
  register_step zero code codes (sub ∷ subs) s = elim (Bool-cases (k.is_failure code)) [
    | inl failed ↦ rw failed
    | inr fine ↦ rw fine
  ]
  register_step (suc i) code codes (sub ∷ subs) s = register_step i code codes subs s

  suback_loop-state :
      (i : ℕ) (codes : List k.SubscribeReturnCode) (r : ℕ) (w : World k c)
      → (suback_loop i codes r w).state
        ≡ register_all (granted k.is_failure codes (drop i (own_subscriptions r w))) w.state
  unfolding suback_loop
  suback_loop-state i [] r w = refl
  suback_loop-state i (code ∷ codes) r w =
      suback_loop-state (suc i) codes r (suback_round i code r w)
      ∙ ap
          (λ subs.
            register_all (granted k.is_failure codes (drop (suc i) subs))
              (suback_round i code r w).state)
          (round_subscriptions i code r w)
      ∙ ap (register_all (granted k.is_failure codes (drop (suc i) (own_subscriptions r w))))
          (suback_round-state i code r w)
      ∙ register_step i code codes (own_subscriptions r w) w.state

  suback_loop-tokens :
      (i : ℕ) (codes : List k.SubscribeReturnCode) (r : ℕ) (w : World k c) (u : Token)
      → (state_of u (suback_loop i codes r w).tokens ≡ state_of u w.tokens)
        × (error_of u (suback_loop i codes r w).tokens ≡ error_of u w.tokens)
        × ((suback_loop i codes r w).spawned ≡ w.spawned)
  unfolding suback_loop
  suback_loop-tokens i [] r w u = (refl, refl, refl)
  suback_loop-tokens i (code ∷ codes) r w u =
      let (state, error, spawned) =
        suback_loop-tokens (suc i) codes r (suback_round i code r w) u in
      let (state', error') = tokens_kept r (set_result i code) w.tokens u in
      (state ∙ state', error ∙ error', spawned)

  pub packet_ids-register_all :
      (subs : List Subscription) (s : State k c) → (register_all subs s).packet_ids ≡ s.packet_ids
  packet_ids-register_all [] s = refl
  packet_ids-register_all (sub ∷ subs) s = packet_ids-register_all subs (register sub s)

  -- The state after a SUBACK.
  abbrev pub subscribed : ℕ → List Subscription → State k c → State k c
  subscribed id subs s = record (register_all subs s) { packet_ids = free_id id s.packet_ids }

  -- What a SUBACK does for the token whose cell is `r`.
  abbrev pub Subscribes : ℕ → ℕ → List k.SubscribeReturnCode → World k c → World k c → Type 0
  Subscribes id r codes w w' =
      (w'.state ≡ subscribed id (granted k.is_failure codes (own_subscriptions r w)) w.state)
      × Finished (subscribe r) id w w'
      × (w'.spawned ≡ w.spawned)

  pub suback_token-Subscribes :
      (id r : ℕ) (codes : List k.SubscribeReturnCode) (w : World k c)
      → Subscribes id r codes w (suback_token (some (subscribe r)) id codes w)
  unfolding get_token
  suback_token-Subscribes id r codes w =
      let looped = suback_loop 0 codes r w in
      let same = suback_loop-state 0 codes r w in
      let subs = granted k.is_failure codes (own_subscriptions r w) in
      let ids = ap (λ (s : State k c). s.packet_ids) same ∙ packet_ids-register_all subs w.state in
      let kept = suback_loop-tokens 0 codes r w in
      let ended = finish-Finished (subscribe r) id looped in
      (
        (λ i. record (same i) { packet_ids = free_id id (ids i) }),
        record {
          states = λ u. ended.states u ∙ (rw (kept u).0);
          errors = λ u. ended.errors u ∙ (kept u).1;
          ids = λ j. ended.ids j ∙ (rw ids);
        },
        (kept (subscribe r)).2,
      )

-- A SUBACK for a waiting subscription registers exactly the granted ones of the subscriptions that the token
-- holds, in the trie and in the table, in their order; it completes the token and releases the identifier.
pub handle_suback_lem :
    {k : Codec} {c : Cache k.PublishPacket} (id r : ℕ) (codes : List k.SubscribeReturnCode)
    (w : World k c)
    → get_token w.state.packet_ids id ≡ some (subscribe r)
    → Subscribes id r codes w (handle_suback id codes w)
unfolding handle_suback
handle_suback_lem id r codes w h =
    subst (λ t. Subscribes id r codes w (suback_token t id codes w)) (sym h)
      (suback_token-Subscribes id r codes w)
