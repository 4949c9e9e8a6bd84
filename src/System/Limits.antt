-- ===== src/System/Limits.antt =====
-- Which tokens there are, and which of them wait under an identifier.
use mesquitte_client.Base.{
  ℕ, ◌<◌, ◌≡◌, ◌≢◌, ◌⊎◌, refl, sym, ap, subst, ◌∙◌, inl, inr, true, none, some, get-remove, List,
  [], ◌∷◌, arith, nat_beq, nat_key, if◌then◌else◌, nat_beq_iff, Bool-cases,
}
use mesquitte_client.Codec.{Codec}
use mesquitte_client.Token.{
  Token, connect, disconnect, publish, subscribe, unsubscribe, TokenError, Tokens, set_error,
  flow_complete, poll, connection_lost, set_error_inner, flow_complete_inner, poll_inner,
}
use mesquitte_client.Pkid.{PacketIds, get_token, free_id, fail_all}
use mesquitte_client.Pkid.Cleanup.{holds, holds-remove}
use mesquitte_client.Pkid.Issue.{Issued}
use mesquitte_client.State.{Cache, World}
use mesquitte_client.System.Lasting.{IsDone, Lasts}

-- How many tokens of each kind were made.
pub record Limits : Type 0 where
  pub connects : ℕ
  pub disconnects : ℕ
  pub publishes : ℕ
  pub subscribes : ℕ
  pub unsubscribes : ℕ

abbrev pub limits : {k : Codec} → Tokens k → Limits
limits ts = record {
  connects = ts.connects.next;
  disconnects = ts.disconnects.next;
  publishes = ts.publishes.next;
  subscribes = ts.subscribes.next;
  unsubscribes = ts.unsubscribes.next;
}

-- The token was made.
abbrev pub IsMade : Token → Limits → Type 0
IsMade (connect r) l = r < l.connects
IsMade (disconnect r) l = r < l.disconnects
IsMade (publish r) l = r < l.publishes
IsMade (subscribe r) l = r < l.subscribes
IsMade (unsubscribe r) l = r < l.unsubscribes

module _ {k : Codec} where
  pub limits-flow_complete : (t : Token) (ts : Tokens k) → limits (flow_complete t ts) ≡ limits ts
  unfolding flow_complete flow_complete_inner
  limits-flow_complete (connect r) ts = refl
  limits-flow_complete (disconnect r) ts = refl
  limits-flow_complete (publish r) ts = refl
  limits-flow_complete (subscribe r) ts = refl
  limits-flow_complete (unsubscribe r) ts = refl

  pub limits-set_error :
      (t : Token) (e : TokenError) (ts : Tokens k) → limits (set_error t e ts) ≡ limits ts
  unfolding set_error set_error_inner
  limits-set_error (connect r) e ts = refl
  limits-set_error (disconnect r) e ts = refl
  limits-set_error (publish r) e ts = refl
  limits-set_error (subscribe r) e ts = refl
  limits-set_error (unsubscribe r) e ts = refl

  pub limits-poll : (w : ℕ) (t : Token) (ts : Tokens k) → limits (poll w t ts).0 ≡ limits ts
  unfolding poll poll_inner
  limits-poll w (connect r) ts = refl
  limits-poll w (disconnect r) ts = refl
  limits-poll w (publish r) ts = refl
  limits-poll w (subscribe r) ts = refl
  limits-poll w (unsubscribe r) ts = refl

  pub limits-fail_all : (m : List (ℕ × Token)) (ts : Tokens k) → limits (fail_all m ts) ≡ limits ts
  unfolding fail_all
  limits-fail_all [] ts = refl
  limits-fail_all ((_, t) ∷ m) ts =
      limits-fail_all m (set_error t connection_lost ts) ∙ limits-set_error t connection_lost ts

-- Only tokens that were made wait under identifiers, and none waits under two.
pub record IsRegistry (ids : PacketIds) (l : Limits) : Type 0 where
  pub made : (j : ℕ) (t : Token) → get_token ids j ≡ some t → IsMade t l
  pub alone : (i j : ℕ) (t : Token) → get_token ids i ≡ some t → get_token ids j ≡ some t → i ≡ j

abbrev pub Waiting : {k : Codec} {c : Cache k.PublishPacket} → World k c → Type 0
Waiting w = IsRegistry w.state.packet_ids (limits w.tokens)

-- A step that registers no token, and releases an identifier only when its token is complete.
pub record Releases {k : Codec} {c : Cache k.PublishPacket} (w w' : World k c) : Type 0 where
  pub fewer :
      (j : ℕ) (t : Token)
      → get_token w'.state.packet_ids j ≡ some t
      → get_token w.state.packet_ids j ≡ some t
  pub older : (t : Token) → IsMade t (limits w.tokens) → IsMade t (limits w'.tokens)
  pub ends :
      (j : ℕ) (t : Token)
      → get_token w.state.packet_ids j ≡ some t
      → (get_token w'.state.packet_ids j ≡ some t) ⊎ IsDone t w'.tokens
  pub lasts : Lasts w.tokens w'.tokens
  pub shrinks :
      (t : Token)
      → holds t w'.state.packet_ids.index ≡ true
      → holds t w.state.packet_ids.index ≡ true

module _ {k : Codec} {c : Cache k.PublishPacket} where
  pub Releases-Waiting : (w w' : World k c) → Releases w w' → Waiting w → Waiting w'
  Releases-Waiting w w' s v = record {
    made = λ j t h. s.older t (v.made j t (s.fewer j t h));
    alone = λ i j t h g. v.alone i j t (s.fewer i t h) (s.fewer j t g);
  }

  pub trans-Releases : (w w' w'' : World k c) → Releases w w' → Releases w' w'' → Releases w w''
  trans-Releases w w' w'' a b = record {
    fewer = λ j t h. a.fewer j t (b.fewer j t h);
    older = λ t h. b.older t (a.older t h);
    ends = λ j t h. elim (a.ends j t h) [
      | inl held ↦ b.ends j t held
      | inr over ↦ inr (b.lasts t over)
    ];
    lasts = λ t h. b.lasts t (a.lasts t h);
    shrinks = λ t h. a.shrinks t (b.shrinks t h);
  }

  -- The identifiers and the number of tokens stay.
  pub kept-Releases :
      (w w' : World k c)
      → w'.state.packet_ids ≡ w.state.packet_ids
      → limits w'.tokens ≡ limits w.tokens
      → Lasts w.tokens w'.tokens
      → Releases w w'
  kept-Releases w w' ids same lasts = record {
    fewer = λ j t h. ap (λ x. get_token x j) (sym ids) ∙ h;
    older = λ t h. subst (IsMade t) (sym same) h;
    ends = λ j t h. inl (ap (λ x. get_token x j) ids ∙ h);
    lasts = lasts;
    shrinks = λ t h. ap (λ (x : PacketIds). holds t x.index) (sym ids) ∙ h;
  }

  pub stays-Releases : (w : World k c) → Releases w w
  stays-Releases w = kept-Releases w w refl refl (λ t h. h)

  -- An identifier is released.
  pub freed-Releases :
      (id : ℕ) (w w' : World k c)
      → w'.state.packet_ids ≡ free_id id w.state.packet_ids
      → limits w'.tokens ≡ limits w.tokens
      → Lasts w.tokens w'.tokens
      → ((t : Token) → get_token w.state.packet_ids id ≡ some t → IsDone t w'.tokens)
      → Releases w w'
  unfolding free_id get_token
  freed-Releases id w w' ids same lasts over =
      let index = w.state.packet_ids.index in
      let left : (j : ℕ)
          → get_token w'.state.packet_ids j
            ≡ (if nat_beq id j then none else get_token w.state.packet_ids j) =
        λ j. ap (λ x. get_token x j) ids ∙ get-remove id j index in
      record {
        fewer = λ j t h. ground (arith, left j, h);
        older = λ t h. subst (IsMade t) (sym same) h;
        ends = λ j t h. elim (Bool-cases (nat_beq id j)) [
          | inl here ↦
              let e = (nat_beq_iff id j).0 here in
              inr (over t (ap (get_token w.state.packet_ids) e ∙ h))
          | inr there ↦ inl (ground (arith, left j, h))
        ];
        lasts = lasts;
        shrinks =
            λ t h. holds-remove id t index (ap (λ (x : PacketIds). holds t x.index) (sym ids) ∙ h);
      }

-- What stands under an identifier after one was issued.
Issued-cases :
    {ids ids' : PacketIds} {t : Token} {id : ℕ} (i : Issued ids t ids' id) (j : ℕ) (u : Token)
    → get_token ids' j ≡ some u
    → ((id ≡ j) × (t ≡ u)) ⊎ (get_token ids j ≡ some u)
unfolding get_token
Issued-cases {t} {id} i j u h = elim (Bool-cases (nat_beq id j)) [
  | inl here ↦ inl ((nat_beq_iff id j).0 here, ground (arith, i.entry j, h, here))
  | inr there ↦ inr (ground (arith, i.entry j, h, there))
]

-- A token that waits under no identifier is registered under a vacant one.
pub Issued-IsRegistry :
    (ids ids' : PacketIds) (l : Limits) (t : Token) (id : ℕ)
    → Issued ids t ids' id
    → IsMade t l
    → ((j : ℕ) → get_token ids j ≢ some t)
    → IsRegistry ids l
    → IsRegistry ids' l
Issued-IsRegistry ids ids' l t id i made new v = record {
  made = λ j u h. elim (Issued-cases i j u h) [
    | inl (here, same) ↦ subst (λ x. IsMade x l) same made
    | inr old ↦ v.made j u old
  ];
  alone = λ a b u h g. elim (Issued-cases i a u h) [
    | inl (here, same) ↦ elim (Issued-cases i b u g) [
      | inl (there, again) ↦ sym here ∙ there
      | inr old ↦ absurd (new b (old ∙ ap some (sym same)))
    ]
    | inr old ↦ elim (Issued-cases i b u g) [
      | inl (there, again) ↦ absurd (new a (old ∙ ap some (sym again)))
      | inr older ↦ v.alone a b u old older
    ]
  ];
}
