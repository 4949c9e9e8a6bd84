-- ===== src/System/Registered.antt =====
-- What the operations do to tokens and identifiers, for any property of the world that is closed under it.
use mesquitte_client.Base.{
  ℕ, ◌<◌, ◌≡◌, ◌≢◌, sym, subst, inl, inr, Bool, true, false, Option, none, some, nat_beq,
  if◌then◌else◌,
}
use mesquitte_client.Codec.{Codec}
use mesquitte_client.Token.{Token, Tokens, packet_id_error}
use mesquitte_client.Pkid.{PacketIds, get_id, get_token}
use mesquitte_client.Pkid.Issue.{get_id-cases}
use mesquitte_client.State.{Cache, World}
use mesquitte_client.Client.{reject, numbered}
use mesquitte_client.System.Limits.{
  Limits, limits, IsMade, Releases, IsRegistry, Waiting, Releases-Waiting, Issued-IsRegistry,
}
use mesquitte_client.System.Making.{Makes}
use mesquitte_client.System.Registering.{Frees, reject-Releases}

get_id-IsRegistry :
    (ids : PacketIds) (l : Limits) (t : Token)
    → ids.last_issued_id < 65536
    → IsMade t l
    → ((j : ℕ) → get_token ids j ≢ some t)
    → IsRegistry ids l
    → IsRegistry (get_id ids t).0 l
get_id-IsRegistry ids l t low made new v = elim (get_id-cases ids t low) [
  | inl i ↦ Issued-IsRegistry ids (get_id ids t).0 l t (get_id ids t).1 i made new v
  | inr (same, _, _) ↦ subst (λ x. IsRegistry x l) (sym same) v
]

module _ {k : Codec} {c : Cache k.PublishPacket} where
  -- A property that making a token, registering it under a vacant identifier, and every step that
  -- registers none keep.
  pub record Closed (P : World k c → Type 0) : Type 0 where
    pub made :
        (w : World k c) (j : ℕ) (t : Token)
        → P w
        → get_token w.state.packet_ids j ≡ some t
        → IsMade t (limits w.tokens)
    pub makes :
        (w : World k c) (ts : Tokens k) → Makes w.tokens ts → P w → P (record w { tokens = ts })
    pub registers :
        (w : World k c) (t : Token)
        → w.state.packet_ids.last_issued_id < 65536
        → IsMade t (limits w.tokens)
        → ((j : ℕ) → get_token w.state.packet_ids j ≢ some t)
        → P w
        → P (record w { state = record (w.state) { packet_ids = (get_id w.state.packet_ids t).0 } })
    pub releases : (w w' : World k c) → Releases w w' → P w → P w'

  pub Waiting-Closed : Closed Waiting
  Waiting-Closed = record {
    made = λ w j t v. v.made j t;
    makes = λ w ts m v. record { made = λ j t h. m.grows t (v.made j t h); alone = v.alone };
    registers = λ w t low made new v.
        get_id-IsRegistry w.state.packet_ids (limits w.tokens) t low made new v;
    releases = λ w w' s v. Releases-Waiting w w' s v;
  }

module _ {k : Codec} {c : Cache k.PublishPacket} (P : World k c → Type 0) (closed : Closed P) where
  -- What is left of an operation, if it does not panic.
  abbrev pub Registers : Option (World k c) → Type 0
  Registers none = Unit
  Registers (some w) = P w

  pub Frees-Registers : (w : World k c) (o : Option (World k c)) → P w → Frees w o → Registers o
  Frees-Registers w none v h = tt
  Frees-Registers w (some w') v h = closed.releases w w' h v

  if-Registers :
      (b : Bool) (o o' : Option (World k c))
      → Registers o
      → Registers o'
      → Registers (if b then o else o')
  if-Registers true o o' x y = x
  if-Registers false o o' x y = y

  pub numbered-Registers :
      (t : Token) (rest : ℕ → World k c → Option (World k c)) (w : World k c)
      → w.state.packet_ids.last_issued_id < 65536
      → IsMade t (limits w.tokens)
      → ((j : ℕ) → get_token w.state.packet_ids j ≢ some t)
      → ((id : ℕ) (w' : World k c) → Frees w' (rest id w'))
      → P w
      → Registers (numbered t rest w)
  unfolding numbered
  numbered-Registers t rest w low made new h v =
      let (ids, pkid) = get_id w.state.packet_ids t in
      let w' : World k c = record w { state = record (w.state) { packet_ids = ids } } in
      let v' : P w' = closed.registers w t low made new v in
      if-Registers (nat_beq pkid 0) (some (reject packet_id_error t w')) (rest pkid w')
        (closed.releases w' _ (reject-Releases packet_id_error t w') v')
        (Frees-Registers w' (rest pkid w') v' (h pkid w'))
