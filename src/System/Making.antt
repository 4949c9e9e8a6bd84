-- ===== src/System/Making.antt =====
-- Making a token.
use mesquitte_client.Base.{◌≤◌, arith}
use mesquitte_client.Codec.{Codec, QualityOfService}
use mesquitte_client.Token.{
  Token, Tokens, connect, disconnect, publish, subscribe, unsubscribe, state_of, modify, set_qos,
  new_connect, new_disconnect, new_publish, new_subscribe, new_unsubscribe,
}
use mesquitte_client.System.Lasting.{IsDone}
use mesquitte_client.System.Limits.{Limits, limits, IsMade}

IsMade-mono :
    (t : Token) (l l' : Limits)
    → l.connects ≤ l'.connects
    → l.disconnects ≤ l'.disconnects
    → l.publishes ≤ l'.publishes
    → l.subscribes ≤ l'.subscribes
    → l.unsubscribes ≤ l'.unsubscribes
    → IsMade t l
    → IsMade t l'
IsMade-mono (connect r) l l' a b d e f h = omega (arith, a, h)
IsMade-mono (disconnect r) l l' a b d e f h = omega (arith, b, h)
IsMade-mono (publish r) l l' a b d e f h = omega (arith, d, h)
IsMade-mono (subscribe r) l l' a b d e f h = omega (arith, e, h)
IsMade-mono (unsubscribe r) l l' a b d e f h = omega (arith, f, h)

-- A token is made, and what was complete stays so.
pub record Makes {k : Codec} (ts ts' : Tokens k) : Type 0 where
  pub grows : (t : Token) → IsMade t (limits ts) → IsMade t (limits ts')
  pub keeps : (t : Token) → IsMade t (limits ts) → IsDone t ts → IsDone t ts'

module _ {k : Codec} (ts : Tokens k) where
  new_connect-keeps : (t : Token) → IsMade t (limits ts) → IsDone t ts → IsDone t (new_connect ts).1
  unfolding state_of
  new_connect-keeps (connect r) h d = ground arith
  new_connect-keeps (disconnect r) h d = d
  new_connect-keeps (publish r) h d = d
  new_connect-keeps (subscribe r) h d = d
  new_connect-keeps (unsubscribe r) h d = d

  pub new_connect-Makes : Makes ts (new_connect ts).1
  new_connect-Makes = record {
    grows = λ t h.
        IsMade-mono t _ _ (omega arith) (omega arith) (omega arith) (omega arith) (omega arith) h;
    keeps = new_connect-keeps;
  }

  new_disconnect-keeps :
      (t : Token) → IsMade t (limits ts) → IsDone t ts → IsDone t (new_disconnect ts).1
  unfolding state_of
  new_disconnect-keeps (connect r) h d = d
  new_disconnect-keeps (disconnect r) h d = ground arith
  new_disconnect-keeps (publish r) h d = d
  new_disconnect-keeps (subscribe r) h d = d
  new_disconnect-keeps (unsubscribe r) h d = d

  pub new_disconnect-Makes : Makes ts (new_disconnect ts).1
  new_disconnect-Makes = record {
    grows = λ t h.
        IsMade-mono t _ _ (omega arith) (omega arith) (omega arith) (omega arith) (omega arith) h;
    keeps = new_disconnect-keeps;
  }

  -- The token of a publication with its level
  abbrev pub publishing : QualityOfService → Tokens k
  publishing qos =
      let (r, tokens) = new_publish ts in
      record tokens { publishes = modify r (set_qos qos) tokens.publishes }

  publishing-keeps :
      (qos : QualityOfService) (t : Token)
      → IsMade t (limits ts)
      → IsDone t ts
      → IsDone t (publishing qos)
  unfolding state_of
  publishing-keeps qos (connect r) h d = d
  publishing-keeps qos (disconnect r) h d = d
  publishing-keeps qos (publish r) h d = ground arith
  publishing-keeps qos (subscribe r) h d = d
  publishing-keeps qos (unsubscribe r) h d = d

  pub publishing-Makes : (qos : QualityOfService) → Makes ts (publishing qos)
  publishing-Makes qos = record {
    grows = λ t h.
        IsMade-mono t _ _ (omega arith) (omega arith) (omega arith) (omega arith) (omega arith) h;
    keeps = publishing-keeps qos;
  }

  new_subscribe-keeps :
      (t : Token) → IsMade t (limits ts) → IsDone t ts → IsDone t (new_subscribe ts).1
  unfolding state_of
  new_subscribe-keeps (connect r) h d = d
  new_subscribe-keeps (disconnect r) h d = d
  new_subscribe-keeps (publish r) h d = d
  new_subscribe-keeps (subscribe r) h d = ground arith
  new_subscribe-keeps (unsubscribe r) h d = d

  pub new_subscribe-Makes : Makes ts (new_subscribe ts).1
  new_subscribe-Makes = record {
    grows = λ t h.
        IsMade-mono t _ _ (omega arith) (omega arith) (omega arith) (omega arith) (omega arith) h;
    keeps = new_subscribe-keeps;
  }

  new_unsubscribe-keeps :
      (t : Token) → IsMade t (limits ts) → IsDone t ts → IsDone t (new_unsubscribe ts).1
  unfolding state_of
  new_unsubscribe-keeps (connect r) h d = d
  new_unsubscribe-keeps (disconnect r) h d = d
  new_unsubscribe-keeps (publish r) h d = d
  new_unsubscribe-keeps (subscribe r) h d = d
  new_unsubscribe-keeps (unsubscribe r) h d = ground arith

  pub new_unsubscribe-Makes : Makes ts (new_unsubscribe ts).1
  new_unsubscribe-Makes = record {
    grows = λ t h.
        IsMade-mono t _ _ (omega arith) (omega arith) (omega arith) (omega arith) (omega arith) h;
    keeps = new_unsubscribe-keeps;
  }
