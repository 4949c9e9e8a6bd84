-- ===== src/Interface.antt =====
-- src/lib.rs: the trait `Client`, and what its user does with it, a sequence of calls.
pub mod Calls
use mesquitte_client.Base.{ℕ, List, [], ◌∷◌, Bool, String}
use mesquitte_client.Codec.{QualityOfService}
use mesquitte_client.Client.{Await, ready, hangs, panics}

-- A method takes what its surroundings do meanwhile, and the client; its result is the cell of the token
-- that it returns, and the client after it, if it neither panics nor waits for ever.
pub record Client (E C : Type 0) : Type 0 where
  pub connect : E → C → ℕ × Await C
  pub disconnect : E → C → ℕ × Await C
  pub publish :
      (topic : String) (qos : QualityOfService) (retained : Bool) (payload : List ℕ)
      → E
      → C
      → ℕ × Await C
  pub subscribe : (topic : String) (qos : QualityOfService) (callback : ℕ) → E → C → ℕ × Await C
  pub subscribe_multiple :
      (topics : List (String × QualityOfService)) (callback : ℕ) → E → C → ℕ × Await C
  pub unsubscribe : (topics : List String) → E → C → ℕ × Await C

-- A call of a method
pub data Call : Type 0 where
  connects : Call
  disconnects : Call
  publishes : String → QualityOfService → Bool → List ℕ → Call
  subscribes : String → QualityOfService → ℕ → Call
  subscribes_multiple : List (String × QualityOfService) → ℕ → Call
  unsubscribes : List String → Call

module _ {E C : Type 0} (client : Client E C) where
  unfoldable pub perform : Call → E → C → ℕ × Await C
  perform connects = client.connect
  perform disconnects = client.disconnect
  perform (publishes topic qos retained payload) = client.publish topic qos retained payload
  perform (subscribes topic qos callback) = client.subscribe topic qos callback
  perform (subscribes_multiple topics callback) = client.subscribe_multiple topics callback
  perform (unsubscribes topics) = client.unsubscribe topics

  -- The calls one after another; before each, the tasks run as its surroundings say.
  unfoldable pub run_calls : (E → C → C) → List (Call × E) → C → Await C
  unfolding perform
  run_calls before [] c = ready c
  run_calls before ((call, e) ∷ calls) c = elim (perform call e (before e c)).1 [
    | ready c' ↦ run_calls before calls c'
    | hangs ↦ hangs
    | panics ↦ panics
  ]
