-- ===== src/Token/Kinds.antt =====
-- src/token/*_token.rs: what each kind of token has of its own, and the methods on it.
use mesquitte_client.Base.{
  ℕ, Bool, true, false, Option, none, some, List, [], ◌∷◌, ◌++◌, String, get_elem?, insert,
  string_key,
}
use mesquitte_client.Codec.{QualityOfService, Codec}
use mesquitte_client.Subscription.{Subscription}
use mesquitte_client.Token.Inner.{InnerToken, fresh}

pub record ConnectOwn (k : Codec) : Type 0 where
  pub return_code : k.ConnectReturnCode
  pub session_present : Bool

pub record PublishOwn : Type 0 where
  pub qos : QualityOfService

pub record SubscribeOwn (k : Codec) : Type 0 where
  pub subscriptions : List Subscription
  pub results : List (String × k.SubscribeReturnCode)

pub record UnsubscribeOwn : Type 0 where
  pub subs : List String

-- `InnerToken::default` of each kind
abbrev pub default_connect : (k : Codec) → InnerToken (ConnectOwn k)
default_connect k = fresh (record { return_code = k.connection_accepted; session_present = false })

abbrev pub default_disconnect : InnerToken (Unit {0})
default_disconnect = fresh tt

abbrev pub default_publish : InnerToken PublishOwn
default_publish = fresh (record { qos = QualityOfService.level0 })

abbrev pub default_subscribe : (k : Codec) → InnerToken (SubscribeOwn k)
default_subscribe k = fresh (record { subscriptions = []; results = [] })

abbrev pub default_unsubscribe : InnerToken UnsubscribeOwn
default_unsubscribe = fresh (record { subs = [] })

module _ {k : Codec} where
  unfoldable pub set_return_code : k.ConnectReturnCode → ConnectOwn k → ConnectOwn k
  set_return_code code own = record own { return_code = code }

  unfoldable pub set_session_present : ConnectOwn k → ConnectOwn k
  set_session_present own = record own { session_present = true }

  unfoldable pub add_subscriptions : List Subscription → SubscribeOwn k → SubscribeOwn k
  add_subscriptions subs own = record own { subscriptions = own.subscriptions ++ subs }

  unfoldable pub get_subscription : ℕ → SubscribeOwn k → Option Subscription
  get_subscription index own = get_elem? own.subscriptions index

  unfoldable pub set_result : ℕ → k.SubscribeReturnCode → SubscribeOwn k → SubscribeOwn k
  unfolding get_subscription
  set_result index result own = elim (get_elem? own.subscriptions index) [
    | none ↦ own
    | some subscription ↦ record own { results = insert subscription.topic result own.results }
  ]

unfoldable pub set_qos : QualityOfService → PublishOwn → PublishOwn
set_qos qos own = record own { qos = qos }

unfoldable pub add_topic : String → UnsubscribeOwn → UnsubscribeOwn
add_topic topic own = record own { subs = own.subs ++ topic ∷ [] }
