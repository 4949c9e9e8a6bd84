-- ===== src/Subscription.antt =====
-- src/topic_store.rs: a subscription. A handler is a function pointer, known by its address.
use mesquitte_client.Base.{ℕ, String}
use mesquitte_client.Codec.{QualityOfService}

pub record Subscription : Type 0 where
  pub topic : String
  pub qos : QualityOfService
  pub handler : ℕ

abbrev pub subscription_new : String → QualityOfService → ℕ → Subscription
subscription_new topic qos callback = record { topic = topic; qos = qos; handler = callback }
