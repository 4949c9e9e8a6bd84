-- ===== src/Codec.antt =====
-- What the client uses of the crate mqtt_codec_kit: a parameter of the development. The enumerations
-- that the source matches case by case are data types; all else is abstract, with the laws below.
use mesquitte_client.Base.{ℕ, ◌≡◌, ◌↔◌, Bool, true, Option, some, none, List, String}

-- `common::QualityOfService`
pub data QualityOfService : Type 0 where
  level0 level1 level2 : QualityOfService

-- `qos as u8`
abbrev pub qos_u8 : QualityOfService → ℕ
qos_u8 QualityOfService.level0 = 0
qos_u8 QualityOfService.level1 = 1
qos_u8 QualityOfService.level2 = 2

-- `common::qos::QoSWithPacketIdentifier`
pub data QosWithPacketIdentifier : Type 0 where
  level0 : QosWithPacketIdentifier
  level1 level2 : ℕ → QosWithPacketIdentifier

pub record Codec : Type 1 where
  pub ConnectReturnCode : Type 0
  pub connection_accepted : ConnectReturnCode
  pub is_accepted : ConnectReturnCode → Bool
  pub to_u8 : ConnectReturnCode → ℕ
  pub SubscribeReturnCode : Type 0
  pub is_failure : SubscribeReturnCode → Bool
  pub TopicName : Type 0
  -- `TopicName::new`; a refused text is `none`.
  pub topic_name_new : String → Option TopicName
  pub TopicFilter : Type 0
  -- `TopicFilter::new`
  pub topic_filter_new : String → Option TopicFilter
  -- `LastWill::new`; a refused topic is `none`.
  pub LastWill : Type 0
  pub last_will_new : String → List ℕ → Option LastWill
  pub split : QosWithPacketIdentifier → QualityOfService × Option ℕ
  pub PublishPacket : Type 0
  -- `PublishPacket::new`, then `set_retain`
  pub publish_new : TopicName → QosWithPacketIdentifier → List ℕ → PublishPacket
  pub set_retain : Bool → PublishPacket → PublishPacket
  pub topic_name : PublishPacket → String
  pub payload : PublishPacket → List ℕ
  pub qos : PublishPacket → QosWithPacketIdentifier
  pub dup : PublishPacket → Bool
  pub retain : PublishPacket → Bool
  pub is_accepted_iff : (c : ConnectReturnCode) → (is_accepted c ≡ true) ↔ (c ≡ connection_accepted)
  pub split-level0 : split QosWithPacketIdentifier.level0 ≡ (QualityOfService.level0, none)
  pub split-level1 :
      (id : ℕ) → split (QosWithPacketIdentifier.level1 id) ≡ (QualityOfService.level1, some id)
  pub split-level2 :
      (id : ℕ) → split (QosWithPacketIdentifier.level2 id) ≡ (QualityOfService.level2, some id)
