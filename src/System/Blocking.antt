-- ===== src/System/Blocking.antt =====
-- `block`, from a client as it is at any time.
use mesquitte_client.Base.{Option, none, some}
use mesquitte_client.Codec.{Codec}
use mesquitte_client.State.{Cache}
use mesquitte_client.Options.{ClientOptions}
use mesquitte_client.Client.{Blocked, Outcome, returned, running, stuck, panicked}
use mesquitte_client.System.Operations.{IsFit}

module _ {k : Codec} {c : Cache k.PublishPacket} (options : ClientOptions) where
  -- What the loop goes on with, if it does
  abbrev Stays : Option (Blocked k c) → Type 0
  Stays none = Unit
  Stays (some b) = IsFit options b.client

  -- No panic, and the client is as at any time.
  abbrev pub Endures : Outcome k c → Type 0
  Endures (returned client) = IsFit options client
  Endures (running b) = IsFit options b.client
  Endures stuck = Unit
  Endures panicked = ⊥
