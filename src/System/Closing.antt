-- ===== src/System/Closing.antt =====
-- A property of the world that is closed under what the operations and the tasks do holds on every run.
use mesquitte_client.Base.{subst}
use mesquitte_client.Codec.{Codec}
use mesquitte_client.State.{Cache, World}
use mesquitte_client.Options.{ClientOptions}
use mesquitte_client.Client.{
  MqttClient, subscribe, subscribe_multiple, filters_of, subscriptions_of, start_over,
}
use mesquitte_client.System.{
  Step, tasks, drops, publishes, subscribes, subscribes_multiple, unsubscribes, disconnects,
  connects, starts_over, Steps, start, later,
}
use mesquitte_client.System.Limits.{Releases}
use mesquitte_client.System.Releasing.{clean-Releases, task-Releases}
use mesquitte_client.System.Registered.{Closed}
use mesquitte_client.System.Alone.{
  Registered, publish-Registered, subscription-Registered, unsubscribe-Registered,
}
use mesquitte_client.System.Requests.{filter_of}
use mesquitte_client.System.Reachable.{steps-IsFit}
use mesquitte_client.System.Unshared.{disconnect-Registered, Ended, connect-Ended}
use mesquitte_client.System.Operations.{IsFit}

start_over-Releases :
    {k : Codec} {c : Cache k.PublishPacket} (client : MqttClient k c)
    → Releases client.world (start_over client).world
unfolding start_over
start_over-Releases client =
    let a = clean-Releases client.world in
    record { fewer = a.fewer; older = a.older; ends = a.ends; lasts = a.lasts; shrinks = a.shrinks }

module _ {k : Codec} {c : Cache k.PublishPacket} (P : World k c → Type 0) (closed : Closed P)
    (options : ClientOptions) where
  step-Closed :
      {client client' : MqttClient k c}
      → Step client client'
      → IsFit options client
      → P client.world
      → P client'.world
  unfolding subscribe subscribe_multiple
  step-Closed (tasks client w' s) v h = closed.releases client.world w' (task-Releases s) h
  step-Closed (drops client) v h = h
  step-Closed (publishes topic qos retained payload wait client client' waits e) v h =
      subst (Registered P closed) e (
        publish-Registered P closed topic qos retained payload wait client waits
          v.sound.ids.last_high h)
  step-Closed (subscribes topic qos callback wait client client' waits e) v h =
      subst (Registered P closed) e (
        subscription-Registered P closed (filter_of k topic qos) _ wait client waits
          v.sound.ids.last_high h)
  step-Closed (subscribes_multiple topics callback wait client client' waits e) v h =
      subst (Registered P closed) e (
        subscription-Registered P closed (filters_of k topics) (subscriptions_of topics callback)
          wait client waits v.sound.ids.last_high h)
  step-Closed (unsubscribes topics wait client client' waits e) v h =
      subst (Registered P closed) e
        (unsubscribe-Registered P closed topics wait client waits v.sound.ids.last_high h)
  step-Closed (disconnects wait client client' waits e) v h =
      subst (Registered P closed) e (disconnect-Registered P closed wait client waits h)
  step-Closed (connects now dial client client' e) v h =
      subst (Ended P closed) e (connect-Ended P closed now dial client h)
  step-Closed (starts_over client) v h =
      closed.releases client.world (start_over client).world (start_over-Releases client) h

  pub steps-Closed :
      {client client' : MqttClient k c}
      → Steps client client'
      → IsFit options client
      → P client.world
      → P client'.world
  steps-Closed (start client) v h = h
  steps-Closed (later ss s) v h = step-Closed s (steps-IsFit options ss v) (steps-Closed ss v h)
