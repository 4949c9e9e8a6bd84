-- ===== src/System/Reconnecting.antt =====
-- `connect`, from a client as it is at any time.
use mesquitte_client.Base.{
  ℕ, ◌≡◌, refl, ap, sym, ◌∙◌, inl, inr, ◌⊎◌, Bool, true, false, Option, none, some, [], Bool-cases,
}
use mesquitte_client.Codec.{Codec}
use mesquitte_client.Token.{
  Token, TokenError, Tokens, connect_failed, packet_error, modify, flow_complete, set_error,
  set_return_code, new_connect, reconnecting,
}
use mesquitte_client.Packets.{VariablePacket, ConnectPacket}
use mesquitte_client.State.{Cache, World}
use mesquitte_client.Options.{ClientOptions}
use mesquitte_client.Net.Sound.{Sound, same-Sound, own-flow_complete, own-set_error}
use mesquitte_client.Client.{
  MqttClient, is_connected, ConnectStatus, FirstFrame, ended, broken, frame, Dial, refused, crashes,
  stalls, opened, silent, Await, ready, hangs, panics, mark_session, fail_connect, renew,
  accept_connect, refuse_connect, on_first, greeted, connect_from, connect, build_connect_packet,
}
use mesquitte_client.System.Keeping.{tokens-Goes}
use mesquitte_client.System.Operations.{IsFit}

pub own-mark_session :
    {k : Codec} (session_present : Bool) (r : ℕ) (ts : Tokens k) (s : ℕ)
    → ((mark_session session_present r ts).subscribes.cell s).own ≡ (ts.subscribes.cell s).own
own-mark_session true r ts s = refl
own-mark_session false r ts s = refl

module _ {k : Codec} {c : Cache k.PublishPacket} where
  -- Only its tokens change, and of them no subscription.
  pub retokened :
      (w : World k c) (ts : Tokens k)
      → ((r : ℕ) → (ts.subscribes.cell r).own ≡ (w.tokens.subscribes.cell r).own)
      → Sound w
      → Sound (record w { tokens = ts })
  retokened w ts own v = (tokens-Goes w ts own v).sound

module _ {k : Codec} {c : Cache k.PublishPacket} (options : ClientOptions) where
  pub offline-IsFit :
      (client : MqttClient k c)
      → is_connected client ≡ false
      → client.options ≡ options
      → Sound client.world
      → IsFit options client
  offline-IsFit client offline same v = record {
    same = same;
    sound = v;
    open_channel = λ e. absurd (cc (offline, e));
  }

  pub fail_connect-IsFit :
      (e : TokenError) (r : ℕ) (client : MqttClient k c)
      → client.options ≡ options
      → Sound client.world
      → IsFit options (fail_connect e r client)
  fail_connect-IsFit e r client same v = offline-IsFit (fail_connect e r client) refl same (
      retokened client.world (set_error (Token.connect r) e client.world.tokens)
        (own-set_error (Token.connect r) e client.world.tokens) v)

  pub refuse_connect-IsFit :
      (code : k.ConnectReturnCode) (r : ℕ) (client : MqttClient k c)
      → client.options ≡ options
      → Sound client.world
      → IsFit options (refuse_connect code r client)
  refuse_connect-IsFit code r client same v =
      fail_connect-IsFit (connect_failed (k.to_u8 code)) r
        (record client {
          world = record (client.world) {
            tokens = record (client.world.tokens) {
              connects = modify r (set_return_code code) client.world.tokens.connects;
            };
          };
        })
        same (retokened client.world _ (λ s. refl) v)

  accept_connect-IsFit :
      (now : ℕ) (session_present : Bool) (r : ℕ) (client : MqttClient k c)
      → client.options ≡ options
      → Sound client.world
      → IsFit options (accept_connect now session_present r client)
  unfolding renew
  accept_connect-IsFit now session_present r client same v =
      let marked = mark_session session_present r client.world.tokens in
      let w' : World k c = record (client.world) {
        state = renew now client.world.state;
        tokens = flow_complete (Token.connect r) marked;
      } in
      record {
        same = same;
        sound =
            same-Sound client.world w' refl (λ f x h. h)
              (λ s.
                ap (λ own. own.subscriptions)
                  (own-flow_complete (Token.connect r) marked s
                    ∙ own-mark_session session_present r client.world.tokens s))
              v v.ids;
        open_channel = λ h. ([], refl);
      }

  on_first-IsFit :
      (now r : ℕ) (first : FirstFrame k) (client : MqttClient k c)
      → client.options ≡ options
      → Sound client.world
      → IsFit options (on_first now r first client)
  on_first-IsFit now r ended client same v = fail_connect-IsFit (connect_failed 0) r client same v
  on_first-IsFit now r (broken e) client same v =
      fail_connect-IsFit (packet_error e) r client same v
  on_first-IsFit now r (frame (VariablePacket.connack code session_present)) client same v =
      elim (Bool-cases (k.is_accepted code)) [
        | inl accepted ↦ rw accepted (accept_connect-IsFit now session_present r client same v)
        | inr unwanted ↦ rw unwanted (refuse_connect-IsFit code r client same v)
      ]
  on_first-IsFit now r (frame _) client same v =
      fail_connect-IsFit (packet_error "Not Connack Packet") r client same v

  -- The client is as ever, or the transport panics, or there was no greeting, or nothing comes back.
  abbrev pub Leaves : Dial k → Await (MqttClient k c) → Type 0
  Leaves dial panics = (dial ≡ crashes) ⊎ (build_connect_packet k options ≡ none)
  Leaves dial hangs = (dial ≡ stalls) ⊎ (dial ≡ silent)
  Leaves dial (ready client) = IsFit options client

  greeted-Leaves :
      (dial : Dial k) (packet : Option (ConnectPacket k)) (rest : Await (MqttClient k c))
      → build_connect_packet k options ≡ packet
      → Leaves dial rest
      → Leaves dial (greeted packet rest)
  greeted-Leaves dial none rest built v = inr built
  greeted-Leaves dial (some packet) rest built v = v

  connect_from-Leaves :
      (status : ConnectStatus) (now r : ℕ) (dial : Dial k) (client : MqttClient k c)
      → IsFit options client
      → Leaves dial (connect_from status now r dial client)
  connect_from-Leaves ConnectStatus.connected now r dial client v = record {
    same = v.same;
    sound = retokened client.world _ (λ s. refl) v.sound;
    open_channel = v.open_channel;
  }
  connect_from-Leaves ConnectStatus.connecting now r dial client v = record {
    same = v.same;
    sound =
        retokened client.world (set_error (Token.connect r) reconnecting client.world.tokens)
          (own-set_error (Token.connect r) reconnecting client.world.tokens) v.sound;
    open_channel = v.open_channel;
  }
  connect_from-Leaves ConnectStatus.disconnected now r (refused e) client v =
      fail_connect-IsFit e r (record client { connect_status = ConnectStatus.connecting }) v.same
        v.sound
  connect_from-Leaves ConnectStatus.disconnected now r crashes client v = inl refl
  connect_from-Leaves ConnectStatus.disconnected now r stalls client v = inl refl
  connect_from-Leaves ConnectStatus.disconnected now r silent client v =
      greeted-Leaves silent (build_connect_packet k client.options) hangs
        (ap (build_connect_packet k) (sym v.same)) (inr refl)
  connect_from-Leaves ConnectStatus.disconnected now r (opened first) client v =
      let busy : MqttClient k c = record client { connect_status = ConnectStatus.connecting } in
      greeted-Leaves (opened first) (build_connect_packet k client.options)
        (ready (on_first now r first busy)) (ap (build_connect_packet k) (sym v.same))
        (on_first-IsFit now r first busy v.same v.sound)

  -- `connect` panics only where the transport does or the greeting cannot be built, and else ends unless
  -- the transport or the first frame keeps it waiting.
  pub connect-Leaves :
      (now : ℕ) (dial : Dial k) (client : MqttClient k c)
      → IsFit options client
      → Leaves dial (connect now dial client).1
  unfolding connect
  connect-Leaves now dial client v =
      let (r, tokens) = new_connect client.world.tokens in
      let begun : MqttClient k c = record client {
        world = record (client.world) { tokens = tokens };
      } in
      connect_from-Leaves client.connect_status now r dial begun (record {
        same = v.same;
        sound = retokened client.world tokens (λ s. refl) v.sound;
        open_channel = v.open_channel;
      })
