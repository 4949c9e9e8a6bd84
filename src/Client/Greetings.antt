-- ===== src/Client/Greetings.antt =====
-- The packet that opens a connection, for all options.
use mesquitte_client.Base.{
  ℕ, ◌%◌, ◌<◌, ◌≡◌, ◌≢◌, refl, ◌↔◌, inl, inr, Bool, true, false, Option, none, some, String,
  if◌then◌else◌, string_beq, string_beq_iff, Bool-cases, arith,
}
use mesquitte_client.Codec.{Codec, qos_u8}
use mesquitte_client.Packets.{ConnectPacket}
use mesquitte_client.Options.{ClientOptions, as_secs}
use mesquitte_client.Client.Greeting.{unless_empty, with_will, build_connect_packet}

-- The packet's field is missing if the option is the empty text, and else has the option's text.
abbrev pub Asks : String → Option String → Type 0
Asks s field = (s ≡ "" → field ≡ none) × (s ≢ "" → field ≡ some s)

-- What the options ask of the packet; `enabled` and `made` say whether there is a will and which.
pub record Greets {k : Codec} (enabled : Bool) (made : Option k.LastWill) (o : ClientOptions)
    (p : ConnectPacket k) : Type 0 where
  pub client_id : p.client_id ≡ o.client_id
  pub clean_session : p.clean_session ≡ o.clean_session
  pub keep_alive_high : p.keep_alive < 65536
  pub keep_alive_exact : (p.keep_alive ≡ as_secs o.keep_alive) ↔ (as_secs o.keep_alive < 65536)
  pub will : p.will ≡ (if enabled then made else none)
  pub will_qos : p.will_qos ≡ (if enabled then some (qos_u8 o.will_qos) else none)
  pub will_retain : p.will_retain ≡ (if enabled then some o.will_retained else none)
  pub username : Asks o.username p.username
  pub password : Asks o.password p.password

unless_empty-Asks : (s : String) → Asks s (unless_empty s)
unless_empty-Asks s = elim (Bool-cases (string_beq s "")) [
  | inl empty ↦ rw empty ((λ _. refl), (λ h. absurd (h ((string_beq_iff s "").0 empty))))
  | inr full ↦ rw full ((λ e. absurd (cc ((string_beq_iff s "").1 e, full))), (λ _. refl))
]

abbrev pub Answers :
    {k : Codec} → Bool → Option k.LastWill → ClientOptions → Option (ConnectPacket k) → Type 0
Answers enabled made o none = (enabled ≡ true) × (made ≡ none)
Answers enabled made o (some p) = Greets enabled made o p

keep_alive_iff : (secs : ℕ) → (secs % 65536 ≡ secs) ↔ (secs < 65536)
keep_alive_iff secs = (λ e. omega arith, λ h. omega arith)

module _ (k : Codec) (o : ClientOptions) where
  -- The packet before the will
  abbrev plain_packet : ConnectPacket k
  plain_packet = record {
    client_id = o.client_id;
    clean_session = o.clean_session;
    keep_alive = as_secs o.keep_alive % 65536;
    will_qos = none;
    will_retain = none;
    will = none;
    username = unless_empty o.username;
    password = unless_empty o.password;
  }

  answers :
      (enabled : Bool) (made : Option k.LastWill)
      → Answers enabled made o
          (if enabled then with_will made o plain_packet else some plain_packet)
  answers true none = (refl, refl)
  answers true (some will) = record {
    client_id = refl;
    clean_session = refl;
    keep_alive_high = omega arith;
    keep_alive_exact = keep_alive_iff (as_secs o.keep_alive);
    will = refl;
    will_qos = refl;
    will_retain = refl;
    username = unless_empty-Asks o.username;
    password = unless_empty-Asks o.password;
  }
  answers false made = record {
    client_id = refl;
    clean_session = refl;
    keep_alive_high = omega arith;
    keep_alive_exact = keep_alive_iff (as_secs o.keep_alive);
    will = refl;
    will_qos = refl;
    will_retain = refl;
    username = unless_empty-Asks o.username;
    password = unless_empty-Asks o.password;
  }

-- `build_connect_packet` panics only on a will whose topic is refused; else the packet has what the
-- options ask for: the will if there is one, the user name and the password of the options unless they are
-- empty, and a 16-bit keep-alive, which is that of the options exactly if their seconds fit 16 bits.
pub build_connect_packet_lem :
    (k : Codec) (o : ClientOptions)
    → Answers o.will_enabled
        (k.last_will_new o.will_topic o.will_payload)
        o
        (build_connect_packet k o)
unfolding build_connect_packet
build_connect_packet_lem k o =
    answers k o o.will_enabled (k.last_will_new o.will_topic o.will_payload)
