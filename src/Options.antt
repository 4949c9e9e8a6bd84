-- ===== src/Options.antt =====
-- src/options.rs: `ClientOptions`. A `Duration` is a number of nanoseconds; the getters are the
-- record's projections.
use mesquitte_client.Base.{ℕ, ◌*◌, ◌/◌, Bool, true, false, Option, none, List, [], String}
use mesquitte_client.Codec.{QualityOfService}

abbrev pub from_secs : ℕ → ℕ
from_secs secs = secs * 1000000000

abbrev pub as_secs : ℕ → ℕ
as_secs duration = duration / 1000000000

pub record ClientOptions : Type 0 where
  pub server : String
  pub client_id : String
  pub username : String
  pub password : String
  pub clean_session : Bool
  pub will_enabled : Bool
  pub will_topic : String
  pub will_payload : List ℕ
  pub will_qos : QualityOfService
  pub will_retained : Bool
  pub keep_alive : ℕ
  pub connect_timeout : ℕ
  pub auto_reconnect : Bool
  pub connect_retry_interval : ℕ
  pub max_connect_retry_times : Option ℕ

abbrev pub default_options : ClientOptions
default_options = record {
  server = "";
  client_id = "";
  username = "";
  password = "";
  clean_session = false;
  will_enabled = false;
  will_topic = "";
  will_payload = [];
  will_qos = QualityOfService.level0;
  will_retained = false;
  keep_alive = 0;
  connect_timeout = 0;
  auto_reconnect = false;
  connect_retry_interval = 0;
  max_connect_retry_times = none;
}

-- `ClientOptions::new`
abbrev pub options_new : ClientOptions
options_new = record default_options {
  keep_alive = from_secs 30;
  connect_timeout = from_secs 10;
  connect_retry_interval = from_secs 5;
}

abbrev pub set_server : String → ClientOptions → ClientOptions
set_server addr o = record o { server = addr }

abbrev pub set_client_id : String → ClientOptions → ClientOptions
set_client_id client_id o = record o { client_id = client_id }

abbrev pub set_username : String → ClientOptions → ClientOptions
set_username username o = record o { username = username }

abbrev pub set_password : String → ClientOptions → ClientOptions
set_password password o = record o { password = password }

abbrev pub set_clean_session : Bool → ClientOptions → ClientOptions
set_clean_session clean o = record o { clean_session = clean }

unfoldable pub set_will :
    (topic : String) (payload : List ℕ) (qos : QualityOfService) (retained : Bool)
    → ClientOptions
    → ClientOptions
set_will topic payload qos retained o = record o {
  will_enabled = true;
  will_topic = topic;
  will_payload = payload;
  will_qos = qos;
  will_retained = retained;
}

unfoldable pub unset_will : ClientOptions → ClientOptions
unset_will o = record o { will_enabled = false }

abbrev pub set_keep_alive : ℕ → ClientOptions → ClientOptions
set_keep_alive keep_alive o = record o { keep_alive = keep_alive }

abbrev pub set_connect_timeout : ℕ → ClientOptions → ClientOptions
set_connect_timeout connect_timeout o = record o { connect_timeout = connect_timeout }

abbrev pub set_auto_reconnect : Bool → ClientOptions → ClientOptions
set_auto_reconnect flag o = record o { auto_reconnect = flag }

abbrev pub set_connect_retry_interval : ℕ → ClientOptions → ClientOptions
set_connect_retry_interval interval o = record o { connect_retry_interval = interval }

abbrev pub set_max_connect_retry_times : Option ℕ → ClientOptions → ClientOptions
set_max_connect_retry_times times o = record o { max_connect_retry_times = times }
