-- ===== src/WsClient/Dial/Manager.antt =====
-- src/ws_client.rs, `dial_manager` and `manager_host_port`: DNS, TCP, then TLS and the HTTP upgrade,
-- each within what is left of one deadline. What each stage meets is an input: its answer, or the
-- deadline.
use bilbycast_gateway_sdk.Base.{
  ℕ, String, Bool, Option, none, some, List, length, Result, ok, err, ◌>>=◌, ok_or,
}
use bilbycast_gateway_sdk.Errors.{
  ConfigMessage, invalid_url, manager_url_no_host, manager_url_no_port,
}
use bilbycast_gateway_sdk.WsClient.Dial.{
  DialEvent, DialEnd, connected, all_failed, no_addresses, racing, impossible, interleave_families,
  connect_staggered, race_of,
}

-- `DIAL_TIMEOUT`, in seconds.
abbrev pub dial_timeout : ℕ
dial_timeout = 30

-- `url::Host`, whose addresses print without brackets.
pub data Host : Type 0 where
  domain ipv4 ipv6 : String → Host

-- What `url::Url::parse` gives; the port is the one written or the known default.
pub record ManagerUrl : Type 0 where
  pub host : Option Host
  pub port_or_known_default : Option ℕ

abbrev pub host_text : Host → String
host_text (domain s) = s
host_text (ipv4 s) = s
host_text (ipv6 s) = s

unfoldable pub manager_host_port :
    (String → Option ManagerUrl) → String → Result ConfigMessage (String × ℕ)
manager_host_port parse url = do
  parsed ← ok_or (parse url) invalid_url
  host ← ok_or parsed.host (manager_url_no_host url)
  port ← ok_or parsed.port_or_known_default (manager_url_no_port url)
  ok (host_text host, port)

-- A stage under the deadline.
pub data Timed (E A : Type 0) : Type 0 where
  answered : Result E A → Timed E A
  timed_out : Timed E A

-- The texts of `SdkError::WebSocket`, and the URL's error.
pub data DialError (IoError UpgradeError : Type 0) : Type 0 where
  bad_url : ConfigMessage → DialError IoError UpgradeError
  lookup_failed : String → IoError → DialError IoError UpgradeError
  lookup_timed_out : String → ℕ → DialError IoError UpgradeError
  connect_failed : String → ℕ → Option IoError → DialError IoError UpgradeError
  connect_timed_out : String → DialError IoError UpgradeError
  upgrade_failed : String → UpgradeError → DialError IoError UpgradeError
  upgrade_timed_out : String → ℕ → DialError IoError UpgradeError

module _ {IoError UpgradeError Stream : Type 0} where
  -- The last stage, over the connection that the race gave.
  unfoldable pub upgrade_stream :
      String → Timed UpgradeError Stream → Result (DialError IoError UpgradeError) Stream
  upgrade_stream host (answered (ok stream)) = ok stream
  upgrade_stream host (answered (err e)) = err (upgrade_failed host e)
  upgrade_stream host timed_out = err (upgrade_timed_out host dial_timeout)

module _ {Addr IoError UpgradeError Tcp Stream : Type 0} where
  -- The race, which is cut off while it still runs. An event that the race rules out ends nothing: the
  -- run goes on until the deadline.
  unfoldable pub after_race :
      String
      → ℕ
      → (Tcp → Timed UpgradeError Stream)
      → DialEnd Addr Tcp IoError
      → Result (DialError IoError UpgradeError) Stream
  unfolding upgrade_stream
  after_race host count upgrade (connected tcp addr abandoned) = upgrade_stream host (upgrade tcp)
  after_race host count upgrade (all_failed e) = err (connect_failed host count (some e))
  after_race host count upgrade no_addresses = err (connect_failed host count none)
  after_race host count upgrade (racing s) = err (connect_timed_out host)
  after_race host count upgrade impossible = err (connect_timed_out host)

  unfoldable pub after_lookup :
      (Addr → Bool)
      → String
      → Timed IoError (List Addr)
      → List (DialEvent Tcp IoError)
      → (Tcp → Timed UpgradeError Stream)
      → Result (DialError IoError UpgradeError) Stream
  unfolding after_race interleave_families connect_staggered
  after_lookup is_ipv6 host (answered (ok addrs)) race upgrade =
      after_race host (length addrs) upgrade
        (connect_staggered (race_of (interleave_families is_ipv6 addrs)) race)
  after_lookup is_ipv6 host (answered (err e)) race upgrade = err (lookup_failed host e)
  after_lookup is_ipv6 host timed_out race upgrade = err (lookup_timed_out host dial_timeout)

  -- The lookup of a host and a port, and the events of the race before the deadline.
  unfoldable pub dial_manager :
      (String → Option ManagerUrl)
      → (Addr → Bool)
      → String
      → (String → ℕ → Timed IoError (List Addr))
      → List (DialEvent Tcp IoError)
      → (Tcp → Timed UpgradeError Stream)
      → Result (DialError IoError UpgradeError) Stream
  unfolding manager_host_port after_lookup
  dial_manager parse is_ipv6 url lookup race upgrade = elim (manager_host_port parse url) [
    | err e ↦ err (bad_url e)
    | ok (host, port) ↦ after_lookup is_ipv6 host (lookup host port) race upgrade
  ]
