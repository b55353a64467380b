-- ===== src/CommandLine/HealthCheck.antt =====
-- common/core/cli/healthcheck.py: the checks, by how the process ends. argparse, sockets and requests are
-- parameters.
use flagsmith_common.Base.{ℕ, Bool, false, String, Option, none, some, List, if◌then◌else◌}
use flagsmith_common.Base.Text.{concat}

abbrev pub default_port : ℕ
default_port = 8_000

abbrev pub default_timeout_seconds : ℕ
default_timeout_seconds = 1

-- What argparse makes of the arguments.
pub data Arguments : Type 0 where
  no_subcommand : Arguments
  tcp : (port timeout : ℕ) → Arguments
  http : (port timeout : ℕ) (path : String) → Arguments

-- How a check ends: exit(code), a return, or an exception.
pub data Ending : Type 0 where
  exits : (code : ℕ) → Ending
  returned raised : Ending

pub data Connecting : Type 0 where
  connected socket_error other_exception : Connecting

-- Whether the socket is left open, and how the check ends.
pub record Checked : Type 0 where
  pub is_open : Bool
  pub ending : Ending

abbrev tcp_ending : Connecting → Ending
tcp_ending connected = exits 0
tcp_ending socket_error = exits 1
tcp_ending other_exception = raised

module _ (connect : (host : String) (port timeout_seconds : ℕ) → Connecting) where
  abbrev pub check_tcp_connection : ℕ → ℕ → Checked
  check_tcp_connection port timeout_seconds = record {
    is_open = false;
    ending = tcp_ending (connect "127.0.0.1" port timeout_seconds);
  }

-- `get` is requests.get, none for an exception; `is_error` are the codes for which raise_for_status raises.
module _ (text : ℕ → String) (urljoin : String → String → String)
    (get : (url : String) (timeout_seconds : ℕ) → Option ℕ) (is_error : ℕ → Bool) where
  abbrev pub check_http_response : ℕ → ℕ → String → Checked
  check_http_response port timeout_seconds path = record {
    is_open = false;
    ending = elim (get (urljoin (concat "http://127.0.0.1:" (text port)) path) timeout_seconds) [
      | none ↦ raised
      | some status_code ↦ if is_error status_code then raised else returned
    ];
  }

-- The network as the checks see it.
pub record Network : Type 0 where
  pub connect : (host : String) (port timeout_seconds : ℕ) → Connecting
  pub text : ℕ → String
  pub urljoin : String → String → String
  pub get : (url : String) (timeout_seconds : ℕ) → Option ℕ
  pub is_error : ℕ → Bool

module _ (network : Network) where
  abbrev check : Arguments → Checked
  check no_subcommand = check_tcp_connection network.connect default_port default_timeout_seconds
  check (tcp port timeout) = check_tcp_connection network.connect port timeout
  check (http port timeout path) =
      check_http_response network.text network.urljoin network.get network.is_error port timeout
        path

  -- `get_args` is none for arguments that argparse refuses: it exits with the code 2.
  unfoldable pub healthcheck : (get_args : List String → Option Arguments) → List String → Checked
  unfolding concat
  healthcheck get_args argv = elim (get_args argv) [
    | none ↦ record { is_open = false; ending = exits 2 }
    | some args ↦ check args
  ]
