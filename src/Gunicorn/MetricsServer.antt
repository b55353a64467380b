-- ===== src/Gunicorn/MetricsServer.antt =====
-- common/gunicorn/metrics_server.py, and the hook `when_ready` of conf.py: the lock makes each call one step.
use flagsmith_common.Base.{
  ℕ, ◌≡◌, refl, ap, ◌∙◌, Bool, true, false, ◌&&◌, not, String, Option, none, some, List, [], ◌∷◌,
  ◌++◌, if◌then◌else◌, str_eq, arith, Bool-cases, inl, inr,
}
use flagsmith_common.Base.Text.{lower}

abbrev pub metrics_server_port : ℕ
metrics_server_port = 9_100

-- `_server_started`, and the ports of the servers that run.
pub record ServerState : Type 0 where
  pub server_started : Bool
  pub ports : List ℕ

abbrev pub not_started : ServerState
not_started = record { server_started = false; ports = [] }

-- The surroundings of a call: PROMETHEUS_MULTIPROC_DIR, whether MultiProcessCollector finds a directory
-- there, and whether the port can be bound (no OSError).
pub record Call : Type 0 where
  pub prometheus_multiproc_dir : Option String
  pub is_directory : Bool
  pub is_bound : Bool

-- How a call ends.
pub data Started : Type 0 where
  returned : Started
  value_error : Started

abbrev is_given : Option String → Bool
is_given none = false
is_given (some value) = not (str_eq value "")

-- MultiProcessCollector raises a ValueError if there is no directory.
unfoldable pub get_multiprocess_registry : Call → Started
get_multiprocess_registry call = if call.is_directory then returned else value_error

unfoldable pub start_metrics_server : ℕ → Call → ServerState → Started × ServerState
unfolding get_multiprocess_registry
start_metrics_server port call s =
    if s.server_started
    then (returned, s)
    else if not (is_given call.prometheus_multiproc_dir)
    then (returned, s)
    else elim (get_multiprocess_registry call) [
      | value_error ↦ (value_error, s)
      | returned ↦
          if call.is_bound
          then (returned, record { server_started = true; ports = s.ports ++ port ∷ [] })
          else (returned, s)
    ]

-- when_ready, with the value of PROMETHEUS_ENABLED.
unfoldable pub when_ready : Option String → Call → ServerState → Started × ServerState
unfolding start_metrics_server lower
when_ready prometheus_enabled call s =
    if str_eq (lower (elim prometheus_enabled [ none ↦ "" | some value ↦ value ])) "true"
    then start_metrics_server metrics_server_port call s
    else (returned, s)

-- Calls one behind the other, each of which may end by a ValueError.
unfoldable pub start_all : List (ℕ × Call) → ServerState → ServerState
unfolding start_metrics_server
start_all [] s = s
start_all ((port, call) ∷ calls) s = start_all calls (start_metrics_server port call s).1

abbrev can_start : ℕ × Call → Bool
can_start (port, call) =
    is_given call.prometheus_multiproc_dir && (call.is_directory && call.is_bound)

-- The port of the first call that can start the server.
abbrev first_port : List (ℕ × Call) → List ℕ
first_port [] = []
first_port ((port, call) ∷ calls) =
    let rest = first_port calls in if can_start (port, call) then port ∷ [] else rest

start_all-started :
    (calls : List (ℕ × Call)) (s : ServerState) → s.server_started ≡ true → start_all calls s ≡ s
unfolding start_all start_metrics_server
start_all-started [] s h = refl
start_all-started ((port, call) ∷ calls) s h =
    ap (start_all calls) (rw (start_metrics_server, h) refl) ∙ start_all-started calls s h

start_metrics_server-not_started :
    (port : ℕ) (call : Call)
    → (start_metrics_server port call not_started).1 ≡ (
        if can_start (port, call)
        then record { server_started = true; ports = port ∷ [] }
        else not_started)
unfolding start_metrics_server get_multiprocess_registry
start_metrics_server-not_started port call = ground arith

-- However often the server is started, and from whatever surroundings, ValueErrors included, it runs once,
-- on the port of the first call that finds PROMETHEUS_MULTIPROC_DIR set, a directory there and the
-- port free, and not at all if there is none.
pub start_all-first_port :
    (calls : List (ℕ × Call)) → (start_all calls not_started).ports ≡ first_port calls
unfolding start_all start_metrics_server
start_all-first_port [] = refl
start_all-first_port ((port, call) ∷ calls) =
    ap (λ s. (start_all calls s).ports) (start_metrics_server-not_started port call)
    ∙ elim (Bool-cases (can_start (port, call))) [
      | inl e ↦ rw e (ap (λ s. s.ports) (start_all-started calls _ refl))
      | inr e ↦ rw e (start_all-first_port calls)
    ]
