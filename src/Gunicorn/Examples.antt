-- ===== src/Gunicorn/Examples.antt =====
-- The theorems on Gunicorn, at one request and at three calls.
use flagsmith_common.Base.{ℕ, ◌≡◌, refl, true, false, String, none, some, List, [], ◌∷◌}
use flagsmith_common.Base.{◌⊎◌, inl, Bool, str_eq}
use flagsmith_common.Base.Sets.{member}
use flagsmith_common.Base.Dict.{Dict, find}
use flagsmith_common.Gunicorn.AccessLog.{Leaf, text, Value, leaf, log_record, processor, args_of}
use flagsmith_common.Gunicorn.Categories.{categories}
use flagsmith_common.Gunicorn.Accesses.{entries_at, IsListed}
use flagsmith_common.Gunicorn.AccessFields.{field, no_time, processor-field}
use flagsmith_common.Gunicorn.Routes.{
  Request, Metrics, call_middleware, access, access-call_middleware,
}
use flagsmith_common.Gunicorn.MetricsServer.{Call, not_started, start_all, start_all-first_port}
use flagsmith_common.Gunicorn.Options.{number, load_config}

abbrev request : Request
request = record { method = "GET"; meta = ("REQUEST_METHOD", "GET") ∷ []; resolver_match = none }

-- The application resolves each request to one route.
abbrev get_response : Request → String × Request
get_response r = ("flags", record r { resolver_match = some "^api/v1/flags/$" })

-- The template, were all routes this one.
abbrev get_route_template : String → String
get_route_template route = "/api/v1/flags/"

abbrev no_metrics : Metrics
no_metrics = record { request_durations = []; requests = []; response_sizes = [] }

access-call_middleware_example :
    let called = call_middleware get_route_template get_response request none in
    ((access "200"
        (some 17)
        called.request.meta
        (record { days = 0; seconds = 0; microseconds = 1_500 })
        no_metrics).requests
      ≡ record { route = "/api/v1/flags/"; method = "GET"; response_status = "200" } ∷ [])
    × (called.response ≡ "flags")
unfolding access
access-call_middleware_example =
    access-call_middleware get_route_template get_response request none "^api/v1/flags/$" "200"
      (some 17) (record { days = 0; seconds = 0; microseconds = 1_500 }) no_metrics refl

-- The directory is not set, and then the port is taken, at first.
abbrev calls : List (ℕ × Call)
calls =
    (9_100, record { prometheus_multiproc_dir = none; is_directory = true; is_bound = true })
    ∷ (
      9_100,
      record {
        prometheus_multiproc_dir = some "/tmp/prometheus";
        is_directory = false;
        is_bound = true;
      },
    )
    ∷ (
      9_100,
      record {
        prometheus_multiproc_dir = some "/tmp/prometheus";
        is_directory = true;
        is_bound = false;
      },
    )
    ∷ (
      9_101,
      record {
        prometheus_multiproc_dir = some "/tmp/prometheus";
        is_directory = true;
        is_bound = true;
      },
    )
    ∷ (
      9_102,
      record {
        prometheus_multiproc_dir = some "/tmp/prometheus";
        is_directory = true;
        is_bound = true;
      },
    )
    ∷ []

start_all-first_port_example : (start_all calls not_started).ports ≡ 9_101 ∷ []
start_all-first_port_example = start_all-first_port calls

load_config_test :
    load_config
      (λ cfg. cfg)
      (("threads", number 1) ∷ ("timeout", number 30) ∷ [])
      (("threads", some (number 4)) ∷ ("timeout", none) ∷ ("numthreads", some (number 5)) ∷ [])
      (("threads", number 1) ∷ ("timeout", number 0) ∷ [])
    ≡ ("threads", number 4) ∷ ("timeout", number 30) ∷ []
unfolding load_config
load_config_test = refl

-- An access log with one listed item, whose objects are none.
abbrev access_args : Dict (Leaf ⊥)
access_args =
    ("U", text "/api/v1/flags/") ∷ ("q", text "") ∷ ("m", text "GET") ∷ ("{x-id}i", text "7") ∷ []

abbrev access_event : Dict (Value ⊥)
access_event =
    ("event", leaf (text "served"))
    ∷ ("_record", log_record (record { name = "gunicorn.access"; args = some access_args }))
    ∷ []

abbrev never : ⊥ → Bool
never o = absurd o

abbrev str : Leaf ⊥ → String
str (text s) = s
str _ = ""

processor-field_example :
    (after : Dict (Value ⊥)) × (processor never str some ("{X-Id}i" ∷ []) access_event ≡ some after)
    × ((key : String)
        → member str_eq key categories ≡ false
        → find key after ≡ field never str some access_args "/api/v1/flags/" none access_event key)
    × ((category key : String) (value : Leaf ⊥)
        → member str_eq category categories ≡ true
        → find key (entries_at never str some category after) ≡ some value
        → (find key (entries_at never str some category access_event) ≡ some value)
          ⊎ IsListed never str some access_args ("{X-Id}i" ∷ []) category key value)
unfolding find args_of
processor-field_example =
    processor-field never str some ("{X-Id}i" ∷ [])
      (record { name = "gunicorn.access"; args = some access_args }) access_args "/api/v1/flags/"
      none access_event refl refl refl refl (no_time refl) (inl refl, (inl refl, (inl refl, tt)))
