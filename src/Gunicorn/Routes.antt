-- ===== src/Gunicorn/Routes.antt =====
-- The route of a request, from common/gunicorn/middleware.py to the metrics of common/gunicorn/logging.py.
use flagsmith_common.Base.{
  ℕ, ◌+◌, ◌*◌, ◌≡◌, refl, ap, String, Option, none, some, List, [], ◌∷◌, ◌++◌,
}
use flagsmith_common.Base.Text.{concat}
use flagsmith_common.Base.Dict.{Dict, find, put, find-put}
use flagsmith_common.Gunicorn.Extras.{log_extra, get_extra, get_extra-log_extra}

-- META, and the route of the resolver match, if the request was resolved.
pub record Request : Type 0 where
  pub method : String
  pub meta : Dict String
  pub resolver_match : Option String

-- The current span, if it is recording.
pub record Span : Type 0 where
  pub name : String
  pub attributes : Dict String

abbrev name_span : String → String → Option Span → Option Span
name_span method route_template none = none
name_span method route_template (some span) = some (record {
  name = concat method (concat " " route_template);
  attributes = put "http.route" route_template span.attributes;
})

-- What the call leaves: the response, the request and the span.
pub record Called (Response : Type 0) : Type 0 where
  pub response : Response
  pub request : Request
  pub span : Option Span

module _ {Response : Type 0} (get_route_template : String → String)
    (get_response : Request → Response × Request) where
  -- RouteLoggerMiddleware.__call__
  unfoldable pub call_middleware : Request → Option Span → Called Response
  unfolding log_extra concat put
  call_middleware request span =
      let (response, request') = get_response request in
      elim request'.resolver_match [
        | none ↦ record { response = response; request = request'; span = span }
        | some route ↦ record {
          response = response;
          request = record request' {
            meta = log_extra "route" (get_route_template route) request'.meta;
          };
          span = name_span request'.method (get_route_template route) span;
        }
      ]

pub record Labels : Type 0 where
  pub route : String
  pub method : String
  pub response_status : String

-- value or ""
abbrev or_empty : Option String → String
or_empty none = ""
or_empty (some value) = value

unfoldable pub labels_of : Dict String → String → Labels
unfolding get_extra find
labels_of environ status_code = record {
  route = or_empty (get_extra environ "route");
  method = or_empty (find "REQUEST_METHOD" environ);
  response_status = status_code;
}

-- The observations of the three metrics, the durations in microseconds.
pub record Metrics : Type 0 where
  pub request_durations : List (Labels × ℕ)
  pub requests : List Labels
  pub response_sizes : List (Labels × ℕ)

-- A timedelta by its fields.
pub record Duration : Type 0 where
  pub days : ℕ
  pub seconds : ℕ
  pub microseconds : ℕ

-- PrometheusGunicornLogger.access, beside the access log of Gunicorn. A response with no `sent` has size 0.
unfoldable pub access : String → Option ℕ → Dict String → Duration → Metrics → Metrics
unfolding labels_of
access status_code sent environ request_time metrics =
    let labels = labels_of environ status_code in
    record {
      request_durations =
          metrics.request_durations
          ++ (labels, request_time.seconds * 1_000_000 + request_time.microseconds) ∷ [];
      requests = metrics.requests ++ labels ∷ [];
      response_sizes =
          metrics.response_sizes ++ (labels, elim sent [ none ↦ 0 | some size ↦ size ]) ∷ [];
    }

labels_of-log_extra :
    (route status_code : String) (meta : Dict String)
    → labels_of (log_extra "route" route meta) status_code ≡ record {
      route = route;
      method = or_empty (find "REQUEST_METHOD" meta);
      response_status = status_code;
    }
unfolding labels_of log_extra
labels_of-log_extra route status_code meta =
    rw
      (
        labels_of,
        get_extra-log_extra "route" "route" route meta,
        find-put "REQUEST_METHOD" "flagsmith.route" route meta,
      )
      refl

module _ {Response : Type 0} (get_route_template : String → String)
    (get_response : Request → Response × Request) where
  -- A request that is resolved to a route is counted under the template of this route, and under the
  -- method and the status that it has, and the response is the one of the application.
  pub access-call_middleware :
      (request : Request) (span : Option Span) (route status_code : String) (sent : Option ℕ)
      (request_time : Duration) (metrics : Metrics)
      → (get_response request).1.resolver_match ≡ some route
      → let called = call_middleware get_route_template get_response request span in
        ((access status_code sent called.request.meta request_time metrics).requests
          ≡ metrics.requests
            ++ record {
              route = get_route_template route;
              method = or_empty (find "REQUEST_METHOD" (get_response request).1.meta);
              response_status = status_code;
            }
              ∷ [])
        × (called.response ≡ (get_response request).0)
  unfolding call_middleware access
  access-call_middleware request span route status_code sent request_time metrics h =
      rw (call_middleware, h)
        (
          ap (λ labels. metrics.requests ++ labels ∷ [])
              (labels_of-log_extra (get_route_template route) status_code
                (get_response request).1.meta),
          refl,
        )
