-- ===== src/Otel/Endpoints.antt =====
-- resolve_otlp_export_endpoints
use flagsmith_common.Base.{◌&&◌, String, str_eq, ◌==◌, if◌then◌else◌}
use flagsmith_common.Base.Text.{concat}
use Prim.Native.Char.{code}

pub data OtlpProtocol : Type 0 where
  grpc http_protobuf : OtlpProtocol

-- base_endpoint.rstrip("/")
unfoldable pub without_slashes : String → String
without_slashes String.[] = ""
without_slashes (String.◌∷◌ c s) =
    let rest = without_slashes s in
    if str_eq rest "" && (code c == b'/') then "" else String.◌∷◌ c rest

-- The endpoints for traces and for logs.
unfoldable pub resolve_otlp_export_endpoints : String → OtlpProtocol → String × String
unfolding without_slashes concat
resolve_otlp_export_endpoints base_endpoint grpc =
    (without_slashes base_endpoint, without_slashes base_endpoint)
resolve_otlp_export_endpoints base_endpoint http_protobuf = (
  concat (without_slashes base_endpoint) "/v1/traces",
  concat (without_slashes base_endpoint) "/v1/logs",
)
