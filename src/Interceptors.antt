-- ===== src/Interceptors.antt =====
-- The interceptors of the hub's gRPC server in the order of newHubGRPCServer in connect/hub/hub.go: the
-- server time of connect/hub/servertime.go outermost, the metrics, the version gate of
-- connect/hub/version.go, then the handler. They are the ones of a unary call.
mod Tests
use wispers_hub.Base.{
  ◌≡◌, refl, Bool, false, Option, none, some, List, [], ◌∷◌, ◌++◌, Bytes, codes, if◌then◌else◌,
}
use wispers_hub.Grpc.{
  Error, Code, status, wrapped, context_done, invalid_argument, not_found, unauthenticated,
  permission_denied, resource_exhausted, failed_precondition, unavailable, internal, aborted,
}
use wispers_hub.Version.{Checked, ok, err, check_client_version, min_client_parsed, hub_version}
use wispers_hub.Metrics.{
  Metrics, record_unary_metrics, started_call, handled_call, labels_of, split_method_name,
}

-- The response metadata of a call, and the hub's counters. Once a handler has sent its headers no
-- header can be set.
pub record Wire : Type 0 where
  pub header : List (Bytes × Bytes)
  pub trailer : List (Bytes × Bytes)
  pub flushed : Bool
  pub metrics : Metrics

abbrev pub Rpc : Type 0 → Type 0
Rpc A = Wire → Checked A × Wire

-- codes.Code.String.
abbrev pub code_name : Code → Bytes
code_name invalid_argument = codes "InvalidArgument"
code_name not_found = codes "NotFound"
code_name unauthenticated = codes "Unauthenticated"
code_name permission_denied = codes "PermissionDenied"
code_name resource_exhausted = codes "ResourceExhausted"
code_name failed_precondition = codes "FailedPrecondition"
code_name unavailable = codes "Unavailable"
code_name internal = codes "Internal"
code_name aborted = codes "Aborted"

abbrev pub error_code : Error → Bytes
error_code (status c s args) = code_name c
error_code (wrapped c s e) = code_name c
error_code context_done = codes "Unknown"

-- status.Code(err).String()
abbrev pub status_code : {A : Type 0} → Checked A → Bytes
status_code (ok a) = codes "OK"
status_code (err e) = error_code e

-- grpc.SetHeader fails once the headers are sent.
abbrev pub set_header : Bytes × Bytes → Wire → Wire
set_header kv w = if w.flushed then w else record w { header = w.header ++ kv ∷ [] }

abbrev pub set_trailer : Bytes × Bytes → Wire → Wire
set_trailer kv w = record w { trailer = w.trailer ++ kv ∷ [] }

abbrev pub hub_version_key : Bytes
hub_version_key = codes "wispers-hub-version"

abbrev pub server_time_key : Bytes
server_time_key = codes "wispers-server-time-usec"

abbrev pub gated : {A : Type 0} → Option Error → Rpc A → Rpc A
gated none handler w = handler w
gated (some e) handler w = (err e, w)

-- VersionInterceptors for a unary call whose version header has these values.
unfoldable pub version_gate : {A : Type 0} → List Bytes → Rpc A → Rpc A
version_gate vals handler w =
    gated (check_client_version min_client_parsed vals) handler
      (set_header (hub_version_key, hub_version) w)

abbrev pub counted : {A : Type 0} → Checked A × Wire → (Checked A × Wire) × Bytes × Metrics
counted (r, w) = ((r, w), status_code r, w.metrics)

abbrev pub with_metrics : {A : Type 0} → (Checked A × Wire) × Metrics → Checked A × Wire
with_metrics ((r, w), m) = (r, record w { metrics = m })

-- recordUnaryMetrics around a handler of calls.
unfoldable pub count_unary : {A : Type 0} → Bytes → Rpc A → Rpc A
count_unary full_method handler w =
    with_metrics (
      record_unary_metrics full_method (λ m. counted (handler (record w { metrics = m })))
        w.metrics)

abbrev pub stamp : {A : Type 0} → Bytes → Checked A × Wire → Checked A × Wire
stamp usec (r, w) = (
  r,
  if w.flushed then set_trailer (server_time_key, usec) w else set_header (server_time_key, usec) w,
)

-- measureAndStamp, with the microseconds that it measures.
unfoldable pub measure_and_stamp : {A : Type 0} → Bytes → Rpc A → Rpc A
measure_and_stamp usec handler w = stamp usec (handler w)

unfoldable pub unary_call : {A : Type 0} → Bytes → Bytes → List Bytes → Rpc A → Rpc A
unary_call usec full_method vals handler =
    measure_and_stamp usec (count_unary full_method (version_gate vals handler))

-- A call whose client is refused never comes to its handler, and is counted all the same: once as
-- started and once as handled, under the code of the refusal; the client is told the hub's version and
-- the server's time.
pub unary_call-refused :
    {A : Type 0} (usec full_method : Bytes) (vals : List Bytes) (handler : Rpc A) (w : Wire)
    (e : Error)
    → w.flushed ≡ false
    → check_client_version min_client_parsed vals ≡ some e
    → let l = labels_of (codes "unary") (split_method_name full_method) in
      unary_call usec full_method vals handler w ≡ (
        err e,
        record w {
          header =
              (w.header ++ (hub_version_key, hub_version) ∷ []) ++ (server_time_key, usec) ∷ [];
          metrics = handled_call l (error_code e) (started_call l w.metrics);
        },
      )
unfolding unary_call measure_and_stamp count_unary version_gate record_unary_metrics
unary_call-refused usec full_method vals handler w e unsent refused = rw (refused, unsent) refl

-- A call whose client is let through has its handler's result, is counted around it, and carries the
-- server's time in the header, or in the trailer where the handler has sent the headers.
unary_call-accepted :
    {A : Type 0} (usec full_method : Bytes) (vals : List Bytes) (handler : Rpc A) (w : Wire)
    → check_client_version min_client_parsed vals ≡ none
    → let l = labels_of (codes "unary") (split_method_name full_method) in
      let inner = handler (
        set_header
          (hub_version_key, hub_version)
          (record w { metrics = started_call l w.metrics })) in
      unary_call usec full_method vals handler w
      ≡ stamp usec (
        inner.0,
        record inner.1 { metrics = handled_call l (status_code inner.0) inner.1.metrics },
      )
unfolding unary_call measure_and_stamp count_unary version_gate record_unary_metrics
unary_call-accepted usec full_method vals handler w passed = rw passed refl
