-- ===== src/Interceptors/Tests.antt =====
-- A refused call of the chain of connect/hub/hub.go, at a concrete input.
use wispers_hub.Base.{◌≡◌, refl, false, true, some, [], ◌∷◌, Bytes, codes}
use wispers_hub.Strings.{split, cut, parse_int, parse_digits, strip_prefix}
use wispers_hub.Version.{
  ok, err, malformed, check_client_version, extract_client_version, parse_version,
  min_client_parsed, hub_version,
}
use wispers_hub.Metrics.{split_method_name, labels_of, started_call, handled_call}
use wispers_hub.Interceptors.{
  Wire, Rpc, unary_call, hub_version_key, server_time_key, unary_call-refused,
}

abbrev wire : Wire
wire = record {
  header = [];
  trailer = [];
  flushed = false;
  metrics = record { started = []; handled = []; received = []; sent = []; handling = [] };
}

abbrev handler : Rpc Bytes
handler w = (ok (codes "reply"), record w { flushed = true })

malformed_version :
    check_client_version min_client_parsed (codes "one" ∷ []) ≡ some (malformed (codes "one"))
unfolding check_client_version extract_client_version parse_version split cut parse_int parse_digits
    strip_prefix
malformed_version = refl

unary_call-refused_example :
    unary_call
      (codes "12")
      (codes "/wispers.connect.hub.Hub/ListNodes")
      (codes "one" ∷ [])
      handler
      wire
    ≡ (
      err (malformed (codes "one")),
      record wire {
        header = (hub_version_key, hub_version) ∷ (server_time_key, codes "12") ∷ [];
        metrics =
            handled_call
              (labels_of
                (codes "unary")
                (split_method_name (codes "/wispers.connect.hub.Hub/ListNodes")))
              (codes "InvalidArgument")
              (started_call
                (labels_of
                  (codes "unary")
                  (split_method_name (codes "/wispers.connect.hub.Hub/ListNodes")))
                wire.metrics);
      },
    )
unary_call-refused_example =
    unary_call-refused (codes "12") (codes "/wispers.connect.hub.Hub/ListNodes") (codes "one" ∷ [])
      handler wire (malformed (codes "one")) refl malformed_version
