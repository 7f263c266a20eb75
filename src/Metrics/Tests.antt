-- ===== src/Metrics/Tests.antt =====
-- Counted calls of connect/hub/metrics.go at concrete inputs.
use wispers_hub.Base.{refl, true, [], ◌∷◌, Bytes, codes}
use wispers_hub.Metrics.{
  Labels, Metrics, Handler, SameOpen, record_unary_metrics, record_stream_metrics,
  record_metrics-SameOpen,
}

abbrev none_yet : Metrics
none_yet = record { started = []; handled = []; received = []; sent = []; handling = [] }

abbrev unary : Handler Bytes
unary m = (codes "reply", codes "OK", m)

-- A stream that receives one message.
abbrev stream : Labels → Handler (Unit {0})
stream l m = (tt, codes "Aborted", record m { received = l ∷ m.received })

record_metrics-SameOpen_example :
    SameOpen none_yet
      (record_unary_metrics (codes "/wispers.connect.hub.Hub/ListNodes") unary none_yet).1
    × SameOpen none_yet
        (record_stream_metrics
          (codes "/wispers.connect.hub.Hub/ListNodes")
          true
          true
          stream
          none_yet).1
record_metrics-SameOpen_example =
    record_metrics-SameOpen (codes "/wispers.connect.hub.Hub/ListNodes") unary true true stream
      none_yet (λ m l. refl) (λ k m l. refl)
