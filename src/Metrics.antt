-- ===== src/Metrics.antt =====
-- connect/hub/metrics.go: the interceptors that count calls and messages. A counter vector of the
-- metrics library is the list of the labels of its increments; the histogram's times are left out.
mod Tests
use wispers_hub.Base.{
  ℕ, suc, ◌+◌, ◌≡◌, refl, Bool, true, false, ◌&&◌, not, Option, none, some, List, [], ◌∷◌, ◌++◌,
  Bytes, codes, if◌then◌else◌, ◌==◌, bytes_eq, Bool-cases, inl, inr, arith,
}
use wispers_hub.Strings.{cut, strip_prefix}
use wispers_hub.Strings.Split.{Lacks, cut-append}

pub record Labels : Type 0 where
  pub grpc_type : Bytes
  pub grpc_service : Bytes
  pub grpc_method : Bytes

pub record Metrics : Type 0 where
  pub started : List Labels
  pub handled : List (Labels × Bytes)
  pub received : List Labels
  pub sent : List Labels
  pub handling : List Labels

-- splitMethodName.
abbrev trim_slash : Bytes → Option Bytes → Bytes
trim_slash full none = full
trim_slash full (some rest) = rest

abbrev of_cut : Bytes → Bytes × Bytes × Bool → Bytes × Bytes
of_cut full (service, method, true) = (service, method)
of_cut full (service, method, false) = (codes "unknown", full)

unfoldable pub split_method_name : Bytes → Bytes × Bytes
split_method_name full_method =
    let full = trim_slash full_method (strip_prefix (b'/' ∷ []) full_method) in
    of_cut full (cut b'/' full)

abbrev pub labels_of : Bytes → Bytes × Bytes → Labels
labels_of type (service, method) = record {
  grpc_type = type;
  grpc_service = service;
  grpc_method = method;
}

abbrev pub started_call : Labels → Metrics → Metrics
started_call l m = record m { started = l ∷ m.started }

abbrev pub handled_call : Labels → Bytes → Metrics → Metrics
handled_call l code m = record m { handling = l ∷ m.handling; handled = (l, code) ∷ m.handled }

-- A handler: its reply, the name of its status code, and what it does to the counters meanwhile, by
-- the messages of its stream and by the calls beside it.
abbrev pub Handler : Type 0 → Type 0
Handler A = Metrics → A × Bytes × Metrics

abbrev pub around : {A : Type 0} → Labels → A × Bytes × Metrics → A × Metrics
around l (a, code, m) = (a, handled_call l code m)

unfoldable pub record_unary_metrics : {A : Type 0} → Bytes → Handler A → Metrics → A × Metrics
record_unary_metrics full_method handler m =
    let l = labels_of (codes "unary") (split_method_name full_method) in
    around l (handler (started_call l m))

unfoldable pub stream_type : Bool → Bool → Bytes
stream_type is_client_stream is_server_stream =
    if is_client_stream && not is_server_stream
    then codes "client_stream"
    else if not is_client_stream && is_server_stream
    then codes "server_stream"
    else codes "bidi_stream"

-- The handler is given the labels that its stream counts under.
unfoldable pub record_stream_metrics :
    {A : Type 0} → Bytes → Bool → Bool → (Labels → Handler A) → Metrics → A × Metrics
record_stream_metrics full_method is_client_stream is_server_stream handler m =
    let l =
      labels_of (stream_type is_client_stream is_server_stream) (split_method_name full_method) in
    around l (handler l (started_call l m))

-- countingStream: a message that went through counts.
unfoldable pub recv_msg : Labels → Bool → Metrics → Metrics
recv_msg l failed m = if failed then m else record m { received = l ∷ m.received }

unfoldable pub send_msg : Labels → Bool → Metrics → Metrics
send_msg l failed m = if failed then m else record m { sent = l ∷ m.sent }

abbrev pub same_labels : Labels → Labels → Bool
same_labels l k =
    (l.grpc_type == k.grpc_type)
    && (l.grpc_service == k.grpc_service)
    && (l.grpc_method == k.grpc_method)

abbrev pub count_started : Labels → List Labels → ℕ
count_started l [] = 0
count_started l (k ∷ ks) = if same_labels l k then suc (count_started l ks) else count_started l ks

-- The sum over the codes.
abbrev pub count_handled : Labels → List (Labels × Bytes) → ℕ
count_handled l [] = 0
count_handled l ((k, code) ∷ ks) =
    if same_labels l k then suc (count_handled l ks) else count_handled l ks

-- As many calls are open with these labels after as before.
abbrev pub SameOpen : Metrics → Metrics → Type 0
SameOpen m m' =
    (l : Labels)
    → count_started l m'.started + count_handled l m.handled
      ≡ count_started l m.started + count_handled l m'.handled

closes_again :
    (l : Labels) (code : Bytes) (m m' : Metrics)
    → SameOpen (started_call l m) m'
    → SameOpen m (handled_call l code m')
closes_again l code m m' h k = elim (Bool-cases (same_labels k l)) [
  | inl hit ↦ (let e = h k in rw hit (omega (arith, (rw hit at e))))
  | inr miss ↦ (let e = h k in rw miss (rw miss at e))
]

around-SameOpen :
    {A : Type 0} (l : Labels) (m : Metrics) (p : A × Bytes × Metrics)
    → SameOpen (started_call l m) p.2
    → SameOpen m (around l p).1
around-SameOpen l m (a, code, m') h = closes_again l code m m' h

-- Open calls, started less handled over all codes, are counted right: a unary call and a stream that
-- are over leave as many open with any labels as there were, if what goes on during the handler does.
pub record_metrics-SameOpen :
    {A B : Type 0} (full_method : Bytes) (unary : Handler A) (client server : Bool)
    (stream : Labels → Handler B) (m : Metrics)
    → ((m : Metrics) → SameOpen m (unary m).2)
    → ((l : Labels) (m : Metrics) → SameOpen m (stream l m).2)
    → SameOpen m (record_unary_metrics full_method unary m).1
      × SameOpen m (record_stream_metrics full_method client server stream m).1
unfolding record_unary_metrics record_stream_metrics
record_metrics-SameOpen full_method unary client server stream m hu hs = (
  around-SameOpen (labels_of (codes "unary") (split_method_name full_method)) m
      (unary (started_call (labels_of (codes "unary") (split_method_name full_method)) m)) (hu _),
  around-SameOpen (labels_of (stream_type client server) (split_method_name full_method)) m
      (stream (labels_of (stream_type client server) (split_method_name full_method))
        (started_call (labels_of (stream_type client server) (split_method_name full_method)) m))
      (hs _ _),
)

-- The parts of a full method name are read back, where the service has no slash.
split_method_name-join :
    (service method : Bytes)
    → Lacks b'/' service
    → split_method_name (b'/' ∷ (service ++ b'/' ∷ method)) ≡ (service, method)
unfolding split_method_name strip_prefix
split_method_name-join service method l = rw (cut-append b'/' service method l) refl
