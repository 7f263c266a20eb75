-- ===== src/HubServer/Auth.antt =====
-- Limiter, getMetadataValue and authenticateAndRateLimit of connect/hub/hubsrv.go. The buckets are
-- those of golang.org/x/time/rate.
use wispers_hub.Base.{
  not, Bool, ◌||◌, Option, none, some, List, [], ◌∷◌, ◌++◌, Bytes, is_empty, eqb, if◌then◌else◌,
  bytes_eq,
}
use wispers_hub.Base.Int.{ℤ}
use wispers_hub.Base.Assoc.{lookup, insert}
use wispers_hub.Grpc.{Error, status, unauthenticated, resource_exhausted}
use wispers_hub.Strings.{parse_int, format_int, is_digit}
use wispers_hub.HubServer.Interface.{Hub, Deps}
use wispers_hub.HubServer.Exec.{
  Outcome, replied, Handler, ◌>>=◌, ◌>>◌, pure, guard, or_raise, ask, asking,
}

-- The incoming metadata that the hub reads, by key.
pub record Metadata : Type 0 where
  pub connectivity_group_id : List Bytes
  pub node_number : List Bytes
  pub auth_token : List Bytes
  pub client_version : List Bytes

abbrev pub get_metadata_value : List Bytes → Bytes
get_metadata_value [] = []
get_metadata_value (v ∷ vals) = v

-- fmt.Sscanf with %d into an int32: leading blanks, a sign and the digits that follow; the rest of the
-- text is not looked at. A metadata value has no line break.
unfoldable pub skip_blanks : Bytes → Bytes
skip_blanks [] = []
skip_blanks (c ∷ s) = if eqb c 32 || eqb c 9 then skip_blanks s else c ∷ s

unfoldable pub leading_digits : Bytes → Bytes
leading_digits [] = []
leading_digits (c ∷ s) = let rest = leading_digits s in if is_digit c then c ∷ rest else []

abbrev pub signed : Bytes → Bytes
signed [] = []
signed (c ∷ s) =
    if eqb c b'-'
    then c ∷ leading_digits s
    else if eqb c b'+'
    then leading_digits s
    else leading_digits (c ∷ s)

unfoldable pub scan_int32 : Bytes → Option ℤ
scan_int32 s = parse_int 32 (signed (skip_blanks s))

abbrev pub missing_metadata : Error
missing_metadata = status unauthenticated "missing metadata" []

abbrev pub missing_credentials : Error
missing_credentials = status unauthenticated "missing credentials" []

abbrev pub invalid_node_number : Error
invalid_node_number = status unauthenticated "invalid node number" []

abbrev pub rate_limited : Error
rate_limited = status resource_exhausted "rate limit exceeded" []

-- fmt.Sprintf("%s:%d", cgID, nodeNum)
unfoldable pub limiter_key : Bytes → ℤ → Bytes
limiter_key cg n = cg ++ b':' ∷ format_int n []

module _ {S L : Type 0} (d : Deps S L) where
  abbrev pub load_or_new : Option L → L
  load_or_new none = d.new_bucket
  load_or_new (some b) = b

  abbrev pub store_bucket : Bytes → Bool × L → Hub S L → Outcome Bool × Hub S L
  store_bucket key (allowed, b) h =
      (replied allowed, record (asking h) { limiters = insert key b h.limiters })

  -- Limiter.Allow.
  unfoldable pub limiter_allow : Bytes → Handler S L Bool
  limiter_allow key h =
      store_bucket key (d.bucket_allow h.asked (load_or_new (lookup key h.limiters))) h

  unfoldable pub authenticate_and_rate_limit : Option Metadata → Handler S L (Bytes × ℤ)
  authenticate_and_rate_limit incoming = do
    md ← or_raise incoming missing_metadata
    guard
        (not (
          is_empty (get_metadata_value md.connectivity_group_id)
          || is_empty (get_metadata_value md.node_number)
          || is_empty (get_metadata_value md.auth_token)))
        missing_credentials
    n ← or_raise (scan_int32 (get_metadata_value md.node_number)) invalid_node_number
    allowed ← limiter_allow (limiter_key (get_metadata_value md.connectivity_group_id) n)
    guard allowed rate_limited
    ask (
        d.client.authenticate_node (get_metadata_value md.connectivity_group_id) n
          (get_metadata_value md.auth_token))
    pure (get_metadata_value md.connectivity_group_id, n)
