-- ===== src/HubServer/Calls/Credentials.antt =====
-- authenticateAndRateLimit of connect/hub/hubsrv.go stands before every call of a node.
use wispers_hub.Base.{
  ◌≡◌, refl, ◌⊎◌, inl, inr, ◌||◌, true, Option, none, some, Bytes, is_empty, Bool-cases,
  Option-cases, bytes_eq,
}
use wispers_hub.Base.Int.{ℤ}
use wispers_hub.Base.Assoc.{lookup}
use wispers_hub.Grpc.{Error}
use wispers_hub.Standalone.Exec.{Result, ok, err}
use wispers_hub.HubServer.Interface.{Hub, Deps}
use wispers_hub.HubServer.Exec.{
  Outcome, replied, failed, waiting, panicked, Handler, continue, ◌>>=◌, pure, guard, or_raise, ask,
}
use wispers_hub.HubServer.Auth.{
  Metadata, get_metadata_value, scan_int32, limiter_key, load_or_new, limiter_allow,
  authenticate_and_rate_limit,
}
use wispers_hub.HubServer.Handlers.{
  pair_nodes_handler, list_nodes, get_roster, get_group_metadata, get_stun_turn_config,
  start_connection_handler, deregister_node,
}
use wispers_hub.HubServer.Rosters.{update_roster}
use wispers_hub.HubServer.Serving.{start_serving}
use wispers_hub.HubServer.Calls.{
  Call, pairing, node_listing, roster_reading, metadata_reading, configuration, connecting,
  deregistration, roster_update, serving, serve,
}

abbrev pub group_of : Metadata → Bytes
group_of md = get_metadata_value md.connectivity_group_id

abbrev pub token_of : Metadata → Bytes
token_of md = get_metadata_value md.auth_token

module _ {S L : Type 0} (d : Deps S L) where
  -- The bucket of the caller lets the call through, and the backend accepts its credentials.
  pub record Accepted (md : Option Metadata) (h : Hub S L) : Type 0 where
    pub metadata : Metadata
    pub node_number : ℤ
    pub given : md ≡ some metadata
    pub scanned : scan_int32 (get_metadata_value metadata.node_number) ≡ some node_number
    pub within_rate :
        (d.bucket_allow h.asked
          (load_or_new d (lookup (limiter_key (group_of metadata) node_number) h.limiters))).0
        ≡ true
    pub authenticated :
        (d.client.authenticate_node (group_of metadata) node_number (token_of metadata) h.backend).0
        ≡ ok tt

  -- A call that is refused: with an error, and before it comes to the router.
  abbrev pub Refused : {A : Type 0} → Outcome A × Hub S L → Hub S L → Type 0
  Refused p h = (e : Error) × (p.0 ≡ failed e) × (p.1.router ≡ h.router)

  abbrev pub Authentication : Option Metadata → Hub S L → Outcome (Bytes × ℤ) × Hub S L → Type 0
  Authentication md h p =
      Refused p h
      ⊎ ((a : Accepted md h) × (p.0 ≡ replied (group_of a.metadata, a.node_number))
          × (p.1.router ≡ h.router)
          × (p.1.backend
              ≡ (d.client.authenticate_node (group_of a.metadata) a.node_number
                  (token_of a.metadata) h.backend).1))

  result-cases : (r : Result Error (Unit {0})) → (r ≡ ok tt) ⊎ ((e : Error) × (r ≡ err e))
  result-cases (ok tt) = inl refl
  result-cases (err e) = inr (e, refl)

  -- Authentication replies with the caller's group and number or fails, and leaves the router alone.
  pub authentication :
      (md : Option Metadata) (h : Hub S L)
      → Authentication md h (authenticate_and_rate_limit d md h)
  unfolding authenticate_and_rate_limit ◌>>=◌ or_raise guard limiter_allow ask pure
  authentication none h = inl (_, refl, refl)
  authentication (some md) h =
      elim (Bool-cases (
        is_empty (group_of md)
        || is_empty (get_metadata_value md.node_number)
        || is_empty (token_of md))) [
          | inl missing ↦ rw missing (inl (_, refl, refl))
          | inr given ↦ elim (Option-cases (scan_int32 (get_metadata_value md.node_number))) [
            | inl bad ↦ rw (given, bad) (inl (_, refl, refl))
            | inr (n, scanned) ↦
                elim (Bool-cases
                  (d.bucket_allow h.asked
                    (load_or_new d (lookup (limiter_key (group_of md) n) h.limiters))).0) [
                      | inl within ↦
                          elim (result-cases
                            (d.client.authenticate_node (group_of md) n (token_of md)
                              h.backend).0) [
                                | inl good ↦
                                    rw (given, scanned, within, good)
                                      (inr (
                                        record {
                                          metadata = md;
                                          node_number = n;
                                          given = refl;
                                          scanned = scanned;
                                          within_rate = within;
                                          authenticated = good;
                                        },
                                        refl,
                                        refl,
                                        refl,
                                      ))
                                | inr (e, bad) ↦
                                    rw (given, scanned, within, bad) (inl (_, refl, refl))
                              ]
                      | inr over ↦ rw (given, scanned, over) (inl (_, refl, refl))
                    ]
          ]
        ]

  Refused-bind :
      {A : Type 0} (p : Outcome (Bytes × ℤ) × Hub S L) (k : Bytes × ℤ → Handler S L A) (h : Hub S L)
      → Refused p h
      → Refused (continue p.0 k p.1) h
  Refused-bind (replied a, h1) k h (e, bad, same) = cc
  Refused-bind (failed x, h1) k h (e, bad, same) = (x, refl, same)
  Refused-bind (waiting, h1) k h (e, bad, same) = cc
  Refused-bind (panicked, h1) k h (e, bad, same) = cc

  pub after_authentication :
      {A : Type 0} (md : Option Metadata) (k : Bytes × ℤ → Handler S L A) (h : Hub S L)
      → Refused ((authenticate_and_rate_limit d md >>= k) h) h ⊎ Accepted md h
  unfolding ◌>>=◌
  after_authentication md k h = elim (authentication md h) [
    | inl refused ↦ inl (Refused-bind (authenticate_and_rate_limit d md h) k h refused)
    | inr (a, _, _, _) ↦ inr a
  ]

  -- Every call of a node either fails before it comes to the router, or was let through by its caller's
  -- bucket and made with a group, a number and a token that the backend accepted.
  pub serve-Accepted :
      (c : Call) (md : Option Metadata) (h : Hub S L) → Refused (serve d c md h) h ⊎ Accepted md h
  unfolding serve pair_nodes_handler list_nodes get_roster get_group_metadata get_stun_turn_config
      start_connection_handler deregister_node update_roster start_serving
  serve-Accepted (pairing m) md h = after_authentication md _ h
  serve-Accepted node_listing md h = after_authentication md _ h
  serve-Accepted roster_reading md h = after_authentication md _ h
  serve-Accepted metadata_reading md h = after_authentication md _ h
  serve-Accepted configuration md h = after_authentication md _ h
  serve-Accepted (connecting r) md h = after_authentication md _ h
  serve-Accepted deregistration md h = after_authentication md _ h
  serve-Accepted (roster_update r) md h = after_authentication md _ h
  serve-Accepted serving md h = after_authentication md _ h
