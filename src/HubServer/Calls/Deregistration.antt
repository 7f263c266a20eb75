-- ===== src/HubServer/Calls/Deregistration.antt =====
-- DeregisterNode of connect/hub/hubsrv.go, over any backend that keeps the laws of the interface.
use wispers_hub.Base.{◌≡◌, refl, sym, subst, ap, ◌∙◌, inl, inr, Option, some, List, [], ◌∷◌, Bytes}
use wispers_hub.Base.Int.{ℤ}
use wispers_hub.Grpc.{Error}
use wispers_hub.Standalone.Exec.{Result, ok, err}
use wispers_hub.HubServer.Interface.{Hub, Deps}
use wispers_hub.HubServer.Laws.{BackendLaws}
use wispers_hub.HubServer.Exec.{Outcome, replied, ask, outcome_of}
use wispers_hub.HubServer.Exec.Inversion.{>>=-eq-replied}
use wispers_hub.HubServer.Auth.{
  Metadata, get_metadata_value, scan_int32, authenticate_and_rate_limit,
}
use wispers_hub.HubServer.Handlers.{deregister_node}
use wispers_hub.HubServer.Calls.{Call, serve}
use wispers_hub.HubServer.Calls.Credentials.{
  Accepted, Authentication, authentication, Refused, group_of, token_of, serve-Accepted,
}
use wispers_hub.HubServer.Calls.Evolution.Parts.{OthersEvolve}
use wispers_hub.HubServer.Calls.Evolution.{serve-Evolves}

-- Who a call says it comes from: the group and the node number of its metadata.
abbrev pub Names : Option Metadata → Bytes → ℤ → Type 0
Names md cg n =
    (m : Metadata) × (md ≡ some m)
    × (group_of m ≡ cg)
    × (scan_int32 (get_metadata_value m.node_number) ≡ some n)

one_name :
    (md : Option Metadata) (cg cg' : Bytes) (n n' : ℤ)
    → Names md cg n
    → Names md cg' n'
    → (cg ≡ cg') × (n ≡ n')
one_name md cg cg' n n' (m, given, group, scanned) (m', given', group', scanned') =
    let same : m ≡ m' = cc in
    (
      sym group ∙ ap group_of same ∙ group',
      scanned-same scanned
          (ap (λ (k : Metadata). scan_int32 (get_metadata_value k.node_number)) same ∙ scanned'),
    )
  where
    scanned-same : {o : Option ℤ} → o ≡ some n → o ≡ some n' → n ≡ n'
    scanned-same e e' = cc

module _ {S L : Type 0} (d : Deps S L) where
  -- A history of calls: each finds the server as the previous one left it.
  unfoldable pub serve_all : List (Call × Option Metadata) → Hub S L → Hub S L
  serve_all [] h = h
  serve_all ((c, md) ∷ calls) h = serve_all calls (serve d c md h).1

  replied-Accepted :
      (md : Option Metadata) (h : Hub S L) (p : Outcome (Bytes × ℤ) × Hub S L) (cg : Bytes) (n : ℤ)
      (h1 : Hub S L)
      → Authentication d md h p
      → p ≡ (replied (cg, n), h1)
      → (token : Bytes) × Names md cg n
        × ((d.client.authenticate_node cg n token h.backend).0 ≡ ok tt)
        × (h1.backend ≡ (d.client.authenticate_node cg n token h.backend).1)
  replied-Accepted md h p cg n h1 (inl (x, bad, _)) e = cc
  replied-Accepted md h p cg n h1 (inr (a, who, _, same)) e =
      let group : group_of a.metadata ≡ cg = cc in
      let number : a.node_number ≡ n = cc in
      (
        token_of a.metadata,
        (a.metadata, a.given, group, a.scanned ∙ ap some number),
        rw (group, number) at a.authenticated,
        ap (λ (p : Outcome (Bytes × ℤ) × Hub S L). p.1.backend) (sym e)
            ∙ (rw (group, number) at same),
      )

  asked :
      {A : Type 0} (a : A) (h h' : Hub S L) (p : Result Error A × S)
      → ◌≡◌ {A = Outcome A × Hub S L} (outcome_of p.0, record h { backend = p.1 }) (replied a, h')
      → p ≡ (ok a, h'.backend)
  asked a h h' (ok b, s) e = cc
  asked a h h' (err x, s) e = cc

  ask-eq-replied :
      {A : Type 0} (call : S → Result Error A × S) (a : A) (h h' : Hub S L)
      → ask call h ≡ (replied a, h')
      → call h.backend ≡ (ok a, h'.backend)
  unfolding ask
  ask-eq-replied call a h h' e = asked a h h' (call h.backend) e

  module _ (laws : BackendLaws d.client) (rely : OthersEvolve d laws) where
    serve_all-Evolves :
        (calls : List (Call × Option Metadata)) (h : Hub S L)
        → laws.Evolves h.backend (serve_all calls h).backend
    unfolding serve_all
    serve_all-Evolves [] h = laws.stays h.backend
    serve_all-Evolves ((c, md) ∷ calls) h =
        laws.then (serve-Evolves d laws rely c md h) (serve_all-Evolves calls (serve d c md h).1)

    -- What a call that names a node needs to be let through.
    no_credentials :
        (md : Option Metadata) (cg : Bytes) (n : ℤ) (h : Hub S L)
        → Names md cg n
        → laws.Gone cg n h.backend
        → ¬ Accepted d md h
    no_credentials md cg n h names gone a =
        let (group, number) =
          one_name md (group_of a.metadata) cg a.node_number n
            (a.metadata, a.given, refl, a.scanned) names in
        let (e, refused) = laws.gone_refused cg n (token_of a.metadata) h.backend gone in
        absurd (cc (rw (group, number) at a.authenticated))

    deregister_node-Gone :
        (md : Option Metadata) (h h' : Hub S L)
        → deregister_node d md h ≡ (replied tt, h')
        → (cg : Bytes) × (n : ℤ) × Names md cg n × laws.Gone cg n h'.backend
    unfolding deregister_node
    deregister_node-Gone md h h' e =
        let ((cg, n), h1, who, e1) =
          >>=-eq-replied h h' tt (authenticate_and_rate_limit d md) _ e in
        let (token, names, good, same) =
          replied-Accepted md h _ cg n h1 (authentication d md h) who in
        let gone = ask-eq-replied (d.client.deregister_node cg n) tt h1 h' e1 in
        (
          cg,
          n,
          names,
          subst (λ (p : Result Error (Unit {0}) × S). laws.Gone cg n p.1) gone
              (laws.deregistered cg n token h.backend h1.backend good
                (subst (laws.Evolves h.backend) (sym same)
                  (laws.authentication_evolves cg n token h.backend))
                (ap (λ (p : Result Error (Unit {0}) × S). p.0) gone)),
        )

    -- Over any backend that keeps the laws: a node that has deregistered is refused from then on, in
    -- whatever call and with whatever token it names itself, after any history of calls.
    pub deregistered-Refused :
        (md md' : Option Metadata) (cg : Bytes) (n : ℤ) (calls : List (Call × Option Metadata))
        (c : Call) (h h' : Hub S L)
        → Names md cg n
        → Names md' cg n
        → deregister_node d md h ≡ (replied tt, h')
        → Refused d (serve d c md' (serve_all calls h')) (serve_all calls h')
    deregistered-Refused md md' cg n calls c h h' names names' e =
        let (cg1, n1, names1, gone) = deregister_node-Gone md h h' e in
        let (group, number) = one_name md cg1 cg n1 n names1 names in
        let later =
          laws.gone_stays cg n (serve_all-Evolves calls h') (rw (group, number) at gone) in
        elim (serve-Accepted d c md' (serve_all calls h')) [
          | inl refused ↦ refused
          | inr a ↦ absurd (no_credentials md' cg n (serve_all calls h') names' later a)
        ]
