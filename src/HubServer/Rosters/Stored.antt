-- ===== src/HubServer/Rosters/Stored.antt =====
-- What an UpdateRoster of connect/hub/hubsrv.go that replies has done.
use wispers_hub.Base.{
  ◌≡◌, refl, List, [], ◌∷◌, ◌++◌, sym, ap, subst, ◌∙◌, true, false, Option, some, Bytes, ==_iff,
}
use wispers_hub.Base.Int.{ℤ, int_eq, pred_int64}
use wispers_hub.Grpc.{Error}
use wispers_hub.Proto.{Roster, Addendum, Activation, activation, revocation}
use wispers_hub.Standalone.Exec.{Result, ok}
use wispers_hub.HubServer.Interface.{Hub, Deps}
use wispers_hub.HubServer.Exec.{replied, pure, log_activity}
use wispers_hub.HubServer.Exec.Inversion.{
  >>=-eq-replied, raise-bind, guard-bind, ask-bind, tell-bind, pure-eq-replied,
}
use wispers_hub.HubServer.Auth.{Metadata, authenticate_and_rate_limit}
use wispers_hub.HubServer.Rosters.{last, sign_last, cosigned_by, prepare, store, update_roster}
use wispers_hub.HubServer.Rosters.Endorsement.{
  endorsed, Cosigned, get_endorser_cosignature-eq-replied,
}

-- The roster `r` is the roster with the signature in the activation `a`, its last addendum.
abbrev pub Countersigned : Activation → Bytes → Roster → Roster → Type 0
Countersigned a signature roster r =
    (before : List Addendum) × (roster.addenda ≡ before ++ activation a ∷ [])
    × (r ≡ record roster {
      addenda = before ++ activation (record a { endorser_signature = signature }) ∷ [];
    })

last-sign_last :
    (a : Activation) (signature : Bytes) (xs : List Addendum)
    → last xs ≡ some (activation a)
    → (before : List Addendum) × (xs ≡ before ++ activation a ∷ [])
      × (sign_last signature xs
          ≡ before ++ activation (record a { endorser_signature = signature }) ∷ [])
last-sign_last a signature [] e = cc
last-sign_last a signature (activation b ∷ []) e =
    let same : b ≡ a = cc in ([], rw same refl, rw same refl)
last-sign_last a signature (revocation b ∷ []) e = cc
last-sign_last a signature (Addendum.unset ∷ []) e = cc
last-sign_last a signature (x ∷ y ∷ xs) e =
    let (before, here, signed) = last-sign_last a signature (y ∷ xs) e in
    (x ∷ before, ap (λ l. x ∷ l) here, ap (λ l. x ∷ l) signed)

cosigned_by-Countersigned :
    (a : Activation) (signature : Bytes) (roster r : Roster)
    → last roster.addenda ≡ some (activation a)
    → r ≡ cosigned_by signature roster
    → Countersigned a signature roster r
cosigned_by-Countersigned a signature roster r e same =
    let (before, here, signed) = last-sign_last a signature roster.addenda e in
    (before, here, same ∙ ap (λ (l : List Addendum). record roster { addenda = l }) signed)

module _ {S L : Type 0} (d : Deps S L) (cg : Bytes) (n : ℤ) (roster : Roster) (h : Hub S L) where
  -- Why a roster with this last addendum may be stored as `r` over the version `expected`, in the state
  -- `h1` of the server: an activation needs the caller to be the new node and the endorser's signature,
  -- which `r` has in that addendum and is else the same; a revocation needs the caller to be the revoker.
  abbrev pub Justified : Addendum → Roster → ℤ → Hub S L → Type 0
  Justified (activation a) r expected h1 =
      (n ≡ a.new_node_number)
      × ((signature : Bytes) × Cosigned d cg n roster a h signature
          × Countersigned a signature roster r)
      × (expected ≡ pred_int64 a.version)
      × (h1 ≡ endorsed d cg n roster a h)
  Justified (revocation a) r expected h1 =
      (n ≡ a.revoker_node_number) × (r ≡ roster) × (expected ≡ pred_int64 a.version) × (h1 ≡ h)
  Justified Addendum.unset r expected h1 = true ≡ false

  prepared-eq :
      (r r' : Roster) (v v' : ℤ) (k k' : Bytes) (h1 h2 : Hub S L)
      → pure {A = Roster × ℤ × Bytes} (r, v, k) h1 ≡ (replied (r', v', k'), h2)
      → (r' ≡ r) × (v' ≡ v) × (h2 ≡ h1)
  unfolding pure
  prepared-eq r r' v v' k k' h1 h2 e = (cc, cc, cc)

  prepare-eq-replied :
      (a : Addendum) (r : Roster) (expected : ℤ) (kind : Bytes) (h1 : Hub S L)
      → last roster.addenda ≡ some a
      → prepare d cg n roster a h ≡ (replied (r, expected, kind), h1)
      → Justified a r expected h1
  unfolding prepare
  prepare-eq-replied (activation a) r expected kind h1 there e =
      let (mine, e1) = guard-bind h h1 (r, expected, kind) _ _ _ e in
      let (signature, h2, e2, e3) = >>=-eq-replied h h1 (r, expected, kind) _ _ e1 in
      let (signed, at_answer) =
        get_endorser_cosignature-eq-replied d cg n roster a h h2 signature e2 in
      let (r_eq, v_eq, h_eq) = prepared-eq _ r _ expected _ kind h2 h1 e3 in
      (
        (==_iff n a.new_node_number).0 mine,
        (signature, signed, cosigned_by-Countersigned a signature roster r there r_eq),
        v_eq,
        h_eq ∙ at_answer,
      )
  prepare-eq-replied (revocation a) r expected kind h1 there e =
      let (mine, e1) = guard-bind h h1 (r, expected, kind) _ _ _ e in
      let (r_eq, v_eq, h_eq) = prepared-eq _ r _ expected _ kind h h1 e1 in
      ((==_iff n a.revoker_node_number).0 mine, r_eq, v_eq, h_eq)
  prepare-eq-replied Addendum.unset r expected kind h1 there e = cc

module _ {S L : Type 0} (d : Deps S L) where
  store-eq-replied :
      (cg : Bytes) (n : ℤ) (r r' : Roster) (expected : ℤ) (kind : Bytes) (h h' : Hub S L)
      → store d (cg, n) (r, expected, kind) h ≡ (replied r', h')
      → (bytes : Bytes) × (d.marshal_roster r ≡ some bytes)
        × ((d.client.update_roster cg bytes r.version expected h.backend).0 ≡ ok tt)
        × (r' ≡ r)
  unfolding store log_activity
  store-eq-replied cg n r r' expected kind h h' e =
      let (bytes, written, e1) = raise-bind h h' r' _ _ _ e in
      let (u, s, stored, e2) = ask-bind h h' r' _ _ e1 in
      let e3 = tell-bind _ h' r' _ _ e2 in
      let (same, _) = pure-eq-replied _ h' r r' e3 in
      (bytes, written, ap (λ (p : Result Error (Unit {0}) × S). p.0) stored, same)

  -- An update that replies was made by a node that authenticated, and has stored the roster that it
  -- replies with: the last addendum justifies it, and the backend took its serialisation under its
  -- version, over one less than the version that the addendum says.
  pub update_roster-Justified :
      (md : Option Metadata) (roster r : Roster) (h h' : Hub S L)
      → update_roster d md roster h ≡ (replied r, h')
      → (cg : Bytes) × (n : ℤ) × (h0 : Hub S L) × (h1 : Hub S L) × (a : Addendum) × (expected : ℤ)
        × (bytes : Bytes) × (authenticate_and_rate_limit d md h ≡ (replied (cg, n), h0))
        × (last roster.addenda ≡ some a)
        × Justified d cg n roster h0 a r expected h1
        × (d.marshal_roster r ≡ some bytes)
        × ((d.client.update_roster cg bytes r.version expected h1.backend).0 ≡ ok tt)
  unfolding update_roster
  update_roster-Justified md roster r h h' e =
      let ((cg, n), h0, who, e1) = >>=-eq-replied h h' r (authenticate_and_rate_limit d md) _ e in
      let (a, there, e2) = raise-bind h0 h' r _ _ _ e1 in
      let ((r1, expected, kind), h1, prepared, e3) =
        >>=-eq-replied h0 h' r (prepare d cg n roster a) _ e2 in
      let (bytes, written, stored, same) = store-eq-replied cg n r1 r expected kind h1 h' e3 in
      let justified = prepare-eq-replied d cg n roster h0 a r1 expected kind h1 there prepared in
      (
        cg,
        n,
        h0,
        h1,
        a,
        expected,
        bytes,
        who,
        there,
        subst (λ (q : Roster). Justified d cg n roster h0 a q expected h1) (sym same) justified,
        ap d.marshal_roster same ∙ written,
        ap (λ (q : Roster). (d.client.update_roster cg bytes q.version expected h1.backend).0) same
            ∙ stored,
      )
