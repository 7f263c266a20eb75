-- ===== src/HubServer/Handlers/Turn.antt =====
-- The TURN credentials that GetStunTurnConfig of connect/hub/hubsrv.go hands out.
use wispers_hub.Base.{
  ℕ, ◌+◌, ◌*◌, ◌≡◌, refl, ap, ◌∙◌, true, false, Option, none, some, ◌++◌, Bytes, codes, is_empty,
}
use wispers_hub.Base.Int.{ℤ, pos}
use wispers_hub.Strings.{contains}
use wispers_hub.Strings.Decimal.{IsInt64}
use wispers_hub.TurnCreds.{mint, verify, username_of}
use wispers_hub.TurnCreds
use wispers_hub.TurnCreds.RoundTrip.{ValidRates, verify-mint}
use wispers_hub.Standalone.Exec.{ok}
use wispers_hub.Standalone.Messages.{TurnPolicy}
use wispers_hub.HubServer.Interface.{Hub, Deps}
use wispers_hub.HubServer.Exec.{Outcome, replied, panicked, ◌>>=◌, ask, observe}
use wispers_hub.HubServer.Auth.{Metadata, authenticate_and_rate_limit}
use wispers_hub.HubServer.Handlers.{
  StunTurnConfig, turn_credential_ttl, with_turn, turn_config, get_stun_turn_config,
}

abbrev pub organisation : TurnPolicy → Bytes
organisation p = codes "org-" ++ p.organisation_id

mint-clean :
    (sign : Bytes → Bytes) (id : Bytes) (floor ceil expiry : ℤ)
    → contains b':' (codes "org-" ++ id) ≡ false
    → mint sign (codes "org-" ++ id) floor ceil expiry
      ≡ some (
        username_of (codes "org-" ++ id) floor ceil expiry,
        sign (username_of (codes "org-" ++ id) floor ceil expiry),
      )
unfolding mint
mint-clean sign id floor ceil expiry clean = rw clean refl

mint-colon :
    (sign : Bytes → Bytes) (id : Bytes) (floor ceil expiry : ℤ)
    → contains b':' (codes "org-" ++ id) ≡ true
    → mint sign (codes "org-" ++ id) floor ceil expiry ≡ none
unfolding mint
mint-colon sign id floor ceil expiry colon = rw colon refl

module _ {S L : Type 0} (d : Deps S L) where
  -- The credentials of a reply are good for the policy until the expiry, in seconds.
  abbrev pub Grants : StunTurnConfig → TurnPolicy → ℕ → Type 0
  Grants cfg p expiry =
      (verify d.sign cfg.turn_username cfg.turn_password
        ≡ TurnCreds.ok (record {
          subject = organisation p;
          floor_bps = p.floor_bps;
          ceil_bps = p.ceil_bps;
          expiry = pos expiry;
        }))
      × (cfg.expires_at ≡ expiry * 1000)

  with_turn-Grants :
      (p : TurnPolicy) (h : Hub S L)
      → IsInt64 p.floor_bps
      → IsInt64 p.ceil_bps
      → IsInt64 (pos (d.now h.asked + turn_credential_ttl))
      → ValidRates p.floor_bps p.ceil_bps
      → contains b':' (organisation p) ≡ false
      → (cfg : StunTurnConfig) × ((with_turn d p h).0 ≡ replied cfg)
        × Grants cfg p (d.now h.asked + turn_credential_ttl)
  unfolding with_turn observe ◌>>=◌
  with_turn-Grants p h f c e v clean =
      let expiry = d.now h.asked + turn_credential_ttl in
      let minted = mint-clean d.sign p.organisation_id p.floor_bps p.ceil_bps (pos expiry) clean in
      rw minted (
        _,
        refl,
        (
          verify-mint d.sign (organisation p) p.floor_bps p.ceil_bps (pos expiry) _ _ f c e v
              minted,
          refl,
        ),
      )

  with_turn-panics :
      (p : TurnPolicy) (h : Hub S L)
      → contains b':' (organisation p) ≡ true
      → (with_turn d p h).0 ≡ panicked
  unfolding with_turn observe ◌>>=◌
  with_turn-panics p h colon =
      rw
        (mint-colon d.sign p.organisation_id p.floor_bps p.ceil_bps
          (pos (d.now h.asked + turn_credential_ttl)) colon)
        refl

  -- The call of an authenticated node comes to the minting.
  comes_to_minting :
      (md : Option Metadata) (h h1 : Hub S L) (cg : Bytes) (n : ℤ) (p : TurnPolicy)
      → authenticate_and_rate_limit d md h ≡ (replied (cg, n), h1)
      → is_empty d.turn_server ≡ false
      → (d.client.get_turn_policy cg h1.backend).0 ≡ ok p
      → p.enabled ≡ true
      → (h2 : Hub S L) × (get_stun_turn_config d md h ≡ with_turn d p h2) × (h2.asked ≡ h1.asked)
  unfolding get_stun_turn_config turn_config ask ◌>>=◌
  comes_to_minting md h h1 cg n p e turn policy enabled =
      rw (e, turn, policy, enabled) (_, refl, refl)

  -- A node that has authenticated, of a hub with a TURN server and a group whose policy allows TURN, has
  -- valid 64-bit rates and an organisation without a colon, is given a credential: the reply's username
  -- and password verify under the hub's secret to exactly the organisation, the rates and ten minutes
  -- from now, and the reply says when that is in milliseconds.
  pub get_stun_turn_config-Grants :
      (md : Option Metadata) (h h1 : Hub S L) (cg : Bytes) (n : ℤ) (p : TurnPolicy)
      → authenticate_and_rate_limit d md h ≡ (replied (cg, n), h1)
      → is_empty d.turn_server ≡ false
      → (d.client.get_turn_policy cg h1.backend).0 ≡ ok p
      → p.enabled ≡ true
      → IsInt64 p.floor_bps
      → IsInt64 p.ceil_bps
      → IsInt64 (pos (d.now h1.asked + turn_credential_ttl))
      → ValidRates p.floor_bps p.ceil_bps
      → contains b':' (organisation p) ≡ false
      → (cfg : StunTurnConfig) × ((get_stun_turn_config d md h).0 ≡ replied cfg)
        × Grants cfg p (d.now h1.asked + turn_credential_ttl)
  get_stun_turn_config-Grants md h h1 cg n p e turn policy enabled f c i v clean =
      let (h2, same, asked) = comes_to_minting md h h1 cg n p e turn policy enabled in
      let (cfg, reply, grants) = with_turn-Grants p h2 f c (rw asked i) v clean in
      (cfg, ap (λ (r : Outcome StunTurnConfig × Hub S L). r.0) same ∙ reply, rw⁻¹ asked grants)

  -- The same call panics where the organisation's identifier has a colon.
  get_stun_turn_config-panics :
      (md : Option Metadata) (h h1 : Hub S L) (cg : Bytes) (n : ℤ) (p : TurnPolicy)
      → authenticate_and_rate_limit d md h ≡ (replied (cg, n), h1)
      → is_empty d.turn_server ≡ false
      → (d.client.get_turn_policy cg h1.backend).0 ≡ ok p
      → p.enabled ≡ true
      → contains b':' (organisation p) ≡ true
      → (get_stun_turn_config d md h).0 ≡ panicked
  get_stun_turn_config-panics md h h1 cg n p e turn policy enabled colon =
      let (h2, same, asked) = comes_to_minting md h h1 cg n p e turn policy enabled in
      ap (λ (r : Outcome StunTurnConfig × Hub S L). r.0) same ∙ with_turn-panics p h2 colon
