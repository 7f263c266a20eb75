-- ===== src/HubServer/Serving/Shedding.antt =====
-- When the time to live of a serving stream, ShedAfterTTL of connect/hub/sharding.go, ends it in
-- StartServing of connect/hub/hubsrv.go.
use wispers_hub.Base.{
  ℕ, ◌≡◌, refl, sym, ap, ◌≢◌, ◌↔◌, ◌⊎◌, ◌∙◌, not, Bool, true, false, ◌&&◌, ◌||◌, Option, none,
  Bytes, arith, eqb_refl, if◌then◌else◌, bytes_eq, Bool-cases, inl, inr,
}
use wispers_hub.Base.Int.{ℤ}
use wispers_hub.Grpc.{Error, status, aborted}
use wispers_hub.Sharding.{get_shard}
use wispers_hub.Routing.{ConnectivityGroup, Connector, close, cancel}
use wispers_hub.Routing.Router.{Router, find_or_create_group}
use wispers_hub.HubServer.Interface.{Hub, Deps}
use wispers_hub.HubServer.Exec.{
  Outcome, replied, failed, waiting, ◌>>=◌, ◌>>◌, guard, tell, log_activity, asking,
}
use wispers_hub.HubServer.Auth.{Metadata}
use wispers_hub.HubServer.Serving.{
  connector, sheds, send_welcome, run, is_evicted, serve_stream, after_others, superseded,
  resharding, router_close, is_shed_safe,
}
use wispers_hub.HubServer.Serving.Ending.{find_or_create_group-put}

module _ {S L : Type 0} (d : Deps S L) where
  -- A close cancels the connector and leaves whether it is evicted.
  connector-router_close :
      (cg : Bytes) (c : ℕ) (r : Router)
      → connector cg c (router_close d cg c r) ≡ cancel (connector cg c r)
  unfolding router_close close
  connector-router_close cg c r =
      ap (λ (g : ConnectivityGroup). g.conns c)
        (find_or_create_group-put cg (close c (find_or_create_group cg r)) r)
      ∙ rw (eqb_refl c) refl

  stopped : Bool → Bool → Outcome (Unit {0})
  stopped true fired = failed superseded
  stopped false true = failed resharding
  stopped false false = replied tt

  verdict : Bool → Bool → Bool → Bool → Outcome (Unit {0})
  verdict fired cancelled ends evicted =
      if fired || cancelled || ends then stopped evicted fired else waiting

  stops :
      (f k ends e k' e' : Bool)
      → k' ≡ (f || k)
      → e' ≡ e
      → (k' || ends) ≡ true
      → stopped e' f ≡ verdict f k ends e
  unfolding verdict
  stops f k ends e k' e' kf same done =
      let all : (f || k || ends) ≡ true = ground arith in rw (all, same) refl

  goes_on :
      (f k ends e k' : Bool) → k' ≡ (f || k) → (k' || ends) ≡ false → waiting ≡ verdict f k ends e
  unfolding verdict
  goes_on f k ends e k' kf still = let all : (f || k || ends) ≡ false = ground arith in rw all refl

  guards_end :
      (evicted fired : Bool) (h : Hub S L)
      → ((guard (not evicted) superseded >> guard (not fired) resharding) h).0
        ≡ stopped evicted fired
  unfolding ◌>>=◌ guard stopped
  guards_end true fired h = refl
  guards_end false true h = refl
  guards_end false false h = refl

  -- The server when the stream's welcome is out and the other calls have gone on.
  abbrev pub meanwhile : Hub S L → Hub S L
  meanwhile h = d.others (asking h).asked (asking (asking h))

  after_others-connector :
      (armed : Bool) (cg : Bytes) (c : ℕ) (h : Hub S L)
      → let k = connector cg c (meanwhile h).router in
        let k' = connector cg c (after_others d armed cg c (asking h)).router in
        (k'.cancelled ≡ (armed && d.fires (asking h).asked || k.cancelled))
        × (k'.evicted ≡ k.evicted)
  after_others-connector armed cg c h = elim (Bool-cases (armed && d.fires (asking h).asked)) [
    | inl fired ↦
        let e = connector-router_close cg c (meanwhile h).router in
        rw fired (ap (λ (k : Connector). k.cancelled) e, ap (λ (k : Connector). k.evicted) e)
    | inr quiet ↦ rw quiet (refl, refl)
  ]

  serve_stream-verdict :
      (md : Option Metadata) (cg : Bytes) (n : ℤ) (c : ℕ) (h : Hub S L)
      → d.send_error h.asked ≡ none
      → (serve_stream d md cg n c h).0
        ≡ verdict
            (sheds d md cg && d.fires (asking h).asked)
            (connector cg c (meanwhile h).router).cancelled
            (d.stream_ends (asking h).asked)
            (connector cg c (meanwhile h).router).evicted
  unfolding serve_stream send_welcome run is_evicted ◌>>=◌ tell log_activity guard verdict
  serve_stream-verdict md cg n c h sent =
      let (cancelled, evicted) = after_others-connector (sheds d md cg) cg c h in
      elim (Bool-cases (
        (connector cg c (after_others d (sheds d md cg) cg c (asking h)).router).cancelled
        || d.stream_ends (asking h).asked)) [
          | inl done ↦ rw (sent, done) (guards_end _ _ _ ∙ stops _ _ _ _ _ _ cancelled evicted done)
          | inr still ↦
              rw (sent, still)
                (goes_on (sheds d md cg && d.fires (asking h).asked)
                  (connector cg c (meanwhile h).router).cancelled (d.stream_ends (asking h).asked)
                  (connector cg c (meanwhile h).router).evicted _ cancelled still)
        ]

  -- The time to live runs, only for a hub with a shard, a client that bears it and a group of another
  -- shard, and it has run out.
  abbrev pub Shed : Option Metadata → Bytes → Hub S L → Type 0
  Shed md cg h =
      (d.assigned_shard ≢ 0)
      × (is_shed_safe md ≡ true)
      × (get_shard cg ≢ d.assigned_shard)
      × (d.fires (asking h).asked ≡ true)

  sheds_iff :
      (md : Option Metadata) (cg : Bytes) (h : Hub S L)
      → Shed md cg h ↔ ((sheds d md cg && d.fires (asking h).asked) ≡ true)
  unfolding sheds
  sheds_iff md cg h =
      (λ s. ground arith, λ e. (ground arith, ground arith, ground arith, ground arith))

  error_inj : {a b : Error} → ◌≡◌ {A = Outcome (Unit {0})} (failed a) (failed b) → a ≡ b
  error_inj e = cc

  is_aborted : Error → Bool
  is_aborted (status aborted m rest) = true
  is_aborted e = false

  apart : ¬ (◌≡◌ {A = Outcome (Unit {0})} (failed resharding) (failed superseded))
  unfolding is_aborted
  apart e = let same = ap is_aborted (error_inj e) in cc

  verdict_iff :
      (fired cancelled ends evicted : Bool)
      → let o = verdict fired cancelled ends evicted in
        ((o ≡ failed resharding) ↔ ((fired ≡ true) × (evicted ≡ false)))
        × ((o ≡ failed superseded) ↔ (((fired || cancelled || ends) ≡ true) × (evicted ≡ true)))
        × ((o ≡ waiting) ↔ ((fired || cancelled || ends) ≡ false))
  unfolding verdict stopped
  verdict_iff true cancelled ends true =
      ((λ e. absurd (apart (sym e)), λ p. cc), (λ e. (refl, refl), λ p. refl), (λ e. cc, λ p. cc))
  verdict_iff true cancelled ends false =
      ((λ e. (refl, refl), λ p. refl), (λ e. absurd (apart e), λ p. cc), (λ e. cc, λ p. cc))
  verdict_iff false true ends true =
      ((λ e. absurd (apart (sym e)), λ p. cc), (λ e. (refl, refl), λ p. refl), (λ e. cc, λ p. cc))
  verdict_iff false true ends false = ((λ e. cc, λ p. cc), (λ e. cc, λ p. cc), (λ e. cc, λ p. cc))
  verdict_iff false false true true =
      ((λ e. absurd (apart (sym e)), λ p. cc), (λ e. (refl, refl), λ p. refl), (λ e. cc, λ p. cc))
  verdict_iff false false true false = ((λ e. cc, λ p. cc), (λ e. cc, λ p. cc), (λ e. cc, λ p. cc))
  verdict_iff false false false evicted =
      ((λ e. cc, λ p. cc), (λ e. cc, λ p. cc), (λ e. refl, λ p. refl))

  any_of :
      (fired cancelled ends : Bool) (P : Type 0)
      → (P → fired ≡ true)
      → P ⊎ (cancelled ≡ true) ⊎ (ends ≡ true)
      → (fired || cancelled || ends) ≡ true
  any_of fired cancelled ends P to (inl p) = let e = to p in ground arith
  any_of fired cancelled ends P to (inr (inl e)) = ground arith
  any_of fired cancelled ends P to (inr (inr e)) = ground arith

  one_of :
      (fired cancelled ends : Bool) (P : Type 0)
      → (fired ≡ true → P)
      → (fired || cancelled || ends) ≡ true
      → P ⊎ (cancelled ≡ true) ⊎ (ends ≡ true)
  one_of true cancelled ends P from e = inl (from refl)
  one_of false true ends P from e = inr (inl refl)
  one_of false false ends P from e = inr (inr e)

  both_ways : (b : Bool) → b ≡ false → b ≡ true → ⊥
  both_ways b f t = cc

  unless : (b : Bool) → (b ≡ true → ⊥) → b ≡ false
  unless true k = absurd (k refl)
  unless false k = refl

  spelled :
      (fired cancelled ends evicted : Bool) (P : Type 0)
      → (P → fired ≡ true)
      → (fired ≡ true → P)
      → let o = verdict fired cancelled ends evicted in
        let over = P ⊎ (cancelled ≡ true) ⊎ (ends ≡ true) in
        ((o ≡ failed resharding) ↔ (P × (evicted ≡ false)))
        × ((o ≡ failed superseded) ↔ (over × (evicted ≡ true)))
        × ((o ≡ waiting) ↔ (¬ over))
  spelled fired cancelled ends evicted P to from =
      let (r, s, w) = verdict_iff fired cancelled ends evicted in
      let any = any_of fired cancelled ends P to in
      let one = one_of fired cancelled ends P from in
      (
        ((λ e. (from (r.0 e).0, (r.0 e).1)), λ p. r.1 (to p.0, p.1)),
        ((λ e. (one (s.0 e).0, (s.0 e).1)), λ p. s.1 (any p.0, p.1)),
        ((λ e k. both_ways _ (w.0 e) (any k)), λ k. w.1 (unless _ λ t. k (one t))),
      )

  -- How a stream whose welcome went out ends. It is told to go to another hub exactly when its time to
  -- live, which runs only for a hub with a shard, a client that bears it and a group of another shard,
  -- has run out, and no newer connection of the node has evicted it. It is told that a newer connection
  -- supersedes it exactly when one has evicted it and the stream is over: the time to live has run out,
  -- the connector was closed or the stream's context has ended. It waits on exactly when none of these
  -- three has happened.
  pub serve_stream-Shed :
      (md : Option Metadata) (cg : Bytes) (n : ℤ) (c : ℕ) (h : Hub S L)
      → d.send_error h.asked ≡ none
      → let o = (serve_stream d md cg n c h).0 in
        let k = connector cg c (meanwhile h).router in
        let over = Shed md cg h ⊎ (k.cancelled ≡ true) ⊎ (d.stream_ends (asking h).asked ≡ true) in
        ((o ≡ failed resharding) ↔ (Shed md cg h × (k.evicted ≡ false)))
        × ((o ≡ failed superseded) ↔ (over × (k.evicted ≡ true)))
        × ((o ≡ waiting) ↔ (¬ over))
  serve_stream-Shed md cg n c h sent =
      let k = connector cg c (meanwhile h).router in
      let (to, from) = sheds_iff md cg h in
      rw (serve_stream-verdict md cg n c h sent) (
        spelled (sheds d md cg && d.fires (asking h).asked) k.cancelled
          (d.stream_ends (asking h).asked) k.evicted (Shed md cg h) to from)
