-- ===== src/HubServer/Serving.antt =====
-- StartServing of connect/hub/hubsrv.go with ShedAfterTTL of connect/hub/sharding.go: the life of a
-- serving stream. Run, which waits for the end of the connector's context, is one step of the other
-- calls; the deferred Disconnect comes last.
pub mod Ending
pub mod Shedding
use wispers_hub.Base.{
  ℕ, Bool, true, not, ◌&&◌, ◌||◌, Option, none, some, [], Bytes, codes, eqb, if◌then◌else◌,
}
use wispers_hub.Base.Int.{ℤ}
use wispers_hub.Grpc.{Error, status, aborted, unavailable}
use wispers_hub.Sharding.{get_shard}
use wispers_hub.Version.{client_is_shed_safe}
use wispers_hub.Routing.{Connector, close}
use wispers_hub.Routing.Router.{
  Router, router_connect, router_disconnect, find_or_create_group, put,
}
use wispers_hub.Standalone.Messages.{EventKind, no_message}
use wispers_hub.HubServer.Interface.{Hub, Deps}
use wispers_hub.HubServer.Exec.{
  ◌>>=◌, ◌>>◌, Outcome, replied, waiting, Handler, raise, guard, tell, log_activity, asking,
}
use wispers_hub.HubServer.Auth.{Metadata, authenticate_and_rate_limit}

abbrev pub superseded : Error
superseded =
    status aborted
      "connection superseded by a newer connection for this node; is another instance running on the same credentials?"
      []

abbrev pub resharding : Error
resharding =
    status unavailable
      "resharding: this hub no longer serves this connectivity group; please reconnect" []

-- clientIsShedSafe, of a call with or without metadata.
abbrev pub is_shed_safe : Option Metadata → Bool
is_shed_safe none = client_is_shed_safe []
is_shed_safe (some md) = client_is_shed_safe md.client_version

-- The connector that a stream has, in its group.
abbrev pub connector : Bytes → ℕ → Router → Connector
connector cg c r = (find_or_create_group cg r).conns c

module _ {S L : Type 0} (d : Deps S L) where
  -- Whether the time to live is armed: only where the hub has a shard, the client bears it and the
  -- group belongs to the other shard.
  unfoldable pub sheds : Option Metadata → Bytes → Bool
  sheds md cg =
      not (eqb d.assigned_shard 0) && is_shed_safe md && not (eqb (get_shard cg) d.assigned_shard)

  unfoldable pub connect : Bytes → ℤ → Handler S L ℕ
  connect cg n h = let (c, r) = router_connect cg n h.router in (replied c, record h { router = r })

  unfoldable pub disconnect : Bytes → ℕ → Hub S L → Hub S L
  disconnect cg c h = record h { router = router_disconnect cg c h.router }

  -- Connector.Close.
  unfoldable pub router_close : Bytes → ℕ → Router → Router
  router_close cg c r = put cg (close c (find_or_create_group cg r)) r

  abbrev pub welcomed : Option Error → Handler S L (Unit {0})
  welcomed none h = (replied tt, h)
  welcomed (some e) h = raise e h

  unfoldable pub send_welcome : Handler S L (Unit {0})
  send_welcome h = welcomed (d.send_error h.asked) (asking h)

  -- The others go on, and the time to live may run out and close the connection.
  abbrev pub after_others : Bool → Bytes → ℕ → Hub S L → Hub S L
  after_others armed cg c h =
      let h' = d.others h.asked (asking h) in
      if armed && d.fires h.asked then record h' { router = router_close cg c h'.router } else h'

  abbrev pub ended : Bool → Bytes → ℕ → Bool → Hub S L → Outcome Bool × Hub S L
  ended stream_ends cg c fired h =
      if (connector cg c h.router).cancelled || stream_ends
      then (replied fired, h)
      else (waiting, h)

  -- Connector.Run; the result is whether the time to live has run out.
  unfoldable pub run : Bool → Bytes → ℕ → Handler S L Bool
  run armed cg c h =
      ended (d.stream_ends h.asked) cg c (armed && d.fires h.asked) (after_others armed cg c h)

  unfoldable pub is_evicted : Bytes → ℕ → Handler S L Bool
  is_evicted cg c h = (replied (connector cg c h.router).evicted, h)

  unfoldable pub serve_stream : Option Metadata → Bytes → ℤ → ℕ → Handler S L (Unit {0})
  serve_stream md cg n c = do
    send_welcome
    fired ← run (sheds md cg) cg c
    log_activity d cg n (codes "disconnect") true
        (record { error_message = no_message; kind = EventKind.disconnect })
    evicted ← is_evicted cg c
    guard (not evicted) superseded
    guard (not fired) resharding

  -- A deferred call, at the end of a stream that does end.
  abbrev pub finally : Bytes → ℕ → Outcome (Unit {0}) × Hub S L → Outcome (Unit {0}) × Hub S L
  finally cg c (waiting, h) = (waiting, h)
  finally cg c (o, h) = (o, disconnect cg c h)

  unfoldable pub with_disconnect : Bytes → ℕ → Handler S L (Unit {0}) → Handler S L (Unit {0})
  with_disconnect cg c body h = finally cg c (body h)

  unfoldable pub start_serving : Option Metadata → Handler S L (Unit {0})
  start_serving md = do
    who ← authenticate_and_rate_limit d md
    tell (d.client.update_node_last_seen who.0 who.1)
    log_activity d who.0 who.1 (codes "connect") true
        (record { error_message = no_message; kind = EventKind.connect })
    c ← connect who.0 who.1
    with_disconnect who.0 c (serve_stream md who.0 who.1 c)
