-- ===== src/Process.antt =====
-- connect/hub/hub.go and connect/hub/hub_flagdefs.go: from the flags and the environment to a hub that
-- serves. Connections, listeners and the opening of the database are parameters that succeed or fail.
mod Tests
use wispers_hub.Base.{
  ℕ, ◌≡◌, refl, sym, ap, ◌∙◌, Bool, false, not, ◌&&◌, ◌||◌, Option, none, some, List, [], ◌∷◌,
  Bytes, codes, is_empty, if◌then◌else◌, ◌==◌, bytes_eq, Bool-cases, inl, inr,
}
use wispers_hub.Strings.{cut}

pub data RunMode : Type 0 where
  standalone managed : RunMode

-- RunMode.Set: the mode that a flag's value sets.
unfoldable pub set_mode : Bytes → Option RunMode
set_mode value =
    if value == codes "standalone"
    then some standalone
    else if value == codes "managed"
    then some managed
    else none

pub record Flags : Type 0 where
  pub assigned_shard : ℕ
  pub be_addr : Bytes
  pub db_path : Bytes
  pub stun_addr : Bytes
  pub turn_addr : Bytes

-- The variables that the hub reads, empty where they are not set, and os.UserHomeDir.
pub record Environment : Type 0 where
  pub state_directory : Bytes
  pub xdg_state_home : Bytes
  pub turn_secret : Bytes
  pub home : Option Bytes

-- filepath.Join, filepath.IsAbs, os.MkdirAll, grpc.NewClient, standalone.Open and standalone.Serve.
pub record System : Type 0 where
  pub join : List Bytes → Bytes
  pub is_abs : Bytes → Bool
  pub make_dirs : Bytes → Bool
  pub connects : Bytes → Bool
  pub opens : Bytes → Bool
  pub serves : Bytes → Bool

pub data Failure : Type 0 where
  no_backend missing_stun_server no_home no_directory not_opened not_served missing_turn_secret :
      Failure

-- What hubsrv.NewHubServer is given.
pub record HubConfig : Type 0 where
  pub stun_server : Bytes
  pub turn_server : Bytes
  pub turn_secret : Bytes
  pub assigned_shard : ℕ

pub data Started : Type 0 where
  serving : HubConfig → Started
  stopped : Failure → Started

pub data Resolved : Type 0 where
  path : Bytes → Resolved
  unresolved : Failure → Resolved

abbrev pub managed_default_stun_server : Bytes
managed_default_stun_server = codes "stun.wispers.dev:3478"

module _ (sys : System) (flags : Flags) (e : Environment) where
  abbrev in_dir : Bytes → Resolved
  in_dir dir =
      if sys.make_dirs dir
      then path (sys.join (dir ∷ codes "hub.db" ∷ []))
      else unresolved no_directory

  abbrev under_state_home : Bytes → Resolved
  under_state_home state_home =
      in_dir (sys.join (state_home ∷ codes "wispers-connect" ∷ codes "hub" ∷ []))

  abbrev under_home : Option Bytes → Resolved
  under_home none = unresolved no_home
  under_home (some home) = under_state_home (sys.join (home ∷ codes ".local" ∷ codes "state" ∷ []))

  unfoldable pub resolve_db_path : Resolved
  resolve_db_path =
      if not (is_empty flags.db_path)
      then path flags.db_path
      else if not (is_empty e.state_directory)
      then path (sys.join ((cut b':' e.state_directory).0 ∷ codes "hub.db" ∷ []))
      else if is_empty e.xdg_state_home || not (sys.is_abs e.xdg_state_home)
      then under_home e.home
      else under_state_home e.xdg_state_home

  -- readTurnSecretOrDie, and the server that is made with the secret.
  unfoldable pub with_turn_secret : Bytes → ℕ → Started
  with_turn_secret stun shard =
      if not (is_empty flags.turn_addr) && is_empty e.turn_secret
      then stopped missing_turn_secret
      else serving (record {
        stun_server = stun;
        turn_server = flags.turn_addr;
        turn_secret = e.turn_secret;
        assigned_shard = shard;
      })

  abbrev stun_or_default : Bytes
  stun_or_default =
      if is_empty flags.stun_addr then managed_default_stun_server else flags.stun_addr

  unfoldable pub run_managed : Started
  run_managed =
      if sys.connects flags.be_addr
      then with_turn_secret stun_or_default flags.assigned_shard
      else stopped no_backend

  abbrev pub opened : Resolved → Started
  opened (unresolved f) = stopped f
  opened (path p) =
      if not (sys.opens p)
      then stopped not_opened
      else if not (sys.serves p)
      then stopped not_served
      else with_turn_secret flags.stun_addr 0

  unfoldable pub run_standalone : Started
  run_standalone =
      if is_empty flags.stun_addr then stopped missing_stun_server else opened resolve_db_path

  unfoldable pub run_hub : RunMode → Started
  run_hub standalone = run_standalone
  run_hub managed = run_managed

  -- The configuration of a hub that serves.
  abbrev pub Configured : RunMode → HubConfig → Type 0
  Configured mode c =
      (is_empty c.stun_server ≡ false)
      × (c.turn_server ≡ flags.turn_addr)
      × ((not (is_empty c.turn_server) && is_empty c.turn_secret) ≡ false)
      × (c.assigned_shard ≡ shard_of mode)
    where
      shard_of : RunMode → ℕ
      shard_of standalone = 0
      shard_of managed = flags.assigned_shard

  with_turn_secret-Configured :
      (stun : Bytes) (shard : ℕ) (c : HubConfig)
      → with_turn_secret stun shard ≡ serving c
      → (c.stun_server ≡ stun)
        × (c.turn_server ≡ flags.turn_addr)
        × ((not (is_empty c.turn_server) && is_empty c.turn_secret) ≡ false)
        × (c.assigned_shard ≡ shard)
  unfolding with_turn_secret
  with_turn_secret-Configured stun shard c s =
      elim (Bool-cases (not (is_empty flags.turn_addr) && is_empty e.turn_secret)) [
        | inl bad ↦ absurd (cc (rw bad at s))
        | inr good ↦ (let made = rw good at s in configured good made)
      ]
    where
      configured :
          (not (is_empty flags.turn_addr) && is_empty e.turn_secret) ≡ false
          → serving (record {
            stun_server = stun;
            turn_server = flags.turn_addr;
            turn_secret = e.turn_secret;
            assigned_shard = shard;
          })
            ≡ serving c
          → (c.stun_server ≡ stun)
            × (c.turn_server ≡ flags.turn_addr)
            × ((not (is_empty c.turn_server) && is_empty c.turn_secret) ≡ false)
            × (c.assigned_shard ≡ shard)
      configured good made =
          let same = ap config_of made in
          (
            ap (λ (k : HubConfig). k.stun_server) (sym same),
            ap (λ (k : HubConfig). k.turn_server) (sym same),
            ap (λ (k : HubConfig). not (is_empty k.turn_server) && is_empty k.turn_secret)
                  (sym same)
                ∙ good,
            ap (λ (k : HubConfig). k.assigned_shard) (sym same),
          )
        where
          config_of : Started → HubConfig
          config_of (serving k) = k
          config_of (stopped f) = c

  opened-Configured :
      (r : Resolved) (c : HubConfig)
      → is_empty flags.stun_addr ≡ false
      → opened r ≡ serving c
      → Configured standalone c
  opened-Configured (unresolved f) c stun s = cc
  opened-Configured (path p) c stun s = elim (Bool-cases (sys.opens p)) [
    | inl open_done ↦ elim (Bool-cases (sys.serves p)) [
      | inl served ↦
          let (a, b, d, f) =
            with_turn_secret-Configured flags.stun_addr 0 c (rw (open_done, served) at s) in
          (ap is_empty a ∙ stun, b, d, f)
      | inr refused ↦ absurd (cc (rw (open_done, refused) at s))
    ]
    | inr refused ↦ absurd (cc (rw refused at s))
  ]

  stun_or_default-set : is_empty stun_or_default ≡ false
  stun_or_default-set = elim (Bool-cases (is_empty flags.stun_addr)) [
    | inl unset ↦ rw unset refl
    | inr given ↦ rw given given
  ]

  -- A hub that serves has a STUN server, a secret if it has a TURN server, and a shard only in managed
  -- mode.
  pub run_hub-Configured :
      (mode : RunMode) (c : HubConfig) → run_hub mode ≡ serving c → Configured mode c
  unfolding run_hub run_managed run_standalone
  run_hub-Configured standalone c s = elim (Bool-cases (is_empty flags.stun_addr)) [
    | inl unset ↦ absurd (cc (rw unset at s))
    | inr given ↦ opened-Configured resolve_db_path c given (rw given at s)
  ]
  run_hub-Configured managed c s = elim (Bool-cases (sys.connects flags.be_addr)) [
    | inl up ↦
        let (a, b, d, f) =
          with_turn_secret-Configured stun_or_default flags.assigned_shard c (rw up at s) in
        (ap is_empty a ∙ stun_or_default-set, b, d, f)
    | inr down ↦ absurd (cc (rw down at s))
  ]
