-- ===== src/Process/Tests.antt =====
-- Starts of the hub process, connect/hub/hub.go, at concrete inputs.
use wispers_hub.Base.{◌≡◌, refl, true, none, [], ◌∷◌, ◌++◌, List, Bytes, codes}
use wispers_hub.Process.{
  Flags, Environment, System, HubConfig, Configured, serving, standalone, run_hub, run_standalone,
  resolve_db_path, with_turn_secret, run_hub-Configured,
}

abbrev concat : List Bytes → Bytes
concat [] = []
concat (p ∷ ps) = p ++ b'/' ∷ concat ps

abbrev system : System
system = record {
  join = concat;
  is_abs = λ p. true;
  make_dirs = λ p. true;
  connects = λ a. true;
  opens = λ p. true;
  serves = λ p. true;
}

abbrev flags : Flags
flags = record {
  assigned_shard = 2;
  be_addr = codes "be";
  db_path = [];
  stun_addr = codes "stun";
  turn_addr = codes "turn";
}

abbrev environment : Environment
environment = record {
  state_directory = codes "/var/lib/a:/var/lib/b";
  xdg_state_home = [];
  turn_secret = codes "s";
  home = none;
}

abbrev config : HubConfig
config = record {
  stun_server = codes "stun";
  turn_server = codes "turn";
  turn_secret = codes "s";
  assigned_shard = 0;
}

serves : run_hub system flags environment standalone ≡ serving config
unfolding run_hub run_standalone resolve_db_path with_turn_secret
serves = refl

run_hub-Configured_example : Configured system flags environment standalone config
run_hub-Configured_example = run_hub-Configured system flags environment standalone config serves
