-- ===== src/Standalone/Backend/Tests.antt =====
-- Runs of the model of connect/hub/standalone_grpc.go, and its theorems at concrete inputs.
use wispers_hub.Base.{
  ℕ, ◌⊎◌, ◌≡◌, refl, false, some, [], codes, replicate, any, find, ◌==◌, bytes_eq,
}
use wispers_hub.Base.Int.{pos, ◌<ℤ◌, ◌≤ℤ◌}
use wispers_hub.RegistrationTokens.{hex_encode}
use wispers_hub.Standalone.Db.{GroupRow, TokenRow, is_usable, is_node, insert_node}
use wispers_hub.Standalone.Exec.{
  Env, World, ok, err, ◌>>=◌, pure, guard, or_raise, query, execute_returning, try_insert,
  read_clock, draw, allow, transaction, quietly, called,
}
use wispers_hub.Standalone.Backend.{
  complete_node_registration, register_node, authenticate_node, update_roster, deregister_node,
  parse_group_id,
}
use wispers_hub.Standalone.Messages.{
  Registration, number_of, registration_limited, bad_new_version, version_conflict,
}
use wispers_hub.Standalone.Backend.Registering.{registered_db}
use wispers_hub.Standalone.Backend.Tokens.{
  complete_node_registration-eq-err, complete_node_registration-eq-ok, SameRows,
}
use wispers_hub.Standalone.Backend.OneShot.{
  complete_node_registration-once, authenticate_node-complete_node_registration,
}
use wispers_hub.Standalone.Fixtures.{externals, env, start}
use wispers_hub.Standalone.Backend.Versions.{Row, AtVersion, Swaps}
use wispers_hub.Standalone.Backend.Rosters.{update_roster-Swaps, update_roster-once}

-- Every registration is refused by the rate limit.
abbrev limited : Env
limited = record env { allows = λ i. false }

abbrev after : World
after = (complete_node_registration externals env (codes "abab") start).1

abbrev registration : Registration
registration = record {
  connectivity_group_id = codes "g";
  node_number = pos 1;
  auth_token = hex_encode (replicate 32 7);
  attestation_jwt = [];
}

registers : complete_node_registration externals env (codes "abab") start ≡ (ok registration, after)
unfolding complete_node_registration register_node ◌>>=◌ pure guard or_raise query execute_returning
    try_insert read_clock draw allow transaction insert_node
registers = refl

refuses :
    complete_node_registration externals limited (codes "abab") start
    ≡ (err registration_limited, called start)
unfolding complete_node_registration ◌>>=◌ guard allow
refuses = refl

complete_node_registration-eq-err_example : (called start).db ≡ start.db
complete_node_registration-eq-err_example =
    complete_node_registration-eq-err externals limited (codes "abab") start (called start)
      registration_limited refuses

complete_node_registration-eq-ok_example :
    (t : TokenRow) × (n : ℕ) × (find
        (is_usable start.db (externals.hash_token (codes "abab")) 1000)
        start.db.tokens
      ≡ some t)
    × (registration.connectivity_group_id ≡ t.group_id)
    × (registration.node_number ≡ pos n)
    × (number_of (find (λ (g : GroupRow). g.id == t.group_id) start.db.groups) ≡ some n)
    × (any (is_node t.group_id (pos n)) start.db.nodes ≡ false)
    × SameRows (registered_db externals env start.db t n registration.auth_token 1000 1000) after.db
complete_node_registration-eq-ok_example =
    complete_node_registration-eq-ok externals env (codes "abab") start after registration registers

complete_node_registration-once_example :
    ¬ (complete_node_registration externals env (codes "abab") after ≡ (ok registration, start))
complete_node_registration-once_example =
    complete_node_registration-once externals env env (codes "abab") (codes "t") start after after
      start registration registration refl registers refl

authenticate_node-complete_node_registration_example :
    authenticate_node externals env (codes "g") (pos 1) registration.auth_token after
    ≡ (ok tt, called after)
authenticate_node-complete_node_registration_example =
    authenticate_node-complete_node_registration externals env env (codes "abab") (codes "g") start
      after after registration registers refl refl refl

update_roster-Swaps_example :
    let (res, w') = update_roster externals env (codes "g") (codes "r") (pos 1) (pos 0) start in
    let there = (g : GroupRow) × Row g start.db.groups × AtVersion (codes "g") (pos 0) g in
    ((pos 0 <ℤ pos 1)
      × there
      × (res ≡ ok tt)
      × Swaps (codes "g") (pos 0) (codes "r") (pos 1) start.db.groups w'.db.groups)
    ⊎ ((pos 1 ≤ℤ pos 0) × (res ≡ err bad_new_version) × (w'.db ≡ start.db))
    ⊎ ((pos 0 <ℤ pos 1) × (¬ there) × (res ≡ err version_conflict) × (w'.db ≡ start.db))
update_roster-Swaps_example =
    update_roster-Swaps externals env (codes "g") (codes "r") (pos 1) (pos 0) start (codes "g") refl
      refl

abbrev cosigned : World
cosigned = (update_roster externals env (codes "g") (codes "r") (pos 1) (pos 0) start).1

updates :
    update_roster externals env (codes "g") (codes "r") (pos 1) (pos 0) start ≡ (ok tt, cosigned)
unfolding update_roster parse_group_id ◌>>=◌ or_raise guard execute_returning
updates = refl

update_roster-once_example : ¬ (
    update_roster externals env (codes "g") (codes "s") (pos 2) (pos 0) cosigned ≡ (ok tt, start))
update_roster-once_example =
    update_roster-once externals env env (codes "g") (codes "r") (codes "s") (pos 1) (pos 2) (pos 0)
      start cosigned cosigned start updates refl

abbrev gone : World
gone = (deregister_node externals env (codes "g") (pos 1) after).1

deregisters : deregister_node externals env (codes "g") (pos 1) after ≡ (ok tt, gone)
unfolding deregister_node parse_group_id ◌>>=◌ or_raise execute_returning read_clock quietly
deregisters = refl
