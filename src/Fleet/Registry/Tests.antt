-- ===== src/Fleet/Registry/Tests.antt =====
-- fleet/src/mnemosyne_fleet/registry.py: polls at concrete inputs, and the theorems applied to them.
use mnemosyne_inference.Prelude.{◌≤◌, ◌≡◌, ◌≢◌, ◌⊎◌, refl, true, false, some, List, [], ◌∷◌, length}
use mnemosyne_inference.Prelude.Dict.{get, put, has, add}
use mnemosyne_inference.Fleet.Protocol.Types.{Snapshot}
use mnemosyne_inference.Fleet.Protocol.Samples.{sample_digest, ready_snapshot, node}
use mnemosyne_inference.Fleet.Protocol.Tests.{sample_runs}
use mnemosyne_inference.Fleet.Registry.{
  Registry, Delivery, timed_out, responded, undeclared, new, initial_errors, initial_retired,
  retired, refuse, store, retire, advance, accept, receive_valid, receive, poll_once,
  response_error, length_error, body_too_large, exceeds, max_retired_instance_ids,
}
use mnemosyne_inference.Fleet.Registry.Rollback.{
  Poll, poll, polls, Accepts, IsNewer, no_rollback, refused_keeps, retired_bounded,
}

abbrev deliver : Delivery → Poll
deliver d = record { node = node "n1"; started = 1; now = 2; wall = 3; delivery = d }

abbrev answer : Snapshot → Poll
answer s = deliver (
    responded (record {
      status_code = 200;
      identity_encoded = true;
      content_length = undeclared;
      is_stream_consumed = false;
      chunks = 100 ∷ 200 ∷ [];
      conforms = true;
      payload = some s;
    }))

abbrev fresh : Registry
fresh = new (node "n1" ∷ [])

-- Evaluates polls: all that `polls` calls.
ran : List Poll → Registry
unfolding sample_runs new initial_errors initial_retired polls poll poll_once receive receive_valid
    accept advance store retire retired refuse response_error length_error body_too_large exceeds
    get put add has
ran ps = polls sample_digest ps fresh

first_accepted :
    Accepts sample_digest (answer (ready_snapshot "n1" "i1" 5)) fresh (ready_snapshot "n1" "i1" 5)
unfolding ran
first_accepted = (refl, refl)

-- Delayed answers of the same instance, and of the instance that another one has replaced.
abbrev delayed : List Poll
delayed = answer (ready_snapshot "n1" "i1" 4) ∷ deliver timed_out ∷ []

abbrev replaced : List Poll
replaced = answer (ready_snapshot "n1" "i1" 9) ∷ []

abbrev after_first : Registry
after_first =
    polls sample_digest delayed (poll sample_digest (answer (ready_snapshot "n1" "i1" 5)) fresh).0

abbrev after_second : Registry
after_second =
    polls sample_digest replaced
      (poll sample_digest (answer (ready_snapshot "n1" "i2" 1)) after_first).0

second_accepted :
    Accepts sample_digest
      (answer (ready_snapshot "n1" "i2" 1))
      after_first
      (ready_snapshot "n1" "i2" 1)
unfolding ran
second_accepted = (refl, refl)

last_accepted :
    Accepts sample_digest
      (answer (ready_snapshot "n1" "i2" 2))
      after_second
      (ready_snapshot "n1" "i2" 2)
unfolding ran
last_accepted = (refl, refl)

no_rollback_example :
    IsNewer (ready_snapshot "n1" "i1" 5) (ready_snapshot "n1" "i2" 1)
    × IsNewer (ready_snapshot "n1" "i2" 1) (ready_snapshot "n1" "i2" 2)
    × (((ready_snapshot "n1" "i2" 1).node.instance_id
          ≡ (ready_snapshot "n1" "i1" 5).node.instance_id)
        ⊎ ((ready_snapshot "n1" "i2" 2).node.instance_id
            ≢ (ready_snapshot "n1" "i1" 5).node.instance_id))
no_rollback_example =
    no_rollback sample_digest "n1" (answer (ready_snapshot "n1" "i1" 5)) delayed
      (answer (ready_snapshot "n1" "i2" 1)) replaced (answer (ready_snapshot "n1" "i2" 2)) fresh
      (ready_snapshot "n1" "i1" 5) (ready_snapshot "n1" "i2" 1) (ready_snapshot "n1" "i2" 2)
      first_accepted second_accepted last_accepted refl refl refl

-- A restarted node is accepted, and its predecessor is not accepted again.
restart_runs :
    (poll sample_digest
      (answer (ready_snapshot "n1" "i1" 99))
      (ran (answer (ready_snapshot "n1" "i1" 5) ∷ answer (ready_snapshot "n1" "i2" 1) ∷ []))).1
    ≡ false
unfolding ran
restart_runs = refl

late_refused : (poll sample_digest (deliver timed_out) fresh).1 ≡ false
unfolding ran
late_refused = refl

refused_keeps_example :
    ((poll sample_digest (deliver timed_out) fresh).0.records ≡ fresh.records)
    × ((poll sample_digest (deliver timed_out) fresh).0.retired_instance_ids
        ≡ fresh.retired_instance_ids)
refused_keeps_example = refused_keeps sample_digest (deliver timed_out) fresh late_refused

retired_bounded_example :
    length (
      retired "n1" (
        polls sample_digest
          (answer (ready_snapshot "n1" "i1" 5) ∷ answer (ready_snapshot "n1" "i2" 1) ∷ [])
          (new (node "n1" ∷ []))))
    ≤ max_retired_instance_ids
retired_bounded_example =
    retired_bounded sample_digest (node "n1" ∷ [])
      (answer (ready_snapshot "n1" "i1" 5) ∷ answer (ready_snapshot "n1" "i2" 1) ∷ []) "n1"
