-- ===== src/Invocation/Examples.antt =====
-- The queue, the dispatcher and the manager on concrete inputs.
use maos_core.Common.{
  ◌≡◌, ◌≢◌, refl, Bool, true, false, List, [], ◌∷◌, ◌++◌, ℕ, none, some, arith, ◌⊎◌,
}
use maos_core.Common.Int.{pos}
use maos_core.Common.Table.{find_where, count_where}
use maos_core.Models.{Actor, ActorRole, Invocation, running}
use maos_core.Invocation.Queue.{
  Db, find_by_id, invocation_get_available, invocation_set_complete_if_running,
  invocation_set_failure_if_running, complete, discard, invocation_insert, is_claimable,
}
use maos_core.Invocation.Queue.Steps.{Op, submit, take_next, set_complete, apply, run}
use maos_core.Invocation.Queue.Invariant.{Inv, run-Inv}
use maos_core.Invocation.Queue.Evolution.{Becomes, run-Becomes}
use maos_core.Invocation.Queue.Exclusive.{taken_once}
use maos_core.Invocation.Queue.Claim.{Nothing, Takes, claim_next}
use maos_core.Invocation.Queue.Finalize.{Finishes, Refuses, set_complete_cases, set_failure_cases}

abbrev pub worker : Actor
worker = record {
  id = 5;
  name = "worker";
  queue_id = 7;
  created_at = 1;
  metadata = [];
  updated_at = none;
  enabled = true;
  deployable = true;
  configurable = true;
  role = ActorRole.agent;
  migratable = false;
  permissions = [];
  mcp_enabled = false;
}

abbrev pub empty_db : Db
empty_db = record { actors = worker ∷ []; invocations = []; next_id = 1 }

pub empty_db-Inv : Inv empty_db
unfolding count_where
empty_db-Inv = record { unique = λ k. omega arith; fresh = tt; lifecycle = tt }

abbrev pub unlocked : ℕ → Bool
unlocked k = false

-- Two invocations, of which worker 5 takes the first.
abbrev pub two_waiting : List Op
two_waiting =
    submit false 10 "worker" (1 ∷ []) (2 ∷ []) ∷ submit false 11 "worker" (3 ∷ []) (4 ∷ []) ∷ []

abbrev pub first_taken : List Op
first_taken = two_waiting ++ take_next 12 unlocked 5 7 1 ∷ []

abbrev pub first_row : Invocation
first_row = record {
  id = 1;
  state = running;
  queue_id = 7;
  attempted_at = some 12;
  created_at = 0;
  finalized_at = none;
  priority = 1;
  payload = 2 ∷ [];
  errors = none;
  result = none;
  metadata = 1 ∷ [];
  tags = [];
  attempted_by = 5 ∷ [];
}

abbrev pub second_row : Invocation
second_row = record {
  id = 2;
  state = running;
  queue_id = 7;
  attempted_at = some 13;
  created_at = 0;
  finalized_at = none;
  priority = 1;
  payload = 4 ∷ [];
  errors = none;
  result = none;
  metadata = 3 ∷ [];
  tags = [];
  attempted_by = 6 ∷ [];
}

abbrev pub taken_db : Db
taken_db = run first_taken empty_db

pub taken_db-Inv : Inv taken_db
taken_db-Inv = run-Inv first_taken empty_db empty_db-Inv

pub first_found : find_by_id taken_db (pos 1) ≡ some first_row
unfolding find_by_id run find_where apply invocation_get_available invocation_insert is_claimable
first_found = refl

run-Inv_example : Inv taken_db
run-Inv_example = run-Inv first_taken empty_db empty_db-Inv

second_given : (invocation_get_available 13 unlocked 6 7 1 (run [] taken_db)).1 ≡ second_row ∷ []
unfolding invocation_get_available run apply invocation_insert find_where is_claimable
second_given = refl

taken_once_example : second_row.id ≢ 1
taken_once_example =
    taken_once [] taken_db 1 first_row second_row 13 6 7 unlocked taken_db-Inv first_found (λ h. cc)
      second_given

claim_next_example :
    let r = invocation_get_available 13 unlocked 6 7 1 taken_db in
    Nothing 7 unlocked taken_db r ⊎ Takes 7 unlocked 13 6 taken_db r
claim_next_example = claim_next 13 unlocked 6 7 taken_db taken_db-Inv

set_complete_cases_example :
    let r = invocation_set_complete_if_running false taken_db (pos 1) 5 14 (9 ∷ []) in
    Finishes 1 5 (complete 14 (9 ∷ [])) taken_db r ⊎ Refuses 1 5 taken_db r
set_complete_cases_example = set_complete_cases 1 5 14 (9 ∷ []) taken_db taken_db-Inv

set_failure_cases_example :
    let r = invocation_set_failure_if_running false taken_db (pos 1) 6 14 (9 ∷ []) in
    Finishes 1 6 (discard 14 (9 ∷ [])) taken_db r ⊎ Refuses 1 6 taken_db r
set_failure_cases_example = set_failure_cases 1 6 14 (9 ∷ []) taken_db taken_db-Inv

run-Becomes_example :
    Becomes taken_db (run (set_complete false (pos 1) 5 14 (9 ∷ []) ∷ []) taken_db) 1 first_row
run-Becomes_example =
    run-Becomes (set_complete false (pos 1) 5 14 (9 ∷ []) ∷ []) taken_db 1 first_row taken_db-Inv
      first_found
