-- ===== src/Cluster/Scenarios.antt =====
-- Runs of the state machine, with a list of node identifiers as the membership.
use xerv.Prelude.{
  ℕ, ◌≡◌, ◌≢◌, refl, true, false, not, none, some, List, [], ◌∷◌, ok, arith, nat_eq, if◌then◌else◌,
  is_some,
}
use xerv.HashMap
use xerv.Ids.{PipelineId, pipeline_eq}
use xerv.Cluster.Command.{
  ClusterCommand, start_trace, complete_trace, suspend_trace, resume_trace, deploy_pipeline,
  start_pipeline, trace_id_of,
}
use xerv.Cluster.State.{ClusterState, ClusterLogId, ClusterNodeInfo, empty_state, PipelineState}
use xerv.Cluster.Apply.{
  apply_command, apply_start_trace, apply_complete_trace, apply_suspend_trace, apply_resume_trace,
  apply_deploy_pipeline, apply_pipeline_state_change, release,
}
use xerv.Cluster.Apply.Refusals.{allowed, apply_command-refusal}
use xerv.Cluster.Apply.Accuracy.{IsAccurate}
use xerv.Cluster.Apply.Discipline.{disciplined_log, replay, replay-IsAccurate}
use xerv.Cluster.Apply.Settled.{is_over, replay_over}
use xerv.Cluster.Machine.{
  Entry, blank, normal, membership, Json, ClusterStateMachine, StoredSnapshot, new_machine, apply,
  build_snapshot, install_snapshot,
}
use xerv.Cluster.Machine.Same.{IsSame, IsSame-refl}
use xerv.Cluster.Machine.Transfer.{snapshot_transfer}

abbrev State : Type 0
State = ClusterState (List ℕ)

abbrev orders : PipelineId
orders = record { name = "orders"; version = 1 }

abbrev fresh : State
fresh = empty_state []

-- A trace is started, suspended, resumed and completed.
abbrev log : List ClusterCommand
log =
    deploy_pipeline orders (1 ∷ 2 ∷ []) 10
    ∷ start_pipeline orders 11
    ∷ start_trace 1 orders [] 12
    ∷ start_trace 2 orders [] 13
    ∷ suspend_trace 1 5 "approval" 14
    ∷ resume_trace 1 none 15
    ∷ complete_trace 1 16
    ∷ []

abbrev after_log : State
after_log = replay fresh log

fresh-IsAccurate : IsAccurate fresh
unfolding HashMap.get
fresh-IsAccurate = record { unique = tt; counted = λ p i q. cc }

log-disciplined : disciplined_log fresh log ≡ true
unfolding apply_command apply_start_trace apply_complete_trace apply_suspend_trace
    apply_resume_trace apply_deploy_pipeline apply_pipeline_state_change release HashMap.get
    HashMap.insert
log-disciplined = refl

replay-IsAccurate_example : IsAccurate after_log
replay-IsAccurate_example =
    replay-IsAccurate fresh log fresh-IsAccurate log-disciplined (omega arith)

-- One of the two traces is still active; completing the other one again leaves none.
double_completion :
    (HashMap.get after_log.pipelines orders
      ≡ some (record {
        state = PipelineState.running;
        config = 1 ∷ 2 ∷ [];
        deployed_at_ms = 10;
        active_traces = 1;
      }))
    × (HashMap.get (apply_command after_log (complete_trace 1 17)).0.pipelines orders
        ≡ some (record {
          state = PipelineState.running;
          config = 1 ∷ 2 ∷ [];
          deployed_at_ms = 10;
          active_traces = 0;
        }))
unfolding replay apply_command apply_start_trace apply_complete_trace apply_suspend_trace
    apply_resume_trace apply_deploy_pipeline apply_pipeline_state_change release HashMap.get
    HashMap.insert
double_completion = (refl, refl)

abbrev reopening : List ClusterCommand
reopening = suspend_trace 1 5 "late" 17 ∷ resume_trace 1 none 18 ∷ []

-- A completed trace is suspended and resumed: it runs again.
completed_runs_again :
    (is_over after_log 1 ≡ true) × (is_over (replay after_log reopening) 1 ≡ false)
unfolding replay apply_command apply_start_trace apply_complete_trace apply_suspend_trace
    apply_resume_trace apply_deploy_pipeline apply_pipeline_state_change release HashMap.get
    HashMap.insert
completed_runs_again = (refl, refl)

over_after_log : is_over after_log 1 ≡ true
over_after_log = completed_runs_again.0

replay_over_example :
    is_over (replay after_log (complete_trace 1 17 ∷ resume_trace 1 none 18 ∷ [])) 1 ≡ true
replay_over_example =
    replay_over after_log (complete_trace 1 17 ∷ resume_trace 1 none 18 ∷ []) 1 over_after_log refl

two_not_one : trace_id_of (complete_trace 2 20) ≢ some 1
unfolding trace_id_of
two_not_one e = ground arith

apply_command-refusal_example :
    let c = start_trace 3 orders [] 9 in
    ((apply_command fresh c).1.success ≡ allowed fresh c)
    × (is_some (apply_command fresh c).1.error ≡ not (allowed fresh c))
    × ((apply_command fresh c).0 ≡ (if allowed fresh c then (apply_command fresh c).0 else fresh))
apply_command-refusal_example = apply_command-refusal fresh (start_trace 3 orders [] 9)

abbrev node : ℕ → ClusterNodeInfo
node n = record { cluster_node_id = n; address = "a"; registered_at_ms = 1 }

abbrev log_id : ℕ → ClusterLogId
log_id n = record { term = 1; leader = 1; index = n }

abbrev entries : List (Entry (List ℕ))
entries =
    record { log_id = log_id 1; payload = blank }
    ∷ record { log_id = log_id 2; payload = membership (1 ∷ 2 ∷ []) }
    ∷ record { log_id = log_id 3; payload = normal (deploy_pipeline orders [] 10) }
    ∷ []

abbrev more : List (Entry (List ℕ))
more = record { log_id = log_id 4; payload = normal (start_pipeline orders 11) } ∷ []

-- A serialization that keeps the state as it is.
abbrev plain : Json (List ℕ) State
plain = record { to_vec = λ s. some s; from_slice = λ b. some b }

abbrev leader : ClusterStateMachine (List ℕ) State
leader = (apply (new_machine []) entries).0

abbrev joining : ClusterStateMachine (List ℕ) State
joining = new_machine (7 ∷ [])

snapshot_transfer_example :
    (snap : StoredSnapshot (List ℕ) State) × ((build_snapshot plain leader).1 ≡ ok snap)
    × ((install_snapshot plain joining snap.meta snap.bytes).1 ≡ ok tt)
    × ((apply (install_snapshot plain joining snap.meta snap.bytes).0 more).1
        ≡ (apply leader more).1)
    × IsSame
        (apply (install_snapshot plain joining snap.meta snap.bytes).0 more).0.state
        (apply leader more).0.state
snapshot_transfer_example =
    snapshot_transfer plain leader joining more
      (leader.state, leader.state, refl, refl, IsSame-refl leader.state)

abbrev two_nodes : State
two_nodes = record fresh { nodes = (1, node 1) ∷ (2, node 2) ∷ [] }

abbrev two_nodes_swapped : State
two_nodes_swapped = record fresh { nodes = (2, node 2) ∷ (1, node 1) ∷ [] }
