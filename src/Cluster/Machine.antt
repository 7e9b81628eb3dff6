-- ===== src/Cluster/Machine.antt =====
-- xerv-cluster/src/state/machine/mod.rs, traits.rs: the state machine that openraft drives. The
-- serialization of a state (serde_json) and the type of memberships (openraft) are parameters. The
-- locks are held for one step each.
pub mod Same
pub mod Replicas
pub mod Transfer
use xerv.Prelude.{ℕ, ◌+◌, ◌%◌, ◌^◌, Option, none, some, List, [], ◌∷◌, Result, ok, err, ◌≡◌}
use xerv.Cluster.Command.{ClusterCommand}
use xerv.Cluster.State.{
  ClusterResponse, ok_response, ClusterLogId, ClusterStoredMembership, ClusterState, empty_state,
}
use xerv.Cluster.Apply.{apply_command}

pub data EntryPayload (Membership : Type 0) : Type 0 where
  blank : EntryPayload Membership
  normal : ClusterCommand → EntryPayload Membership
  membership : Membership → EntryPayload Membership

pub record Entry (Membership : Type 0) : Type 0 where
  pub log_id : ClusterLogId
  pub payload : EntryPayload Membership

-- A snapshot identifier names the last applied log entry and the counter of snapshots.
pub record ClusterSnapshotMeta (Membership : Type 0) : Type 0 where
  pub last_log_id : Option ClusterLogId
  pub last_membership : ClusterStoredMembership Membership
  pub snapshot_id : Option ClusterLogId × ℕ

pub record StoredSnapshot (Membership Bytes : Type 0) : Type 0 where
  pub meta : ClusterSnapshotMeta Membership
  pub bytes : Bytes

pub record ClusterStateMachine (Membership Bytes : Type 0) : Type 0 where
  pub state : ClusterState Membership
  pub snapshot_idx : ℕ  -- AtomicU64
  pub current_snapshot : Option (StoredSnapshot Membership Bytes)

pub data StorageIoError : Type 0 where
  read_state_machine read_snapshot : StorageIoError

-- What the state machine uses of serde_json.
pub record Json (Membership Bytes : Type 0) : Type 0 where
  pub to_vec : ClusterState Membership → Option Bytes
  pub from_slice : Bytes → Option (ClusterState Membership)

-- `snapshot_idx.fetch_add(1) + 1`.
abbrev pub next_idx : ℕ → ℕ
next_idx n = (n + 1) % 2 ^ 64

module _ {Membership : Type 0} where
  unfoldable pub apply_entry :
      ClusterState Membership → Entry Membership → ClusterState Membership × ClusterResponse
  apply_entry s entry = elim entry.payload [
    | blank ↦ (record s { last_applied_log = some entry.log_id }, ok_response)
    | normal cmd ↦ apply_command (record s { last_applied_log = some entry.log_id }) cmd
    | membership m ↦ (
      record s {
        last_applied_log = some entry.log_id;
        last_membership = record { log_id = some entry.log_id; membership = m };
      },
      ok_response,
    )
  ]

  -- `apply`: the entries in order, with their responses in order.
  unfoldable pub apply_entries :
      ClusterState Membership
      → List (Entry Membership)
      → ClusterState Membership × List ClusterResponse
  apply_entries s [] = (s, [])
  apply_entries s (entry ∷ entries) =
      let (s', response) = apply_entry s entry in
      let (last, responses) = apply_entries s' entries in (last, response ∷ responses)

module _ {Membership Bytes : Type 0} where
  abbrev pub new_machine : Membership → ClusterStateMachine Membership Bytes
  new_machine m = record { state = empty_state m; snapshot_idx = 0; current_snapshot = none }

  abbrev pub applied_state :
      ClusterStateMachine Membership Bytes
      → Option ClusterLogId × ClusterStoredMembership Membership
  applied_state m = (m.state.last_applied_log, m.state.last_membership)

  unfoldable pub apply :
      ClusterStateMachine Membership Bytes
      → List (Entry Membership)
      → ClusterStateMachine Membership Bytes × List ClusterResponse
  apply m entries =
      let (s, responses) = apply_entries m.state entries in (record m { state = s }, responses)

  abbrev pub snapshot_of :
      ClusterStateMachine Membership Bytes → Bytes → StoredSnapshot Membership Bytes
  snapshot_of m bytes = record {
    meta = record {
      last_log_id = m.state.last_applied_log;
      last_membership = m.state.last_membership;
      snapshot_id = (m.state.last_applied_log, next_idx m.snapshot_idx);
    };
    bytes = bytes;
  }

  unfoldable pub build_snapshot :
      Json Membership Bytes
      → ClusterStateMachine Membership Bytes
      → ClusterStateMachine Membership Bytes
        × Result (StoredSnapshot Membership Bytes) StorageIoError
  build_snapshot json m = elim (json.to_vec m.state) [
    | none ↦ (m, err read_state_machine)
    | some bytes ↦ (
      record m {
        snapshot_idx = next_idx m.snapshot_idx;
        current_snapshot = some (snapshot_of m bytes);
      },
      ok (snapshot_of m bytes),
    )
  ]

  unfoldable pub install_snapshot :
      Json Membership Bytes
      → ClusterStateMachine Membership Bytes
      → ClusterSnapshotMeta Membership
      → Bytes
      → ClusterStateMachine Membership Bytes × Result (Unit {0}) StorageIoError
  install_snapshot json m meta bytes = elim (json.from_slice bytes) [
    | none ↦ (m, err read_snapshot)
    | some new_state ↦ (
      record m {
        state = record new_state {
          last_applied_log = meta.last_log_id;
          last_membership = meta.last_membership;
        };
        current_snapshot = some (record { meta = meta; bytes = bytes });
      },
      ok tt,
    )
  ]

  abbrev pub get_current_snapshot :
      ClusterStateMachine Membership Bytes → Option (StoredSnapshot Membership Bytes)
  get_current_snapshot m = m.current_snapshot
