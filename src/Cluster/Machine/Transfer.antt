-- ===== src/Cluster/Machine/Transfer.antt =====
-- Batches of entries, and replicas that start from a snapshot instead of the whole log.
use xerv.Prelude.{◌≡◌, refl, ap, Option, some, List, [], ◌∷◌, ◌++◌, ok}
use xerv.Cluster.State.{ClusterState, ClusterLogId, ClusterResponse}
use xerv.Cluster.Machine.{
  Entry, EntryPayload, blank, normal, membership, apply_entry, apply_entries, Json,
  ClusterStateMachine, StoredSnapshot, apply, snapshot_of, build_snapshot, install_snapshot,
}
use xerv.Cluster.Machine.Same.{IsSame, Agree}
use xerv.Cluster.Machine.Replicas.{apply_command-Agree}

module _ {M : Type 0} where
  -- Entries applied in two batches are as good as in one, with the responses of the first batch
  -- before those of the second.
  pub apply_entries-append :
      (s : ClusterState M) (xs ys : List (Entry M))
      → apply_entries s (xs ++ ys) ≡ (
        (apply_entries (apply_entries s xs).0 ys).0,
        (apply_entries s xs).1 ++ (apply_entries (apply_entries s xs).0 ys).1,
      )
  unfolding apply_entries
  apply_entries-append s [] ys = refl
  apply_entries-append s (x ∷ xs) ys =
      let rest = apply_entries-append (apply_entry s x).0 xs ys in
      ap (λ (r : ClusterState M × List ClusterResponse). (r.0, (apply_entry s x).1 ∷ r.1)) rest

  abbrev pub last_log : Option ClusterLogId → List (Entry M) → Option ClusterLogId
  last_log l [] = l
  last_log l (x ∷ xs) = last_log (some x.log_id) xs

  apply_entry-Agree :
      (s t : ClusterState M) (x : Entry M) → IsSame s t → Agree (apply_entry s x) (apply_entry t x)
  unfolding apply_entry
  apply_entry-Agree s t x h = go x.payload refl
    where
      moved :
          IsSame
            (record s { last_applied_log = some x.log_id })
            (record t { last_applied_log = some x.log_id })
      moved = record {
        traces = h.traces;
        pipelines = h.pipelines;
        nodes = h.nodes;
        last_applied_log = refl;
        last_membership = h.last_membership;
      }

      go : (p : EntryPayload M) → x.payload ≡ p → Agree (apply_entry s x) (apply_entry t x)
      go blank e = rw (apply_entry, e) (moved, refl)
      go (normal cmd) e =
          rw (apply_entry, e)
            (apply_command-Agree (record s { last_applied_log = some x.log_id })
              (record t { last_applied_log = some x.log_id }) moved cmd)
      go (membership m) e =
          rw (apply_entry, e)
            (
              record {
                traces = h.traces;
                pipelines = h.pipelines;
                nodes = h.nodes;
                last_applied_log = refl;
                last_membership = refl;
              },
              refl,
            )

  apply_entries-Agree :
      (s t : ClusterState M) (xs : List (Entry M))
      → IsSame s t
      → IsSame (apply_entries s xs).0 (apply_entries t xs).0
        × ((apply_entries s xs).1 ≡ (apply_entries t xs).1)
  unfolding apply_entries
  apply_entries-Agree s t [] h = (h, refl)
  apply_entries-Agree s t (x ∷ xs) h =
      let one = apply_entry-Agree s t x h in
      let rest = apply_entries-Agree (apply_entry s x).0 (apply_entry t x).0 xs one.0 in
      (rest.0, cc)

module _ {M Bytes : Type 0} where
  -- The documented behaviour of a serialization, at a state: what it writes is read back as a state
  -- that holds the same.
  abbrev pub Reads : Json M Bytes → ClusterState M → Type 0
  Reads json s =
      (bytes : Bytes) × (t : ClusterState M) × (json.to_vec s ≡ some bytes)
      × (json.from_slice bytes ≡ some t)
      × IsSame t s

  restore : ClusterState M → ClusterStateMachine M Bytes → ClusterState M
  restore t a = record t {
    last_applied_log = a.state.last_applied_log;
    last_membership = a.state.last_membership;
  }

  restore-IsSame :
      (a : ClusterStateMachine M Bytes) (t : ClusterState M)
      → IsSame t a.state
      → IsSame (restore t a) a.state
  unfolding restore
  restore-IsSame a t h = record {
    traces = h.traces;
    pipelines = h.pipelines;
    nodes = h.nodes;
    last_applied_log = refl;
    last_membership = refl;
  }

  -- A replica in any state that installs the snapshot of another one, and then applies further
  -- entries, gives the same responses as the other one does for them, and ends in a state that
  -- holds the same, if the serialization of the state that was written can be read back.
  pub snapshot_transfer :
      (json : Json M Bytes) (a b : ClusterStateMachine M Bytes) (entries : List (Entry M))
      → Reads json a.state
      → (snap : StoredSnapshot M Bytes) × ((build_snapshot json a).1 ≡ ok snap)
        × ((install_snapshot json b snap.meta snap.bytes).1 ≡ ok tt)
        × ((apply (install_snapshot json b snap.meta snap.bytes).0 entries).1 ≡ (apply a entries).1)
        × IsSame
            (apply (install_snapshot json b snap.meta snap.bytes).0 entries).0.state
            (apply a entries).0.state
  unfolding build_snapshot install_snapshot apply restore
  snapshot_transfer json a b entries (bytes, t, wrote, read, same) =
      let later = apply_entries-Agree (restore t a) a.state entries (restore-IsSame a t same) in
      (
        snapshot_of a bytes,
        rw (build_snapshot, wrote) refl,
        rw (install_snapshot, read) refl,
        rw (install_snapshot, read) later.1,
        rw (install_snapshot, read) later.0,
      )
