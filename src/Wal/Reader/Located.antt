-- ===== src/Wal/Reader/Located.antt =====
-- Where recovery finds a node's output, as the log grows.
use xerv.Prelude.{
  ℕ, ◌≡◌, refl, Bool, true, false, Option, none, some, List, [], ◌∷◌, ◌++◌, arith, ◌==◌, nat_eq,
  nat_beq_iff, if◌then◌else◌, is_some, ==-refl, Option-cases, inl, inr,
}
use xerv.HashMap
use xerv.HashMap.Laws.{get-insert}
use xerv.Wal.Record.{Text, WalRecord, node_done, node_error, trace_start}
use xerv.Wal.Reader.{
  Traces, TraceRecoveryState, NodeOutputLocation, node_finished, apply_record_to_traces, replay,
}
use xerv.Wal.Reader.Replay.{get-apply, effect}

-- Whether the log's reader finds the trace incomplete.
abbrev pub is_found : List WalRecord → ℕ → Bool
is_found wal id = is_some (HashMap.get (replay [] wal) id)

abbrev location_in : Option TraceRecoveryState → ℕ → Option NodeOutputLocation
location_in none k = none
location_in (some state) k = HashMap.get state.completed_nodes k

-- Where it finds the node's output.
abbrev pub location : List WalRecord → ℕ → ℕ → Option NodeOutputLocation
location wal id k = location_in (HashMap.get (replay [] wal) id) k

replay-snoc :
    (m : Traces) (rs : List WalRecord) (r : WalRecord)
    → replay m (rs ++ r ∷ []) ≡ apply_record_to_traces (replay m rs) r
unfolding replay
replay-snoc m [] r = refl
replay-snoc m (s ∷ rs) r = replay-snoc (apply_record_to_traces m s) rs r

get-replay-snoc :
    (rs : List WalRecord) (r : WalRecord) (t : ℕ)
    → HashMap.get (replay [] (rs ++ r ∷ [])) t ≡ (
        if r.trace_id == t
        then effect r.record_type r (HashMap.get (replay [] rs) t)
        else HashMap.get (replay [] rs) t)
get-replay-snoc rs r t = rw (replay-snoc [] rs r) (get-apply (replay [] rs) r t)

module _ (wal : List WalRecord) (id : ℕ) where
  pub found_other :
      (r : WalRecord)
      → (r.trace_id == id) ≡ false
      → HashMap.get (replay [] (wal ++ r ∷ [])) id ≡ HashMap.get (replay [] wal) id
  found_other r other = rw (get-replay-snoc wal r id, other) refl

  pub found-trace_start : (now : ℕ) → is_found (wal ++ trace_start now id ∷ []) id ≡ true
  found-trace_start now =
      ground (arith, get-replay-snoc wal (trace_start now id) id, nat_beq_iff id id)

  pub found-node_error :
      (now k : ℕ) (message : Text)
      → HashMap.get (replay [] (wal ++ node_error now id k message ∷ [])) id
        ≡ HashMap.get (replay [] wal) id
  found-node_error now k message =
      ground (arith, get-replay-snoc wal (node_error now id k message) id)

  pub found-node_done :
      (now k offset size hash : ℕ)
      → is_found (wal ++ node_done now id k offset size hash ∷ []) id ≡ is_found wal id
  found-node_done now k offset size hash =
      ground
        (arith, get-replay-snoc wal (node_done now id k offset size hash) id, nat_beq_iff id id)

  pub location-node_done :
      (now k offset size hash j : ℕ)
      → is_found wal id ≡ true
      → location (wal ++ node_done now id k offset size hash ∷ []) id j ≡ (
          if k == j
          then some (record { offset = offset; size = size; schema_hash = hash })
          else location wal id j)
  unfolding node_finished
  location-node_done now k offset size hash j found =
      elim (Option-cases (HashMap.get (replay [] wal) id)) [
        | inl q ↦ absurd (ground arith)
        | inr (state, q) ↦
            rw (get-replay-snoc wal (node_done now id k offset size hash) id, ==-refl id, q)
              (get-insert state.completed_nodes k j
                (record { offset = offset; size = size; schema_hash = hash }))
      ]
