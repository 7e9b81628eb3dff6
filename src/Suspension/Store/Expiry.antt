-- ===== src/Suspension/Store/Expiry.antt =====
-- What the cleanup of expired suspensions removes.
use xerv.Prelude.{
  ℕ, ◌≡◌, refl, String, none, List, [], ◌∷◌, arith, string_eq, contains, if◌then◌else◌, is_some,
}
use xerv.HashMap
use xerv.HashMap.{HashMap, keys, len}
use xerv.HashMap.Laws.{get-remove, IsUnique, contains-keys, length-keys}
use xerv.Suspension.{SuspendedTraceState}
use xerv.Suspension.Store.{
  MemorySuspensionStore, remove_each, cleanup_expired, expired_entries, get_expired,
}
use xerv.Suspension.Timeout.Round.{due, get-expired_entries}

get-remove_each :
    {V : Type 0} (m : HashMap String (SuspendedTraceState V)) (ids : List String) (k : String)
    → HashMap.get (remove_each m ids) k ≡ (if contains ids k then none else HashMap.get m k)
unfolding remove_each
get-remove_each m [] k = refl
get-remove_each m (id ∷ ids) k =
    ground (arith, get-remove_each (HashMap.remove m id) ids k, get-remove m id k)

-- The cleanup removes exactly the expired suspensions of a store with at most one suspension for each
-- hook, keeps the pending decisions, and returns how many suspensions had expired.
pub cleanup_expired_exact :
    {V : Type 0} (s : MemorySuspensionStore V) (now : ℕ) (k : String)
    → IsUnique s.suspensions
    → (HashMap.get (cleanup_expired s now).0.suspensions k ≡ (
        if is_some (due now (HashMap.get s.suspensions k))
        then none
        else HashMap.get s.suspensions k))
      × ((cleanup_expired s now).0.pending_resumes ≡ s.pending_resumes)
      × ((cleanup_expired s now).1 ≡ len (get_expired s now))
unfolding cleanup_expired
cleanup_expired_exact s now k u =
    let es = expired_entries now s.suspensions in
    (
      ground (
        arith,
        get-remove_each s.suspensions (keys es) k,
        contains-keys es k,
        get-expired_entries now s.suspensions k u,
      ),
      refl,
      length-keys es,
    )
