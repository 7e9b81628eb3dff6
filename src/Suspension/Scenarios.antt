-- ===== src/Suspension/Scenarios.antt =====
-- Runs of the suspension store; a value is a text, and null the empty one.
use xerv.Prelude.{
  ℕ, ◌≡◌, refl, false, String, none, some, [], ◌∷◌, ok, err, string_eq, if◌then◌else◌, is_some,
  nat_eq,
}
use xerv.HashMap
use xerv.HashMap.{HashMap, len}
use xerv.HashMap.Laws.{IsUnique}
use xerv.Suspension.{
  SuspendedTraceState, ResumeDecision, approve, reject, Json, TimeoutAction, new_state,
  with_timeout,
}
use xerv.Suspension.Store.{
  MemorySuspensionStore, new_store, hook_taken, suspend_if_free, resume, hook_not_found,
  is_suspended, consume_pending_resume,
}
use xerv.Suspension.Store.Laws.{resume_once}
use xerv.Suspension.Timeout.{process_expired}
use xerv.Suspension.Timeout.Round.{due, decided, process_expired_exact}

abbrev texts : Json String
texts = record { null = ""; reason = λ text. text }

abbrev waits : String → ℕ → SuspendedTraceState String
waits hook trace_id =
    with_timeout (new_state texts 0 hook trace_id 4 "/tmp/a" "orders@v1") 0 5 TimeoutAction.approve

-- Hook "a" expires after 5 seconds, hook "b" never.
abbrev two : MemorySuspensionStore String
two = record {
  suspensions = ("a", waits "a" 1) ∷ ("b", new_state texts 0 "b" 2 4 "/tmp/b" "orders@v1") ∷ [];
  pending_resumes = [];
}

two-IsUnique : IsUnique two.suspensions
unfolding HashMap.get
two-IsUnique = (refl, (refl, tt))

a_waits : HashMap.get two.suspensions "a" ≡ some (waits "a" 1)
unfolding HashMap.get
a_waits = refl

resume_once_example :
    let h : String = "a" in
    let d : ResumeDecision String = approve none in
    ((resume two h d).1 ≡ ok (waits "a" 1))
    × (is_suspended (resume two h d).0 h ≡ false)
    × ((consume_pending_resume (resume two h d).0 h).1 ≡ some d)
    × ((consume_pending_resume (consume_pending_resume (resume two h d).0 h).0 h).1 ≡ none)
    × ((resume (resume two h d).0 h (reject none)).1 ≡ err (hook_not_found h))
resume_once_example = resume_once two "a" (approve none) (reject none) (waits "a" 1) a_waits

process_expired_exact_example :
    let now : ℕ = 6_000_000_000 in
    (HashMap.get (process_expired texts two now).0.suspensions "a" ≡ (
      if is_some (due now (HashMap.get two.suspensions "a"))
      then none
      else HashMap.get two.suspensions "a"))
    × (HashMap.get (process_expired texts two now).0.pending_resumes "a"
        ≡ decided texts
            (due now (HashMap.get two.suspensions "a"))
            (HashMap.get two.pending_resumes "a"))
process_expired_exact_example = process_expired_exact texts two 6_000_000_000 "a" two-IsUnique

a_is_approved :
    HashMap.get (process_expired texts two 6_000_000_000).0.pending_resumes "a"
    ≡ some (approve none)
unfolding process_expired resume HashMap.get HashMap.insert HashMap.remove
a_is_approved = refl

-- Two traces suspend under one hook: both check before either inserts.
abbrev raced : MemorySuspensionStore String
raced =
    let free = hook_taken new_store (waits "a" 1) in
    let also_free = hook_taken new_store (waits "a" 2) in
    (suspend_if_free also_free (suspend_if_free free new_store (waits "a" 1)).0 (waits "a" 2)).0

-- Both calls succeed, and the suspension of trace 1 is gone.
first_is_lost : HashMap.get raced.suspensions "a" ≡ some (waits "a" 2)
unfolding suspend_if_free HashMap.get HashMap.insert
first_is_lost = refl
