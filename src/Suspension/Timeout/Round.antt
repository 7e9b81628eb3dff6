-- ===== src/Suspension/Timeout/Round.antt =====
-- What a round of the processor does, when no other call comes between its steps.
use xerv.Prelude.{
  ℕ, ◌≡◌, refl, String, true, false, ◌&&◌, Option, none, some, [], ◌∷◌, arith, ◌==◌, string_eq,
  if◌then◌else◌, is_some, Bool-cases, inl, inr,
}
use xerv.HashMap
use xerv.HashMap.{HashMap, keys, contains_key}
use xerv.HashMap.Laws.{get-insert, get-remove, IsUnique}
use xerv.Suspension.{SuspendedTraceState, ResumeDecision, Json, is_expired}
use xerv.Suspension.Store.{MemorySuspensionStore, resume, expired_entries, get_expired}
use xerv.Suspension.Timeout.{timeout_decision, process_each, process_expired}

module _ {V : Type 0} (s : MemorySuspensionStore V) (h k : String) (d : ResumeDecision V) where
  suspensions-resume :
      HashMap.get (resume s h d).0.suspensions k
      ≡ (if h == k then none else HashMap.get s.suspensions k)
  unfolding resume
  suspensions-resume = ground (arith, get-remove s.suspensions h k, string_eq.same_iff h k)

  pending-resume : HashMap.get (resume s h d).0.pending_resumes k ≡ (
      if (h == k) && contains_key s.suspensions h then some d else HashMap.get s.pending_resumes k)
  unfolding resume
  pending-resume = ground (arith, get-insert s.pending_resumes h k d)

abbrev Entries : Type 0 → Type 0
Entries V = HashMap String (SuspendedTraceState V)

module _ {V : Type 0} where
  -- The suspensions that are due.
  abbrev pub due : ℕ → Option (SuspendedTraceState V) → Option (SuspendedTraceState V)
  due now none = none
  due now (some state) = if is_expired now state then some state else none

  contains-expired_entries :
      (now : ℕ) (m : Entries V) (k : String)
      → contains_key m k ≡ false
      → contains_key (expired_entries now m) k ≡ false
  unfolding HashMap.get
  contains-expired_entries now [] k h = refl
  contains-expired_entries now ((j, st) ∷ m) k h =
      ground (arith, h, contains-expired_entries now m k)

  pub get-expired_entries :
      (now : ℕ) (m : Entries V) (k : String)
      → IsUnique m
      → HashMap.get (expired_entries now m) k ≡ due now (HashMap.get m k)
  unfolding HashMap.get
  get-expired_entries now [] k u = refl
  get-expired_entries now ((j, st) ∷ m) k u = ground (
    arith,
    get-expired_entries now m k u.1,
    contains-expired_entries now m k,
    u.0,
    string_eq.same_iff j k,
  )

  expired_entries-IsUnique :
      (now : ℕ) (m : Entries V) → IsUnique m → IsUnique (expired_entries now m)
  unfolding HashMap.get
  expired_entries-IsUnique now [] u = tt
  expired_entries-IsUnique now ((j, st) ∷ m) u =
      ground (arith, expired_entries-IsUnique now m u.1, contains-expired_entries now m j u.0)

  -- Every entry of the list stands for a suspension of the store.
  abbrev AllPresent : MemorySuspensionStore V → Entries V → Type 0
  AllPresent s [] = Unit
  AllPresent s ((j, _) ∷ es) = (contains_key s.suspensions j ≡ true) × AllPresent s es

  AllPresent-resume :
      (s : MemorySuspensionStore V) (h : String) (d : ResumeDecision V) (es : Entries V)
      → contains_key es h ≡ false
      → AllPresent s es
      → AllPresent (resume s h d).0 es
  unfolding HashMap.get
  AllPresent-resume s h d [] n a = tt
  AllPresent-resume s h d ((j, st) ∷ es) n a = (
    ground
        (arith, n, a.0, suspensions-resume s h j d, string_eq.same_iff h j, string_eq.same_iff j h),
    AllPresent-resume s h d es (ground (arith, n)) a.1,
  )

  AllPresent-expired_entries :
      (s : MemorySuspensionStore V) (now : ℕ) (m : Entries V)
      → ((k : String) → contains_key m k ≡ true → contains_key s.suspensions k ≡ true)
      → AllPresent s (expired_entries now m)
  unfolding HashMap.get
  AllPresent-expired_entries s now [] sub = tt
  AllPresent-expired_entries s now ((j, st) ∷ m) sub =
      let rest = AllPresent-expired_entries s now m (λ k p. sub k (ground (arith, p))) in
      let own = sub j (ground (arith, string_eq.same_iff j j)) in
      elim (Bool-cases (is_expired now st)) [ inl e ↦ rw e (own, rest) | inr e ↦ rw e rest ]

module _ {V : Type 0} (json : Json V) where
  abbrev pub decided :
      Option (SuspendedTraceState V) → Option (ResumeDecision V) → Option (ResumeDecision V)
  decided none pending = pending
  decided (some state) pending = some (timeout_decision json state.timeout_action)

  suspensions-process_each :
      (s : MemorySuspensionStore V) (es : HashMap String (SuspendedTraceState V)) (k : String)
      → HashMap.get (process_each json s es).0.suspensions k
        ≡ (if contains_key es k then none else HashMap.get s.suspensions k)
  unfolding process_each HashMap.get
  suspensions-process_each s [] k = refl
  suspensions-process_each s ((h, st) ∷ es) k =
      let d = timeout_decision json st.timeout_action in
      ground (arith, suspensions-process_each (resume s h d).0 es k, suspensions-resume s h k d)

  pending-process_each :
      (s : MemorySuspensionStore V) (es : HashMap String (SuspendedTraceState V)) (k : String)
      → IsUnique es
      → AllPresent s es
      → HashMap.get (process_each json s es).0.pending_resumes k
        ≡ decided (HashMap.get es k) (HashMap.get s.pending_resumes k)
  unfolding process_each HashMap.get
  pending-process_each s [] k u a = refl
  pending-process_each s ((h, st) ∷ es) k u a =
      let d = timeout_decision json st.timeout_action in
      ground (
        arith,
        pending-process_each (resume s h d).0 es k u.1 (AllPresent-resume s h d es u.0 a.1),
        pending-resume s h k d,
        a.0,
        u.0,
        string_eq.same_iff h k,
      )

  -- After a round at a time, in a store with at most one suspension for each hook: an expired
  -- suspension is gone and its hook has the decision of its timeout action pending; every other
  -- hook has its suspension and its pending decision as before.
  pub process_expired_exact :
      (s : MemorySuspensionStore V) (now : ℕ) (k : String)
      → IsUnique s.suspensions
      → (HashMap.get (process_expired json s now).0.suspensions k ≡ (
          if is_some (due now (HashMap.get s.suspensions k))
          then none
          else HashMap.get s.suspensions k))
        × (HashMap.get (process_expired json s now).0.pending_resumes k
            ≡ decided (due now (HashMap.get s.suspensions k)) (HashMap.get s.pending_resumes k))
  unfolding process_expired
  process_expired_exact s now k u =
      let es = get_expired s now in
      let known = get-expired_entries now s.suspensions k u in
      (
        rw known at (suspensions-process_each s es k),
        rw known at (
            pending-process_each s es k (expired_entries-IsUnique now s.suspensions u)
              (AllPresent-expired_entries s now s.suspensions (λ j p. p))),
      )
