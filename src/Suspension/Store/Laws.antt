-- ===== src/Suspension/Store/Laws.antt =====
-- Resuming once, and what holds of the store after any calls.
use xerv.Prelude.{
  ℕ, ◌≡◌, refl, String, Bool, true, false, none, some, List, [], ◌∷◌, ok, err, arith, string_eq,
  Option-cases, inl, inr,
}
use xerv.HashMap
use xerv.HashMap.{HashMap, keys}
use xerv.HashMap.Laws.{get-insert, get-remove, IsUnique, insert-IsUnique, remove-IsUnique}
use xerv.Suspension.{SuspendedTraceState, ResumeDecision}
use xerv.Suspension.Store.{
  MemorySuspensionStore, new_store, hook_not_found, suspend_if_free, resume, remove, remove_each,
  cleanup_expired, expired_entries, consume_pending_resume, is_suspended,
}

module _ {V : Type 0} where
  -- A suspended trace is resumed once: the resume returns its state and leaves its decision pending,
  -- which is consumed once, and a second resume finds no hook.
  pub resume_once :
      (s : MemorySuspensionStore V) (h : String) (d d' : ResumeDecision V)
      (state : SuspendedTraceState V)
      → HashMap.get s.suspensions h ≡ some state
      → ((resume s h d).1 ≡ ok state)
        × (is_suspended (resume s h d).0 h ≡ false)
        × ((consume_pending_resume (resume s h d).0 h).1 ≡ some d)
        × ((consume_pending_resume (consume_pending_resume (resume s h d).0 h).0 h).1 ≡ none)
        × ((resume (resume s h d).0 h d').1 ≡ err (hook_not_found h))
  unfolding resume consume_pending_resume
  resume_once s h d d' state known =
      let gone = get-remove s.suspensions h h in
      let pending = get-insert s.pending_resumes h h d in
      let consumed = get-remove (HashMap.insert s.pending_resumes h d) h h in
      let own = (string_eq.same_iff h h).1 refl in
      rw (resume, known)
        (
          refl,
          ground (arith, gone, own),
          ground (arith, pending, own),
          ground (arith, consumed, own),
          rw (gone, own) refl,
        )

  -- Each suspension stands under its own hook, and no hook has two.
  pub record IsKeyed (s : MemorySuspensionStore V) : Type 0 where
    pub unique : IsUnique s.suspensions
    pub pending_unique : IsUnique s.pending_resumes
    pub own_hook :
        (k : String) (state : SuspendedTraceState V)
        → HashMap.get s.suspensions k ≡ some state
        → state.hook_id ≡ k

  new_store-IsKeyed : IsKeyed new_store
  unfolding HashMap.get
  new_store-IsKeyed = record { unique = tt; pending_unique = tt; own_hook = λ k st q. cc }

  abbrev Keyed : HashMap String (SuspendedTraceState V) → Type 0
  Keyed m =
      IsUnique m
      × ((k : String) (state : SuspendedTraceState V)
          → HashMap.get m k ≡ some state
          → state.hook_id ≡ k)

  remove-Keyed :
      (m : HashMap String (SuspendedTraceState V)) (h : String)
      → Keyed m
      → Keyed (HashMap.remove m h)
  remove-Keyed m h v =
      (remove-IsUnique m h v.0, λ k st q. ground (arith, q, get-remove m h k, v.1 k st))

  remove_each-Keyed :
      (m : HashMap String (SuspendedTraceState V)) (ids : List String)
      → Keyed m
      → Keyed (remove_each m ids)
  unfolding remove_each
  remove_each-Keyed m [] v = v
  remove_each-Keyed m (id ∷ ids) v =
      remove_each-Keyed (HashMap.remove m id) ids (remove-Keyed m id v)

module _ {V : Type 0} (s : MemorySuspensionStore V) (v : IsKeyed s) where
  suspend_if_free-IsKeyed :
      (taken : Bool) (state : SuspendedTraceState V) → IsKeyed (suspend_if_free taken s state).0
  unfolding suspend_if_free
  suspend_if_free-IsKeyed true state = v
  suspend_if_free-IsKeyed false state = record {
    unique = insert-IsUnique s.suspensions state.hook_id state v.unique;
    pending_unique = v.pending_unique;
    own_hook = λ k st q. ground (
      arith,
      q,
      get-insert s.suspensions state.hook_id k state,
      v.own_hook k st,
      string_eq.same_iff state.hook_id k,
    );
  }

  resume-IsKeyed : (h : String) (d : ResumeDecision V) → IsKeyed (resume s h d).0
  unfolding resume
  resume-IsKeyed h d = elim (Option-cases (HashMap.get s.suspensions h)) [
    | inl gone ↦ rw (resume, gone) v
    | inr (st, known) ↦
        rw (resume, known)
          (record {
            unique = remove-IsUnique s.suspensions h v.unique;
            pending_unique = insert-IsUnique s.pending_resumes h d v.pending_unique;
            own_hook = (remove-Keyed s.suspensions h (v.unique, v.own_hook)).1;
          })
  ]

  remove-IsKeyed : (h : String) → IsKeyed (remove s h)
  unfolding remove
  remove-IsKeyed h = record {
    unique = remove-IsUnique s.suspensions h v.unique;
    pending_unique = remove-IsUnique s.pending_resumes h v.pending_unique;
    own_hook = (remove-Keyed s.suspensions h (v.unique, v.own_hook)).1;
  }

  consume-IsKeyed : (h : String) → IsKeyed (consume_pending_resume s h).0
  unfolding consume_pending_resume
  consume-IsKeyed h = record {
    unique = v.unique;
    pending_unique = remove-IsUnique s.pending_resumes h v.pending_unique;
    own_hook = v.own_hook;
  }

  cleanup_expired-IsKeyed : (now : ℕ) → IsKeyed (cleanup_expired s now).0
  unfolding cleanup_expired
  cleanup_expired-IsKeyed now =
      let ids = keys (expired_entries now s.suspensions) in
      let left = remove_each-Keyed s.suspensions ids (v.unique, v.own_hook) in
      record { unique = left.0; pending_unique = v.pending_unique; own_hook = left.1 }

-- A step of a client. A `suspend` inserts with the answer that its check got, which may be out of date.
pub data StoreCall (V : Type 0) : Type 0 where
  suspend_ : Bool → SuspendedTraceState V → StoreCall V
  resume_ : String → ResumeDecision V → StoreCall V
  remove_ consume_ : String → StoreCall V
  cleanup_ : ℕ → StoreCall V

module _ {V : Type 0} where
  abbrev pub store_step : MemorySuspensionStore V → StoreCall V → MemorySuspensionStore V
  store_step s (suspend_ taken state) = (suspend_if_free taken s state).0
  store_step s (resume_ h d) = (resume s h d).0
  store_step s (remove_ h) = remove s h
  store_step s (consume_ h) = (consume_pending_resume s h).0
  store_step s (cleanup_ now) = (cleanup_expired s now).0

  unfoldable pub store_steps :
      MemorySuspensionStore V → List (StoreCall V) → MemorySuspensionStore V
  store_steps s [] = s
  store_steps s (c ∷ cs) = store_steps (store_step s c) cs

  store_step-IsKeyed :
      (s : MemorySuspensionStore V) (c : StoreCall V) → IsKeyed s → IsKeyed (store_step s c)
  store_step-IsKeyed s (suspend_ taken state) v = suspend_if_free-IsKeyed s v taken state
  store_step-IsKeyed s (resume_ h d) v = resume-IsKeyed s v h d
  store_step-IsKeyed s (remove_ h) v = remove-IsKeyed s v h
  store_step-IsKeyed s (consume_ h) v = consume-IsKeyed s v h
  store_step-IsKeyed s (cleanup_ now) v = cleanup_expired-IsKeyed s v now

  store_steps_from-IsKeyed :
      (s : MemorySuspensionStore V) (cs : List (StoreCall V))
      → IsKeyed s
      → IsKeyed (store_steps s cs)
  unfolding store_steps
  store_steps_from-IsKeyed s [] v = v
  store_steps_from-IsKeyed s (c ∷ cs) v =
      store_steps_from-IsKeyed (store_step s c) cs (store_step-IsKeyed s c v)

  -- After any steps of any clients, in any order, each suspension stands under its own hook, and no hook
  -- has two suspensions or two pending decisions.
  pub store_steps-IsKeyed : (cs : List (StoreCall V)) → IsKeyed (store_steps new_store cs)
  store_steps-IsKeyed cs = store_steps_from-IsKeyed new_store cs new_store-IsKeyed
