-- ===== src/Recovery/Report.antt =====
-- xerv-executor/src/recovery: what the report of `recover_all` says of the traces.
use mathlib.Core.List.{append_assoc, append-nil}
use xerv.Prelude.{
  ◌≡◌, refl, ap, sym, ◌∙◌, ℕ, ◌+◌, String, Option, none, some, List, [], ◌∷◌, ◌++◌, ok, err, arith,
  occurs, occurs-append, nat_eq,
}
use xerv.HashMap.{keys}
use xerv.Errors.{XervResult}
use xerv.Suspension.{Json}
use xerv.Wal.Reader.{TraceRecoveryState, Traces}
use xerv.Executor.{Texts}
use xerv.Recovery.{
  RecoveryAction, await_resume, RecoveryReport, new_report, add_result, determine_action,
  unless_suspended, unless_started, after_last, Metadata, CrashReplayer, Handles, resumes, retries,
  awaits, skips, Recovers, finished, next,
}

-- How often a trace is reported as recovered or as skipped.
abbrev pub settled : RecoveryReport → ℕ → ℕ
settled r k = occurs k r.recovered + occurs k (keys r.skipped)

keys-snoc :
    (xs : List (ℕ × String)) (id : ℕ) (reason : String)
    → keys (xs ++ (id, reason) ∷ []) ≡ keys xs ++ id ∷ []
keys-snoc [] id reason = refl
keys-snoc ((k, text) ∷ xs) id reason = ap (λ ks. k ∷ ks) (keys-snoc xs id reason)

abbrev IsReported : RecoveryReport → ℕ → RecoveryReport → RecoveryAction → Type 0
IsReported r id r' (await_resume _) =
    (r'.awaiting_resume ≡ r.awaiting_resume ++ id ∷ []) × ((k : ℕ) → settled r' k ≡ settled r k)
IsReported r id r' _ =
    (r'.awaiting_resume ≡ r.awaiting_resume)
    × ((k : ℕ) → settled r' k ≡ settled r k + occurs k (id ∷ []))

-- The same, by whether the trace is suspended.
abbrev IsReportedBy : RecoveryReport → ℕ → RecoveryReport → Option ℕ → Type 0
IsReportedBy r id r' (some _) =
    (r'.awaiting_resume ≡ r.awaiting_resume ++ id ∷ []) × ((k : ℕ) → settled r' k ≡ settled r k)
IsReportedBy r id r' none =
    (r'.awaiting_resume ≡ r.awaiting_resume)
    × ((k : ℕ) → settled r' k ≡ settled r k + occurs k (id ∷ []))

by_progress :
    (r r' : RecoveryReport) (id : ℕ) (nodes : List ℕ) (last : Option ℕ)
    → IsReported r id r' (unless_started nodes last)
    → IsReportedBy r id r' none
unfolding unless_started after_last
by_progress r r' id [] none h = h
by_progress r r' id [] (some n) h = h
by_progress r r' id (n ∷ nodes) last h = h

by_state :
    (r r' : RecoveryReport) (id : ℕ) (o : Option ℕ) (state : TraceRecoveryState)
    → IsReported r id r' (unless_suspended o state)
    → IsReportedBy r id r' o
unfolding unless_suspended
by_state r r' id (some n) state h = h
by_state r r' id none state h = by_progress r r' id state.started_nodes state.last_completed_node h

-- The traces that the log holds as suspended, and the others, in the order of the map.
abbrev pub suspended_ids : Traces → List ℕ
suspended_ids [] = []
suspended_ids ((id, state) ∷ traces) = elim state.suspended_at [
  | some _ ↦ id ∷ suspended_ids traces
  | none ↦ suspended_ids traces
]

abbrev pub interrupted_ids : Traces → List ℕ
interrupted_ids [] = []
interrupted_ids ((id, state) ∷ traces) = elim state.suspended_at [
  | some _ ↦ interrupted_ids traces
  | none ↦ id ∷ interrupted_ids traces
]

module _ {V : Type 0} (json : Json V) (texts : Texts V) (m : Metadata V) where
  add_skipped-settled :
      (r : RecoveryReport) (id : ℕ) (reason : String) (k : ℕ)
      → occurs k r.recovered + occurs k (keys (r.skipped ++ (id, reason) ∷ []))
        ≡ settled r k + occurs k (id ∷ [])
  add_skipped-settled r id reason k =
      rw (keys-snoc r.skipped id reason) (omega (arith, occurs-append k (keys r.skipped) (id ∷ [])))

  add_result-settled :
      (what : String) (id : ℕ) (result : XervResult (Unit {0})) (r : RecoveryReport) (k : ℕ)
      → settled (add_result m what id result r) k ≡ settled r k + occurs k (id ∷ [])
  add_result-settled what id (ok _) r k = omega (arith, occurs-append k r.recovered (id ∷ []))
  add_result-settled what id (err e) r k = add_skipped-settled r id (m.failed what e) k

  add_result-awaiting :
      (what : String) (id : ℕ) (result : XervResult (Unit {0})) (r : RecoveryReport)
      → (add_result m what id result r).awaiting_resume ≡ r.awaiting_resume
  add_result-awaiting what id (ok _) r = refl
  add_result-awaiting what id (err e) r = refl

  Handles-IsReported :
      (c : CrashReplayer V) (id : ℕ) (state : TraceRecoveryState) (r : RecoveryReport)
      (a : RecoveryAction) (c' : CrashReplayer V) (r' : RecoveryReport)
      → Handles json texts m c id state r a c' r'
      → IsReported r id r' a
  Handles-IsReported c id state r _ _ _ (resumes n ex result h) = (
    add_result-awaiting "Resume failed" id result r,
    λ k. add_result-settled "Resume failed" id result r k,
  )
  Handles-IsReported c id state r _ _ _ (retries nodes ex result h) = (
    add_result-awaiting "Retry failed" id result r,
    λ k. add_result-settled "Retry failed" id result r k,
  )
  Handles-IsReported c id state r _ _ _ (awaits n now) = (refl, λ k. refl)
  Handles-IsReported c id state r _ _ _ (skips reason now io) =
      (refl, λ k. add_skipped-settled r id reason k)

  abbrev Reports : RecoveryReport → Traces → RecoveryReport → Type 0
  Reports r traces r' =
      (r'.awaiting_resume ≡ r.awaiting_resume ++ suspended_ids traces)
      × ((k : ℕ) → settled r' k ≡ settled r k + occurs k (interrupted_ids traces))

  one_more :
      (r r' r'' : RecoveryReport) (id : ℕ) (state : TraceRecoveryState) (traces : Traces)
      (o : Option ℕ)
      → state.suspended_at ≡ o
      → IsReportedBy r id r' o
      → Reports r' traces r''
      → Reports r ((id, state) ∷ traces) r''
  one_more r r' r'' id state traces (some n) q h (w, s) = rw q (
    w
        ∙ ap (λ xs. xs ++ suspended_ids traces) h.0
        ∙ append_assoc r.awaiting_resume (id ∷ []) (suspended_ids traces),
    λ k. s k ∙ ap (λ n. n + occurs k (interrupted_ids traces)) (h.1 k),
  )
  one_more r r' r'' id state traces none q h (w, s) =
      rw q (w ∙ ap (λ xs. xs ++ suspended_ids traces) h.0, λ k. omega (arith, s k, h.1 k))

  Recovers-Reports :
      (c c'' : CrashReplayer V) (r r'' : RecoveryReport) (traces : Traces)
      → Recovers json texts m c r traces c'' r''
      → Reports r traces r''
  unfolding determine_action
  Recovers-Reports c _ r _ _ (finished _ _) = (sym (append-nil r.awaiting_resume), λ k. omega arith)
  Recovers-Reports c c'' r r'' _ (next _ c' _ _ r' _ id state traces h more) =
      one_more r r' r'' id state traces state.suspended_at refl
        (by_state r r' id state.suspended_at state
          (Handles-IsReported c id state r (determine_action state) c' r' h))
        (Recovers-Reports c' c'' r' r'' traces more)

  -- The report of `recover_all` accounts for every trace that the log holds as incomplete, whatever the
  -- arenas' files, the log and the nodes answer: the traces that were suspended, in the order of the
  -- map, are those that await a decision, and every other trace is reported as recovered or as skipped,
  -- as often as it is in the map.
  pub Recovers-new_report :
      (c c' : CrashReplayer V) (r : RecoveryReport) (traces : Traces)
      → Recovers json texts m c new_report traces c' r
      → (r.awaiting_resume ≡ suspended_ids traces)
        × ((k : ℕ) → settled r k ≡ occurs k (interrupted_ids traces))
  Recovers-new_report c c' r traces h =
      let all = Recovers-Reports c c' new_report r traces h in (all.0, λ k. omega (arith, all.1 k))
