-- ===== src/FlowGraph/Reach.antt =====
-- `reachable_nodes` finds exactly the nodes that a path of edges joins to an entry point.
use xerv.Prelude.{
  ℕ, zero, suc, ◌+◌, ◌<◌, ◌≡◌, ◌↔◌, refl, Bool, true, false, ◌&&◌, ◌||◌, not, some, List, [], ◌∷◌,
  ◌++◌, map, arith, ◌==◌, nat_eq, length, filter_by, count_by, contains, contains-snoc,
  contains-append, Bool-cases, inl, inr, nat_beq_iff, get_elem?, length-append, count_by-le-length,
}
use xerv.FlowGraph.{Edge, FlowGraph, reachable_nodes, reach_loop, outgoing_edges}
use xerv.FlowGraph.Index.{IsWf, outgoing_edges-eq-filter}

pub data IsReachable (g : FlowGraph) : ℕ → Type 0 where
  entry : {v : ℕ} → contains g.entry_points v ≡ true → IsReachable g v
  along :
      {u v : ℕ} (i : ℕ) (e : Edge)
      → IsReachable g u
      → get_elem? g.edges i ≡ some e
      → e.from_node ≡ u
      → e.to_node ≡ v
      → IsReachable g v

targets : ℕ → List Edge → List ℕ
targets n es = map (λ e. e.to_node) (filter_by (λ e. e.from_node == n) es)

targets_complete :
    (n : ℕ) (es : List Edge) (i : ℕ) (e : Edge)
    → get_elem? es i ≡ some e
    → e.from_node ≡ n
    → contains (targets n es) e.to_node ≡ true
unfolding targets
targets_complete n [] i e at h = cc
targets_complete n (x ∷ es) zero e at h =
    ground (arith, at, nat_beq_iff x.from_node n, nat_beq_iff x.to_node e.to_node)
targets_complete n (x ∷ es) (suc i) e at h = ground (arith, targets_complete n es i e at h)

targets_sound :
    (n : ℕ) (es : List Edge) (v : ℕ)
    → contains (targets n es) v ≡ true
    → (i : ℕ) × (e : Edge) × (get_elem? es i ≡ some e) × (e.from_node ≡ n) × (e.to_node ≡ v)
unfolding targets
targets_sound n [] v h = cc
targets_sound n (x ∷ es) v h = elim (Bool-cases ((x.from_node == n) && (x.to_node == v))) [
  | inl q ↦ (
    0,
    x,
    refl,
    ground (arith, nat_beq_iff x.from_node n),
    ground (arith, nat_beq_iff x.to_node v),
  )
  | inr q ↦
      let (i, e, at, from, to) = targets_sound n es v (ground arith) in (suc i, e, at, from, to)
]

-- The edges whose source has not been visited.
unvisited : List ℕ → List Edge → ℕ
unvisited visited es = count_by (λ e. not (contains visited e.from_node)) es

unvisited-snoc :
    (visited : List ℕ) (n : ℕ) (es : List Edge)
    → contains visited n ≡ false
    → unvisited visited es ≡ unvisited (visited ++ n ∷ []) es + length (targets n es)
unfolding unvisited targets
unvisited-snoc visited n [] h = refl
unvisited-snoc visited n (e ∷ es) h = ground (
  arith,
  unvisited-snoc visited n es h,
  contains-snoc e.from_node n visited,
  nat_beq_iff e.from_node n,
  nat_beq_iff n e.from_node,
)

abbrev seen : List ℕ → List ℕ → ℕ → Bool
seen visited queue v = contains visited v || contains queue v

record Inv (g : FlowGraph) (visited queue : List ℕ) : Type 0 where
  sound : (v : ℕ) → seen visited queue v ≡ true → IsReachable g v
  entries : (v : ℕ) → contains g.entry_points v ≡ true → seen visited queue v ≡ true
  closed :
      (i : ℕ) (e : Edge)
      → get_elem? g.edges i ≡ some e
      → contains visited e.from_node ≡ true
      → seen visited queue e.to_node ≡ true

module _ (g : FlowGraph) (w : IsWf g) (n : ℕ) (visited queue : List ℕ)
    (h : Inv g visited (n ∷ queue)) where
  old-Inv : contains visited n ≡ true → Inv g visited queue
  old-Inv old = record {
    sound = λ v s. h.sound v (ground arith);
    entries = λ v s. ground (arith, h.entries v s, nat_beq_iff n v);
    closed = λ i e at from. ground (arith, h.closed i e at from, nat_beq_iff n e.to_node);
  }

  fresh_sound :
      (v : ℕ) → seen (visited ++ n ∷ []) (queue ++ targets n g.edges) v ≡ true → IsReachable g v
  fresh_sound v s = elim (Bool-cases (contains (targets n g.edges) v)) [
    | inl q ↦
        let (i, e, at, from, to) = targets_sound n g.edges v q in
        along i e (h.sound n (ground (arith, nat_beq_iff n n))) at from to
    | inr q ↦
        h.sound v
          (ground (arith, contains-snoc v n visited, contains-append v queue (targets n g.edges)))
  ]

  fresh-Inv : Inv g (visited ++ n ∷ []) (queue ++ targets n g.edges)
  fresh-Inv = record {
    sound = fresh_sound;
    entries = λ v s. ground (
      arith,
      h.entries v s,
      contains-snoc v n visited,
      contains-append v queue (targets n g.edges),
    );
    closed = λ i e at from. ground (
      arith,
      h.closed i e at,
      contains-snoc e.from_node n visited,
      contains-snoc e.to_node n visited,
      contains-append e.to_node queue (targets n g.edges),
      targets_complete n g.edges i e at,
      nat_beq_iff n e.from_node,
    );
  }

targets-outgoing :
    (g : FlowGraph) (w : IsWf g) (n : ℕ)
    → map (λ e. e.to_node) (outgoing_edges g n) ≡ targets n g.edges
unfolding targets
targets-outgoing g w n = rw (outgoing_edges-eq-filter g n w)

abbrev Ends : FlowGraph → ℕ → List ℕ → List ℕ → Type 0
Ends g fuel visited queue = (r : List ℕ) × (reach_loop g fuel visited queue ≡ some r) × Inv g r []

reach_loop_total :
    (g : FlowGraph) (w : IsWf g) (fuel : ℕ) (visited queue : List ℕ)
    → length queue + unvisited visited g.edges < fuel
    → Inv g visited queue
    → Ends g fuel visited queue
unfolding reach_loop
reach_loop_total g w zero visited queue f h = absurd (omega arith)
reach_loop_total g w (suc fuel) visited [] f h = (visited, refl, h)
reach_loop_total g w (suc fuel) visited (n ∷ queue) f h = elim (Bool-cases (contains visited n)) [
  | inl old ↦
      rw old
        (reach_loop_total g w fuel visited queue (omega arith) (old-Inv g w n visited queue h old))
  | inr new_ ↦
      rw (new_, targets-outgoing g w n)
        (reach_loop_total g w fuel (visited ++ n ∷ []) (queue ++ targets n g.edges)
          (omega
            (arith, length-append queue (targets n g.edges), unvisited-snoc visited n g.edges new_))
          (fresh-Inv g w n visited queue h))
]

initial-Inv : (g : FlowGraph) → Inv g [] g.entry_points
initial-Inv g = record { sound = λ v s. entry s; entries = λ v s. s; closed = λ i e at from. cc }

reached :
    (g : FlowGraph) (visited : List ℕ)
    → Inv g visited []
    → {v : ℕ} → IsReachable g v
    → contains visited v ≡ true
reached g visited h {v} (entry inside) = ground (arith, h.entries v inside)
reached g visited h {v} (along {u = u} i e r at from to) =
    ground (arith, reached g visited h r, h.closed i e at, from, to)

-- On a well-formed graph the search ends within its fuel, and a node is in its result exactly if it
-- is an entry point or an edge leads to it from a reachable node.
pub reachable_nodes_exact :
    (g : FlowGraph)
    → IsWf g
    → (r : List ℕ) × (reachable_nodes g ≡ some r)
      × ((v : ℕ) → (contains r v ≡ true) ↔ IsReachable g v)
unfolding reachable_nodes unvisited
reachable_nodes_exact g w =
    let (r, runs, inv) =
      reach_loop_total g w (suc (length g.entry_points + length g.edges)) [] g.entry_points
        (omega (arith, count_by-le-length (λ e. not (contains [] e.from_node)) g.edges))
        (initial-Inv g) in
    (r, runs, λ v. (λ s. inv.sound v (ground arith), λ s. reached g r inv s))
