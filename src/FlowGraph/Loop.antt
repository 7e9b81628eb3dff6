-- ===== src/FlowGraph/Loop.antt =====
-- The invariant of Kahn's loop: each degree counts the edges that are still to come, and a node is
-- sorted or queued, once, exactly if its degree is 0.
use xerv.Prelude.{
  ℕ, ◌+◌, ◌≡◌, refl, true, false, ◌&&◌, not, Option, none, some, List, [], ◌∷◌, ◌++◌, if◌then◌else◌,
  arith, ◌==◌, nat_eq, length, filter_by, count_by, contains, contains-snoc, occurs, occurs-append,
  Bool-cases, Option-cases, inl, inr, nat_beq_iff, ◌∙◌, occurs_pos, length-append,
}
use xerv.HashMap
use xerv.HashMap.{HashMap, contains_key}
use xerv.HashMap.Laws.{get-insert}
use xerv.FlowGraph.Index.{IsWf, outgoing_edges-eq-filter}
use xerv.FlowGraph.{
  Edge, FlowGraph, counts, Kahn, decrement, lower, relax, relax_all, visit, outgoing_edges,
}

-- The edges into a node, loop back-edges left out, whose source is not in a list.
unfoldable pub pending : FlowGraph → List ℕ → ℕ → ℕ
pending g done v =
    count_by (λ e. (e.to_node == v) && (counts g e && not (contains done e.from_node))) g.edges

-- The edges into a node, loop back-edges left out, among some edges.
unfoldable pub toward : FlowGraph → ℕ → List Edge → ℕ
toward g v es = count_by (λ e. (e.to_node == v) && counts g e) es

abbrev pub is_zero : Option ℕ → ℕ
is_zero none = 0
is_zero (some d) = if d == 0 then 1 else 0

-- With `es` the outgoing edges of the visited node that are still to be relaxed.
pub record Inv (g : FlowGraph) (es : List Edge) (s : Kahn) : Type 0 where
  pub degree :
      (v d : ℕ) → HashMap.get s.in_degree v ≡ some d → d ≡ pending g s.sorted v + toward g v es
  pub settled : (v : ℕ) → occurs v s.sorted + occurs v s.queue ≡ is_zero (HashMap.get s.in_degree v)
  pub visited : s.visited ≡ length s.sorted

module _ (g : FlowGraph) (e : Edge) (es : List Edge) where
  pub toward-cons :
      (v : ℕ)
      → toward g v (e ∷ es) ≡ (if (e.to_node == v) && counts g e then 1 else 0) + toward g v es
  unfolding toward
  toward-cons v = refl

  lower-Inv :
      (s : Kahn) (d : ℕ)
      → counts g e ≡ true
      → HashMap.get s.in_degree e.to_node ≡ some d
      → Inv g (e ∷ es) s
      → Inv g es (lower (some d) e.to_node s)
  unfolding lower
  lower-Inv s d c found h = record {
    degree = λ v d' q. ground (
      arith,
      q,
      get-insert s.in_degree e.to_node v (decrement d),
      h.degree v d',
      h.degree v d,
      toward-cons v,
      nat_beq_iff e.to_node v,
    );
    settled = λ v. ground (
      arith,
      get-insert s.in_degree e.to_node v (decrement d),
      h.degree v d,
      h.settled v,
      toward-cons v,
      nat_beq_iff e.to_node v,
      occurs-append v s.queue (e.to_node ∷ []),
    );
    visited = ground (arith, h.visited);
  }

  lower_none-Inv :
      (s : Kahn) → HashMap.get s.in_degree e.to_node ≡ none → Inv g (e ∷ es) s → Inv g es s
  lower_none-Inv s found h = record {
    degree =
        λ v d q. ground (arith, q, found, h.degree v d, toward-cons v, nat_beq_iff e.to_node v);
    settled = h.settled;
    visited = h.visited;
  }

  back-Inv : (s : Kahn) → counts g e ≡ false → Inv g (e ∷ es) s → Inv g es s
  back-Inv s c h = record {
    degree = λ v d q. ground (arith, q, c, h.degree v d, toward-cons v);
    settled = h.settled;
    visited = h.visited;
  }

  relax-Inv : (s : Kahn) → Inv g (e ∷ es) s → Inv g es (relax g e s)
  unfolding relax
  relax-Inv s h = elim (Bool-cases (counts g e)) [
    | inr c ↦ rw c (back-Inv s c h)
    | inl c ↦ elim (Option-cases (HashMap.get s.in_degree e.to_node)) [
      | inl q ↦ rw (c, q) (unfold lower in lower_none-Inv s q h)
      | inr q ↦ rw (c, q.1) (lower-Inv s q.0 c q.1 h)
    ]
  ]

relax_all-Inv :
    (g : FlowGraph) (es : List Edge) (s : Kahn) → Inv g es s → Inv g [] (relax_all g es s)
unfolding relax_all
relax_all-Inv g [] s h = h
relax_all-Inv g (e ∷ es) s h = relax_all-Inv g es (relax g e s) (relax-Inv g e es s h)

-- What relaxing leaves alone: the sorted nodes, and which nodes have a degree.
abbrev Keeps : Kahn → Kahn → Type 0
Keeps s t =
    (t.sorted ≡ s.sorted) × ((v : ℕ) → contains_key t.in_degree v ≡ contains_key s.in_degree v)

lower-Keeps :
    (o : Option ℕ) (to : ℕ) (s : Kahn) → HashMap.get s.in_degree to ≡ o → Keeps s (lower o to s)
unfolding lower
lower-Keeps none to s q = (refl, λ v. refl)
lower-Keeps (some d) to s q = (
  ground arith,
  λ v. ground (arith, q, nat_beq_iff to v, get-insert s.in_degree to v (decrement d)),
)

relax-Keeps : (g : FlowGraph) (e : Edge) (s : Kahn) → Keeps s (relax g e s)
unfolding relax
relax-Keeps g e s = elim (Bool-cases (counts g e)) [
  | inr c ↦ rw c (refl, λ v. refl)
  | inl c ↦ rw c (lower-Keeps (HashMap.get s.in_degree e.to_node) e.to_node s refl)
]

relax_all-Keeps : (g : FlowGraph) (es : List Edge) (s : Kahn) → Keeps s (relax_all g es s)
unfolding relax_all
relax_all-Keeps g [] s = (refl, λ v. refl)
relax_all-Keeps g (e ∷ es) s =
    let first = relax-Keeps g e s in
    let rest = relax_all-Keeps g es (relax g e s) in (rest.0 ∙ first.0, λ v. rest.1 v ∙ first.1 v)

-- Once a node is sorted, its outgoing edges are no longer pending but still to be relaxed.
pending-visit :
    (g : FlowGraph) (done : List ℕ) (u v : ℕ) (es : List Edge)
    → contains done u ≡ false
    → count_by (λ e. (e.to_node == v) && (counts g e && not (contains done e.from_node))) es
      ≡ count_by
          (λ e. (e.to_node == v) && (counts g e && not (contains (done ++ u ∷ []) e.from_node)))
          es
        + toward g v (filter_by (λ e. e.from_node == u) es)
unfolding toward
pending-visit g done u v [] h = refl
pending-visit g done u v (e ∷ es) h = ground (
  arith,
  pending-visit g done u v es h,
  contains-snoc e.from_node u done,
  nat_beq_iff e.from_node u,
  nat_beq_iff u e.from_node,
)

pending-snoc :
    (g : FlowGraph) (done : List ℕ) (u v : ℕ)
    → contains done u ≡ false
    → pending g done v
      ≡ pending g (done ++ u ∷ []) v + toward g v (filter_by (λ e. e.from_node == u) g.edges)
unfolding pending
pending-snoc g done u v h = pending-visit g done u v g.edges h

toward-nil : (g : FlowGraph) (v : ℕ) → toward g v [] ≡ 0
unfolding toward
toward-nil g v = refl

module _ (g : FlowGraph) (w : IsWf g) (u : ℕ) (rest : List ℕ) (s : Kahn)
    (front : s.queue ≡ u ∷ rest) (h : Inv g [] s) where
  pub front-unsorted : contains s.sorted u ≡ false
  front-unsorted = ground (arith, front, h.settled u, occurs_pos u s.sorted, nat_beq_iff u u)

  popped : Kahn
  popped = record s { queue = rest; sorted = s.sorted ++ u ∷ []; visited = s.visited + 1 }

  popped-Inv : Inv g (filter_by (λ e. e.from_node == u) g.edges) popped
  unfolding popped
  popped-Inv = record {
    degree = λ v d q.
        ground (arith, h.degree v d q, pending-snoc g s.sorted u v front-unsorted, toward-nil g v);
    settled = λ v. ground (arith, front, h.settled v, occurs-append v s.sorted (u ∷ []));
    visited = ground (arith, h.visited, length-append s.sorted (u ∷ []));
  }

  pub visit-Inv : Inv g [] (visit g u rest s)
  unfolding visit popped
  visit-Inv = rw (outgoing_edges-eq-filter g u w) (relax_all-Inv g _ popped popped-Inv)

  pub visit-sorted : (visit g u rest s).sorted ≡ s.sorted ++ u ∷ []
  unfolding visit popped
  visit-sorted = (relax_all-Keeps g (outgoing_edges g u) popped).0

  pub visit-keys :
      (v : ℕ) → contains_key (visit g u rest s).in_degree v ≡ contains_key s.in_degree v
  unfolding visit popped
  visit-keys v = (relax_all-Keeps g (outgoing_edges g u) popped).1 v
