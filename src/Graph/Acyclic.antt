-- ===== src/Graph/Acyclic.antt =====
-- src/skcoord/dependency_graph.py and src/skcoord/card_store.py: a checked edge keeps the dependencies
-- free of cycles.
use skcoord.Prelude.{
  look_up-put, contains-append_one, String, ◌≡◌, sym, subst, false, ◌⊎◌, some, List, arith, ◌==◌,
  eq_iff, append_one, inl, inr, Bool-cases,
}
use skcoord.Graph.Cycle.{successors, would_create_cycle, add_edge}
use skcoord.Graph.Reach.{Edge, Reaches, here, along, cycle_complete}

-- No walk comes back to where it started.
abbrev pub IsAcyclic : List (String × List String) → Type 0
IsAcyclic edges = (a b : String) → Reaches edges a b → Edge edges b a → ⊥

module _ (edges : List (String × List String)) (card_id dependency_id : String) where
  -- An edge of the larger graph is one of the smaller, or the new one.
  Edge-cases :
      (a b : String)
      → Edge (add_edge edges card_id dependency_id) a b
      → Edge edges a b ⊎ (a ≡ card_id) × (b ≡ dependency_id)
  unfolding add_edge
  Edge-cases a b h = elim (Bool-cases (card_id == a)) [
    | inl same ↦
        let grown = append_one (successors edges card_id) dependency_id in
        let m = (rw (look_up-put card_id a grown edges, same) at h) in
        elim (Bool-cases (b == dependency_id)) [
          | inl new ↦ inr (sym ((eq_iff card_id a).0 same), (eq_iff b dependency_id).0 new)
          | inr old ↦ inl (
              subst (λ x. Edge edges x b) ((eq_iff card_id a).0 same)
                (ground (arith, m, contains-append_one b dependency_id (successors edges card_id))))
        ]
    | inr other ↦ inl (
        rw
          (look_up-put card_id a (append_one (successors edges card_id) dependency_id) edges, other)
          at h)
  ]

  -- A walk of the larger graph that takes the new edge goes by the card and the dependency.
  Reaches-cases :
      {a b : String}
      → Reaches (add_edge edges card_id dependency_id) a b
      → Reaches edges a b ⊎ Reaches edges a card_id × Reaches edges dependency_id b
  Reaches-cases {a} here = inl here
  Reaches-cases {a} (along {b} {c} walk edge) = elim (Edge-cases b c edge) [
    | inl old ↦ elim (Reaches-cases walk) [
      | inl r ↦ inl (along r old)
      | inr (p, q) ↦ inr (p, along q old)
    ]
    | inr (from, to) ↦ elim (Reaches-cases walk) [
      | inl r ↦ inr (
        subst (λ x. Reaches edges a x) from r,
        subst (λ x. Reaches edges dependency_id x) (sym to) here,
      )
      | inr (p, q) ↦ inr (p, subst (λ x. Reaches edges dependency_id x) (sym to) here)
    ]
  ]

  -- A dependency that passes the check leaves the graph acyclic, if it was.
  pub add_edge-IsAcyclic :
      IsAcyclic edges
      → would_create_cycle edges card_id dependency_id ≡ some false
      → IsAcyclic (add_edge edges card_id dependency_id)
  add_edge-IsAcyclic acyclic checked a b walk edge = elim (Edge-cases b a edge) [
    | inl old ↦ elim (Reaches-cases walk) [
      | inl r ↦ acyclic a b r old
      | inr (p, q) ↦ none_back (trans (along q old) p)
    ]
    | inr (from, to) ↦ elim (Reaches-cases walk) [
      | inl r ↦
          none_back
            (subst (λ x. Reaches edges x card_id) to (subst (λ x. Reaches edges a x) from r))
      | inr (p, q) ↦ none_back (subst (λ x. Reaches edges dependency_id x) from q)
    ]
  ]
    where
      none_back : Reaches edges dependency_id card_id → ⊥
      none_back = cycle_complete edges card_id dependency_id checked

      trans : {x y z : String} → Reaches edges x y → Reaches edges y z → Reaches edges x z
      trans p here = p
      trans p (along q e) = along (trans p q) e
