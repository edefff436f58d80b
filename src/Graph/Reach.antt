-- ===== src/Graph/Reach.antt =====
-- src/skcoord/dependency_graph.py: `would_create_cycle` decides reachability.
use skcoord.Prelude.{
  ℕ, zero, suc, String, ◌≡◌, refl, sym, ◌∙◌, subst, Bool, true, false, ◌||◌, ◌⊎◌, Option, none,
  some, List, [], ◌∷◌, arith, ◌==◌, eq_iff, contains, is_some, inl, inr, Bool-cases,
}
use skcoord.Graph.Cycle.{successors, extend, search, edge_count, would_create_cycle}
use skcoord.Graph.Fuel.{would_create_cycle-is_some}

abbrev pub Edge : List (String × List String) → String → String → Type 0
Edge edges a b = contains b (successors edges a) ≡ true

-- The walks along the dependencies.
pub data Reaches (edges : List (String × List String)) (a : String) : String → Type 0 where
  here : Reaches edges a a
  along : {b c : String} → Reaches edges a b → Edge edges b c → Reaches edges a c

contains-extend :
    (x : String) (stack cards : List String)
    → contains x (extend stack cards) ≡ (contains x cards || contains x stack)
contains-extend x stack [] = refl
contains-extend x stack (c ∷ cards) = ground (arith, contains-extend x (c ∷ stack) cards)

contains_same :
    (x y : String) (xs : List String)
    → (x == y) ≡ true
    → contains y xs ≡ true
    → contains x xs ≡ true
contains_same x y xs same m = subst (λ z. contains z xs ≡ true) (sym ((eq_iff x y).0 same)) m

module _ (edges : List (String × List String)) (card : String) where
  -- Everything on the stack is reached from `start`.
  abbrev Reached : String → List String → Type 0
  Reached start stack = (x : String) → contains x stack ≡ true → Reaches edges start x

  search_sound :
      (fuel : ℕ) (start : String) (seen stack : List String)
      → Reached start stack
      → search fuel edges card seen stack ≡ some true
      → Reaches edges start card
  unfolding search
  search_sound fuel start seen [] reached h = absurd (ground arith)
  search_sound zero start seen (current ∷ stack) reached h = cc
  search_sound (suc fuel) start seen (current ∷ stack) reached h =
      elim (Bool-cases (current == card)) [
        | inl found ↦ reached card (ground (arith, eq_iff current card, eq_iff card current))
        | inr other ↦ elim (Bool-cases (contains current seen)) [
          | inl old ↦
              search_sound fuel start seen stack (λ x m. reached x (ground arith))
                (rw (other, old) at h)
          | inr new ↦
              search_sound fuel start (current ∷ seen) (extend stack (successors edges current))
                (λ x m. deeper x (sym (contains-extend x stack (successors edges current)) ∙ m))
                (rw (other, new) at h)
        ]
      ]
    where
      top : Reaches edges start current
      top = reached current (ground (arith, eq_iff current current))

      deeper :
          (x : String)
          → (contains x (successors edges current) || contains x stack) ≡ true
          → Reaches edges start x
      deeper x m = elim (Bool-cases (contains x (successors edges current))) [
        | inl edge ↦ along top edge
        | inr below ↦ reached x (ground arith)
      ]

  -- A set of cards that holds its own dependencies and not the card.
  record Closed (seen stack : List String) : Type 0 where
    final : List String
    has_seen : (x : String) → contains x seen ≡ true → contains x final ≡ true
    has_stack : (x : String) → contains x stack ≡ true → contains x final ≡ true
    closed : (x y : String) → contains x final ≡ true → Edge edges x y → contains y final ≡ true
    avoids : contains card final ≡ false

  abbrev Explored : List String → List String → Type 0
  Explored seen stack =
      (x y : String)
      → contains x seen ≡ true
      → Edge edges x y
      → (contains y seen || contains y stack) ≡ true

  -- What the two rounds that go on leave explored.
  Explored-old :
      (current : String) (seen stack : List String)
      → contains current seen ≡ true
      → Explored seen (current ∷ stack)
      → Explored seen stack
  Explored-old current seen stack old explored x y m edge =
      ground (arith, explored x y m edge, contains_same y current seen)

  Explored-new :
      (current : String) (seen stack : List String)
      → Explored seen (current ∷ stack)
      → Explored (current ∷ seen) (extend stack (successors edges current))
  Explored-new current seen stack explored x y m edge = elim (Bool-cases (x == current)) [
    | inl same ↦
        let now = subst (λ z. Edge edges z y) ((eq_iff x current).0 same) edge in
        ground (arith, contains-extend y stack (successors edges current))
    | inr other ↦ ground (
      arith,
      explored x y (ground arith) edge,
      contains-extend y stack (successors edges current),
    )
  ]

  Closed-old :
      (current : String) (seen stack : List String)
      → contains current seen ≡ true
      → Closed seen stack
      → Closed seen (current ∷ stack)
  Closed-old current seen stack old k = record {
    final = k.final;
    has_seen = k.has_seen;
    has_stack = λ x m. elim (Bool-cases (x == current)) [
      | inl same ↦ k.has_seen x (contains_same x current seen same old)
      | inr other ↦ k.has_stack x (ground arith)
    ];
    closed = k.closed;
    avoids = k.avoids;
  }

  Closed-new :
      (current : String) (seen stack : List String)
      → Closed (current ∷ seen) (extend stack (successors edges current))
      → Closed seen (current ∷ stack)
  Closed-new current seen stack k = record {
    final = k.final;
    has_seen = λ x m. k.has_seen x (ground arith);
    has_stack = λ x m. elim (Bool-cases (x == current)) [
      | inl same ↦ k.has_seen x (ground arith)
      | inr other ↦
          k.has_stack x (ground (arith, contains-extend x stack (successors edges current)))
    ];
    closed = k.closed;
    avoids = k.avoids;
  }

  search_complete :
      (fuel : ℕ) (seen stack : List String)
      → Explored seen stack
      → contains card seen ≡ false
      → search fuel edges card seen stack ≡ some false
      → Closed seen stack
  unfolding search
  search_complete fuel seen [] explored fresh h = record {
    final = seen;
    has_seen = λ x m. m;
    has_stack = λ x m. absurd (ground arith);
    closed = λ x y m edge. ground (arith, explored x y m edge);
    avoids = fresh;
  }
  search_complete zero seen (current ∷ stack) explored fresh h = cc
  search_complete (suc fuel) seen (current ∷ stack) explored fresh h =
      elim (Bool-cases (current == card)) [
        | inl found ↦ absurd (ground arith)
        | inr other ↦ elim (Bool-cases (contains current seen)) [
          | inl old ↦ Closed-old current seen stack old (
              search_complete fuel seen stack (Explored-old current seen stack old explored) fresh
                (rw (other, old) at h))
          | inr new ↦ Closed-new current seen stack (
              search_complete fuel (current ∷ seen) (extend stack (successors edges current))
                (Explored-new current seen stack explored)
                (ground (arith, eq_iff current card, eq_iff card current)) (rw (other, new) at h))
        ]
      ]

  -- What is reached from a card of a closed set is in the set.
  Reaches-final :
      {seen stack : List String} (k : Closed seen stack) {a b : String}
      → contains a k.final ≡ true
      → Reaches edges a b
      → contains b k.final ≡ true
  Reaches-final k m here = m
  Reaches-final k m (along {b} {c} walk edge) = k.closed b c (Reaches-final k m walk) edge

module _ (edges : List (String × List String)) (card_id dependency_id : String) where
  cycle_sound :
      would_create_cycle edges card_id dependency_id ≡ some true
      → Reaches edges dependency_id card_id
  unfolding would_create_cycle
  cycle_sound h = elim (Bool-cases (card_id == dependency_id)) [
    | inl same ↦
        subst (λ x. Reaches edges dependency_id x) (sym ((eq_iff card_id dependency_id).0 same))
          here
    | inr other ↦
        search_sound edges card_id (suc (edge_count edges)) dependency_id [] (dependency_id ∷ [])
          (λ x m.
            subst (λ y. Reaches edges dependency_id y)
              (sym ((eq_iff x dependency_id).0 (ground arith))) here)
          (rw other at h)
  ]

  pub cycle_complete :
      would_create_cycle edges card_id dependency_id ≡ some false
      → Reaches edges dependency_id card_id
      → ⊥
  unfolding would_create_cycle
  cycle_complete h walk = elim (Bool-cases (card_id == dependency_id)) [
    | inl same ↦ absurd (ground arith)
    | inr other ↦
        let k =
          search_complete edges card_id (suc (edge_count edges)) [] (dependency_id ∷ [])
            (λ x y m edge. absurd (ground arith)) refl (rw other at h) in
        let inside =
          Reaches-final edges card_id k
            (k.has_stack dependency_id (ground (arith, eq_iff dependency_id dependency_id))) walk in
        absurd (ground (arith, k.avoids, inside))
  ]

  -- The check always answers, and it answers yes exactly if the dependency already reaches the card
  -- along the edges, by a walk of any length.
  pub would_create_cycle-Reaches :
      (would_create_cycle edges card_id dependency_id ≡ some true)
        × Reaches edges dependency_id card_id
      ⊎ (would_create_cycle edges card_id dependency_id ≡ some false)
        × (Reaches edges dependency_id card_id → ⊥)
  would_create_cycle-Reaches =
      answer (would_create_cycle edges card_id dependency_id) refl
        (would_create_cycle-is_some edges card_id dependency_id)
    where
      answer :
          (o : Option Bool)
          → would_create_cycle edges card_id dependency_id ≡ o
          → is_some o ≡ true
          → (would_create_cycle edges card_id dependency_id ≡ some true)
              × Reaches edges dependency_id card_id
            ⊎ (would_create_cycle edges card_id dependency_id ≡ some false)
              × (Reaches edges dependency_id card_id → ⊥)
      answer none p h = cc
      answer (some true) p h = inl (p, cycle_sound p)
      answer (some false) p h = inr (p, cycle_complete p)
