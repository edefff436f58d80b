-- ===== src/Graph/Cycle.antt =====
-- src/skcoord/dependency_graph.py: `would_create_cycle`. The stack has its top at the head, and the
-- loop runs on fuel, one unit for each pop.
use skcoord.Prelude.{
  ℕ, zero, suc, ◌+◌, String, Bool, true, false, Option, none, some, get_or, List, [], ◌∷◌, ◌==◌,
  length, contains, look_up, put, append_one, if◌then◌else◌,
}

-- edges.get(card, ())
abbrev pub successors : List (String × List String) → String → List String
successors edges card = get_or (look_up card edges) []

-- stack.extend(cards)
abbrev pub extend : List String → List String → List String
extend stack [] = stack
extend stack (c ∷ cards) = extend (c ∷ stack) cards

-- The loop; none where the fuel is spent.
unfoldable pub search :
    ℕ → List (String × List String) → String → List String → List String → Option Bool
search fuel edges card seen [] = some false
search zero edges card seen (current ∷ stack) = none
search (suc fuel) edges card seen (current ∷ stack) =
    let again = search fuel edges card seen stack in
    let deeper =
      search fuel edges card (current ∷ seen) (extend stack (successors edges current)) in
    if current == card then some true else if contains current seen then again else deeper

-- The number of edges, which bounds the pops behind the first.
abbrev pub edge_count : List (String × List String) → ℕ
edge_count [] = 0
edge_count ((k, cards) ∷ edges) = length cards + edge_count edges

unfoldable pub would_create_cycle : List (String × List String) → String → String → Option Bool
unfolding search
would_create_cycle edges card_id dependency_id =
    if card_id == dependency_id
    then some true
    else search (suc (edge_count edges)) edges card_id [] (dependency_id ∷ [])

-- The edges with one more, as the fold of add_dependency leaves them.
unfoldable pub add_edge :
    List (String × List String) → String → String → List (String × List String)
add_edge edges card_id dependency_id =
    put card_id (append_one (successors edges card_id) dependency_id) edges
