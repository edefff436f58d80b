-- ===== src/Tests/Graphs.antt =====
-- Dependencies: the theorems on src/skcoord/dependency_graph.py at a concrete graph.
use skcoord.Prelude.{
  String, ◌≡◌, refl, true, false, ◌⊎◌, some, List, [], ◌∷◌, is_blank, arith, contains, look_up, put,
}
use skcoord.Card.Model.{Card}
use skcoord.Graph.Amend.{
  Home, edges_of, dependencies_of, amendment, amend_locked, amend_dependency,
  amend_dependency-IsAcyclic,
}
use skcoord.Tests.Boards.{some_card}
use skcoord.Graph.Cycle.{search, would_create_cycle, add_edge}
use skcoord.Graph.Reach.{Reaches, would_create_cycle-Reaches}
use skcoord.Graph.Acyclic.{IsAcyclic, add_edge-IsAcyclic}

abbrev some_edges : List (String × List String)
some_edges = ("deploy", "build" ∷ "review" ∷ []) ∷ ("build", "plan" ∷ []) ∷ []

would_create_cycle-Reaches_example :
    (would_create_cycle some_edges "plan" "deploy" ≡ some true) × Reaches some_edges "deploy" "plan"
    ⊎ (would_create_cycle some_edges "plan" "deploy" ≡ some false)
      × (Reaches some_edges "deploy" "plan" → ⊥)
would_create_cycle-Reaches_example = would_create_cycle-Reaches some_edges "plan" "deploy"

no_edges : IsAcyclic []
unfolding look_up
no_edges a b walk edge = absurd (ground arith)

add_edge-IsAcyclic_example : IsAcyclic (add_edge [] "deploy" "build")
unfolding would_create_cycle search look_up
add_edge-IsAcyclic_example = add_edge-IsAcyclic [] "deploy" "build" no_edges refl

abbrev card_of : String → List String → Card
card_of id dependencies = record some_card { id = id; dependencies = dependencies }

abbrev some_home : Home
some_home = record { cards = card_of "deploy" [] ∷ card_of "build" [] ∷ []; tasks = [] }

home-IsAcyclic : IsAcyclic (edges_of some_home.cards)
unfolding look_up put
home-IsAcyclic a b walk edge = absurd (ground arith)

amend_dependency-IsAcyclic_example :
    IsAcyclic (add_edge (edges_of some_home.cards) "deploy" "build")
    × ((amendment "add_dependency" "opus" "build").dependency ≡ some "build")
    × (contains "build" (dependencies_of some_home.cards "deploy") ≡ false)
unfolding amend_dependency amend_locked would_create_cycle search look_up put is_blank
amend_dependency-IsAcyclic_example =
    amend_dependency-IsAcyclic some_home "deploy" "build" "opus" "the build comes first"
      {e = amendment "add_dependency" "opus" "build"} home-IsAcyclic refl
