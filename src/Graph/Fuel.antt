-- ===== src/Graph/Fuel.antt =====
-- src/skcoord/dependency_graph.py: the loop of `would_create_cycle` ends. The fuel outlasts the stack
-- and the edges of the cards that were not seen.
use skcoord.Prelude.{
  ℕ, zero, suc, ◌+◌, ◌≤◌, String, ◌≡◌, refl, true, false, List, [], ◌∷◌, arith, ◌==◌, eq_iff,
  length, contains, look_up, is_some, inl, inr, Bool-cases, if◌then◌else◌,
}
use skcoord.Graph.Cycle.{successors, extend, search, edge_count, would_create_cycle}

length-extend :
    (stack cards : List String) → length (extend stack cards) ≡ length stack + length cards
length-extend stack [] = omega arith
length-extend stack (c ∷ cards) = omega (arith, length-extend (c ∷ stack) cards)

-- The number of edges that leave cards not seen.
abbrev unseen_count : List (String × List String) → List String → ℕ
unseen_count [] seen = 0
unseen_count ((k, cards) ∷ edges) seen =
    (if contains k seen then 0 else length cards) + unseen_count edges seen

unseen_count-cons :
    (edges : List (String × List String)) (current : String) (seen : List String)
    → unseen_count edges (current ∷ seen) ≤ unseen_count edges seen
unseen_count-cons [] current seen = omega arith
unseen_count-cons ((k, cards) ∷ edges) current seen =
    ground (arith, unseen_count-cons edges current seen)

-- Seeing a card takes its edges off the count.
unseen_count-seen :
    (edges : List (String × List String)) (current : String) (seen : List String)
    → contains current seen ≡ false
    → unseen_count edges (current ∷ seen) + length (successors edges current)
      ≤ unseen_count edges seen
unfolding look_up
unseen_count-seen [] current seen new = omega arith
unseen_count-seen ((k, cards) ∷ edges) current seen new = ground (
  arith,
  unseen_count-seen edges current seen,
  unseen_count-cons edges current seen,
  eq_iff k current,
  eq_iff current k,
)

search-is_some :
    (fuel : ℕ) (edges : List (String × List String)) (card : String) (seen stack : List String)
    → length stack + unseen_count edges seen ≤ fuel
    → is_some (search fuel edges card seen stack) ≡ true
unfolding search
search-is_some fuel edges card seen [] h = refl
search-is_some zero edges card seen (current ∷ stack) h = absurd (omega arith)
search-is_some (suc fuel) edges card seen (current ∷ stack) h =
    elim (Bool-cases (current == card)) [
      | inl found ↦ rw found refl
      | inr other ↦ elim (Bool-cases (contains current seen)) [
        | inl old ↦ rw (other, old) (search-is_some fuel edges card seen stack (omega arith))
        | inr new ↦
            rw (other, new)
              (search-is_some fuel edges card (current ∷ seen)
                (extend stack (successors edges current))
                (omega (
                  arith,
                  length-extend stack (successors edges current),
                  unseen_count-seen edges current seen new,
                )))
      ]
    ]

unseen_count-none : (edges : List (String × List String)) → unseen_count edges [] ≡ edge_count edges
unseen_count-none [] = refl
unseen_count-none ((k, cards) ∷ edges) = omega (arith, unseen_count-none edges)

-- The fuel of `would_create_cycle`, one more than there are edges, is always enough.
pub would_create_cycle-is_some :
    (edges : List (String × List String)) (card_id dependency_id : String)
    → is_some (would_create_cycle edges card_id dependency_id) ≡ true
unfolding would_create_cycle
would_create_cycle-is_some edges card_id dependency_id =
    elim (Bool-cases (card_id == dependency_id)) [
      | inl same ↦ rw same refl
      | inr other ↦ rw other (
          search-is_some (suc (edge_count edges)) edges card_id [] (dependency_id ∷ [])
            (omega (arith, unseen_count-none edges)))
    ]
