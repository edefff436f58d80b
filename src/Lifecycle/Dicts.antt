-- ===== src/Lifecycle/Dicts.antt =====
-- src/skcoord/lifecycle.py: the dicts of cards and of agents: each entry is found under its key.
use skcoord.Prelude.{
  String, ◌≡◌, refl, sym, ap, subst, ◌∙◌, inl, inr, true, false, ◌||◌, Option, some, get_or, List,
  [], ◌∷◌, arith, ◌==◌, eq_iff, All, All-mono, Bool-cases, contains, put, look_up, IsDistinct,
}
use skcoord.Card.Model.{Card}
use skcoord.Coord.Model.{AgentFile}
use skcoord.Lifecycle.Audit.{in_scope, cards_by_id, agents_by_name, scoped_cards}

module _ {V : Type 0} where
  abbrev pub keys : List (String × V) → List String
  keys [] = []
  keys (e ∷ d) = e.0 ∷ keys d

  keys-put :
      (x k : String) (v : V) (d : List (String × V))
      → contains x (keys (put k v d)) ≡ (contains x (keys d) || x == k)
  unfolding put
  keys-put x k v [] = ground arith
  keys-put x k v ((k', v') ∷ d) =
      ground (arith, keys-put x k v d, eq_iff k' k, eq_iff x k, eq_iff x k')

  pub put-IsDistinct :
      (k : String) (v : V) (d : List (String × V))
      → IsDistinct (keys d)
      → IsDistinct (keys (put k v d))
  unfolding put
  put-IsDistinct k v [] apart = (refl, tt)
  put-IsDistinct k v ((k', v') ∷ d) (fresh, apart) = elim (Bool-cases (k' == k)) [
    | inl same ↦
        rw same (subst (λ n. contains n (keys d) ≡ false) ((eq_iff k' k).0 same) fresh, apart)
    | inr other ↦ rw other (ground (arith, keys-put k' k v d), put-IsDistinct k v d apart)
  ]

  pub put-All :
      (P : String × V → Type 0) (k : String) (v : V) (d : List (String × V))
      → P (k, v)
      → All P d
      → All P (put k v d)
  unfolding put
  put-All P k v [] p all = (p, tt)
  put-All P k v ((k', v') ∷ d) p (q, all) = elim (Bool-cases (k' == k)) [
    | inl same ↦ rw same (p, all)
    | inr other ↦ rw other (q, put-All P k v d p all)
  ]

  -- What is found has the property of the entries.
  pub look_up-All :
      (P : String × V → Type 0) (k : String) (v : V) (d : List (String × V))
      → All P d
      → look_up k d ≡ some v
      → P (k, v)
  unfolding look_up
  look_up-All P k v [] all h = cc
  look_up-All P k v ((k', v') ∷ d) (p, all) h = elim (Bool-cases (k' == k)) [
    | inl same ↦ subst P (λ i. ((eq_iff k' k).0 same i, found_some (rw same at h) i)) p
    | inr other ↦ look_up-All P k v d all (rw other at h)
  ]
    where
      found_some : {a b : V} → some a ≡ some b → a ≡ b
      found_some {a = a} e = ap (λ o. get_or o a) e

  keys_in : (d : List (String × V)) → All (λ e. contains e.0 (keys d) ≡ true) d
  keys_in [] = tt
  keys_in ((k, v) ∷ d) = (ground (arith, eq_iff k k), All-mono (λ e h. ground arith) d (keys_in d))

  -- Where no key stands twice each entry is found by its key.
  pub entries_found :
      (d : List (String × V)) → IsDistinct (keys d) → All (λ e. look_up e.0 d ≡ some e.1) d
  unfolding look_up
  entries_found [] apart = tt
  entries_found ((k, v) ∷ d) (fresh, apart) =
      (rw ((eq_iff k k).1 refl) refl, behind d (keys_in d) (entries_found d apart))
    where
      other_key : (x : String) → contains x (keys d) ≡ true → (k == x) ≡ false
      other_key x held = elim (Bool-cases (k == x)) [
        | inl same ↦ absurd (
            differ
              (sym held ∙ subst (λ n. contains n (keys d) ≡ false) ((eq_iff k x).0 same) fresh))
        | inr other ↦ other
      ]
        where
          differ : true ≡ false → ⊥
          differ e = cc

      behind :
          (l : List (String × V))
          → All (λ e. contains e.0 (keys d) ≡ true) l
          → All (λ e. look_up e.0 d ≡ some e.1) l
          → All (λ e. look_up e.0 ((k, v) ∷ d) ≡ some e.1) l
      behind [] held found = tt
      behind (e ∷ l) (h, held) (f, found) = (rw (other_key e.0 h) f, behind l held found)

-- Each entry stands under its card's id, or its agent's name, and each key stands once.
pub record IsDict {V : Type 0} (name : V → String) (d : List (String × V)) : Type 0 where
  pub named : All (λ e. name e.1 ≡ e.0) d
  pub once : IsDistinct (keys d)

pub cards_by_id-IsDict :
    (found : List (String × Card)) (cards : List Card)
    → IsDict (λ c. c.id) found
    → IsDict (λ c. c.id) (cards_by_id found cards)
unfolding cards_by_id
cards_by_id-IsDict found [] d = d
cards_by_id-IsDict found (c ∷ cards) d = cards_by_id-IsDict (put c.id c found) cards (record {
  named = put-All (λ e. e.1.id ≡ e.0) c.id c found refl d.named;
  once = put-IsDistinct c.id c found d.once;
})

pub agents_by_name-named :
    (found : List (String × AgentFile)) (agents : List AgentFile)
    → All (λ e. e.1.agent ≡ e.0) found
    → All (λ e. e.1.agent ≡ e.0) (agents_by_name found agents)
unfolding agents_by_name
agents_by_name-named found [] d = d
agents_by_name-named found (a ∷ agents) d =
    agents_by_name-named (put a.agent a found) agents
      (put-All (λ e. e.1.agent ≡ e.0) a.agent a found refl d)

module _ (scope : Option (List String)) where
  scoped_keys :
      (x : String) (cards : List (String × Card))
      → contains x (keys cards) ≡ false
      → contains x (keys (scoped_cards scope cards)) ≡ false
  unfolding scoped_cards
  scoped_keys x [] h = refl
  scoped_keys x ((id, c) ∷ cards) h = ground (arith, scoped_keys x cards)

  pub scoped_cards-IsDict :
      (cards : List (String × Card))
      → IsDict (λ c. c.id) cards
      → IsDict (λ c. c.id) (scoped_cards scope cards)
  unfolding scoped_cards
  scoped_cards-IsDict [] d = d
  scoped_cards-IsDict ((id, c) ∷ cards) d =
      let rest = scoped_cards-IsDict cards (record { named = d.named.1; once = d.once.1 }) in
      elim (Bool-cases (in_scope scope id)) [
        | inl inside ↦ rw inside (record {
          named = (d.named.0, rest.named);
          once = (scoped_keys id cards d.once.0, rest.once);
        })
        | inr outside ↦ rw outside rest
      ]

  -- In the dict of the cards in scope, each card is found by its id.
  pub scoped-found :
      (cards : List Card)
      → All
          (λ e. look_up e.1.id (scoped_cards scope (cards_by_id [] cards)) ≡ some e.1)
          (scoped_cards scope (cards_by_id [] cards))
  scoped-found cards =
      let d =
        scoped_cards-IsDict (cards_by_id [] cards)
          (cards_by_id-IsDict [] cards (record { named = tt; once = tt })) in
      renamed _ (scoped_cards scope (cards_by_id [] cards)) d.named (entries_found _ d.once)
    where
      renamed :
          (all l : List (String × Card))
          → All (λ e. e.1.id ≡ e.0) l
          → All (λ e. look_up e.0 all ≡ some e.1) l
          → All (λ e. look_up e.1.id all ≡ some e.1) l
      renamed all [] named found = tt
      renamed all (e ∷ l) (n, named) (f, found) =
          (ap (λ id. look_up id all) n ∙ f, renamed all l named found)
