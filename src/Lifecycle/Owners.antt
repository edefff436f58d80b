-- ===== src/Lifecycle/Owners.antt =====
-- src/skcoord/lifecycle.py: what an audit without issues says of the cards' owners and of the board.
use mathlib.Core.List.{Memᴰ}
use skcoord.Prelude.{
  String, ◌≡◌, ◌≢◌, refl, sym, subst, Bool, true, false, not, ◌&&◌, ◌⊎◌, inl, inr, Option, none,
  some, get_or, List, [], ◌∷◌, map, foldl, arith, ◌==◌, eq_iff, All, contains, is_set, is_some,
  keep_if, look_up, Bool-cases, if◌then◌else◌,
}
use skcoord.Card.Model.{Column, doing, Card}
use skcoord.Coord.Model.{AgentFile}
use skcoord.Lifecycle.Audit.{
  gathered, in_scope, is_column, scoped_cards, holders_of, holder_issues, lacks_claim,
  is_owned_column, owner_issues, add_to, doing_by_owner, is_elsewhere, doing_issues_of,
  doing_issues,
}
use skcoord.Lifecycle.Quiet.{quiet}
use skcoord.Lifecycle.Clean.{IsAligned}
use skcoord.Lifecycle.Holders.{HeldIn, added, kept_on, was_held, entry_at}

module _ (agents : List (String × AgentFile)) where
  -- The owner of a card in ready, doing or review has a file that claims it.
  abbrev pub OwnerRight : Card → Type 0
  OwnerRight c =
      (is_set c.owner ≡ false)
      ⊎ (is_owned_column c.status ≡ false)
      ⊎ (a : AgentFile) × (look_up (get_or c.owner "") agents ≡ some a)
        × (contains c.id a.claimed_tasks ≡ true)

  claims_it :
      (o : Option AgentFile) (id : String)
      → lacks_claim o id ≡ false
      → (a : AgentFile) × (o ≡ some a) × (contains id a.claimed_tasks ≡ true)
  claims_it none id h = cc
  claims_it (some a) id h = (a, refl, ground arith)

  pub owner_right : (e : String × Card) → owner_issues agents e ≡ [] → OwnerRight e.1
  unfolding owner_issues
  owner_right (id, c) h =
      let lacks = lacks_claim (look_up (get_or c.owner "") agents) c.id in
      let clear = quiet (is_set c.owner && is_owned_column c.status && lacks) _ _ _ h in
      elim (Bool-cases (is_set c.owner)) [
        | inr unset ↦ inl unset
        | inl set ↦ elim (Bool-cases (is_owned_column c.status)) [
          | inr away ↦ inr (inl away)
          | inl owned ↦
              inr (
                inr
                  (claims_it (look_up (get_or c.owner "") agents) c.id (rw (set, owned) at clear)))
        ]
      ]

abbrev add_doing : List (String × List String) → String × Card → List (String × List String)
add_doing owned e =
    if (is_set e.1.owner && is_column e.1.status doing)
    then add_to (get_or e.1.owner "") e.1.id owned
    else owned

doing_through :
    (owner id : String) (cards : List (String × Card)) (d : List (String × List String))
    → HeldIn d owner id
    → HeldIn (foldl add_doing d cards) owner id
doing_through owner id [] d h = h
doing_through owner id (e ∷ cards) d h =
    elim (Bool-cases (is_set e.1.owner && is_column e.1.status doing)) [
      | inl adds ↦
          rw adds
            (doing_through owner id cards _ (kept_on owner id (get_or e.1.owner "") e.1.id d h))
      | inr keeps ↦ rw keeps (doing_through owner id cards d h)
    ]

doing_held :
    (key : String) {c : Card} (cards : List (String × Card)) (d : List (String × List String))
    → look_up key cards ≡ some c
    → (is_set c.owner && is_column c.status doing) ≡ true
    → HeldIn (foldl add_doing d cards) (get_or c.owner "") c.id
unfolding look_up
doing_held key [] d h on = cc
doing_held key {c} ((k, b) ∷ cards) d h on = elim (Bool-cases (k == key)) [
  | inl same ↦
      let here : c ≡ b = ground arith in
      subst (λ z. HeldIn (foldl add_doing (add_doing d (k, z)) cards) (get_or c.owner "") c.id) here
        (rw on (doing_through (get_or c.owner "") c.id cards _ (added (get_or c.owner "") c.id d)))
  | inr other ↦ doing_held key cards _ (rw other at h) on
]

-- The task is a card in doing that the agent owns.
abbrev pub IsWork : List (String × Card) → String → String → Type 0
IsWork cards owner id =
    (e : String × Card) × Memᴰ e cards
    × (e.1.id ≡ id)
    × (is_set e.1.owner ≡ true)
    × (get_or e.1.owner "" ≡ owner)
    × (e.1.status ≡ doing)

is_doing : (column : Column) → is_column column doing ≡ true → column ≡ doing
is_doing doing h = refl
is_doing _ h = cc

-- What is collected was there before or is such a card.
doing_collected :
    (owner id : String) (cards : List (String × Card)) (d : List (String × List String))
    → HeldIn (foldl add_doing d cards) owner id
    → HeldIn d owner id ⊎ IsWork cards owner id
doing_collected owner id [] d h = inl h
doing_collected owner id (e ∷ cards) d h = elim (doing_collected owner id cards (add_doing d e) h) [
  | inr (b, among, same, set, own, on) ↦ inr (b, Memᴰ.tail among, same, set, own, on)
  | inl held ↦ elim (Bool-cases (is_set e.1.owner && is_column e.1.status doing)) [
    | inr keeps ↦ inl (rw keeps at held)
    | inl adds ↦ elim (was_held owner id (get_or e.1.owner "") e.1.id d (rw adds at held)) [
      | inl before ↦ inl before
      | inr (own, same) ↦
          inr (e, Memᴰ.head refl, same, ground arith, own, is_doing e.1.status (ground arith))
    ]
  ]
]

none_held : (owner id : String) → HeldIn [] owner id → ⊥
unfolding look_up
none_held owner id (ids, listed, mine) = cc

doing_owned :
    (owner id : String) (cards : List (String × Card))
    → HeldIn (foldl add_doing [] cards) owner id
    → IsWork cards owner id
doing_owned owner id cards h = elim (doing_collected owner id cards [] h) [
  | inl held ↦ absurd (none_held owner id held)
  | inr work ↦ work
]

-- The owner's file has as its current task a card in doing that the agent owns.
abbrev pub WorksOnOne : List (String × Card) → List (String × AgentFile) → String → Type 0
WorksOnOne cards agents owner =
    (a : AgentFile) × (id : String) × (look_up owner agents ≡ some a)
    × (a.current_task ≡ some id)
    × IsWork cards owner id

is_there :
    (o : Option AgentFile) (ids : List String)
    → is_elsewhere o ids ≡ false
    → (a : AgentFile) × (id : String) × (o ≡ some a)
      × (a.current_task ≡ some id)
      × (contains id ids ≡ true)
is_there none ids h = cc
is_there (some a) ids h = current a.current_task refl h
  where
    current :
        (o : Option String)
        → a.current_task ≡ o
        → not (is_some o && contains (get_or o "") ids) ≡ false
        → (b : AgentFile) × (id : String) × (some a ≡ some b)
          × (b.current_task ≡ some id)
          × (contains id ids ≡ true)
    current none p k = cc
    current (some id) p k = (a, id, refl, p, ground arith)

none_kept :
    (test : String → Bool) (id : String) (ids : List String)
    → keep_if test ids ≡ []
    → contains id ids ≡ true
    → test id ≡ false
none_kept test id [] h k = cc
none_kept test id (x ∷ ids) h k = elim (Bool-cases (test x)) [
  | inl yes_x ↦ absurd (ground arith)
  | inr no_x ↦ elim (Bool-cases (id == x)) [
    | inl same ↦ subst (λ z. test z ≡ false) (sym ((eq_iff id x).0 same)) no_x
    | inr other ↦ none_kept test id ids (rw no_x at h) (ground arith)
  ]
]

module _ (scope : Option (List String)) (cards : List (String × Card))
    (agents : List (String × AgentFile)) where
  doing_of :
      (o : Option AgentFile) (name : String) (ids kept : List String)
      → kept ≢ []
      → doing_issues_of o name ids kept ≡ []
      → is_elsewhere o ids ≡ false
  doing_of o name ids [] some_kept h = absurd (some_kept refl)
  doing_of o name ids (t ∷ ts) some_kept h = quiet (is_elsewhere o ids) _ _ _ h

  -- The owner of a card in doing works on a card of its own.
  pub doing_right :
      (id : String) {c : Card}
      → All (λ e. doing_issues scope agents e ≡ []) (doing_by_owner cards)
      → look_up id cards ≡ some c
      → in_scope scope c.id ≡ true
      → is_set c.owner ≡ true
      → c.status ≡ doing
      → WorksOnOne cards agents (get_or c.owner "")
  unfolding doing_by_owner doing_issues
  doing_right id {c} quiet_all found seen set on =
      let owner = get_or c.owner "" in
      let (ids, listed, has) = doing_held id cards [] found (rw (set, on) refl) in
      let silent =
        entry_at (λ e. doing_issues scope agents e ≡ []) owner (doing_by_owner cards) quiet_all
          listed in
      let some_kept : keep_if (in_scope scope) ids ≢ [] = λ h.
        absurd (elsewhere (in_scope scope c.id) seen (none_kept (in_scope scope) c.id ids h has)) in
      let (a, task, there, current, mine) = is_there (look_up owner agents) ids (
        doing_of (look_up owner agents) owner ids (keep_if (in_scope scope) ids) some_kept
          silent) in
      let work = doing_owned owner task cards (ids, listed, mine) in (a, task, there, current, work)
    where
      elsewhere : (b : Bool) → b ≡ true → b ≡ false → ⊥
      elsewhere b t f = cc

  -- What the audit checks, of the dicts: every file is right, every owner in the scope claims its card,
  -- no task in the scope has two claimants, and who owns a card in doing works on one.
  pub record IsAgreed : Type 0 where
    pub files : All (λ (e : String × AgentFile). IsAligned scope cards e.1) agents
    pub owners : All (λ (e : String × Card). OwnerRight agents e.1) (scoped_cards scope cards)
    pub holders :
        gathered holder_issues (holders_of scope (map (λ (e : String × AgentFile). e.1) agents))
        ≡ []
    pub doing_owners : All (λ e. doing_issues scope agents e ≡ []) (doing_by_owner cards)
