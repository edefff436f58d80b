-- ===== src/Lifecycle/Holders.antt =====
-- src/skcoord/lifecycle.py: who claims a task, as the audit collects it.
use skcoord.Prelude.{
  String, ◌≡◌, refl, sym, ◌∙◌, subst, true, false, not, ◌⊎◌, inl, inr, Option, none, some, get_or,
  List, [], ◌∷◌, map, foldl, arith, ◌==◌, eq_iff, All, any_of, append_one, contains,
  contains-append_one, look_up, look_up-put, Bool-cases, if◌then◌else◌,
}
use skcoord.Coord.Model.{AgentFile}
use skcoord.Lifecycle.Audit.{
  gathered, in_scope, add_to, add_held, holders_of, are_several, holder_issues,
}
use skcoord.Lifecycle.Quiet.{gathered-empty, quiet}

-- The dict has the name under the task.
abbrev pub HeldIn : List (String × List String) → String → String → Type 0
HeldIn d id name =
    (owners : List String) × (look_up id d ≡ some owners) × (contains name owners ≡ true)

pub added : (id name : String) (d : List (String × List String)) → HeldIn (add_to id name d) id name
added id name d = (
  append_one (get_or (look_up id d) []) name,
  look_up-put id id (append_one (get_or (look_up id d) []) name) d
      ∙ rw ((eq_iff id id).1 refl) refl,
  ground (arith, contains-append_one name name (get_or (look_up id d) []), eq_iff name name),
)

pub kept_on :
    (id name key other : String) (d : List (String × List String))
    → HeldIn d id name
    → HeldIn (add_to key other d) id name
kept_on id name key other d (owners, found, has) = elim (Bool-cases (key == id)) [
  | inr away ↦ (
    owners,
    look_up-put key id (append_one (get_or (look_up key d) []) other) d ∙ rw away found,
    has,
  )
  | inl same ↦
      let at = sym ((eq_iff key id).0 same) in
      let here : look_up key d ≡ some owners = subst (λ k. look_up k d ≡ some owners) at found in
      (
        append_one (get_or (look_up key d) []) other,
        look_up-put key id (append_one (get_or (look_up key d) []) other) d ∙ rw same refl,
        subst (λ o. contains name (append_one (get_or o []) other) ≡ true) (sym here)
            (ground (arith, contains-append_one name other owners)),
      )
]

-- What the dict has under a task once a name is added is that name or was there before.
pub was_held :
    (id name key other : String) (d : List (String × List String))
    → HeldIn (add_to key other d) id name
    → HeldIn d id name ⊎ ((key ≡ id) × (other ≡ name))
was_held id name key other d (owners, found, has) = elim (Bool-cases (key == id)) [
  | inr away ↦ inl (
    owners,
    sym (look_up-put key id (append_one (get_or (look_up key d) []) other) d ∙ rw away refl)
        ∙ found,
    has,
  )
  | inl same ↦
      let at = (eq_iff key id).0 same in
      among (look_up key d) refl at (
        subst (λ l. contains name l ≡ true)
          (sym (
            some_inj (
              sym
                (look_up-put key id (append_one (get_or (look_up key d) []) other) d ∙ rw same refl)
              ∙ found)))
          has)
]
  where
    some_inj : {l k : List String} → some l ≡ some k → l ≡ k
    some_inj h = cc

    among :
        (o : Option (List String))
        → look_up key d ≡ o
        → key ≡ id
        → contains name (append_one (get_or o []) other) ≡ true
        → HeldIn d id name ⊎ ((key ≡ id) × (other ≡ name))
    among none h at k = inr (at, ground (arith, eq_iff name other))
    among (some l) h at k = elim (Bool-cases (contains name l)) [
      | inl old ↦ inl (l, subst (λ z. look_up z d ≡ some l) at h, old)
      | inr new ↦
          inr (at, sym ((eq_iff name other).0 (ground (arith, contains-append_one name other l))))
    ]

module _ (scope : Option (List String)) (id name : String) where
  held_kept :
      (other : String) (ids : List String) (d : List (String × List String))
      → HeldIn d id name
      → HeldIn (add_held scope other ids d) id name
  unfolding add_held
  held_kept other [] d h = h
  held_kept other (x ∷ ids) d h = elim (Bool-cases (in_scope scope x)) [
    | inl seen ↦ rw seen (held_kept other ids (add_to x other d) (kept_on id name x other d h))
    | inr unseen ↦ rw unseen (held_kept other ids d h)
  ]

  held_added :
      (ids : List String) (d : List (String × List String))
      → in_scope scope id ≡ true
      → contains id ids ≡ true
      → HeldIn (add_held scope name ids d) id name
  unfolding add_held
  held_added [] d seen h = cc
  held_added (x ∷ ids) d seen h = elim (Bool-cases (id == x)) [
    | inl same ↦
        let at = (eq_iff id x).0 same in
        subst
          (λ z.
            HeldIn (add_held scope name ids (if in_scope scope z then add_to z name d else d)) id
              name)
          at (rw seen (held_kept name ids (add_to id name d) (added id name d)))
    | inr other ↦ held_added ids _ seen (ground arith)
  ]

  held_through :
      (files : List AgentFile) (d : List (String × List String))
      → HeldIn d id name
      → HeldIn
          (foldl
            (λ holders (a : AgentFile). add_held scope a.agent a.claimed_tasks holders)
            d
            files)
          id
          name
  held_through [] d h = h
  held_through (a ∷ files) d h = held_through files _ (held_kept a.agent a.claimed_tasks d h)

-- Every agent's claim of a task in the scope is among the holders.
held_by_all :
    (scope : Option (List String)) (id key : String) {a : AgentFile}
    (agents : List (String × AgentFile)) (d : List (String × List String))
    → in_scope scope id ≡ true
    → look_up key agents ≡ some a
    → contains id a.claimed_tasks ≡ true
    → HeldIn
        (foldl
          (λ holders (b : AgentFile). add_held scope b.agent b.claimed_tasks holders)
          d
          (map (λ (e : String × AgentFile). e.1) agents))
        id
        a.agent
unfolding look_up
held_by_all scope id key [] d seen found h = cc
held_by_all scope id key {a} ((k, b) ∷ agents) d seen found h = elim (Bool-cases (k == key)) [
  | inl same ↦
      let here : b ≡ a = ground arith in
      held_through scope id a.agent (map (λ (e : String × AgentFile). e.1) agents) _ (
        subst (λ z. HeldIn (add_held scope z.agent z.claimed_tasks d) id a.agent) (sym here)
          (held_added scope id a.agent a.claimed_tasks d seen h))
  | inr other ↦ held_by_all scope id key agents _ seen (rw other at found) h
]

same_of :
    (o n : String) (owners : List String)
    → any_of (λ p. not (p == o)) owners ≡ false
    → contains n owners ≡ true
    → n ≡ o
same_of o n [] h k = cc
same_of o n (p ∷ owners) h k = elim (Bool-cases (n == p)) [
  | inl same ↦ (eq_iff n p).0 same ∙ (eq_iff p o).0 (ground arith)
  | inr other ↦ same_of o n owners (ground arith) (ground arith)
]

one_holder :
    (n m : String) (owners : List String)
    → are_several owners ≡ false
    → contains n owners ≡ true
    → contains m owners ≡ true
    → n ≡ m
one_holder n m [] h k l = cc
one_holder n m (o ∷ owners) h k l = first n k ∙ sym (first m l)
  where
    first : (x : String) → contains x (o ∷ owners) ≡ true → x ≡ o
    first x c = elim (Bool-cases (x == o)) [
      | inl same ↦ (eq_iff x o).0 same
      | inr other ↦ same_of o x owners h (ground arith)
    ]

module _ {V : Type 0} (P : String × V → Type 0) where
  -- What holds of every entry of a dict holds of the one that is looked up.
  pub entry_at :
      (key : String) {v : V} (d : List (String × V)) → All P d → look_up key d ≡ some v → P (key, v)
  unfolding look_up
  entry_at key [] all h = cc
  entry_at key {v} ((k, w) ∷ d) (now, all) h = elim (Bool-cases (k == key)) [
    | inl same ↦
        let value : w ≡ v = ground arith in
        subst (λ k. P (k, v)) ((eq_iff k key).0 same) (subst (λ w. P (k, w)) value now)
    | inr other ↦ entry_at key d all (rw other at h)
  ]

-- Where the audit finds no task with several claimants, two agents that claim a task in its scope are
-- the same.
pub sole_claimant :
    (scope : Option (List String)) (agents : List (String × AgentFile)) (id m n : String)
    {a b : AgentFile}
    → gathered holder_issues (holders_of scope (map (λ (e : String × AgentFile). e.1) agents)) ≡ []
    → in_scope scope id ≡ true
    → look_up m agents ≡ some a
    → look_up n agents ≡ some b
    → contains id a.claimed_tasks ≡ true
    → contains id b.claimed_tasks ≡ true
    → a.agent ≡ b.agent
unfolding holders_of
sole_claimant scope agents id m n {a} {b} quiet_all seen ma nb ha hb =
    let (owners, found, has_a) = held_by_all scope id m agents [] seen ma ha in
    let (owners', found', has_b) = held_by_all scope id n agents [] seen nb hb in
    let same : owners' ≡ owners = ground arith in
    one_holder a.agent b.agent owners
      (quiet (are_several owners) "multiple_claimants" id none (
        entry_at (λ e. holder_issues e ≡ []) id _ (gathered-empty holder_issues _ quiet_all) found))
      has_a (subst (λ o. contains b.agent o ≡ true) same has_b)
