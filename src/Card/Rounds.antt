-- ===== src/Card/Rounds.antt =====
-- src/skcoord/card_store.py: one round of the loop of `CardStore.fold`, taken apart, and an invariant
-- rule for the loop.
use skcoord.Prelude.{
  ◌≡◌, refl, sym, subst, ◌⊎◌, inl, inr, Bool, true, false, ◌&&◌, ◌||◌, List, [], ◌∷◌, arith, ok,
  ◌>>=◌, >>=-eq-ok, if◌then◌else◌,
}
use skcoord.Card.Model.{Card}
use skcoord.Card.Event.{Event, Action, action_of, is_void_terminal}
use skcoord.Card.Fold.{State, apply, touch, is_void, advance, step, run}

-- A round that was skipped, and one that was applied.
abbrev pub Skipped : Action → State → Event → State → Type 0
Skipped a s e t =
    (s.voided ≡ true) × (is_void_terminal a ≡ true) × (t ≡ record s { card = touch e s.card })

abbrev pub Applied : Action → State → Event → State → Type 0
Applied a s e t =
    (c : Card) × ((s.voided && is_void_terminal a) ≡ false)
    × (apply a s.card e ≡ ok c)
    × (record { card = touch e c; voided = s.voided || is_void a } ≡ t)

pub ok-injective : {A : Type 0} {a b : A} → ok a ≡ ok b → a ≡ b
ok-injective p = cc

applied :
    (a : Action) (s : State) (e : Event) (b : Bool) {t : State}
    → (s.voided && is_void_terminal a) ≡ b
    → (if b
        then ok (record s { card = touch e s.card })
        else (apply a s.card e >>= λ c.
            ok (record { card = touch e c; voided = s.voided || is_void a })))
      ≡ ok t
    → Skipped a s e t ⊎ Applied a s e t
applied a s e true p h = inl (ground arith, ground arith, sym (ok-injective h))
applied a s e false p h =
    let (c, made, rest) = >>=-eq-ok (apply a s.card e) _ h in inr (c, p, made, ok-injective rest)

pub advance_cases :
    (a : Action) (s : State) (e : Event) {t : State}
    → advance a s e ≡ ok t
    → Skipped a s e t ⊎ Applied a s e t
unfolding advance
advance_cases a s e h = applied a s e _ refl h

-- What every round keeps, the loop keeps.
module _ (P : State → Type 0)
    (keeps : (a : Action) (s t : State) (e : Event) → P s → advance a s e ≡ ok t → P t) where
  pub run_keeps : (s : State) (events : List Event) {t : State} → P s → run s events ≡ ok t → P t
  unfolding run
  run_keeps s [] p h = subst P (ok-injective h) p
  run_keeps s (e ∷ events) p h =
      let (u, first, rest) = >>=-eq-ok (step s e) _ h in
      run_keeps u events (keeps (action_of e.action) s u e p (unfold step in first)) rest
