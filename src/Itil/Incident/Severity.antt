-- ===== src/Itil/Incident/Severity.antt =====
-- src/skcoord/itil.py: the folded severity is the most severe one seen, in whatever order.
use mathlib.Core.List.{Perm, Permᴰ}
use mathlib.Core.Logic.{∥∥₁_elim}
use mathlib.Core.Path.{ap₂}
use native.Mathlib.Nat.{ℕ_set}
use skcoord.Prelude.{
  ℕ, suc, String, ◌≡◌, refl, ◌<◌, max, Option, none, some, List, [], ◌∷◌, foldl, arith, ap, ◌∙◌,
  sym, or_else, eq_iff,
}
use skcoord.Itil.Event.{Event}
use skcoord.Itil.Incident.Model.{Status, acknowledged, resolved, sev_rank, max_severity, Core}
use skcoord.Itil.Incident.Fold.{
  Kind, kind_of, State, target, go, set_status, reopen_from, apply, step, start, replay,
}

-- The rank that an event brings in.
abbrev pub offered : Kind → Option String → ℕ
offered Kind.severity (some to) = sev_rank to
offered _ _ = 0

max_severity-rank :
    (a : String) (b : Option String)
    → sev_rank (max_severity a b) ≡ max (sev_rank a) (offered Kind.severity b)
unfolding max_severity
max_severity-rank a none = omega arith
max_severity-rank a (some b) = ground arith

go-severity : (s : State) (e : Event) (t : Status) → (go s e t).severity ≡ s.severity
unfolding go
go-severity s e acknowledged = refl
go-severity s e _ = refl

set_status-severity :
    (s : State) (e : Event) (o : Option Status) → (set_status s e o).severity ≡ s.severity
set_status-severity s e none = refl
set_status-severity s e (some t) = go-severity _ e t

reopen_from-severity :
    (from : Status) (s : State) (e : Event) → (reopen_from from s e).severity ≡ s.severity
reopen_from-severity resolved s e = refl
reopen_from-severity _ s e = refl

max-zero : (n : ℕ) → n ≡ max n 0
max-zero n = omega arith

apply-severity :
    (k : Kind) (s : State) (e : Event)
    → sev_rank (apply k s e).severity ≡ max (sev_rank s.severity) (offered k e.to)
unfolding apply
apply-severity Kind.severity s e = max_severity-rank s.severity e.to
apply-severity Kind.status s e =
    ap sev_rank (set_status-severity s e (target s.status e.to)) ∙ max-zero _
apply-severity Kind.reopen s e = ap sev_rank (reopen_from-severity s.status s e) ∙ max-zero _
apply-severity Kind.created s e = ground arith
apply-severity _ s e = ground arith

-- The greatest rank among the severity events, and that of the incident's birth.
pub top_rank : ℕ → List Event → ℕ
top_rank r [] = r
top_rank r (e ∷ events) = max (offered (kind_of e.kind) e.to) (top_rank r events)

top_rank-max :
    (a b : ℕ) (events : List Event) → top_rank (max a b) events ≡ max b (top_rank a events)
unfolding top_rank
top_rank-max a b [] = omega arith
top_rank-max a b (e ∷ events) = omega (arith, top_rank-max a b events)

foldl-severity :
    (s : State) (events : List Event)
    → sev_rank (foldl step s events).severity ≡ top_rank (sev_rank s.severity) events
unfolding top_rank step
foldl-severity s [] = refl
foldl-severity s (e ∷ events) =
    foldl-severity (step s e) events
    ∙ ap (λ r. top_rank r events) (apply-severity (kind_of e.kind) s e)
    ∙ top_rank-max (sev_rank s.severity) (offered (kind_of e.kind) e.to) events

abbrev rank_of : Event → ℕ
rank_of e = offered (kind_of e.kind) e.to

max_swap : {a b a' b' : ℕ} → a ≡ b' → b ≡ a' → (n : ℕ) → max a (max b n) ≡ max a' (max b' n)
max_swap p q n = omega arith

top_rank-permᴰ : (r : ℕ) {xs ys : List Event} → Permᴰ xs ys → top_rank r xs ≡ top_rank r ys
unfolding top_rank
top_rank-permᴰ r Permᴰ.nil = refl
top_rank-permᴰ r (Permᴰ.cons e p) = ap₂ max (ap rank_of e) (top_rank-permᴰ r p)
top_rank-permᴰ r (Permᴰ.swap {l = l} e f) = max_swap (ap rank_of e) (ap rank_of f) (top_rank r l)
top_rank-permᴰ r (Permᴰ.trans p q) = top_rank-permᴰ r p ∙ top_rank-permᴰ r q

pub replay-severity :
    (core : Core) (events : List Event)
    → sev_rank (replay core events).severity
      ≡ top_rank (sev_rank (or_else core.severity_at_creation "sev3")) events
unfolding replay
replay-severity core events = foldl-severity (start core) events

top_rank-ge : (r : ℕ) (events : List Event) → r < suc (top_rank r events)
unfolding top_rank
top_rank-ge r [] = omega arith
top_rank-ge r (e ∷ events) = omega (arith, top_rank-ge r events)

sev_rank-injective : (a b : String) → 0 < sev_rank a → sev_rank a ≡ sev_rank b → a ≡ b
unfolding sev_rank
sev_rank-injective a b h p = ground (
  arith,
  eq_iff a "sev1",
  eq_iff a "sev2",
  eq_iff a "sev3",
  eq_iff a "sev4",
  eq_iff b "sev1",
  eq_iff b "sev2",
  eq_iff b "sev3",
  eq_iff b "sev4",
)

-- Where the birth facts name a known severity, two logs with the same events in different orders
-- fold to the same severity.
pub severity-perm :
    (core : Core) (xs ys : List Event)
    → 0 < sev_rank (or_else core.severity_at_creation "sev3")
    → Perm xs ys
    → (replay core xs).severity ≡ (replay core ys).severity
severity-perm core xs ys known p =
    let r = sev_rank (or_else core.severity_at_creation "sev3") in
    let same = ∥∥₁_elim p (ℕ_set _ _) (top_rank-permᴰ r) in
    sev_rank-injective _ _ (omega (arith, replay-severity core xs, top_rank-ge r xs))
      (replay-severity core xs ∙ same ∙ sym (replay-severity core ys))
