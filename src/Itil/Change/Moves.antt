-- ===== src/Itil/Change/Moves.antt =====
-- src/skcoord/itil.py: what `_fold_change` knows of a status event that it accepts.
use mathlib.Core.Option.{some-injective}
use skcoord.Prelude.{
  String, ◌≡◌, refl, ap, ◌∙◌, inl, inr, Bool, true, false, not, ◌&&◌, Option, none, some, get_or,
  arith, ◌==◌, eq_iff, Bool-cases, if◌then◌else◌,
}
use skcoord.Itil.Event.{Event}
use skcoord.Itil.Change.Model.{
  Status, proposed, reviewing, approved, scheduled, rejected, implementing, deployed, verified,
  failed, closed, value, parse_status, transitions,
}
use skcoord.Itil.Change.Fold.{target, accepted, cab_gated, note_missing}

-- One test of `parse_status`.
named :
    (s : String) (x : Status) (rest : Option Status) {t : Status}
    → (rest ≡ some t → s ≡ value t)
    → (if s == value x then some x else rest) ≡ some t
    → s ≡ value t
named s x rest later h = elim (Bool-cases (s == value x)) [
  | inl same ↦ (eq_iff s (value x)).0 same ∙ ap value (some-injective _ _ (rw same at h))
  | inr other ↦ later (rw other at h)
]

pub parse_status-value : (s : String) {t : Status} → parse_status s ≡ some t → s ≡ value t
unfolding parse_status
parse_status-value s = named s proposed _ (
    named s reviewing _ (
      named s approved _ (
        named s scheduled _ (
          named s rejected _ (
            named s implementing _ (
              named s deployed _
                (named s verified _ (named s failed _ (named s closed _ (λ h. cc))))))))))

row_of :
    (from : Status) (o : Option Status) {t : Status}
    → elim o [ none ↦ none | some u ↦ if transitions from u then some u else none ] ≡ some t
    → (o ≡ some t) × (transitions from t ≡ true)
row_of from none h = cc
row_of from (some u) h = ground arith

target_cases :
    (from : Status) (to : Option String) {t : Status}
    → target from to ≡ some t
    → (transitions from t ≡ true) × (get_or to "" ≡ value t)
unfolding target
target_cases from none h = cc
target_cases from (some to) h =
    let (named, edge) = row_of from (parse_status to) h in (edge, parse_status-value to named)

-- An accepted event takes an edge of the gate's row, names its target, and no guard stops it.
pub accepted_cases :
    (gate : Status) (e : Event) {t : Status}
    → accepted gate e ≡ some t
    → (transitions gate t ≡ true)
      × (get_or e.to "" ≡ value t)
      × (cab_gated gate e ≡ false)
      × (note_missing gate e ≡ false)
unfolding accepted
accepted_cases gate e h = unblocked (note_missing gate e) (cab_gated gate e) h
  where
    unblocked :
        (a b : Bool) {t : Status}
        → (if (not a && not b) then target gate e.to else none) ≡ some t
        → (transitions gate t ≡ true) × (get_or e.to "" ≡ value t) × (b ≡ false) × (a ≡ false)
    unblocked true b p = cc
    unblocked false true p = cc
    unblocked false false p =
        let (edge, named) = target_cases gate e.to p in (edge, named, refl, refl)
