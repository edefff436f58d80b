-- ===== src/Portfolio/Reasons.antt =====
-- src/skcoord/portfolio.py: the reasons are ASCII texts, in strict order.
use Prim.Native.Char.{code}
use Prim.Native.String.append
use Prim.Native.String.{◌++◌ as ◌⧺◌}
use skcoord.Prelude.{
  ℕ, String, ◌≡◌, refl, inl, inr, Bool, true, false, ◌&&◌, Option, none, some, List, [], ◌∷◌, ◌++◌,
  arith, concat, ltb, All, Bool-cases, once_each, holds, sort_set, sort_by-All, ordered_text,
  IsAscending, sort_set-IsAscending,
}
use skcoord.Portfolio.IsoFormat.{Moment}
use skcoord.Portfolio.Model.{
  TruthState, truth_text, Enrollment, enrollment_text, LeaseState, lease_text, GateState, gate_text,
  PortfolioPolicy, PlanDataQuality, AgentCapacity, WorkCandidate,
}
use skcoord.Portfolio.Quality.{raised, quality_checks, global_quality_reasons}
use skcoord.Portfolio.Candidate.{
  size_check, missing_or, card_checks, capacity_checks, reasons_against,
}

-- Every character below 128.
unfoldable pub is_ascii : String → Bool
is_ascii String.[] = true
is_ascii (String.◌∷◌ c s) = ltb (code c) 128 && is_ascii s

append-IsAscii : (s t : String) → is_ascii s ≡ true → is_ascii t ≡ true → is_ascii (s ⧺ t) ≡ true
unfolding is_ascii
append-IsAscii String.[] t g h = rw (append.nil t) h
append-IsAscii (String.◌∷◌ c s) t g h =
    rw (append.cons c s t) (ground (arith, append-IsAscii s t (ground arith) h))

abbrev pub IsAscii : String → Type 0
IsAscii s = is_ascii s ≡ true

concat-IsAscii : (l : List String) → All IsAscii l → IsAscii (concat l)
unfolding concat is_ascii
concat-IsAscii [] all = refl
concat-IsAscii (s ∷ l) (h, all) = append-IsAscii s (concat l) h (concat-IsAscii l all)

truth-IsAscii : (state : TruthState) → IsAscii (truth_text state)
unfolding is_ascii
truth-IsAscii TruthState.healthy = refl
truth-IsAscii TruthState.degraded = refl
truth-IsAscii TruthState.unsafe = refl
truth-IsAscii TruthState.unknown = refl
truth-IsAscii TruthState.unavailable = refl
truth-IsAscii TruthState.unauthorized = refl

enrollment-IsAscii : (state : Enrollment) → IsAscii (enrollment_text state)
unfolding is_ascii
enrollment-IsAscii Enrollment.unenrolled = refl
enrollment-IsAscii Enrollment.enrolled = refl
enrollment-IsAscii Enrollment.suspended = refl

lease-IsAscii : (state : LeaseState) → IsAscii (lease_text state)
unfolding is_ascii
lease-IsAscii LeaseState.clear = refl
lease-IsAscii LeaseState.active = refl
lease-IsAscii LeaseState.unknown = refl
lease-IsAscii LeaseState.unavailable = refl
lease-IsAscii LeaseState.unauthorized = refl

gate-IsAscii : (state : GateState) → IsAscii (gate_text state)
unfolding is_ascii
gate-IsAscii GateState.not_required = refl
gate-IsAscii GateState.pending = refl
gate-IsAscii GateState.approved = refl
gate-IsAscii GateState.rejected = refl
gate-IsAscii GateState.unknown = refl

-- A fixed text and the text of a state.
tagged-IsAscii :
    (tag text : String) → IsAscii tag → IsAscii text → IsAscii (concat (tag ∷ text ∷ []))
tagged-IsAscii tag text g h = concat-IsAscii (tag ∷ text ∷ []) (g, (h, tt))

size-IsAscii : (sizes : List String) → IsAscii (size_check sizes).1
unfolding is_ascii
size-IsAscii [] = refl
size-IsAscii (x ∷ []) = refl
size-IsAscii (x ∷ y ∷ sizes) = refl

missing-IsAscii :
    (m : Option Moment) (missing invalid : String)
    → IsAscii missing
    → IsAscii invalid
    → IsAscii (missing_or m missing invalid)
missing-IsAscii none missing invalid g h = g
missing-IsAscii (some m) missing invalid g h = h

abbrev Coded : List (Bool × String) → Type 0
Coded = All (λ c. IsAscii c.1)

quality-Coded :
    (quality : PlanDataQuality) (policy : PortfolioPolicy) (as_of : ℕ)
    → Coded (quality_checks quality policy as_of)
unfolding quality_checks is_ascii
quality-Coded quality policy as_of = (
  tagged-IsAscii "parity_" _ refl (truth-IsAscii quality.parity_state),
  (
    tagged-IsAscii "board_read_" _ refl (truth-IsAscii quality.read_state),
    (refl, (refl, (refl, (refl, tt)))),
  ),
)

card-Coded :
    (policy : PortfolioPolicy) (as_of : ℕ) (card : WorkCandidate)
    → Coded (card_checks policy as_of card)
unfolding card_checks is_ascii
card-Coded policy as_of card = (
  refl,
  (
    refl,
    (
      refl,
      (
        refl,
        (
          tagged-IsAscii "enrollment_" _ refl (enrollment-IsAscii card.enrollment_state),
          (
            refl,
            (
              refl,
              (
                refl,
                (
                  refl,
                  (
                    size-IsAscii card.size_values,
                    (
                      refl,
                      (
                        refl,
                        (
                          tagged-IsAscii "human_gate_" _ refl (gate-IsAscii card.human_gate_state),
                          (
                            refl,
                            (
                              refl,
                              (
                                tagged-IsAscii "lease_" _ refl (lease-IsAscii card.lease_state),
                                (
                                  refl,
                                  (
                                    refl,
                                    (
                                      missing-IsAscii card.ready_at _ _ refl refl,
                                      (missing-IsAscii card.fixed_date_at _ _ refl refl, tt),
                                    ),
                                  ),
                                ),
                              ),
                            ),
                          ),
                        ),
                      ),
                    ),
                  ),
                ),
              ),
            ),
          ),
        ),
      ),
    ),
  ),
)

capacity-Coded :
    (as_of : ℕ) (card : WorkCandidate) (capacity : Option AgentCapacity)
    → Coded (capacity_checks as_of card capacity)
unfolding capacity_checks is_ascii
capacity-Coded as_of card none = (refl, tt)
capacity-Coded as_of card (some c) = (
  refl,
  (
    refl,
    (
      tagged-IsAscii "executor_profile_" _ refl (truth-IsAscii c.profile.profile_state),
      (
        refl,
        (
          tagged-IsAscii "executor_capability_" _ refl (truth-IsAscii c.capability_state),
          (refl, (refl, (refl, (refl, (refl, (refl, (refl, tt))))))),
        ),
      ),
    ),
  ),
)

append-Coded : (l k : List (Bool × String)) → Coded l → Coded k → Coded (l ++ k)
append-Coded [] k p q = q
append-Coded (c ∷ l) k (h, p) q = (h, append-Coded l k p q)

raised-All : (checks : List (Bool × String)) → Coded checks → All IsAscii (raised checks)
unfolding raised
raised-All [] p = tt
raised-All ((true, code) ∷ checks) (h, p) = (h, raised-All checks p)
raised-All ((false, code) ∷ checks) (h, p) = raised-All checks p

once_each-All : (l : List String) → All IsAscii l → All IsAscii (once_each l)
unfolding once_each
once_each-All [] p = tt
once_each-All (x ∷ l) (h, p) = elim (Bool-cases (holds x (once_each l))) [
  | inl old ↦ rw old (once_each-All l p)
  | inr new ↦ rw new (h, once_each-All l p)
]

pub sort_set-IsAscii : (l : List String) → All IsAscii l → All IsAscii (sort_set l)
sort_set-IsAscii l p = sort_by-All (λ s. s) IsAscii (once_each l) (once_each-All l p)

pub reasons_against-IsAscii :
    (policy : PortfolioPolicy) (as_of : ℕ) (card : WorkCandidate) (capacity : Option AgentCapacity)
    → All IsAscii (reasons_against policy as_of card capacity)
unfolding reasons_against
reasons_against-IsAscii policy as_of card capacity = sort_set-IsAscii _ (
    raised-All _
      (append-Coded _ _ (card-Coded policy as_of card) (capacity-Coded as_of card capacity)))

pub reasons_against-IsAscending :
    (policy : PortfolioPolicy) (as_of : ℕ) (card : WorkCandidate) (capacity : Option AgentCapacity)
    → IsAscending (λ s. s) (reasons_against policy as_of card capacity)
unfolding reasons_against
reasons_against-IsAscending policy as_of card capacity = sort_set-IsAscending _

pub global_quality_reasons-IsAscii :
    (quality : PlanDataQuality) (policy : PortfolioPolicy) (as_of : ℕ)
    → All IsAscii (global_quality_reasons quality policy as_of)
unfolding global_quality_reasons
global_quality_reasons-IsAscii quality policy as_of =
    sort_set-IsAscii _ (raised-All _ (quality-Coded quality policy as_of))
