-- ===== src/Portfolio/Facts.antt =====
-- src/skcoord/portfolio.py, `_candidate_decision`: what a value is where a test on it does not hold.
use skcoord.Prelude.{
  ℕ, ◌≤◌, ◌<◌, String, ◌≡◌, refl, ◌⊎◌, inl, inr, Bool, true, false, not, ◌&&◌, Option, none, some,
  List, [], ◌∷◌, arith, contains, all_of, All, Bool-cases,
}
use skcoord.Portfolio.IsoFormat.{Moment}
use skcoord.Portfolio.Model.{
  TruthState, is_healthy, ProfileKind, is_service, Enrollment, LeaseState, ClassOfService,
  WorkCandidate,
}
use skcoord.Portfolio.Quality.{is_aware, aware_at, is_after, is_until}
use skcoord.Portfolio.Candidate.{is_enrolled, is_clear, is_single, size_check, same_set, is_class}

pub healthy_state :
    (state : TruthState) → not (is_healthy state) ≡ false → state ≡ TruthState.healthy
healthy_state TruthState.healthy h = refl
healthy_state TruthState.degraded h = cc
healthy_state TruthState.unsafe h = cc
healthy_state TruthState.unknown h = cc
healthy_state TruthState.unavailable h = cc
healthy_state TruthState.unauthorized h = cc

pub service_kind : (kind : ProfileKind) → not (is_service kind) ≡ false → kind ≡ ProfileKind.service
service_kind ProfileKind.human h = cc
service_kind ProfileKind.service h = refl

pub enrolled_state :
    (state : Enrollment) → not (is_enrolled state) ≡ false → state ≡ Enrollment.enrolled
enrolled_state Enrollment.unenrolled h = cc
enrolled_state Enrollment.enrolled h = refl
enrolled_state Enrollment.suspended h = cc

pub clear_lease : (state : LeaseState) → not (is_clear state) ≡ false → state ≡ LeaseState.clear
clear_lease LeaseState.clear h = refl
clear_lease LeaseState.active h = cc
clear_lease LeaseState.unknown h = cc
clear_lease LeaseState.unavailable h = cc
clear_lease LeaseState.unauthorized h = cc

pub one_of : (l : List String) → not (is_single l) ≡ false → (x : String) × (l ≡ x ∷ [])
one_of [] h = cc
one_of (x ∷ []) h = (x, refl)
one_of (x ∷ y ∷ l) h = cc

-- An observation that has begun and has not ended.
pub begun :
    (m : Moment) (now : ℕ)
    → is_aware m ≡ true
    → is_after m now ≡ false
    → (t : ℕ) × (m ≡ Moment.aware t) × (t ≤ now)
begun (Moment.aware t) now h g = (t, refl, ground arith)
begun (Moment.naive t) now h g = cc

pub not_ended :
    (m : Moment) (now : ℕ)
    → is_aware m ≡ true
    → is_until m now ≡ false
    → (t : ℕ) × (m ≡ Moment.aware t) × (now < t)
not_ended (Moment.aware t) now h g = (t, refl, ground arith)
not_ended (Moment.naive t) now h g = cc

pub time_of : (m : Option Moment) → not (aware_at m) ≡ false → (t : ℕ) × (m ≡ some (Moment.aware t))
time_of none h = cc
time_of (some (Moment.aware t)) h = (t, refl)
time_of (some (Moment.naive t)) h = cc

pub all_of-All :
    {A : Type 0} (test : A → Bool) (l : List A) → all_of test l ≡ true → All (λ x. test x ≡ true) l
all_of-All test [] h = tt
all_of-All test (x ∷ l) h = (ground arith, all_of-All test l (ground arith))

-- One size, and a known one.
pub size_of :
    (sizes : List String)
    → (size_check sizes).0 ≡ false
    → (size : String) × (sizes ≡ size ∷ []) × (contains size ("S" ∷ "M" ∷ "L" ∷ "XL" ∷ []) ≡ true)
size_of [] h = cc
size_of (size ∷ []) h = (size, refl, ground arith)
size_of (x ∷ y ∷ sizes) h = cc

-- The same texts in both lists.
abbrev pub SameTexts : List String → List String → Type 0
SameTexts xs ys = All (λ x. contains x ys ≡ true) xs × All (λ y. contains y xs ≡ true) ys

pub same_set-SameTexts : (xs ys : List String) → same_set xs ys ≡ true → SameTexts xs ys
same_set-SameTexts xs ys h = (
  all_of-All (λ x. contains x ys) xs (ground arith),
  all_of-All (λ y. contains y xs) ys (ground arith),
)

-- A card of the fixed-date class has its date.
abbrev pub IsDated : WorkCandidate → Type 0
IsDated card =
    (is_class ClassOfService.fixed_date card ≡ false)
    ⊎ ((t : ℕ) × (card.fixed_date_at ≡ some (Moment.aware t)))

pub dated :
    (card : WorkCandidate)
    → (is_class ClassOfService.fixed_date card && not (aware_at card.fixed_date_at)) ≡ false
    → IsDated card
dated card h = elim (Bool-cases (is_class ClassOfService.fixed_date card)) [
  | inl fixed ↦ inr (time_of card.fixed_date_at (ground arith))
  | inr other ↦ inl other
]
