-- ===== src/Portfolio/Quality.antt =====
-- src/skcoord/portfolio.py: `_aware` and `_global_quality_reasons`, and how a set of reasons grows.
use skcoord.Prelude.{
  ℕ, ◌+◌, ◌*◌, String, Bool, true, false, not, ◌&&◌, Option, none, some, List, [], ◌∷◌, ltb, leb,
  concat, sort_set, ordered_text, if◌then◌else◌,
}
use skcoord.Portfolio.IsoFormat.{Moment}
use skcoord.Portfolio.Model.{truth_text, is_healthy, PlanDataQuality, PortfolioPolicy}

-- if test: reasons.add(code), one after the other
unfoldable pub raised : List (Bool × String) → List String
raised [] = []
raised ((test, code) ∷ checks) = let rest = raised checks in if test then code ∷ rest else rest

abbrev pub is_aware : Moment → Bool
is_aware (Moment.aware t) = true
is_aware (Moment.naive t) = false

-- _aware, of a value that may be None
abbrev pub aware_at : Option Moment → Bool
aware_at none = false
aware_at (some m) = is_aware m

-- Comparisons with an aware time, of a value that the code has found to be aware.
abbrev pub is_after : Moment → ℕ → Bool
is_after (Moment.aware t) now = ltb now t
is_after (Moment.naive t) now = false

abbrev pub is_until : Moment → ℕ → Bool
is_until (Moment.aware t) now = leb t now
is_until (Moment.naive t) now = false

-- (now - m).total_seconds() > seconds
abbrev pub is_older : Moment → ℕ → ℕ → Bool
is_older (Moment.aware t) seconds now = ltb (t + seconds * 1000000) now
is_older (Moment.naive t) seconds now = false

unfoldable pub quality_checks : PlanDataQuality → PortfolioPolicy → ℕ → List (Bool × String)
quality_checks quality policy as_of =
    let timed = is_aware quality.observed_at && is_aware quality.expires_at in
    (
      not (is_healthy quality.parity_state),
      concat ("parity_" ∷ truth_text quality.parity_state ∷ []),
    )
    ∷ (
      not (is_healthy quality.read_state),
      concat ("board_read_" ∷ truth_text quality.read_state ∷ []),
    )
    ∷ (not timed, "snapshot_timestamp_invalid")
    ∷ (timed && is_after quality.observed_at as_of, "snapshot_from_future")
    ∷ (timed && is_until quality.expires_at as_of, "snapshot_expired")
    ∷ (
      timed && is_older quality.observed_at policy.snapshot_max_age_seconds as_of,
      "snapshot_stale",
    )
    ∷ []

unfoldable pub global_quality_reasons : PlanDataQuality → PortfolioPolicy → ℕ → List String
global_quality_reasons quality policy as_of =
    sort_set (raised (quality_checks quality policy as_of))
