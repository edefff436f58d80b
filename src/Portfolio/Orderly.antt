-- ===== src/Portfolio/Orderly.antt =====
-- src/skcoord/portfolio.py: the cards that a plan decides on stand in strict order by their ids, also
-- where an id stood twice, and its warnings then do.
use Prim.Native.String.{compare}
use skcoord.Prelude.{
  String, ◌≡◌, refl, sym, ap, subst, inl, inr, true, false, none, some, get_or, List, [], ◌∷◌, map,
  All, All-mono, All-map, Bool-cases, put, is_lt, lt_path, ordered_text, ordered_tuple, less_else,
  sort_by, sort_by-All, sort_by-IsSorted, sort_by-IsAscending, is_unique, IsAscending, IsSorted,
  map-IsAscending, ◌==◌, eq_iff,
}
use skcoord.Portfolio.Model.{WorkCandidate, CanonicalWarning}
use skcoord.Portfolio.Contracts.{warning_key}
use skcoord.Portfolio.Evaluate.{Decided, by_id, ordered_candidates, warnings_in}
use skcoord.Portfolio.Decide.{IsWarned, downgraded}
use skcoord.Portfolio.Along.{apart, All-both}

put-All :
    (P : String × WorkCandidate → Type 0) (k : String) (c : WorkCandidate)
    (d : List (String × WorkCandidate))
    → P (k, c)
    → All P d
    → All P (put k c d)
unfolding put
put-All P k c [] p all = (p, tt)
put-All P k c ((k', c') ∷ d) p (q, all) = elim (Bool-cases (k' == k)) [
  | inl same ↦ rw same (p, all)
  | inr other ↦ rw other (q, put-All P k c d p all)
]

put-IsAscending :
    (k : String) (c : WorkCandidate) (d : List (String × WorkCandidate))
    → All (λ e. is_lt (compare k e.0) ≡ false) d
    → IsAscending (λ e. e.0) d
    → IsAscending (λ e. e.0) (put k c d)
unfolding put
put-IsAscending k c [] above up = (tt, tt)
put-IsAscending k c ((k', c') ∷ d) (here, above) (first, up) = elim (Bool-cases (k' == k)) [
  | inl same ↦
      rw same
        (subst (λ n. All (λ e. is_lt (compare n e.0) ≡ true) d) ((eq_iff k' k).0 same) first, up)
  | inr other ↦ rw other (
    put-All (λ e. is_lt (compare k' e.0) ≡ true) k c d (less_else k' k here (apart k' k other))
        first,
    put-IsAscending k c d above up,
  )
]

-- Every entry of the dict stands under its card's id.
abbrev IsNamed : String × WorkCandidate → Type 0
IsNamed e = e.1.card_id ≡ e.0

by_id-IsAscending :
    (found : List (String × WorkCandidate)) (cards : List WorkCandidate)
    → IsAscending (λ e. e.0) found
    → IsSorted (λ c. c.card_id) cards
    → All (λ c. All (λ e. is_lt (compare c.card_id e.0) ≡ false) found) cards
    → IsAscending (λ e. e.0) (by_id found cards)
unfolding by_id
by_id-IsAscending found [] up sorted above = up
by_id-IsAscending found (c ∷ cards) up (first, sorted) (here, above) =
    by_id-IsAscending (put c.card_id c found) cards (put-IsAscending c.card_id c found here up)
      sorted
      (All-mono
        (λ x both.
          put-All (λ e. is_lt (compare x.card_id e.0) ≡ false) c.card_id c found both.0 both.1)
        cards (All-both _ _ cards first above))

by_id-All :
    (P : String × WorkCandidate → Type 0) (found : List (String × WorkCandidate))
    (cards : List WorkCandidate)
    → All P found
    → All (λ c. P (c.card_id, c)) cards
    → All P (by_id found cards)
unfolding by_id
by_id-All P found [] all each = all
by_id-All P found (c ∷ cards) all (p, each) =
    by_id-All P (put c.card_id c found) cards (put-All P c.card_id c found p all) each

named_ids :
    (d : List (String × WorkCandidate))
    → All IsNamed d
    → map (λ e. e.0) d ≡ map (λ c. c.card_id) (map (λ e. e.1) d)
named_ids [] all = refl
named_ids (e ∷ d) (h, all) = λ i. sym h i ∷ named_ids d all i

module _ (candidates : List WorkCandidate) where
  pub ordered_candidates-IsAscending :
      IsAscending (λ s. s) (map (λ c. c.card_id) (ordered_candidates candidates))
  unfolding ordered_candidates
  ordered_candidates-IsAscending = elim (Bool-cases (is_unique (map (λ c. c.card_id) candidates))) [
    | inl once ↦
        rw once (
          map-IsAscending (λ c. c.card_id) _ (sort_by-IsAscending (λ c. c.card_id) candidates once))
    | inr twice ↦ rw twice (
        subst (IsAscending (λ s. s))
          (named_ids found (by_id-All IsNamed [] sorted tt (named sorted)))
          (map-IsAscending (λ e. e.0) found
            (by_id-IsAscending [] sorted tt (sort_by-IsSorted (λ c. c.card_id) candidates)
              (nothing sorted))))
  ]
    where
      sorted : List WorkCandidate
      sorted = sort_by (λ c. c.card_id) candidates

      found : List (String × WorkCandidate)
      found = by_id [] sorted

      named : (l : List WorkCandidate) → All (λ c. IsNamed (c.card_id, c)) l
      named [] = tt
      named (c ∷ l) = (refl, named l)

      nothing :
          (l : List WorkCandidate)
          → All
              (λ c.
                All {A = String × WorkCandidate} (λ e. is_lt (compare c.card_id e.0) ≡ false) [])
              l
      nothing [] = tt
      nothing (c ∷ l) = (tt, nothing l)

  -- A property of every candidate is one of every card that is decided on.
  pub ordered_candidates-All :
      (P : WorkCandidate → Type 0) → All P candidates → All P (ordered_candidates candidates)
  unfolding ordered_candidates
  ordered_candidates-All P all = elim (Bool-cases (is_unique (map (λ c. c.card_id) candidates))) [
    | inl once ↦ rw once (sort_by-All (λ c. c.card_id) P candidates all)
    | inr twice ↦ rw twice (
        All-map P (λ e. e.1) _
          (by_id-All (λ e. P e.1) [] _ tt (sort_by-All (λ c. c.card_id) P candidates all)))
  ]

warning_is : (id : String) (w : CanonicalWarning) → IsWarned id (some w) → w ≡ downgraded id
warning_is id w (inl h) = cc
warning_is id w (inr h) = ap (λ o. get_or o w) h

-- The warnings of decisions in strict order are in strict order.
warnings_above :
    (id : String) (l : List Decided)
    → All (λ d. IsWarned d.0.card_id d.1) l
    → All (λ d. is_lt (compare id d.0.card_id) ≡ true) l
    → All
        (λ w. is_lt (ordered_tuple.compared (warning_key (downgraded id)) (warning_key w)) ≡ true)
        (warnings_in l)
unfolding warnings_in
warnings_above id [] warned above = tt
warnings_above id ((d, none) ∷ l) (_, warned) (_, above) = warnings_above id l warned above
warnings_above id ((d, some w) ∷ l) (here, warned) (below, above) = (
  rw (warning_is d.card_id w here, lt_path (compare id d.card_id) below) refl,
  warnings_above id l warned above,
)

pub warnings_in-IsAscending :
    (l : List Decided)
    → All (λ d. IsWarned d.0.card_id d.1) l
    → IsAscending (λ d. d.0.card_id) l
    → IsAscending warning_key (warnings_in l)
unfolding warnings_in
warnings_in-IsAscending [] warned up = tt
warnings_in-IsAscending ((d, none) ∷ l) (_, warned) (_, up) = warnings_in-IsAscending l warned up
warnings_in-IsAscending ((d, some w) ∷ l) (here, warned) (first, up) = (
  subst
      (λ v.
        All (λ x. is_lt (ordered_tuple.compared (warning_key v) (warning_key x)) ≡ true)
          (warnings_in l))
      (sym (warning_is d.card_id w here)) (warnings_above d.card_id l warned first),
  warnings_in-IsAscending l warned up,
)
