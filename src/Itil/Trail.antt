-- ===== src/Itil/Trail.antt =====
-- src/skcoord/itil.py: timelines that grow. Every fold appends to the list `timeline`.
use mathlib.Core.List.{append-nil, append_assoc}
use skcoord.Prelude.{◌≡◌, sym, ap, ◌∙◌, false, List, [], ◌∷◌, ◌++◌, foldl, All}
use skcoord.Itil.Event.{Event, Entry}

-- The second timeline is the first with entries appended.
abbrev pub Extends : List Entry → List Entry → Type 0
Extends old new = (added : List Entry) × (new ≡ old ++ added)

-- The same, and no appended entry is conflicted.
abbrev pub CleanlyExtends : List Entry → List Entry → Type 0
CleanlyExtends old new =
    (added : List Entry) × (new ≡ old ++ added) × All (λ x. x.conflicted ≡ false) added

pub quiet : (l : List Entry) → CleanlyExtends l l
quiet l = ([], sym (append-nil l), tt)

pub logged :
    (l m : List Entry) (x : Entry) → x.conflicted ≡ false → m ≡ l ++ x ∷ [] → CleanlyExtends l m
logged l m x clean p = (x ∷ [], p, (clean, tt))

pub CleanlyExtends-Extends : (l m : List Entry) → CleanlyExtends l m → Extends l m
CleanlyExtends-Extends l m (added, p, _) = (added, p)

pub Extends-trans : (l m n : List Entry) → Extends l m → Extends m n → Extends l n
Extends-trans l m n (xs, p) (ys, q) = (xs ++ ys, q ∙ ap (λ k. k ++ ys) p ∙ append_assoc l xs ys)

-- A loop extends the timeline if each of its rounds does.
module _ {S : Type 0} (timeline : S → List Entry) (step : S → Event → S)
    (grows : (s : S) (e : Event) → Extends (timeline s) (timeline (step s e))) where
  pub foldl-Extends :
      (s : S) (events : List Event) → Extends (timeline s) (timeline (foldl step s events))
  foldl-Extends s [] = ([], sym (append-nil (timeline s)))
  foldl-Extends s (e ∷ events) =
      Extends-trans (timeline s) (timeline (step s e)) _ (grows s e)
        (foldl-Extends (step s e) events)

-- Two appends, one after the other.
pub cleanly_twice :
    (l m n : List Entry) (x : Entry)
    → x.conflicted ≡ false
    → CleanlyExtends l m
    → n ≡ m ++ x ∷ []
    → CleanlyExtends l n
cleanly_twice l m n x clean (added, p, all) q = (
  added ++ x ∷ [],
  q ∙ ap (λ k. k ++ x ∷ []) p ∙ append_assoc l added (x ∷ []),
  All-append_one added x all clean,
)
  where
    All-append_one :
        (xs : List Entry) (y : Entry)
        → All (λ z. z.conflicted ≡ false) xs
        → y.conflicted ≡ false
        → All (λ z. z.conflicted ≡ false) (xs ++ y ∷ [])
    All-append_one [] y h c = (c, tt)
    All-append_one (z ∷ zs) y (h, hs) c = (h, All-append_one zs y hs c)
