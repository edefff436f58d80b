-- ===== src/Gates/Exact.antt =====
-- src/skcoord/abandon_reason.py: which exit gates are taken.
use skcoord.Prelude.{
  ◌≡◌, ◌↔◌, refl, ap, ◌∙◌, subst, false, inl, inr, get_or, List, [], ◌∷◌, map, arith, All, is_blank,
  Bool-cases, Result, ok, err, ◌>>=◌, >>=-eq-ok,
}
use skcoord.Gates.Validate.{
  Gate, Entry, not_object, object, listed, validate_entry, validate_entries, validate_exit_gates,
}

-- The gate has a name, and a seat that it is routed to.
abbrev pub IsRoutable : Gate → Type 0
IsRoutable g = (is_blank (get_or g.gate "") ≡ false) × (is_blank (get_or g.owner "") ≡ false)

entry_sound : (e : Entry) (g : Gate) → validate_entry e ≡ ok g → (e ≡ object g) × IsRoutable g
unfolding validate_entry
entry_sound not_object g h = cc
entry_sound (object f) g h = elim (Bool-cases (is_blank (get_or f.gate ""))) [
  | inl unnamed ↦ absurd (ground arith)
  | inr named ↦ elim (Bool-cases (is_blank (get_or f.owner ""))) [
    | inl homeless ↦ absurd (ground arith)
    | inr owned ↦
        let same : f ≡ g = ground arith in (ap object same, subst IsRoutable same (named, owned))
  ]
]

entry_complete : (g : Gate) → IsRoutable g → validate_entry (object g) ≡ ok g
unfolding validate_entry
entry_complete g (named, owned) = rw (named, owned) refl

entries_complete : (gs : List Gate) → All IsRoutable gs → validate_entries (map object gs) ≡ ok gs
unfolding validate_entries
entries_complete [] all = refl
entries_complete (g ∷ gs) (now, all) =
    ap (λ r. r >>= λ f. validate_entries (map object gs) >>= λ fs. ok (f ∷ fs))
      (entry_complete g now)
    ∙ ap (λ (r : Result (List Gate)). r >>= λ fs. ok (g ∷ fs)) (entries_complete gs all)

-- The gates that a call returned.
abbrev taken : Result (List Gate) → List Gate
taken (err x) = []
taken (ok gs) = gs

-- The entries are those gates.
abbrev pub AreGates : List Entry → List Gate → Type 0
AreGates entries gs = (entries ≡ map object gs) × All IsRoutable gs

entries_sound :
    (entries : List Entry) (gs : List Gate) → validate_entries entries ≡ ok gs → AreGates entries gs
unfolding validate_entries
entries_sound [] gs h = subst (AreGates []) (ap taken h) (refl, tt)
entries_sound (e ∷ entries) gs h =
    let (g, here, rest) =
      >>=-eq-ok (validate_entry e) (λ g. validate_entries entries >>= λ fs. ok (g ∷ fs)) h in
    let (fs, later, made) = >>=-eq-ok (validate_entries entries) (λ fs. ok (g ∷ fs)) rest in
    let (shape, routable) = entry_sound e g here in
    let (shapes, all) = entries_sound entries fs later in
    subst (AreGates (e ∷ entries)) (ap taken made)
      (ap (λ x. x ∷ entries) shape ∙ ap (λ l. object g ∷ l) shapes, (routable, all))

-- A list of entries is taken, and as some gates, exactly where the entries are these gates and each of
-- them has a name and an owner that are not blank.
pub validate_exit_gates_iff :
    (entries : List Entry) (gs : List Gate)
    → (validate_exit_gates (listed entries) ≡ ok gs) ↔ AreGates entries gs
unfolding validate_exit_gates
validate_exit_gates_iff entries gs =
    (entries_sound entries gs, λ are. ap validate_entries are.0 ∙ entries_complete gs are.1)
