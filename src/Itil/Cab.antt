-- ===== src/Itil/Cab.antt =====
-- src/skcoord/itil.py: CAB votes, and which of them count as a human approval. `iso` stands for
-- `datetime.fromisoformat`.
use skcoord.Prelude.{ℕ, String, Bool, true, false, ◌||◌, ltb, ◌==◌, truthy, if◌then◌else◌}

pub data Decision : Type 0 where
  approved rejected abstain : Decision

pub record Vote : Type 0 where
  pub change_id : String
  pub agent : String
  pub subject_role : String
  pub subject_fingerprint : String
  pub authorization_id : String
  pub decision : Decision
  pub conditions : String
  pub decided_at : String

-- What `datetime.fromisoformat` makes of a text: ValueError, a time without a zone, or an instant,
-- counted from some origin.
pub data IsoTime : Type 0 where
  invalid naive : IsoTime
  aware : ℕ → IsoTime

abbrev pub legacy_cab_provenance_cutoff : String
legacy_cab_provenance_cutoff = "2026-08-21T00:00:00+00:00"

-- decided < cutoff. The cutoff is a constant with a zone, so its other cases do not arise.
abbrev pub before : IsoTime → IsoTime → Bool
before (aware decided) (aware cutoff) = ltb decided cutoff
before _ _ = false

abbrev pub is_rejection : Vote → Bool
is_rejection v = elim v.decision [ rejected ↦ true | _ ↦ false ]

abbrev pub is_approval : Vote → Bool
is_approval v = elim v.decision [ approved ↦ true | _ ↦ false ]

module _ (iso : String → IsoTime) where
  unfoldable pub is_legacy_unprovenanced_approval : Vote → Bool
  is_legacy_unprovenanced_approval v =
      if (truthy v.subject_role || truthy v.subject_fingerprint || truthy v.authorization_id)
      then false
      else before (iso v.decided_at) (iso legacy_cab_provenance_cutoff)

  unfoldable pub is_human_approval : Vote → Bool
  unfolding is_legacy_unprovenanced_approval
  is_human_approval v =
      if (v.agent == "human" || v.subject_role == "owner" || v.subject_role == "approver")
      then true
      else is_legacy_unprovenanced_approval v
