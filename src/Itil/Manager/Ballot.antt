-- ===== src/Itil/Manager/Ballot.antt =====
-- src/skcoord/itil.py: `submit_cab_vote`, with the file of the vote that it writes.
use skcoord.Prelude.{
  String, ◌≡◌, refl, sym, ap, ◌∙◌, subst, true, false, not, ◌&&◌, ◌⊎◌, inl, inr, Option, none, some,
  get_or, List, [], ◌∷◌, arith, ◌==◌, eq_iff, contains, truthy, is_set, concat, put, Bool-cases,
  if◌then◌else◌, Result, ok, err, value_error, ◌>>=◌, >>=-eq-ok,
}
use skcoord.Itil.Cab.{
  Decision, approved, rejected, abstain, Vote, IsoTime, before, legacy_cab_provenance_cutoff,
  is_legacy_unprovenanced_approval, is_human_approval,
}

pub record Submission : Type 0 where
  pub change_id : String
  pub agent : String
  pub decision : String
  pub conditions : String
  pub subject : Option String
  pub subject_role : String
  pub subject_fingerprint : String
  pub authorization_id : String

-- CABDecisionValue(text)
unfoldable pub parse_decision : String → Option Decision
parse_decision s =
    if s == "approved"
    then some approved
    else if s == "rejected"
    then some rejected
    else if s == "abstain"
    then some abstain
    else none

-- subject if subject else agent
abbrev pub voter : Submission → String
voter q = if is_set q.subject then get_or q.subject "" else q.agent

abbrev pub subject_roles : List String
subject_roles = "owner" ∷ "operator" ∷ "approver" ∷ "implementer" ∷ []

abbrev pub human_roles : List String
human_roles = "owner" ∷ "approver" ∷ []

unfoldable pub vote_of : String → Submission → Decision → Vote
vote_of now q d = record {
  change_id = q.change_id;
  agent = voter q;
  subject_role = q.subject_role;
  subject_fingerprint = q.subject_fingerprint;
  authorization_id = q.authorization_id;
  decision = d;
  conditions = q.conditions;
  decided_at = now;
}

unfoldable pub submitted_vote : String → Submission → Result Vote
unfolding parse_decision vote_of
submitted_vote now q =
    if (truthy q.subject_role && not (contains q.subject_role subject_roles))
    then err (value_error "unsupported CAB subject role")
    else if (contains q.subject_role human_roles && not (is_set q.subject))
    then err (value_error "a qualifying human role requires an authenticated subject")
    else elim (parse_decision q.decision) [
      | none ↦ err (value_error "decision")
      | some d ↦ ok (vote_of now q d)
    ]

abbrev pub ballot_name : Vote → String
ballot_name v = concat (v.change_id ∷ "-" ∷ v.agent ∷ ".json" ∷ [])

-- The votes' files behind the call, and the vote.
unfoldable pub submit_cab_vote :
    String → Submission → List (String × Vote) → Result (List (String × Vote) × Vote)
unfolding submitted_vote
submit_cab_vote now q files = submitted_vote now q >>= λ v. ok (put (ballot_name v) v files, v)

-- The vote is bound to the subject, who has a human role.
abbrev pub IsBound : Submission → Vote → Type 0
IsBound q v = (q.subject ≡ some v.agent) × (contains v.subject_role human_roles ≡ true)

submitted_lem :
    (now : String) (q : Submission) {v : Vote}
    → submitted_vote now q ≡ ok v
    → (d : Decision) × ((contains q.subject_role human_roles && not (is_set q.subject)) ≡ false)
      × (v ≡ vote_of now q d)
unfolding submitted_vote
submitted_lem now q {v} h =
    elim (Bool-cases (truthy q.subject_role && not (contains q.subject_role subject_roles))) [
      | inl bad ↦ absurd (ground arith)
      | inr good ↦
          elim (Bool-cases (contains q.subject_role human_roles && not (is_set q.subject))) [
            | inl bad ↦ absurd (ground arith)
            | inr bound ↦ decided bound (parse_decision q.decision) (rw (good, bound) at h)
          ]
    ]
  where
    decided :
        (contains q.subject_role human_roles && not (is_set q.subject)) ≡ false
        → (o : Option Decision)
        → elim o as (λ _. Result Vote) [
          | none ↦ err (value_error "decision")
          | some d ↦ ok (vote_of now q d)
        ]
          ≡ ok v
        → (d : Decision) × ((contains q.subject_role human_roles && not (is_set q.subject)) ≡ false)
          × (v ≡ vote_of now q d)
    decided bound none k = cc
    decided bound (some d) k = (d, bound, ground arith)

-- The vote has a human role only for its subject.
role_binds :
    (now : String) (q : Submission) (d : Decision)
    → contains q.subject_role human_roles ≡ true
    → (contains q.subject_role human_roles && not (is_set q.subject)) ≡ false
    → IsBound q (vote_of now q d)
unfolding vote_of
role_binds now q d role bound = (named q.subject (ground arith), role)
  where
    named :
        (o : Option String) → is_set o ≡ true → o ≡ some (if is_set o then get_or o "" else q.agent)
    named none h = cc
    named (some s) h = rw h refl

human_label :
    (iso : String → IsoTime) (v : Vote)
    → before (iso v.decided_at) (iso legacy_cab_provenance_cutoff) ≡ false
    → contains v.subject_role human_roles ≡ false
    → is_human_approval iso v ≡ true
    → v.agent ≡ "human"
unfolding is_human_approval is_legacy_unprovenanced_approval
human_label iso v late no_role h = (eq_iff v.agent "human").0 (ground arith)

human_vote :
    (iso : String → IsoTime) (now : String) (q : Submission) (d : Decision)
    → before (iso now) (iso legacy_cab_provenance_cutoff) ≡ false
    → (contains q.subject_role human_roles && not (is_set q.subject)) ≡ false
    → is_human_approval iso (vote_of now q d) ≡ true
    → ((vote_of now q d).agent ≡ "human") ⊎ IsBound q (vote_of now q d)
unfolding vote_of
human_vote iso now q d late bound h = elim (Bool-cases (contains q.subject_role human_roles)) [
  | inl role ↦ inr (role_binds now q d role bound)
  | inr no_role ↦ inl (human_label iso (vote_of now q d) late no_role h)
]

abbrev stored_vote : Vote → Result (List (String × Vote) × Vote) → Vote
stored_vote w (err x) = w
stored_vote w (ok (files, v)) = v

-- A submitted vote, at a time no earlier than the cutoff of the old votes, counts as a human approval
-- only if its voter is called "human", or if it is bound: its voter is the authenticated subject, and
-- the subject's role is owner or approver.
pub submitted_approval :
    (iso : String → IsoTime) (now : String) (q : Submission) (files : List (String × Vote))
    {left : List (String × Vote)} {v : Vote}
    → before (iso now) (iso legacy_cab_provenance_cutoff) ≡ false
    → submit_cab_vote now q files ≡ ok (left, v)
    → is_human_approval iso v ≡ true
    → (v.agent ≡ "human") ⊎ IsBound q v
unfolding submit_cab_vote
submitted_approval iso now q files {left} {v} late h human =
    let (w, made, stored) =
      >>=-eq-ok (submitted_vote now q) (λ v. ok (put (ballot_name v) v files, v)) h in
    let same : w ≡ v = ap (λ r. stored_vote w r) stored in
    let (d, bound, is) = submitted_lem now q made in
    let shape = sym same ∙ is in
    subst (λ v. (v.agent ≡ "human") ⊎ IsBound q v) (sym shape)
      (human_vote iso now q d late bound (subst (λ v. is_human_approval iso v ≡ true) shape human))
