-- ===== src/Coord/Steps.antt =====
-- src/skcoord/coordination.py: what claims, releases and completions keep true of an agent's file.
use skcoord.Prelude.{
  String, ◌≡◌, refl, Bool, true, false, not, inl, inr, Option, none, some, List, [], ◌∷◌, arith,
  ◌==◌, eq_iff, contains, opt_eq, keep_if, append_one, discard, Bool-cases, if◌then◌else◌,
  IsDistinct, contains-append_one, append_one-IsDistinct, contains-discard, discard-IsDistinct,
  contains-keep_if, keep_if-IsDistinct,
}
use skcoord.Coord.Model.{AgentFile, fresh_agent}
use skcoord.Coord.Claim.{bumped_by, without, claim_file}
use skcoord.Coord.Release.{release_file}
use skcoord.Coord.Complete.{first_of, complete_file}

-- The moves of one agent's file.
pub data Step (a : AgentFile) : AgentFile → Type 0 where
  claims :
      (drop_bumped_claim : Bool) (task_id : String)
      → Step a (claim_file drop_bumped_claim task_id a)
  releases : (task_id : String) → Step a (release_file task_id a)
  completes : (task_id : String) → Step a (complete_file task_id a)

-- The files that are reached from a new agent's.
pub data History (a : AgentFile) : AgentFile → Type 0 where
  begins : History a a
  then_does : {b c : AgentFile} → History a b → Step b c → History a c

abbrev pub holds : List String → Option String → Bool
holds ids none = true
holds ids (some id) = contains id ids

-- No task is claimed twice, and the current task is claimed.
pub record IsConsistent (a : AgentFile) : Type 0 where
  pub claimed : IsDistinct a.claimed_tasks
  pub current : holds a.claimed_tasks a.current_task ≡ true

without-IsDistinct :
    (o : Option String) (ids : List String) → IsDistinct ids → IsDistinct (without o ids)
without-IsDistinct none ids d = d
without-IsDistinct (some id) ids d = keep_if-IsDistinct id ids d

added-IsDistinct :
    (id : String) (ids : List String)
    → IsDistinct ids
    → IsDistinct (if contains id ids then ids else append_one ids id)
added-IsDistinct id ids d = elim (Bool-cases (contains id ids)) [
  | inl old ↦ rw old d
  | inr new ↦ rw new (append_one-IsDistinct id ids new d)
]

pub added-holds :
    (id : String) (ids : List String)
    → contains id (if contains id ids then ids else append_one ids id) ≡ true
added-holds id ids = ground (arith, contains-append_one id id ids, eq_iff id id)

claim-IsConsistent :
    (drop : Bool) (id : String) (a : AgentFile)
    → IsConsistent a
    → IsConsistent (claim_file drop id a)
unfolding claim_file
claim-IsConsistent true id a k = record {
  claimed =
      added-IsDistinct id _
        (without-IsDistinct (bumped_by id a.current_task) a.claimed_tasks k.claimed);
  current = added-holds id (without (bumped_by id a.current_task) a.claimed_tasks);
}
claim-IsConsistent false id a k = record {
  claimed = added-IsDistinct id a.claimed_tasks k.claimed;
  current = added-holds id a.claimed_tasks;
}

released-holds :
    (id : String) (ids : List String) (current : Option String)
    → holds ids current ≡ true
    → holds (keep_if (λ z. not (z == id)) ids) (if opt_eq current (some id) then none else current)
      ≡ true
released-holds id ids none h = refl
released-holds id ids (some c) h = ground (arith, contains-keep_if id c ids)

release-IsConsistent :
    (id : String) (a : AgentFile) → IsConsistent a → IsConsistent (release_file id a)
unfolding release_file
release-IsConsistent id a k = record {
  claimed = keep_if-IsDistinct id a.claimed_tasks k.claimed;
  current = released-holds id a.claimed_tasks a.current_task k.current;
}

first_of-holds : (ids : List String) → holds ids (first_of ids) ≡ true
first_of-holds [] = refl
first_of-holds (id ∷ ids) = ground (arith, eq_iff id id)

completed-holds :
    (id : String) (ids : List String) (current : Option String)
    → IsDistinct ids
    → holds ids current ≡ true
    → holds
        (discard id ids)
        (if opt_eq current (some id) then first_of (discard id ids) else current)
      ≡ true
completed-holds id ids none d h = refl
completed-holds id ids (some c) d h =
    ground (
      arith,
      contains-discard id c ids d,
      first_of-holds (discard id ids),
      eq_iff c id,
      eq_iff id c,
    )

complete-IsConsistent :
    (id : String) (a : AgentFile) → IsConsistent a → IsConsistent (complete_file id a)
unfolding complete_file
complete-IsConsistent id a k = record {
  claimed = discard-IsDistinct id a.claimed_tasks k.claimed;
  current = completed-holds id a.claimed_tasks a.current_task k.claimed k.current;
}

move-IsConsistent : {a b : AgentFile} → Step a b → IsConsistent a → IsConsistent b
move-IsConsistent {a} (claims drop id) k = claim-IsConsistent drop id a k
move-IsConsistent {a} (releases id) k = release-IsConsistent id a k
move-IsConsistent {a} (completes id) k = complete-IsConsistent id a k

-- Whatever an agent claims, releases and completes, and in whatever order, its file claims no task
-- twice, and its current task, if it has one, is among the claimed.
pub past-IsConsistent :
    (name : String) {a : AgentFile} → History (fresh_agent name) a → IsConsistent a
past-IsConsistent name begins = record { claimed = tt; current = refl }
past-IsConsistent name (then_does past move) = move-IsConsistent move (past-IsConsistent name past)
