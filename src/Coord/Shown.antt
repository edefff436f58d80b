-- ===== src/Coord/Shown.antt =====
-- src/skcoord/coordination.py: what the derived views show of an agent's file once it is saved.
use skcoord.Prelude.{
  String, ◌≡◌, refl, ap, ◌∙◌, Bool, true, false, ◌&&◌, ◌||◌, inl, inr, Option, none, some, List, [],
  ◌∷◌, foldl, arith, ◌==◌, eq_iff, All, any_of, contains, is_set, opt_eq, put, look_up, look_up-put,
  Bool-cases, if◌then◌else◌,
}
use skcoord.Coord.Model.{AgentFile, load_agent, stands_before, save_agent}
use skcoord.Coord.Views.{works_on, add_claims, add_current, agent_claims, claimed_map}

module _ (P : AgentFile → Bool) where
  pub save_agent-any :
      (a : AgentFile) (agents : List AgentFile) → P a ≡ true → any_of P (save_agent a agents) ≡ true
  unfolding save_agent
  save_agent-any a [] h = ground arith
  save_agent-any a (b ∷ agents) h = ground (arith, save_agent-any a agents h)

  pub save_agent-none :
      (a : AgentFile) (agents : List AgentFile)
      → P a ≡ false
      → any_of P agents ≡ false
      → any_of P (save_agent a agents) ≡ false
  unfolding save_agent
  save_agent-none a [] h k = ground arith
  save_agent-none a (b ∷ agents) h k = ground (arith, save_agent-none a agents h)

  pub load_agent-none :
      (agents : List AgentFile) (name : String) {a : AgentFile}
      → any_of P agents ≡ false
      → load_agent agents name ≡ some a
      → P a ≡ false
  unfolding load_agent
  load_agent-none [] name k h = cc
  load_agent-none (b ∷ agents) name k h = elim (Bool-cases (b.agent == name)) [
    | inl same ↦ ground (arith)
    | inr other ↦ load_agent-none agents name (ground arith) (rw other at h)
  ]

pub load-save :
    (a : AgentFile) (agents : List AgentFile) → load_agent (save_agent a agents) a.agent ≡ some a
unfolding load_agent save_agent
load-save a [] = ground (arith, eq_iff a.agent a.agent)
load-save a (b ∷ agents) = ground (
  arith,
  load-save a agents,
  eq_iff a.agent a.agent,
  eq_iff a.agent b.agent,
  eq_iff b.agent a.agent,
)

-- Whether the agent's file claims the task.
abbrev pub claims_task : String → AgentFile → Bool
claims_task id a = contains id a.claimed_tasks || works_on id a

look_up-add_claims :
    (id agent : String) (ids : List String) (claims : List (String × String))
    → look_up id (add_claims agent ids claims)
      ≡ (if contains id ids then some agent else look_up id claims)
unfolding add_claims
look_up-add_claims id agent [] claims = refl
look_up-add_claims id agent (x ∷ ids) claims = ground (
  arith,
  look_up-add_claims id agent ids (put x agent claims),
  look_up-put x id agent claims,
  eq_iff x id,
  eq_iff id x,
)

look_up-agent_claims :
    (id : String) (a : AgentFile) (claims : List (String × String))
    → look_up id (agent_claims claims a)
      ≡ (if claims_task id a then some a.agent else look_up id claims)
unfolding agent_claims
look_up-agent_claims id a claims =
    current a.current_task (add_claims a.agent a.claimed_tasks claims)
      (look_up-add_claims id a.agent a.claimed_tasks claims)
  where
    current :
        (o : Option String) (known : List (String × String))
        → look_up id known
          ≡ (if contains id a.claimed_tasks then some a.agent else look_up id claims)
        → look_up id (add_current a.agent o known) ≡ (
            if (contains id a.claimed_tasks || (is_set o && opt_eq o (some id)))
            then some a.agent
            else look_up id claims)
    current none known h = ground arith
    current (some x) known h = ground (arith, look_up-put x id a.agent known)

-- The last agent that claims a task, in the order of the files.
abbrev pub last_claimant : String → Option String → List AgentFile → Option String
last_claimant id o [] = o
last_claimant id o (a ∷ agents) =
    last_claimant id (if claims_task id a then some a.agent else o) agents

foldl-last_claimant :
    (id : String) (claims : List (String × String)) (agents : List AgentFile)
    → look_up id (foldl agent_claims claims agents) ≡ last_claimant id (look_up id claims) agents
foldl-last_claimant id claims [] = refl
foldl-last_claimant id claims (a ∷ agents) =
    foldl-last_claimant id (agent_claims claims a) agents
    ∙ ap (λ o. last_claimant id o agents) (look_up-agent_claims id a claims)

pub claimed_map-last_claimant :
    (id : String) (agents : List AgentFile)
    → look_up id (claimed_map agents) ≡ last_claimant id none agents
unfolding claimed_map look_up
claimed_map-last_claimant id agents = foldl-last_claimant id [] agents

-- Only the agent of that name may claim the task.
abbrev pub Alone : String → String → List AgentFile → Type 0
Alone name id agents = All (λ a. (a.agent == name) ≡ false → claims_task id a ≡ false) agents

last_claimant-kept :
    (id name : String) (agents : List AgentFile)
    → Alone name id agents
    → last_claimant id (some name) agents ≡ some name
last_claimant-kept id name [] h = refl
last_claimant-kept id name (a ∷ agents) (h, hs) = elim (Bool-cases (claims_task id a)) [
  | inl yes_it_does ↦ elim (Bool-cases (a.agent == name)) [
    | inl same ↦
        rw (yes_it_does, (eq_iff a.agent name).0 same) (last_claimant-kept id name agents hs)
    | inr other ↦ absurd (ground (arith, h other))
  ]
  | inr none_of_it ↦ rw none_of_it (last_claimant-kept id name agents hs)
]

last_claimant-first :
    (a : AgentFile) (id : String) (o : Option String) (agents : List AgentFile)
    → claims_task id a ≡ true
    → Alone a.agent id agents
    → last_claimant id o (a ∷ agents) ≡ some a.agent
last_claimant-first a id o agents claims h =
    ap (λ (b : Bool). last_claimant id (if b then some a.agent else o) agents) claims
    ∙ last_claimant-kept id a.agent agents h

pub last_claimant-save :
    (a : AgentFile) (id : String) (o : Option String) (agents : List AgentFile)
    → claims_task id a ≡ true
    → Alone a.agent id agents
    → last_claimant id o (save_agent a agents) ≡ some a.agent
unfolding save_agent
last_claimant-save a id o [] claims h = ground arith
last_claimant-save a id o (b ∷ agents) claims (h, hs) = elim (Bool-cases (a.agent == b.agent)) [
  | inl same ↦ rw same (last_claimant-first a id o agents claims hs)
  | inr other ↦ elim (Bool-cases (stands_before a b)) [
    | inl first ↦ rw (other, first) (last_claimant-first a id o (b ∷ agents) claims (h, hs))
    | inr after ↦
        rw (other, after)
          (last_claimant-save a id (if claims_task id b then some b.agent else o) agents claims hs)
  ]
]
