-- ===== src/Card/Runs.antt =====
-- src/skcoord/card_store.py: the branches of `CardStore.fold` on agent runs.
use skcoord.Prelude.{
  ◌+◌, String, Option, none, some, get_or, List, [], truthy, opt_eq, append_one, put, if◌then◌else◌,
}
use skcoord.Card.Model.{AgentRun, Card}
use skcoord.Card.Event.{Event}

abbrev pub set_run : Card → AgentRun → Card
set_run c r = record c { meta = record (c.meta) { agent_run = some r } }

unfoldable pub apply_run_request : Card → Event → Card
apply_run_request c e = set_run c (record {
  run_id = e.run_id;
  state = some "queued";
  instruction = e.instruction;
  agent = e.run_agent;
  mode = get_or e.mode "propose";
  kind = e.kind;
  requester = e.writer;
  created_at = e.ts;
  activity = [];
  attempts = 0;
  links = [];
  worker = none;
  lease_expires = none;
  last_error = none;
})

-- r and r.get("run_id") == e.get("run_id"): the update of the run that the event names.
abbrev pub on_run : (AgentRun → AgentRun) → Option AgentRun → Card → Event → Card
on_run update none c e = c
on_run update (some r) c e = if opt_eq r.run_id e.run_id then set_run c (update r) else c

abbrev pub claimed_run : Event → AgentRun → AgentRun
claimed_run e r = record r {
  state = some "running";
  worker = e.worker;
  lease_expires = e.lease_expires;
  attempts = r.attempts + 1;
}

unfoldable pub apply_run_claim : Card → Event → Card
apply_run_claim c e = on_run (claimed_run e) c.meta.agent_run c e

abbrev pub active_run : Event → AgentRun → AgentRun
active_run e r = record r {
  activity =
      append_one r.activity
        (record { ts = e.ts; atype = e.atype; text = e.text; writer = e.writer });
}

unfoldable pub apply_run_activity : Card → Event → Card
apply_run_activity c e = on_run (active_run e) c.meta.agent_run c e

-- if e.get(k): links[k] = e.get(k)
abbrev pub linked : String → String → List (String × String) → List (String × String)
linked key value links = if truthy value then put key value links else links

abbrev pub moved_run : Event → AgentRun → AgentRun
moved_run e r = record r {
  state = elim e.state [ none ↦ r.state | some s ↦ some s ];
  last_error = if truthy e.last_error then some e.last_error else r.last_error;
  links =
      linked "transcript" e.transcript
        (linked "branch" e.branch (linked "commit" e.commit (linked "pr" e.pr r.links)));
}

unfoldable pub apply_run_state : Card → Event → Card
apply_run_state c e = on_run (moved_run e) c.meta.agent_run c e
