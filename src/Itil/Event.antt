-- ===== src/Itil/Event.antt =====
-- src/skcoord/itil.py: one line of a record's event log, as the folds read it, and the entries of the
-- timeline that they write.
use skcoord.Prelude.{
  ℕ, String, Bool, true, false, Option, none, List, [], ◌∷◌, contains, append_one, if◌then◌else◌,
}

-- The keys that `_append_event` writes, and the payload keys that the folds read. A text that is
-- read with the default "" is "" here when it is absent; `Option` marks the values that are read
-- with the default None.
pub record Event : Type 0 where
  pub kind : String
  pub ts : String
  pub node : String
  pub writer : String
  pub seq : ℕ
  pub note : String
  pub to : Option String
  pub id : String
  pub text : String
  pub resolution_summary : String
  pub add : List String
  pub url : Option String
  pub branch : Option String
  pub run_id : Option String
  pub head_sha : Option String
  pub passed : Bool
  pub summary : Option String
  pub checks : Option String
  pub window_start : Option String
  pub window_end : Option String
  pub asap : Bool
  pub deploy_mode : String

-- An event with its kind and no payload.
abbrev pub bare : String → Event
bare kind = record {
  kind = kind;
  ts = "";
  node = "";
  writer = "";
  seq = 0;
  note = "";
  to = none;
  id = "";
  text = "";
  resolution_summary = "";
  add = [];
  url = none;
  branch = none;
  run_id = none;
  head_sha = none;
  passed = false;
  summary = none;
  checks = none;
  window_start = none;
  window_end = none;
  asap = false;
  deploy_mode = "";
}

-- One dict of a record's timeline.
pub record Entry : Type 0 where
  pub ts : String
  pub agent : String
  pub action : String
  pub note : String
  pub conflicted : Bool
  pub conflict_reason : Option String

-- The entry that an event leaves, and the one that marks it as conflicted.
abbrev pub entry : Event → String → String → Entry
entry e action note = record {
  ts = e.ts;
  agent = e.writer;
  action = action;
  note = note;
  conflicted = false;
  conflict_reason = none;
}

abbrev pub conflict : Event → String → Entry
conflict e action = record {
  ts = e.ts;
  agent = e.writer;
  action = action;
  note = e.note;
  conflicted = true;
  conflict_reason = none;
}

-- for t in new: if t not in tags: tags.append(t)
pub add_missing : List String → List String → List String
add_missing tags [] = tags
add_missing tags (t ∷ new) = add_missing (if contains t tags then tags else append_one tags t) new
