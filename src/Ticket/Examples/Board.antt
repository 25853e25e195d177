-- ===== src/Ticket/Examples/Board.antt =====
-- A small board, and its first ticket.
use dev_loop.Common.{
  ℕ, String, Bool, true, false, Option, none, some, List, [], ◌∷◌, ◌≡◌, refl, ap, ◌⊎◌, ◌≢◌, inl,
  inr, ◌==◌, arith, includes, is_some,
}
use dev_loop.Common.Text.{is_empty, trim}
use dev_loop.Store.{
  State, todo, in_progress, in_review, done, human_blocked, same_state, Ticket, Comment, Actor,
  agent, human, Project, Db, Fire, find_ticket, actor_is_human, approve,
}
use dev_loop.Ticket.Env.{Env, Git, Workspace, pr, on}
use dev_loop.Ticket.Labels.{owner_labels_of}
use dev_loop.Ticket.Update.{Write, ok, err, thrown}
use dev_loop.Ticket.Insert.{NewTicket, insert_ticket}
use dev_loop.Ticket.Comments.{insert_comment}
use dev_loop.Ticket.Invariant.Reach.{start, inserted, commented, Good, Reach-Good}

abbrev actors : List Actor
actors =
    record { handle = "senior-dev"; kind = agent; active = true }
    ∷ record { handle = "junior-dev"; kind = agent; active = true }
    ∷ record { handle = "qa"; kind = agent; active = true }
    ∷ record { handle = "pm"; kind = agent; active = true }
    ∷ record { handle = "operator"; kind = human; active = true }
    ∷ []

abbrev project : Project
project = record {
  id = "p";
  key = "loop";
  ticket_prefix = "LOOP";
  ticket_seq = 0;
  require_deploy_before_review = false;
  deploy_repos = [];
  has_deploy = false;
}

abbrev pub empty_db : Db
empty_db = record {
  tickets = [];
  comments = [];
  events = [];
  actors = actors;
  projects = project ∷ [];
}

-- A checkout with a commit for the ticket and nothing left of it in the tree.
abbrev pub git : Git
git = record {
  log_grep = λ root id. some "abc123";
  branch_list = λ root id. some "";
  diff_naming = λ root id. some "";
  worktree_list = λ root. some "";
  for_each_ref = λ root. some "";
  rev_parse = λ root ref. none;
  rev_list = λ root base ref. none;
  merge_base = λ root base ref. none;
  diff_names = λ root from to. none;
  diff_names_of = λ root from to paths. none;
}

abbrev workspace : Workspace
workspace = record {
  repos_of_project = λ key. record { ref = "hub"; is_primary = true } ∷ [];
  effective_repo =
      λ ref. some (record { abs_path = "/work/hub"; landing = pr; default_branch = "main" });
  has_project = λ key. true;
  human_blocked = λ key. on;
  ac_completeness_gate = false;
  unlanded_work_gate = false;
}

abbrev pub env : Env
env = record {
  now = 100;
  uuid = "u1";
  fire = record { stored = none; env = none };
  workspace = some workspace;
  git = git;
}

abbrev new_ticket : NewTicket
new_ticket = record {
  title = "Retry the probe";
  description = "";
  type = "Bug";
  state = todo;
  assignee = none;
  priority = 1;
  labels = "qa" ∷ "sensitive" ∷ "junior-dev" ∷ "blocked" ∷ [];
  duplicate_of = none;
  related_to = [];
  waiting_on = none;
}

abbrev pub store_of : Write → Db
store_of (ok db id) = db
store_of (err status r) = empty_db
store_of (thrown r) = empty_db

abbrev id_of : Write → String
id_of (ok db id) = id
id_of (err status r) = ""
id_of (thrown r) = ""

abbrev inserting : Write
inserting = insert_ticket env empty_db "p" "pm" new_ticket []

abbrev pub operator : String
operator = "operator"

abbrev pub qa : String
qa = "qa"

abbrev pub pm : String
pm = "pm"

abbrev pub senior_dev : String
senior_dev = "senior-dev"

abbrev db1 : Db
db1 = store_of inserting

insert_ok : inserting ≡ ok db1 "LOOP-1"
unfolding insert_ticket dev_loop.Ticket.Labels.apply_tier_restore
    dev_loop.Ticket.Insert.inherit_sensitive dev_loop.Store.next_ticket_id dev_loop.Store.log_event
    dev_loop.Ticket.Labels.apply_sensitive_retier dev_loop.Store.actor_exists
    dev_loop.Common.Text.print_ℕ dev_loop.Ticket.Labels.reconcile_bail_shape_labels
    dev_loop.Ticket.Labels.waiting_on_for dev_loop.Common.dedup dev_loop.Ticket.Labels.project_label
    dev_loop.Ticket.Labels.latest_bail_shape_of dev_loop.Bail.latest_bail_shape
    dev_loop.Bail.is_bail_label
insert_ok = refl

abbrev pub ticket1 : Ticket
ticket1 = record {
  id = "LOOP-1";
  project_id = "p";
  title = "Retry the probe";
  description = "";
  type = "Bug";
  state = todo;
  assignee = some "senior-dev";
  priority = 1;
  labels = "qa" ∷ "sensitive" ∷ "senior-dev" ∷ "blocked" ∷ [];
  duplicate_of = none;
  related_to = [];
  waiting_on = none;
  created_by = "pm";
  created_at = 100;
  updated_at = 100;
}

-- The tier moved up, since the ticket is sensitive.
insert_retiers : find_ticket db1 "p" "LOOP-1" ≡ some ticket1
unfolding find_ticket insert_ticket dev_loop.Ticket.Labels.apply_tier_restore
    dev_loop.Ticket.Insert.inherit_sensitive dev_loop.Store.next_ticket_id dev_loop.Store.log_event
    dev_loop.Ticket.Labels.apply_sensitive_retier dev_loop.Store.actor_exists
    dev_loop.Common.Text.print_ℕ dev_loop.Ticket.Labels.reconcile_bail_shape_labels
    dev_loop.Ticket.Labels.waiting_on_for dev_loop.Common.dedup dev_loop.Ticket.Labels.project_label
    dev_loop.Ticket.Labels.latest_bail_shape_of dev_loop.Bail.latest_bail_shape
    dev_loop.Bail.is_bail_label
insert_retiers = refl

-- A bail shape on the blocked ticket.
Reach-Good_example :
    Good 100
      (insert_comment env db1 "p" "senior-dev" "LOOP-1" "Bail-shape: info-needed — which port?")
Reach-Good_example =
    Reach-Good 100
      (insert_comment env db1 "p" "senior-dev" "LOOP-1" "Bail-shape: info-needed — which port?")
      (commented env "p" "senior-dev" "LOOP-1" "Bail-shape: info-needed — which port?" ticket1
        (inserted env "p" "pm" new_ticket [] (start {time = 7} {db = empty_db} refl refl)
          (omega arith) insert_ok)
        (omega arith) insert_retiers)
