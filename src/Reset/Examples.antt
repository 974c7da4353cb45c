-- ===== src/Reset/Examples.antt =====
-- A workspace with one account, one empty account and two projects.
use lean_fm.Common.{String, true, false, none, some, List, [], ◌∷◌, ◌≡◌, refl}
use lean_fm.Reset.Tree.{Content, Node, Nodes, file, directory, no_more, entry}
use lean_fm.Reset.Plan.{Plan, Workspace, plan_of}
use lean_fm.Reset.Apply.{Findings, applied, reset, Action}
use lean_fm.Reset.Recorded.{IsFaithful, legacy_of, plan-IsFaithful}

abbrev one_file : String → Content → Nodes → Nodes
one_file name c rest = entry name (file c) rest

abbrev shop : Node
shop = directory (one_file "manifest.json" ("m1", 420) no_more)

abbrev ann : Node
ann = directory (
    entry "credentials" (directory (one_file "key" ("k1", 384) no_more)) (
      one_file "password.json" ("p1", 384)
        (entry "projects" (directory (entry "shop" shop no_more)) no_more)))

abbrev workspace : Workspace
workspace = record {
  is_workspace = true;
  boundary_is_link = false;
  deletes_safely = true;
  data_names = some ("accounts" ∷ []);
  legacy = some (entry "ann" ann (entry "bob" (directory no_more) no_more));
  projects = some (entry "bakery" shop no_more);
  vault = none;
}

abbrev plan : Plan
plan = record {
  accounts = ("ann", ("credentials/key", ("k1", 384)) ∷ ("password.json", ("p1", 384)) ∷ []) ∷ [];
  empty_accounts = "bob" ∷ [];
  projects = "data/accounts/ann/projects/shop" ∷ "projects/bakery" ∷ [];
  scaffolds = [];
}

planned : plan_of workspace ≡ some plan
unfolding plan_of
planned = refl

abbrev copy : Node
copy = directory (
    entry "credentials" (directory (one_file "key" ("k1", 384) no_more))
      (one_file "password.json" ("p1", 384) no_more))

abbrev findings : Findings
findings = record {
  copied = λ name. copy;
  kept = λ name. copy;
  has_moved = λ path. false;
  is_empty = λ path. true;
}

actions : List Action
actions = (reset workspace findings true).1

reset_whole : (reset workspace findings true).0 ≡ applied plan
unfolding reset
reset_whole = refl

plan-IsFaithful_example : IsFaithful (legacy_of workspace) none plan
plan-IsFaithful_example = plan-IsFaithful workspace plan planned
