-- ===== src/Lib.antt =====
-- Verification of the Python tools of leanFM, the scripts round its chat server and those of its
-- example projects. They keep their state in files below a project's root, and are called one at a
-- time: a call reads a request, works on the files and prints an answer or an error. Only the
-- supervisors of applications run beside the calls.
--
-- Common: what the modules share. Names of the library, tests on numbers and texts, lists that
--     are measured by native numbers, dictionaries with text keys.
-- Work (scripts/chatui_work_state.py): the store of resumable work. Work.Types has its files and
--     requests, Work.Action the monad of its methods, Work.Storage `path`, `read`, `write`, `active`,
--     `reserve`, `release`, `authorize` and `public` of `WorkStore`; Work.Submit, Work.Cancel,
--     Work.Claim and Work.Save have the branches of `operate`, and Work.Operate its dispatch.
-- Workspace (scripts/chatui_workspace.py): project identities and directories. Workspace.Names
--     has `valid_identity` and the names that `reserve` tries, Workspace.Projects `read_project`,
--     `discover`, `project` and the listing, Workspace.Reserve `reserve`.
-- Application (scripts/chatui_application.py): the launching of a project's application.
--     Application.Lifecycle has `status`, `stop` and `start`, Application.Supervisor the writes of
--     `supervise` and Application.Supervise its loops, Application.Resources `check_resources`,
--     Application.Worker the worker's requests, Application.Identity `record`, `alive` and
--     `exchange`, Application.Journal `journal`, Application.Commands the dispatch of `main`.
--     Application.System has the commands and the supervisors of a project as steps in any order;
--     which supervisor a command kills is what `look` and `stop` return, and a kill ends a process.
-- Credentials (scripts/chatui_crypto.py): password hashes and sealed provider keys.
-- Bakery (scripts/generate_bakery_events.py): the simulated bakery. Bakery.Stock has `Lcg`,
--     `expire_lots` and `reserve_fifo`, Bakery.Day `morning_production`, Bakery.Sale `retail_sale`
--     and `shift_events`, Bakery.Run the loop of `main`.
-- Reducer (scripts/reduce_bakery_events.py): the statistics over the bakery's events.
--     Reducer.Fold has the loop over the lines, Reducer.Sweep the count of open orders.
-- Media (scripts/chatui_media.py): image attachments. Media.Normalize has the checks of
--     `normalize`, Media.Attachments `upload` and `resolve`, Media.Drawing the test of an SVG
--     drawing; the patterns stand in it as they are, and are matched by an argument.
-- Paths (scripts/chatui_specification.py, scripts/chatui_project_state.py,
--     scripts/chatui_patch.py): Paths.Confined has `confined` and `authorize_path`, Paths.Patch the
--     checks of a patch; the items that git lists are none where its numstat fails.
-- Runtime (scripts/chatui_runtime.py): launch evidence. Runtime.Contract has `contract` and
--     `status`, Runtime.Probe the checks of `probe`.
-- Specification (scripts/chatui_specification.py): the check of a specification.
--     Specification.Check has the tests of `check` and the views that it promotes.
-- ProjectState (scripts/chatui_project_state.py): what a specification counts as.
--     ProjectState.Git has `git_status`, ProjectState.Current `current`.
-- Sandbox (scripts/chatui_command_runner.py, scripts/chatui_gif.py, scripts/chatui_mp4.py, and the
--     command lines of scripts/chatui_application.py and scripts/chatui_specification.py): what
--     runs in a sandbox. Sandbox.Flags has the options of a command line, Sandbox.Commands the five
--     commands, Sandbox.Checks `main` of the command runner, Sandbox.Recordings `main` of the two
--     media tools.
-- Deployments (projects/PaxosKV/source/runtime.py, projects/GoServer/source/runtime.py): the
--     processes of the example projects. Deployments.Paxos and Deployments.GoServer have `stop` and
--     `run`. Where signals come in a run of the first is part of its course.
-- Reset (scripts/reset_leanfm_workspace.py): the operator's fresh start. Reset.Tree has
--     `inventory`, Reset.Plan the checks of `reset`, Reset.Apply its changes, as a list of actions.
-- Traces (projects/PaxosKV/scripts/mcp_paxos_udp.py, projects/IslandUploads/scripts/mcp_islands.py):
--     event traces of model-checked paths. Traces.Paxos and Traces.Islands have `trace`, Traces.Log
--     the part that both share; an event's identifier is the number in it.
--
-- A method that changes files is a function of the files that gives its answer and the files it
-- leaves, those of an error included. The clock, random tokens, digests, the processes of the
-- system, the facts that a call asks the file system for and the libraries that a script calls are
-- arguments; the theorems name what they need of them. A call holds a lock, so a run is a sequence
-- of calls; Application.System adds the steps of supervisors between them.
--
-- A loop that polls is a recursion over what its passes find, which ends with its deadline.
-- `Application.Resources.collect` has fuel, one pass for each process of the table, which is enough
-- for its loop to end.
--
-- Loops are recursions over the list that the script iterates. `Workspace.Names.decimal` has fuel,
-- the number of digits: five are enough, as the largest ordinal is 10000. The loop that waits for a
-- launch runs over the records that it reads until its deadline.
--
-- Not modelled: printing and parsing of JSON, the start of processes and what runs in a sandbox,
-- resource limits and threads, sockets, the drawing of images, test doubles and browser scripts, and
-- the parts of the repository that are written in Lean, Go, TypeScript and TLA+.
pub mod Common
pub mod Work
pub mod Workspace
pub mod Application
pub mod Credentials
pub mod Reducer
pub mod Bakery
pub mod Media
pub mod Paths
pub mod Runtime
pub mod Specification
pub mod Traces
pub mod Sandbox
pub mod ProjectState
pub mod Deployments
pub mod Reset
