-- ===== src/Application/Types.antt =====
-- The record of a launch, what a call observes, and what it answers.
use lean_fm.Common.{ℕ, String, Bool, Option}

pub data State : Type 0 where
  starting running stopped failed stale : State

pub record Record : Type 0 where
  pub owner : String
  pub project_id : String
  pub instance_id : String
  pub nonce : String
  pub capability : Option String
  pub revision : String
  pub state : State
  pub reason : String

-- `contract(root)`, as far as `start` looks at it
pub record Profile : Type 0 where
  pub relative_urls : Bool

-- `alive` of the record that is asked about, the answer to `health` (not ready where the exchange
-- raises), `revision(root)`, `contract(root)` or none where it raises, the Makefile's size, the
-- number of live applications of the projects beside this one and its own, the three values of
-- `secrets.token_hex`, and the answer of the application to a request, or none.
pub record World : Type 0 where
  pub alive : Record → Bool
  pub healthy : Record → Bool
  pub revision : String
  pub contract : Option Profile
  pub makefile_size : ℕ
  pub live_applications : ℕ
  pub instance_token : String
  pub nonce_token : String
  pub capability_token : String
  pub exchange : Record → Option String

pub record View : Type 0 where
  pub state : State
  pub project_id : String
  pub instance_id : String
  pub revision : String
  pub url : String
  pub reason : String

pub data Refusal : Type 0 where
  other_owner other_owner_runs instance_changed invalid_contract no_relative_urls : Refusal
  makefile_too_big capacity_reached not_ready deadline_exceeded sign_in not_started : Refusal
  invalid_capability stopped_or_stale exchange_failed superseded unknown_operation : Refusal

pub data Answer (A : Type 0) : Type 0 where
  ok : A → Answer A
  refused : Refusal → Answer A

-- The object that a command prints, for the operations of `main` but the two of its own processes.
pub data Output : Type 0 where
  viewed : View → Output
  opened : View → (preview_prefix : String) → Output
  no_content : Output
  proxied : String → Output

pub data Operation : Type 0 where
  start status stop open_preview proxy unknown : Operation

-- What a command reads from its input.
pub record Payload : Type 0 where
  pub owner : String
  pub project_id : String
  pub instance_id : String
  pub capability : String
  pub is_options : Bool
