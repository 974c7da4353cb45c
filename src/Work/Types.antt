-- ===== src/Work/Types.antt =====
-- The data of scripts/chatui_work_state.py. A JSON object becomes a record of the fields that the
-- program writes, an opaque JSON value a text.
use lean_fm.Common.{ℕ, String, Bool, Option, List}
use lean_fm.Common.Table.{Table}

pub data State : Type 0 where
  running checkpointed completed blocked gate cancelled : State

pub record Identity : Type 0 where
  pub account : String
  pub owner : String
  pub credential : String
  pub provider : String
  pub model : String

-- `provider_state`: `{"restart": true}`, or what the provider loop saved
pub data ProviderState : Type 0 where
  restart : ProviderState
  context : String → ProviderState

-- `task_state`: the entry "trace", the entry "usage", and the rest
pub record TaskState : Type 0 where
  pub trace : Option String
  pub usage : String
  pub rest : String

-- What `public` returns.
pub record Public : Type 0 where
  pub id : String
  pub state : State
  pub checkpoint : String
  pub batch : ℕ
  pub continues : Bool
  pub progress : String
  pub is_cancelled : Bool
  pub requires_resume : Bool

-- The response of a batch, with the text that replaces its own where the store stopped the work,
-- and the response that `cancel` makes up.
pub data Response : Type 0 where
  batch_response : (body : String) (text : Option String) (work : Public) → Response
  cancel_response : (model usage : String) (work : Public) → Response

pub record Receipt : Type 0 where
  pub consumed : String
  pub response : Response

pub record Job : Type 0 where
  pub id : String
  pub request_id : String
  pub root_tag : String
  pub account : String
  pub owner : String
  pub credential : String
  pub provider : String
  pub model : String
  pub state : State
  pub batch : ℕ
  pub batch_size : ℕ
  pub checkpoint : String
  pub claim : String
  pub consumed : String
  pub provider_state : ProviderState
  pub task_state : TaskState
  pub receipts : List Receipt
  pub no_progress : ℕ
  pub is_cancelled : Bool
  pub revision : String
  pub progress : String

-- active.json
pub record Lease : Type 0 where
  pub id : String
  pub expires : ℕ

-- A .json file of .leanfm/work: a job with the time of its last write, or a request's index.
pub data File : Type 0 where
  job_file : Job → ℕ → File
  index_file : String → File

pub record Disk : Type 0 where
  pub files : Table File
  pub prompts : Table String
  pub active : Option Lease

-- One call's fields of the request object, with the defaults of its `get` calls filled in. `claim`
-- is `none` where the request has none, and `state` where it is no state that `save` takes.
pub record Request : Type 0 where
  pub identity : Identity
  pub work_id : String
  pub request_id : String
  pub chat : Bool
  pub explicit_resume : Bool
  pub batch_size : ℕ
  pub prompt : String
  pub checkpoint : String
  pub restart : Bool
  pub claim : Option String
  pub state : Option State
  pub provider_state : ProviderState
  pub task_state : TaskState
  pub made_progress : Bool
  pub progress : String
  pub response : String

-- What one call takes from outside: the clock in nanoseconds, `revision(self.root)`, the store's
-- root tag, the values of `secrets.token_hex(16)` by their use, and the sizes in bytes of the JSON
-- texts that `json.dumps` would make.
pub record World : Type 0 where
  pub now : ℕ
  pub revision : String
  pub root_tag : String
  pub request_token : String
  pub id_token : String
  pub claim_token : String
  pub checkpoint_token : String
  pub job_size : Job → ℕ
  pub provider_size : ProviderState → ℕ

-- The messages of `Rejected`, in the order of the source; `prompt_missing` is the `OSError` of
-- reading a prompt that is not there.
pub data Reason : Type 0 where
  invalid_identifier no_such_work oversized other_root metadata_exceeded : Reason
  other_caller login_ended continuing unauthenticated : Reason
  invalid_request_id still_running reserved : Reason
  invalid_checkpoint was_cancelled stale_checkpoint other_writer files_changed : Reason
  stale_claim invalid_state unknown_operation prompt_missing : Reason

pub data Operation : Type 0 where
  guard start status cancel claim save unknown : Operation

-- What an operation returns.
pub data Reply : Type 0 where
  allowed : Reply
  granted : (job : Job) (prompt : String) → Reply
  cached : (response : Response) (work : Public) → Reply
  reported : (work : Public) (response : Option Response) (request_id model prompt : String) → Reply
  no_work : Reply
  cancel_done : (work : Public) (newly_cancelled : Bool) (response : Option Response) → Reply
  saved : (response : Response) (work : Public) → Reply
