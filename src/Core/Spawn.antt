-- ===== src/Core/Spawn.antt =====
-- internal/aclweb/core/core.go: how the web side runs the agent. The
-- processes, the files, the clock, the context of the request, crypto/sha256 and encoding/json are
-- parameters.
pub mod Tail
use acl_edit_only.Base.{
  ℕ, ◌+◌, ◌-◌, Bool, true, false, not, ◌&&◌, Option, none, some, List, [], ◌∷◌, ◌++◌, length, take,
  drop, ltb, if◌then◌else◌,
}
use acl_edit_only.Base.Text.{Bytes, codes, str_eq, trim_space}
use acl_edit_only.Base.Int.{ℤ, pos}
use acl_edit_only.Base.Decimal.{itoa}
use acl_edit_only.Base.Result.{Result, ok, err, Check, done, map_err}
use acl_edit_only.Plan.{
  Plan, Stage, no_stage, connect, auth, view, write, comment, save, quit, AgentResult, success,
  plan_rejected, guard_failed, connect_failed, auth_failed, timeout, prompt_mismatch, device_error,
  rolled_back, save_failed, inconsistent,
}
use acl_edit_only.Agent.Run.{Response}
use acl_edit_only.Core.Request.{WebConfig}

-- `tailWriter`, with the bytes that it holds
unfoldable pub tail_write : ℕ → Bytes → Bytes → Bytes
tail_write max buf p =
    let buf' = buf ++ p in if ltb max (length buf') then drop (length buf' - max) buf' else buf'

-- what it holds after the writes of a process
unfoldable pub tail_of : ℕ → Bytes → List Bytes → Bytes
unfolding tail_write
tail_of max buf [] = buf
tail_of max buf (p ∷ ps) = tail_of max (tail_write max buf p) ps

-- what a process leaves: its output, the writes to its standard error, and its error
pub record Exit : Type 0 where
  pub out : Bytes
  pub stderr : List Bytes
  pub failed : Option Bytes

-- `Response` as the agent sends it, with its detail
pub record Reply : Type 0 where
  pub response : Response
  pub detail : Bytes

-- What the service has of its host, whose state is of type `W`. `ctx_open` is that the context of
-- the request is neither cancelled nor past its deadline.
pub record Machine (W : Type 0) : Type 0 where
  pub ctx_open : W → Bool
  pub now : W → ℕ
  pub today : W → Bytes  -- time.Now().Format("20060102")
  pub exec : List Bytes → W → Exit × W
  pub unmarshal_response : Bytes → Result Bytes Reply
  pub marshal_plan : Plan → Result Bytes Bytes
  pub unmarshal_plan : Bytes → Result Bytes Plan
  pub sha256 : Bytes → Bytes
  pub join : Bytes → Bytes → Bytes
  pub read_file : Bytes → W → Result Bytes Bytes
  pub make_dir : Bytes → W → Check Bytes × W
  pub write_file : Bytes → Bytes → W → Check Bytes × W
  pub rename : Bytes → Bytes → W → Check Bytes × W
  pub remove : Bytes → W → W

-- `WebConfig`, with what does not mirror the binding
pub record ServiceConfig : Type 0 where
  pub web : WebConfig
  pub agent_bin : Bytes
  pub agent_cfg : Bytes
  pub plan_dir : Bytes
  pub rule_comment : Bool

-- the texts of the constants of package plan
unfoldable pub result_text : AgentResult → Bytes
result_text success = codes "ok"
result_text plan_rejected = codes "plan_rejected"
result_text guard_failed = codes "guard_failed"
result_text connect_failed = codes "connect_failed"
result_text auth_failed = codes "auth_failed"
result_text timeout = codes "timeout"
result_text prompt_mismatch = codes "prompt_mismatch"
result_text device_error = codes "device_error"
result_text rolled_back = codes "rolled_back"
result_text save_failed = codes "save_failed"
result_text inconsistent = codes "inconsistent"

unfoldable pub stage_text : Stage → Bytes
stage_text no_stage = []
stage_text connect = codes "connect"
stage_text auth = codes "auth"
stage_text view = codes "view"
stage_text write = codes "write"
stage_text comment = codes "comment"
stage_text save = codes "save"
stage_text quit = codes "quit"

abbrev or_text : Bytes → Bytes → Bytes
or_text s t = if str_eq s [] then t else s

-- `describeResponse`
unfoldable pub describe_response : Reply → Bytes → Bytes
unfolding result_text stage_text
describe_response r stderr_text =
    result_text r.response.result
    ++ ((if str_eq (stage_text r.response.stage) []
          then []
          else codes " at stage " ++ stage_text r.response.stage)
        ++ (codes ": "
            ++ or_text (or_text (trim_space r.detail) stderr_text) (codes "no detail reported")))

pub data AgentError : Type 0 where
  reported : Bytes → AgentError
  exited : Bytes → Bytes → AgentError  -- with what it wrote to its standard error
  undecoded : Bytes → AgentError

-- plan.Response{Result: plan.ResultInconsistent}
abbrev pub no_reply : Reply
no_reply = record {
  response = record {
    result = inconsistent;
    stage = no_stage;
    raw = [];
    bound_acl = pos 0;
    bound_range_min = pos 0;
    bound_range_max = pos 0;
    bound_alloc_max = pos 0;
    config_sha256 = [];
    agent_version = [];
  };
  detail = [];
}

-- the reply of a process that failed with `e`; `decoded` is its output
unfoldable pub failed_reply : Bytes → Bytes → Bytes → Result Bytes Reply → Reply × Option AgentError
unfolding describe_response
failed_reply e stderr_text [] decoded = (no_reply, some (exited e stderr_text))
failed_reply e stderr_text (c ∷ out) (ok reply) =
    (reply, some (reported (describe_response reply stderr_text)))
failed_reply e stderr_text (c ∷ out) (err x) = (no_reply, some (exited e stderr_text))

unfoldable pub decoded_reply : Result Bytes Reply → Reply × Option AgentError
decoded_reply (ok reply) = (reply, none)
decoded_reply (err x) = (no_reply, some (undecoded x))

module _ {W : Type 0} (m : Machine W) (cfg : ServiceConfig) where
  -- what is made of the end of the process
  unfoldable pub read_exit : Exit → Reply × Option AgentError
  unfolding tail_of failed_reply decoded_reply
  read_exit e = elim e.failed [
    | none ↦ decoded_reply (m.unmarshal_response e.out)
    | some x ↦
        failed_reply x (trim_space (tail_of 4096 [] e.stderr)) e.out (m.unmarshal_response e.out)
  ]

  -- `runAgentStream`; `stream` is that the caller gave it a writer
  unfoldable pub run_agent_stream : Bool → Bytes → List Bytes → W → (Reply × Option AgentError) × W
  unfolding read_exit
  run_agent_stream stream subcmd extra_args w =
      let (e, w') =
        m.exec
          (cfg.agent_bin
            ∷ subcmd
            ∷ codes "--config"
            ∷ cfg.agent_cfg
            ∷ ((if stream then codes "--stream" ∷ [] else []) ++ extra_args))
          w in
      (read_exit e, w')

  -- `runAgent`
  unfoldable pub run_agent : Bytes → List Bytes → W → (Reply × Option AgentError) × W
  unfolding run_agent_stream
  run_agent subcmd extra_args w = run_agent_stream false subcmd extra_args w

  unfoldable pub raw_of : Reply × Option AgentError → Result AgentError Bytes
  unfolding describe_response
  raw_of (reply, some e) = err e
  raw_of (reply, none) = elim reply.response.result [
    | success ↦ ok reply.response.raw
    | _ ↦ err (reported (describe_response reply []))
  ]

  -- `runSnapshot`
  unfoldable pub run_snapshot : W → Result AgentError Bytes × W
  unfolding run_agent raw_of
  run_snapshot w = let (r, w') = run_agent (codes "snapshot") [] w in (raw_of r, w')
