-- ===== src/Core/PlanFile.antt =====
-- internal/aclweb/core/core.go: the plan files, the code that names one, and the comment of a rule.
use acl_edit_only.Base.{ℕ, ◌-◌, ◌++◌, length, take, ltb, if◌then◌else◌}
use acl_edit_only.Base.Text.{Bytes, codes}
use acl_edit_only.Base.Int.{pos}
use acl_edit_only.Base.Decimal.{itoa}
use acl_edit_only.Base.Result.{Result, ok, err, Check}
use acl_edit_only.Plan.{Plan}
use acl_edit_only.Core.Spawn.{Machine, ServiceConfig}

module _ {W : Type 0} (m : Machine W) (cfg : ServiceConfig) where
  pub plan_file : Bytes → Bytes
  plan_file code = m.join cfg.plan_dir (code ++ codes ".json")

  -- the write to a temporary file, and its renaming
  unfoldable pub replace_file : Bytes → Bytes → Bytes → W → Check Bytes × W
  replace_file tmp path content w =
      let (written, w₁) = m.write_file tmp content w in
      elim written [ err e ↦ (err e, w₁) | ok u ↦ m.rename tmp path w₁ ]

  -- `writePlanFile`
  unfoldable pub write_plan_file : Bytes → Bytes → W → Check Bytes × W
  unfolding plan_file replace_file
  write_plan_file code content w =
      let (made, w₁) = m.make_dir cfg.plan_dir w in
      elim made [
        | err e ↦ (err e, w₁)
        | ok u ↦
            replace_file (m.join cfg.plan_dir (code ++ codes ".json.tmp")) (plan_file code) content
              w₁
      ]

  -- `removePlanFile`
  unfoldable pub remove_plan_file : Bytes → W → W
  unfolding plan_file
  remove_plan_file code w = m.remove (plan_file code) w

  -- `planFileSHA`
  unfoldable pub plan_file_sha : Bytes → W → Result Bytes Bytes
  unfolding plan_file
  plan_file_sha code w = elim (m.read_file (plan_file code) w) [
    | err e ↦ err e
    | ok raw ↦ ok (m.sha256 raw)
  ]

  unfoldable pub recount : Bytes → ℕ → Result Bytes Plan → Result Bytes Bytes
  recount raw n (err e) = err e
  recount raw n (ok p) = m.marshal_plan (record p { expect_count_before = pos n })

  -- the plan that is read back, with the count put into it
  unfoldable pub recounted : Bytes → ℕ → W → Result Bytes Bytes
  unfolding plan_file recount
  recounted code n w = elim (m.read_file (plan_file code) w) [
    | err e ↦ err e
    | ok raw ↦ recount raw n (m.unmarshal_plan raw)
  ]

  -- `updatePlanExpectCount`
  unfoldable pub update_plan_expect_count : Bytes → ℕ → W → Check Bytes × W
  unfolding plan_file replace_file recounted
  update_plan_expect_count code n w = elim (recounted code n w) [
    | err e ↦ (err e, w)
    | ok updated ↦ replace_file (plan_file code ++ codes ".tmp") (plan_file code) updated w
  ]

-- `%04d`, of an id
unfoldable pub pad4 : Bytes → Bytes
pad4 s = if ltb (length s) 4 then take (4 - length s) (codes "0000") ++ s else s

-- the request code: "REQ-%s-%04d"
unfoldable pub request_code_of : Bytes → ℕ → Bytes
unfolding pad4
request_code_of today id = codes "REQ-" ++ (today ++ (codes "-" ++ pad4 (itoa id)))

-- `buildComment`, where `sha` is the hexadecimal text of crypto/sha256
unfoldable pub build_comment : (Bytes → Bytes) → Bytes → Bytes → Bytes
build_comment sha code content =
    codes "ACLSYS-REQ-" ++ (code ++ (codes "-" ++ take 8 (sha content)))
