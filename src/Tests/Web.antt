-- ===== src/Tests/Web.antt =====
-- Concrete snapshots, texts and requests for the theorems on internal/aclweb/core and
-- internal/h3c/aclout.
use acl_edit_only.Base.{ℕ, ◌<◌, ◌≤◌, ◌^◌, ◌≡◌, ◌≢◌, refl, ◌↔◌, List, [], ◌∷◌, map, All, Elem, arith}
use acl_edit_only.Base.Text.{Bytes, codes, str_eq, has_prefix, split, join, trim_space}
use acl_edit_only.Base.Int.{pos}
use acl_edit_only.Base.Result.{ok, err, done}
use acl_edit_only.Base.Decimal.{itoa_int, atoi, atoi_value}
use acl_edit_only.Base.Regex.{find, matches, remove_all, find_all_groups}
use acl_edit_only.Aclout.{rule_ids, count, header_count}
use acl_edit_only.Core.Alloc.{exhausted, choose_next, allocate_rule_id, occupied_ids}
use acl_edit_only.Core.Alloc.Fresh.{allocate_rule_id_exhausted}
use acl_edit_only.Core.Diff.{op_equal, op_delete, op_insert, DiffOp, diff_ops}
use acl_edit_only.Core.Diff.Script.{old_lines, new_lines, diff_ops_replays}
use acl_edit_only.Core.Diff.Minimal.{end, keep, leave, kept, diff_ops_minimal}
use acl_edit_only.Core.SideBySide.{diff_counts, rows_of}
use acl_edit_only.Core.SideBySide.Replays.{lefts, rights, line_of, Readable, rows_of_replays}
use acl_edit_only.Core.SideBySide.Counts.{changes, diff_counts-rows_of}
use acl_edit_only.Core.Artifacts.{rule_id_of_line, rule_exists_in_snapshot}
use acl_edit_only.Core.Verify.{
  verify_change, verify_deletion, significant_lines, neutralize_rule_count, fields,
}
use acl_edit_only.Core.Verify.Exact.{Added, Removed, verify_change_iff, verify_deletion_iff}
use acl_edit_only.Core.Request.{SubmitRequest, normalize, plan_of}
use acl_edit_only.Core.Request.Ports.{on_port, plan_of-port}

abbrev pub before : Bytes
before = codes "Advanced IPv4 ACL 3000, 1 rules,\nACL's step is 5\n rule 100 permit tcp\n"

abbrev pub later : Bytes
later =
    codes
      "Advanced IPv4 ACL 3000, 2 rules,\nACL's step is 5\n rule 100 permit tcp\n rule 101 permit udp\n"

counted : count before (pos 3000) ≡ ok 1
unfolding count header_count rule_ids find atoi find_all_groups
counted = refl

refused : allocate_rule_id before (pos 3000) (pos 100) (pos 100) ≡ err (exhausted 100)
unfolding allocate_rule_id count header_count rule_ids occupied_ids choose_next find atoi atoi_value
    find_all_groups
refused = refl

allocate_rule_id_exhausted_example :
    (m : ℕ) × (exhausted 100 ≡ exhausted m)
    × (pos m ≡ pos 100)
    × Elem m (occupied_ids before (pos 100) (pos 100))
allocate_rule_id_exhausted_example =
    allocate_rule_id_exhausted before (pos 3000) (pos 100) (pos 100) counted refused

abbrev old_text : List Bytes
old_text = codes "a" ∷ codes "b" ∷ codes "b" ∷ []

abbrev new_text : List Bytes
new_text = codes "b" ∷ codes "c" ∷ codes "b" ∷ []

diff_ops_replays_example :
    (old_lines (diff_ops old_text new_text) ≡ old_text)
    × (new_lines (diff_ops old_text new_text) ≡ new_text)
diff_ops_replays_example = diff_ops_replays old_text new_text

diff_ops_minimal_example : 2 ≤ kept (diff_ops old_text new_text)
diff_ops_minimal_example =
    diff_ops_minimal old_text new_text (codes "b" ∷ codes "b" ∷ [])
      (leave (codes "a") (keep (codes "b") (keep (codes "b") end)))
      (keep (codes "b") (leave (codes "c") (keep (codes "b") end)))

abbrev ops : List DiffOp
ops =
    record { kind = op_equal; text = codes "a" }
    ∷ record { kind = op_delete; text = codes "b" }
    ∷ record { kind = op_insert; text = codes "c" }
    ∷ []

ops-Readable : All Readable ops
unfolding has_prefix
ops-Readable = (refl, (refl, (refl, tt)))

rows_of_replays_example :
    (lefts (rows_of (map line_of ops)) ≡ old_lines ops)
    × (rights (rows_of (map line_of ops)) ≡ new_lines ops)
rows_of_replays_example = rows_of_replays ops ops-Readable

verify_change_iff_example :
    (verify_change before later (pos 3000) (pos 101) ≡ done)
    ↔ Added before later (pos 3000) (pos 101)
verify_change_iff_example = verify_change_iff before later (pos 3000) (pos 101)

verified : verify_change before later (pos 3000) (pos 101) ≡ done
unfolding verify_change count header_count rule_ids significant_lines rule_exists_in_snapshot find
    atoi find_all_groups split has_prefix trim_space itoa_int str_eq rule_id_of_line
    neutralize_rule_count matches join fields remove_all
verified = refl

verify_deletion_iff_example :
    (verify_deletion later before (pos 3000) (pos 101) ≡ done)
    ↔ Removed later before (pos 3000) (pos 101)
verify_deletion_iff_example = verify_deletion_iff later before (pos 3000) (pos 101)

abbrev request : SubmitRequest
request = record {
  protocol = codes "TCP";
  src_ip = [];
  src_wildcard = [];
  src_port_op = [];
  src_port_val = pos 0;
  dst_ip = codes "10.0.0.1";
  dst_wildcard = [];
  dst_port_op = codes "eq";
  dst_port_val = pos 65616;
  reason = codes "test";
}

has_operator : codes "eq" ≢ []
has_operator h = ground arith

plan_of-port_example :
    ((plan_of (codes "REQ-1") (pos 100) [] (pos 1) (normalize request)).dst_port
      ≡ on_port (codes "eq") 65616)
    ↔ (65616 < 2 ^ 16)
plan_of-port_example =
    plan_of-port (codes "REQ-1") [] (pos 100) (pos 1) request 65616 has_operator (λ h. ground arith)
      refl

diff_counts-rows_of_example : diff_counts (rows_of (map line_of ops)) ≡ changes ops
diff_counts-rows_of_example = diff_counts-rows_of ops ops-Readable
