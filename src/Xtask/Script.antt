-- ===== src/Xtask/Script.antt =====
-- `integration_test_script` of xtask/src/main.rs.
use bpf_rbacd.Base.{String, ◌<>◌, Bool, if◌then◌else◌}

abbrev pub log_level : Bool → String
log_level verbose = if verbose then "info" else "warn"

unfoldable pub integration_test_script : Bool → String
integration_test_script verbose =
    "#!/bin/bash\n"
    <> "# Setup\n"
    <> "groupadd ebpf 2>/dev/null || true\n"
    <> "useradd -m -G ebpf xtask_user_ok 2>/dev/null || true\n"
    <> "useradd -m xtask_user_bad 2>/dev/null || true\n"
    <> "\n"
    <> "# Start daemon\n"
    <> "RUST_LOG="
    <> log_level verbose
    <> " ./target/release/bpf-rbacd &\n"
    <> "DAEMON_PID=$!\n"
    <> "sleep 2\n"
    <> "\n"
    <> "PASSED=0\n"
    <> "FAILED=0\n"
    <> "\n"
    <> "run_test() {\n"
    <> "    local name=\"$1\"\n"
    <> "    local user=\"$2\"\n"
    <> "    local expected=\"$3\"\n"
    <> "    shift 3\n"
    <> "    \n"
    <> "    printf \"  [%s]: \" \"$name\"\n"
    <> "    OUTPUT=$(sudo -u \"$user\" ./target/release/bpf-rbac \"$@\" 2>&1) || true\n"
    <> "    \n"
    <> "    if [ \"$expected\" = \"pass\" ]; then\n"
    <> "        if echo \"$OUTPUT\" | grep -q \"Success\"; then\n"
    <> "            echo \"PASS\"\n"
    <> "            PASSED=$((PASSED+1))\n"
    <> "        else\n"
    <> "            echo \"FAIL\"\n"
    <> "            FAILED=$((FAILED+1))\n"
    <> "        fi\n"
    <> "    else\n"
    <> "        if echo \"$OUTPUT\" | grep -q \"Denied\"; then\n"
    <> "            echo \"PASS (denied)\"\n"
    <> "            PASSED=$((PASSED+1))\n"
    <> "        else\n"
    <> "            echo \"FAIL\"\n"
    <> "            FAILED=$((FAILED+1))\n"
    <> "        fi\n"
    <> "    fi\n"
    <> "}\n"
    <> "\n"
    <> "echo \"  Integration Tests:\"\n"
    <> "run_test \"allowed_hash_map\" \"xtask_user_ok\" \"pass\" create-map hash t1 4 8 100\n"
    <> "run_test \"allowed_array_map\" \"xtask_user_ok\" \"pass\" create-map array t2 4 8 100\n"
    <> "run_test \"denied_hash_map\" \"xtask_user_bad\" \"fail\" create-map hash t3 4 8 100\n"
    <> "run_test \"denied_array_map\" \"xtask_user_bad\" \"fail\" create-map array t4 4 8 100\n"
    <> "\n"
    <> "echo \"\"\n"
    <> "echo \"Results: $PASSED passed, $FAILED failed\"\n"
    <> "\n"
    <> "# Cleanup\n"
    <> "kill $DAEMON_PID 2>/dev/null || true\n"
    <> "pkill -f bpf-rbacd 2>/dev/null || true\n"
    <> "userdel -r xtask_user_ok 2>/dev/null || true\n"
    <> "userdel -r xtask_user_bad 2>/dev/null || true\n"
    <> "rm -f /run/bpf-rbac.sock 2>/dev/null || true\n"
    <> "\n"
    <> "# Exit with proper status\n"
    <> "[ $FAILED -eq 0 ]\n"
