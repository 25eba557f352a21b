-- ===== src/Service/Templates/Plist.antt =====
-- internal/service/templates.go: plistTemplateText with RenderPlist.
use raxd.Prelude.{List, [], ◌∷◌, ◌++◌, Bytes, codes, String}
use raxd.Prelude.Exec.{Result}
use raxd.Service.Templates.{TemplateData, validate_template_data, unlines}
use raxd.Service.Templates.Unit.{rendered}

unfoldable pub plist_lines : TemplateData → List Bytes
plist_lines d =
    codes "<?xml version=\"1.0\" encoding=\"UTF-8\"?>"
    ∷ codes "<!DOCTYPE plist PUBLIC \"-//Apple//DTD PLIST 1.0//EN\""
    ∷ codes "    \"http://www.apple.com/DTDs/PropertyList-1.0.dtd\">"
    ∷ (codes "<!-- /Library/LaunchDaemons/" ++ d.label ++ codes ".plist -->")
    ∷ codes "<!-- Generated by: raxd service install. Do not edit manually. -->"
    ∷ codes "<plist version=\"1.0\">"
    ∷ codes "<dict>"
    ∷ codes "    <!-- Required: unique job identifier (reverse DNS) -->"
    ∷ codes "    <key>Label</key>"
    ∷ (codes "    <string>" ++ d.label ++ codes "</string>")
    ∷ []
    ∷ codes "    <!-- Command: raxd serve (AC1) -->"
    ∷ codes "    <key>ProgramArguments</key>"
    ∷ codes "    <array>"
    ∷ (codes "        <string>" ++ d.exec_path ++ codes "</string>")
    ∷ codes "        <string>serve</string>"
    ∷ codes "    </array>"
    ∷ []
    ∷ codes "    <!-- Autostart at load/boot (AC3) -->"
    ∷ codes "    <key>RunAtLoad</key>"
    ∷ codes "    <true/>"
    ∷ []
    ∷ codes "    <!-- Restart on failure only: SuccessfulExit=false means restart when exit!=0."
    ∷ codes "         Graceful stop returns code 0 → NOT restarted (AC5)."
    ∷ codes "         Kill / panic → exit!=0 → restarted (AC4). -->"
    ∷ codes "    <key>KeepAlive</key>"
    ∷ codes "    <dict>"
    ∷ codes "        <key>SuccessfulExit</key>"
    ∷ codes "        <false/>"
    ∷ codes "    </dict>"
    ∷ []
    ∷ codes
        "    <!-- Non-root execution: launchd starts as root, drops to UserName (AC6, SR-83) -->"
    ∷ codes "    <key>UserName</key>"
    ∷ (codes "    <string>" ++ d.user ++ codes "</string>")
    ∷ []
    ∷ codes "    <key>GroupName</key>"
    ∷ (codes "    <string>" ++ d.group ++ codes "</string>")
    ∷ []
    ∷ codes "    <!-- Environment: XDG paths so internal/config/paths.go resolves system dirs"
    ∷ codes "         without code changes (ADR-002). HOME needed as fallback in paths.go."
    ∷ codes "         ConfigHome=filepath.Dir(ConfigDir), StateHome=filepath.Dir(StateDir) —"
    ∷ codes "         invariant: XDG_CONFIG_HOME + \"/raxd\" == ConfigDir (BUG-1 macOS fix). -->"
    ∷ codes "    <key>EnvironmentVariables</key>"
    ∷ codes "    <dict>"
    ∷ codes "        <key>XDG_CONFIG_HOME</key>"
    ∷ (codes "        <string>" ++ d.config_home ++ codes "</string>")
    ∷ codes "        <key>XDG_STATE_HOME</key>"
    ∷ (codes "        <string>" ++ d.state_home ++ codes "</string>")
    ∷ codes "        <key>HOME</key>"
    ∷ (codes "        <string>" ++ d.state_dir ++ codes "</string>")
    ∷ codes "    </dict>"
    ∷ []
    ∷ codes "    <!-- Working directory -->"
    ∷ codes "    <key>WorkingDirectory</key>"
    ∷ (codes "    <string>" ++ d.state_dir ++ codes "</string>")
    ∷ []
    ∷ codes "    <!-- Log output (macOS has no journald; rotation via newsyslog, see ops docs) -->"
    ∷ codes "    <key>StandardOutPath</key>"
    ∷ (codes "    <string>" ++ d.log_path ++ codes "/raxd.log</string>")
    ∷ []
    ∷ codes "    <key>StandardErrorPath</key>"
    ∷ (codes "    <string>" ++ d.log_path ++ codes "/raxd.log</string>")
    ∷ codes "</dict>"
    ∷ codes "</plist>"
    ∷ []

unfoldable pub render_plist : TemplateData → Result String Bytes
render_plist d = rendered (unlines (plist_lines d)) (validate_template_data d)
