-- ===== src/Service/Templates/Unit.antt =====
-- internal/service/templates.go: unitTemplateText with RenderUnit, and the journald drop-in.
use raxd.Prelude.{Bool, true, false, List, [], ◌∷◌, ◌++◌, Bytes, codes, String}
use raxd.Prelude.Exec.{Result, ok, err}
use raxd.Service.Templates.{TemplateData, validate_template_data, unlines}

unfoldable pub unit_head : TemplateData → List Bytes
unit_head d =
    codes "# /etc/systemd/system/raxd.service"
    ∷ codes "# Generated by: raxd service install. Do not edit manually."
    ∷ codes "# Regenerate: raxd service install (idempotent, AC9)."
    ∷ []
    ∷ codes "[Unit]"
    ∷ codes "Description=raxd — Remote Access Daemon for AI agents (OEM TECH)"
    ∷ codes "After=network.target"
    ∷ codes "Documentation=https://github.com/vladimirvkhs/raxd"
    ∷ []
    ∷ codes "[Service]"
    ∷ codes "Type=exec"
    ∷ (codes "ExecStart=" ++ d.exec_path ++ codes " serve")
    ∷ (codes "User=" ++ d.user)
    ∷ (codes "Group=" ++ d.group)
    ∷ []
    ∷ codes "# Restart on failure only (AC4); graceful SIGTERM → clean exit → no restart (AC5)."
    ∷ codes "Restart=on-failure"
    ∷ codes "RestartSec=2s"
    ∷ []
    ∷ codes "# State directory: systemd creates /var/lib/raxd with owner=raxd before start."
    ∷ codes
        "# StateDirectoryMode=0700 is EXPLICIT — default is 0755, which is wider than baseline §2."
    ∷ codes "StateDirectory=raxd"
    ∷ codes "StateDirectoryMode=0700"
    ∷ []
    ∷ codes
        "# Config directory: systemd creates /etc/raxd owned by raxd BEFORE ExecStart (BUG-1 fix)."
    ∷ codes
        "# Without this, config.EnsureDirs → MkdirAll(/etc/raxd) fails under ProtectSystem=strict."
    ∷ codes "# ConfigurationDirectoryMode=0700 is EXPLICIT per SR-89 baseline."
    ∷ codes "ConfigurationDirectory=raxd"
    ∷ codes "ConfigurationDirectoryMode=0700"
    ∷ []
    ∷ codes "# Path environment: overrides XDG defaults so internal/config/paths.go resolves"
    ∷ codes "# /etc/raxd (ConfigDir) and /var/lib/raxd (StateDir) without code changes (ADR-002)."
    ∷ codes "Environment=XDG_CONFIG_HOME=/etc"
    ∷ codes "Environment=XDG_STATE_HOME=/var/lib"
    ∷ codes "Environment=HOME=/var/lib/raxd"
    ∷ []
    ∷ codes "# Journal: stderr → journald (explicit per service-design.md §2.1, AC8 documentation)."
    ∷ codes "StandardOutput=journal"
    ∷ codes "StandardError=journal"
    ∷ codes "SyslogIdentifier=raxd"
    ∷ []

-- The branches of {{- if .NeedNetBindCap}}.
unfoldable pub unit_capability : Bool → List Bytes
unit_capability true =
    []
    ∷ codes "# Ambient capability: present ONLY when Port<1024 (NeedNetBindCap=true, ADR-003)."
    ∷ codes
        "# The hardening directive for privilege escalation is omitted here (ADR-003, accepted deviation П-1)."
    ∷ codes "# Remaining hardening PRESERVED (SR-87)."
    ∷ codes "CapabilityBoundingSet=CAP_NET_BIND_SERVICE"
    ∷ codes "AmbientCapabilities=CAP_NET_BIND_SERVICE"
    ∷ []
unit_capability false =
    [] ∷ codes "# Full hardening for default port >= 1024." ∷ codes "NoNewPrivileges=yes" ∷ []

unfoldable pub unit_tail : List Bytes
unit_tail =
    codes "ProtectSystem=strict"
    ∷ codes "ProtectHome=yes"
    ∷ codes "PrivateTmp=yes"
    ∷ []
    ∷ codes "[Install]"
    ∷ codes "WantedBy=multi-user.target"
    ∷ []

unfoldable pub unit_lines : TemplateData → List Bytes
unit_lines d = unit_head d ++ (unit_capability d.need_net_bind_cap ++ unit_tail)

abbrev pub rendered : Bytes → Result String (Unit {0}) → Result String Bytes
rendered s (ok u) = ok s
rendered s (err e) = err e

unfoldable pub render_unit : TemplateData → Result String Bytes
render_unit d = rendered (unlines (unit_lines d)) (validate_template_data d)

unfoldable pub journald_drop_in : Bytes
unfolding unlines
journald_drop_in = unlines (
    codes "# /etc/systemd/journald.conf.d/raxd.conf"
    ∷ codes "# Installed by: raxd service install"
    ∷ codes "# Removed by:   raxd service uninstall (SR-93)"
    ∷ codes "# Purpose: limit audit log growth (closes command-exec OR-2 / file-upload OR-U4)"
    ∷ codes "#"
    ∷ codes "# NOTE: journald limits are per-host (global), not per-unit (ADR-004, П-3)."
    ∷ []
    ∷ codes "[Journal]"
    ∷ codes "SystemMaxUse=200M"
    ∷ codes "SystemMaxFileSize=50M"
    ∷ [])
