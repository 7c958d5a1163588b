-- ===== src/Policy/Terms.antt =====
-- The term lists of gateway.go, engine.go and taint.go.
use open_agentic_threat_defe.Prelude.{List, String, [], ◌∷◌}

abbrev pub secret_terms : List String
secret_terms =
    "secret" ∷ "token" ∷ "credential" ∷ "password" ∷ "api_key" ∷ "ssh_key" ∷ "bearer" ∷ []

abbrev pub injection_terms : List String
injection_terms =
    "ignore previous" ∷ "system prompt" ∷ "developer message" ∷ "prompt injection" ∷ "jailbreak"
    ∷ "bypass policy" ∷ "reveal prompt" ∷ "tool schema" ∷ "curl | sh" ∷ "base64 -d"
    ∷ "powershell -enc" ∷ "invoke-expression" ∷ "eval(" ∷ "cmd /c" ∷ []

abbrev pub lateral_movement_terms : List String
lateral_movement_terms =
    "psexec" ∷ "wmic /node" ∷ "enter-pssession" ∷ "invoke-command" ∷ "new-pssession" ∷ "wmiexec"
    ∷ "smbexec" ∷ "winrm" ∷ "mstsc" ∷ "schtasks /s" ∷ []

abbrev pub impact_terms : List String
impact_terms =
    "vssadmin delete" ∷ "delete shadows" ∷ "shadowcopy delete" ∷ "wbadmin delete" ∷ "bcdedit"
    ∷ "cipher /w" ∷ "ransom" ∷ ".locked" ∷ ".encrypted" ∷ "encrypt all files" ∷ []

abbrev pub discovery_terms : List String
discovery_terms =
    "whoami" ∷ "ipconfig" ∷ "ifconfig" ∷ "net user" ∷ "net group" ∷ "netstat" ∷ "arp -a" ∷ "nltest"
    ∷ "dsquery" ∷ "powershell" ∷ "invoke-webrequest" ∷ "curl" ∷ "wget" ∷ "nmap" ∷ "masscan"
    ∷ "credential" ∷ "token" ∷ "ssh_key" ∷ []

-- the terms of the rule agent.secret.exposure
abbrev pub exposure_terms : List String
exposure_terms = "secret" ∷ "token" ∷ "credential" ∷ "password" ∷ "env" ∷ "ssh_key" ∷ "api_key" ∷ []

-- the terms of the rule model.runtime.suspicious
abbrev pub model_runtime_terms : List String
model_runtime_terms =
    "llama" ∷ "ollama" ∷ "vllm" ∷ "gguf" ∷ "model-download" ∷ "cuda" ∷ "gpu" ∷ "tool_spawn" ∷ []

abbrev pub taint_source_terms : List String
taint_source_terms =
    "canary" ∷ "honey" ∷ "decoy" ∷ "secret" ∷ "token" ∷ "credential" ∷ "password" ∷ "api_key"
    ∷ "ssh_key" ∷ "bearer" ∷ "env" ∷ "vault" ∷ []

abbrev pub taint_sink_terms : List String
taint_sink_terms =
    "webhook" ∷ "dispatch" ∷ "issue" ∷ "upload" ∷ "post" ∷ "send" ∷ "exfil" ∷ "github" ∷ "slack"
    ∷ "discord" ∷ "invoke-webrequest" ∷ "curl" ∷ "wget" ∷ []
