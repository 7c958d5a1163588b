-- ===== src/Policy/Hosts.antt =====
-- Destinations: normalizeHost and isExternalDestination of engine.go.
use Prim.Native.Char.{Char}
use open_agentic_threat_defe.Go.Runtime.{Platform}
use open_agentic_threat_defe.Go.Strings.{contains, has_suffix, lower, text_before, trim_space}
use open_agentic_threat_defe.Prelude.{
  Bool, String, false, get_or, if◌then◌else◌, none, not, some, true, ◌==◌, ◌||◌,
}

abbrev slash : Char
slash = "/"

module _ ⦃p : Platform⦄ where
  -- The branch of `normalizeHost` for what is no URL with a host.
  plain_host : String → String
  plain_host destination =
      let host : String =
        if contains destination "/" then text_before slash destination else destination in
      let bare : String = if contains host ":" then get_or (p.split_host host) host else host in
      lower (trim_space bare)

  unfoldable pub normalize_host : String → String
  unfolding plain_host
  normalize_host destination = if destination == "" then "" else elim (p.url_hostname destination) [
    | none ↦ plain_host destination
    | some host ↦ if host == "" then plain_host destination else lower host
  ]

  unfoldable pub is_external_destination : String → Bool
  is_external_destination destination =
      let host = normalize_host destination in
      if host == ""
      then false
      else if has_suffix host ".local" || host == "localhost"
      then false
      else elim (p.parse_ip_internal host) [ none ↦ true | some internal ↦ not internal ]
