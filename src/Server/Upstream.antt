-- ===== src/Server/Upstream.antt =====
-- mcp.go: the checks of an upstream URL, and the request that goes to the address that was checked.
use Prim.Native.String.{◌++◌ as cat}
use open_agentic_threat_defe.Go.Results.{◌>>=◌}
use open_agentic_threat_defe.Go.Maps.{Dict, put_if}
use open_agentic_threat_defe.Go.Runtime.{Platform}
use open_agentic_threat_defe.Go.Strings.{elem, lower, trim_space}
use open_agentic_threat_defe.Prelude.{
  Bool, List, Option, String, [], any, get_or, if◌then◌else◌, inl, inr, is_some, none, not, some, ℕ,
  ◌&&◌, ◌==◌, ◌||◌, ◌∷◌, ◌⊎◌,
}

-- What is used of a parsed url.URL.
pub record Url : Type 0 where
  pub scheme : String
  pub hostname : String
  pub port : String
  -- String()
  pub text : String

-- What mcp.go uses of package net and net/url. An address is a text, and the empty one is nil.
pub record Network : Type 0 where
  pub parse_url : String → Url ⊎ String
  -- the text of a URL without its user information; `none` where it has none or does not parse
  pub without_user : String → Option String
  -- LookupIPAddr, the nth time
  pub lookup_ip_addr : ℕ → String → List String ⊎ String
  pub is_loopback : String → Bool
  pub is_link_local_unicast : String → Bool
  pub is_link_local_multicast : String → Bool
  pub is_private : String → Bool
  pub is_multicast : String → Bool
  pub is_unspecified : String → Bool
  -- the network of a CIDR text contains the address
  pub in_cidr : String → String → Bool
  -- what http.NewRequestWithContext fails with, for the text of a URL
  pub new_request : String → Option String
  -- http.CanonicalHeaderKey
  pub canonical_header_key : String → String

-- extraBlockedProxyCIDRs
abbrev extra_blocked_proxy_cidrs : List String
extra_blocked_proxy_cidrs = "100.64.0.0/10" ∷ "0.0.0.0/8" ∷ "192.0.0.0/24" ∷ "198.18.0.0/15" ∷ []

unfoldable pub is_blocked_proxy_ip : Network → String → Bool
is_blocked_proxy_ip net ip =
    ip == ""
    || (net.is_loopback ip
        || (net.is_link_local_unicast ip
            || (net.is_link_local_multicast ip
                || (net.is_private ip || (net.is_multicast ip || net.is_unspecified ip)))))
    || any (λ cidr. net.in_cidr cidr ip) extra_blocked_proxy_cidrs

-- validatedUpstreamTarget
pub record UpstreamTarget : Type 0 where
  pub url : Url
  pub ip : String

-- The loop over the addresses: the first that is not blocked, or an error at a blocked one.
unfoldable pub scan_addrs :
    Network → Bool → String → Option String → List String → Option String ⊎ String
scan_addrs net allow_local host selected [] = inl selected
scan_addrs net allow_local host selected (ip ∷ addrs) =
    let rest =
      scan_addrs net allow_local host
        (if not (is_some selected) && not (is_blocked_proxy_ip net ip) then some ip else selected)
        addrs in
    if is_blocked_proxy_ip net ip && not allow_local
    then inr (cat "upstream host " (cat host " resolves to a blocked address"))
    else rest

-- What follows the loop: the selected address, or the first of all.
unfoldable pub select_addr : Option String → List String → String ⊎ String
select_addr (some ip) addrs = inl ip
select_addr none (ip ∷ addrs) = inl ip
select_addr none [] = inr "upstream host resolved to no usable address"

module _ ⦃p : Platform⦄ where
  unfoldable pub is_blocked_proxy_host : String → Bool
  is_blocked_proxy_host host =
      let h = lower (trim_space host) in
      h == "" || (h == "localhost" || h == "metadata.google.internal")

  -- redactURLCredentials
  unfoldable pub redact_url_credentials : Network → String → String
  redact_url_credentials net raw = get_or (net.without_user (trim_space raw)) raw

  -- The tests of a parsed URL, and the host that is resolved.
  unfoldable pub checked_host : Url → String ⊎ String
  unfolding is_blocked_proxy_host
  checked_host url =
      let host = trim_space url.hostname in
      if not (url.scheme == "http") && not (url.scheme == "https")
      then inr (cat "unsupported upstream scheme " (p.quote url.scheme))
      else if host == ""
      then inr "upstream_url must include a host"
      else if is_blocked_proxy_host host
      then inr (cat "upstream host " (cat (p.quote host) " is not allowed"))
      else inl host

  -- The rest of validateProxyUpstreamURL: `addrs` is what the host resolves to.
  unfoldable pub resolved_target :
      Network → Bool → Url → String → List String → UpstreamTarget ⊎ String
  unfolding scan_addrs select_addr
  resolved_target net allow_local url host addrs = do
    selected ← scan_addrs net allow_local (p.quote host) none addrs
    ip ← select_addr selected addrs
    inl (record { url = url; ip = ip })

  -- validateProxyUpstreamURL, as the nth lookup
  unfoldable pub validate_proxy_upstream_url : Network → ℕ → String → Bool → UpstreamTarget ⊎ String
  unfolding checked_host resolved_target
  validate_proxy_upstream_url net n raw allow_local = do
    url ← net.parse_url (trim_space raw)
    host ← checked_host url
    addrs ← net.lookup_ip_addr n host
    resolved_target net allow_local url host addrs

  -- http.NewRequestWithContext for a target
  unfoldable pub request_to : Network → UpstreamTarget → UpstreamTarget ⊎ String
  request_to net target = elim (net.new_request target.url.text) [
    | some err ↦ inr err
    | none ↦ inl target
  ]

  -- The target of a request that is sent as it came.
  abbrev pub request_target : Network → ℕ → String → Bool → UpstreamTarget ⊎ String
  request_target net n raw allow_local = do
    target ← validate_proxy_upstream_url net n raw allow_local
    request_to net target

  -- The headers that sanitizeProxyHeaders lets through.
  abbrev allowed_proxy_headers : List String
  allowed_proxy_headers =
      "accept" ∷ "content-type" ∷ "user-agent" ∷ "x-request-id" ∷ "x-correlation-id" ∷ "traceparent"
      ∷ "tracestate" ∷ []

  unfoldable pub sanitize_proxy_headers : Network → Dict String → Dict String → Dict String
  sanitize_proxy_headers net done [] = done
  sanitize_proxy_headers net done ((k, v) ∷ headers) =
      let key = lower (trim_space k) in
      let value = trim_space v in
      sanitize_proxy_headers net
        (put_if (not (key == "") && (not (value == "") && elem key allowed_proxy_headers))
          (net.canonical_header_key key) value done)
        headers
