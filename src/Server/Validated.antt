-- ===== src/Server/Validated.antt =====
-- Which upstream targets are accepted.
use mathlib.Core.Option.{some-injective}
use open_agentic_threat_defe.Go.Results.{>>=-inl}
use open_agentic_threat_defe.Go.Results.{unless_error}
use open_agentic_threat_defe.Go.Runtime.{Platform}
use open_agentic_threat_defe.Go.Strings.{elem, trim_space}
use open_agentic_threat_defe.Prelude.{
  Bool, Bool-cases, List, Option, String, [], any, ap, arith, eq_refl, false, if◌then◌else◌, inl,
  inr, is_some, none, not, refl, some, subst, sym, true, ℕ, ◌&&◌, ◌==◌, ◌||◌, ◌∙◌, ◌∷◌, ◌≡◌, ◌⊎◌,
}
use open_agentic_threat_defe.Server.Upstream.{
  Network, UpstreamTarget, Url, checked_host, is_blocked_proxy_host, is_blocked_proxy_ip,
  resolved_target, scan_addrs, select_addr, validate_proxy_upstream_url,
}

module _ (net : Network) (allow_local : Bool) (host : String) where
  -- The step of the loop over the addresses.
  abbrev chosen : Option String → String → Option String
  chosen selected ip =
      if not (is_some selected) && not (is_blocked_proxy_ip net ip) then some ip else selected

  scan_addrs-step :
      (selected : Option String) (ip : String) (addrs : List String) (s : Option String)
      → scan_addrs net allow_local host selected (ip ∷ addrs) ≡ inl s
      → ((is_blocked_proxy_ip net ip && not allow_local) ≡ false)
        × (scan_addrs net allow_local host (chosen selected ip) addrs ≡ inl s)
  unfolding scan_addrs
  scan_addrs-step selected ip addrs s h =
      elim (Bool-cases (is_blocked_proxy_ip net ip && not allow_local)) [
        | inl e ↦ absurd (ground arith)
        | inr e ↦ (e, rw e at h)
      ]

  -- An address that was chosen is one that was there, and is not blocked.
  scan_addrs-some :
      (selected : Option String) (addrs : List String) (ip : String)
      → scan_addrs net allow_local host selected addrs ≡ inl (some ip)
      → (selected ≡ some ip) ⊎ ((elem ip addrs ≡ true) × (is_blocked_proxy_ip net ip ≡ false))
  unfolding scan_addrs
  scan_addrs-some selected [] ip h = inl (ground arith)
  scan_addrs-some selected (a ∷ addrs) ip h =
      let (e, rest) = scan_addrs-step selected a addrs (some ip) h in
      elim (scan_addrs-some (chosen selected a) addrs ip rest) [
        | inr (there, free) ↦ inr (ground arith, free)
        | inl same ↦ elim (Bool-cases (not (is_some selected) && not (is_blocked_proxy_ip net a))) [
          | inr kept ↦ inl (rw kept at same)
          | inl taken ↦
              let here : a ≡ ip = some-injective a ip (rw taken at same) in
              inr (
                subst (λ x. (x == ip || elem ip addrs) ≡ true) (sym here) (rw (eq_refl ip) refl),
                subst (λ x. is_blocked_proxy_ip net x ≡ false) here (ground arith),
              )
        ]
      ]

  -- Where none was chosen, all are blocked.
  scan_addrs-none :
      (selected : Option String) (addrs : List String)
      → scan_addrs net allow_local host selected addrs ≡ inl none
      → (selected ≡ none) × (any (λ ip. not (is_blocked_proxy_ip net ip)) addrs ≡ false)
  unfolding scan_addrs
  scan_addrs-none selected [] h = (ground arith, refl)
  scan_addrs-none selected (a ∷ addrs) h =
      let (e, rest) = scan_addrs-step selected a addrs none h in
      let (same, all_blocked) = scan_addrs-none (chosen selected a) addrs rest in
      elim (Bool-cases (not (is_some selected) && not (is_blocked_proxy_ip net a))) [
        | inl taken ↦ absurd (ground arith)
        | inr kept ↦
            let empty : selected ≡ none = rw kept at same in
            (empty, ground (arith, ap is_some empty))
      ]

  -- Where local targets are not allowed, none is blocked.
  scan_addrs-strict :
      (selected : Option String) (addrs : List String) (s : Option String)
      → scan_addrs net allow_local host selected addrs ≡ inl s
      → allow_local ≡ false
      → any (is_blocked_proxy_ip net) addrs ≡ false
  unfolding scan_addrs
  scan_addrs-strict selected [] s h strict = refl
  scan_addrs-strict selected (a ∷ addrs) s h strict =
      let (e, rest) = scan_addrs-step selected a addrs s h in
      ground (arith, scan_addrs-strict (chosen selected a) addrs s rest strict)

module _ ⦃p : Platform⦄ (net : Network) (n : ℕ) (raw : String) (allow_local : Bool) where
  -- A target that a request may be sent to.
  pub record IsSafeTarget (target : UpstreamTarget) : Type 0 where
    pub host : String
    pub addrs : List String
    pub parsed : net.parse_url (trim_space raw) ≡ inl target.url
    pub web : (target.url.scheme == "http" || target.url.scheme == "https") ≡ true
    pub named : host ≡ trim_space target.url.hostname
    pub not_listed : is_blocked_proxy_host host ≡ false
    pub resolved : net.lookup_ip_addr n host ≡ inl addrs
    pub one_of : elem target.ip addrs ≡ true
    pub not_blocked :
        (is_blocked_proxy_ip net target.ip ≡ false)
        ⊎ ((allow_local ≡ true) × (any (λ ip. not (is_blocked_proxy_ip net ip)) addrs ≡ false))

  checked_host-inl :
      (url : Url) (host : String)
      → checked_host url ≡ inl host
      → ((url.scheme == "http" || url.scheme == "https") ≡ true)
        × (host ≡ trim_space url.hostname)
        × (is_blocked_proxy_host host ≡ false)
  unfolding checked_host
  checked_host-inl url host h =
      let (web, h1) =
        unless_error (not (url.scheme == "http") && not (url.scheme == "https")) _ _ host h in
      let (some_host, h2) = unless_error (trim_space url.hostname == "") _ _ host h1 in
      let (free, h3) = unless_error (is_blocked_proxy_host (trim_space url.hostname)) _ _ host h2 in
      let same : trim_space url.hostname ≡ host = cc in
      (ground arith, sym same, subst (λ x. is_blocked_proxy_host x ≡ false) same free)

  -- An address that is selected is one of those there were.
  selected_addr :
      (s : Option String) (addrs : List String) (host ip : String)
      → scan_addrs net allow_local host none addrs ≡ inl s
      → select_addr s addrs ≡ inl ip
      → (elem ip addrs ≡ true)
        × ((is_blocked_proxy_ip net ip ≡ false)
            ⊎ ((allow_local ≡ true) × (any (λ x. not (is_blocked_proxy_ip net x)) addrs ≡ false)))
  unfolding select_addr
  selected_addr (some a) addrs host ip h k =
      let same : a ≡ ip = cc in
      elim (scan_addrs-some net allow_local host none addrs ip (h ∙ ap (λ x. inl (some x)) same)) [
        | inl e ↦ absurd (cc)
        | inr (there, free) ↦ (there, inl free)
      ]
  selected_addr none [] host ip h k = absurd (cc)
  selected_addr none (a ∷ addrs) host ip h k =
      let same : a ≡ ip = cc in
      let (e, all_blocked) = scan_addrs-none net allow_local host none (a ∷ addrs) h in
      (
        subst (λ x. (a == x || elem x addrs) ≡ true) same (rw (eq_refl a) refl),
        elim (Bool-cases allow_local) [
          | inl local ↦ inr (local, all_blocked)
          | inr strict ↦ inl (
              subst (λ x. is_blocked_proxy_ip net x ≡ false) same
                (ground
                  (arith, scan_addrs-strict net allow_local host none (a ∷ addrs) none h strict)))
        ],
      )

  -- Every target that is accepted is safe to send to: its URL is one of http or https, its host is
  -- none of those that are refused by name, and the address that is dialled is one that the host
  -- resolved to. That address is not blocked (loopback, link-local, private, multicast, unspecified,
  -- or in one of the further networks), unless local targets are allowed and the host resolves to
  -- blocked addresses only.
  pub validated-IsSafeTarget :
      (target : UpstreamTarget)
      → validate_proxy_upstream_url net n raw allow_local ≡ inl target
      → IsSafeTarget target
  unfolding validate_proxy_upstream_url resolved_target
  validated-IsSafeTarget target h =
      let (url, parsed, h1) = >>=-inl _ _ target h in
      let (host, checked, h2) = >>=-inl _ _ target h1 in
      let (addrs, resolved, h3) = >>=-inl _ _ target h2 in
      let (s, scanned, h4) = >>=-inl _ _ target h3 in
      let (ip, selected, h5) = >>=-inl _ _ target h4 in
      let (web, named, free) = checked_host-inl url host checked in
      let (there, ok) = selected_addr s addrs (p.quote host) ip scanned selected in
      let same : record { url = url; ip = ip } ≡ target = cc in
      subst IsSafeTarget same (record {
        host = host;
        addrs = addrs;
        parsed = parsed;
        web = web;
        named = named;
        not_listed = free;
        resolved = resolved;
        one_of = there;
        not_blocked = ok;
      })
