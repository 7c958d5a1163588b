-- ===== src/Policy/Deception.antt =====
-- The deception registry of engine.go: canary tokens by id, and the match of texts against them.
use Prim.Native.String.{compare, ◌++◌ as cat}
use text.Mathlib.Text.{is_lt}
use open_agentic_threat_defe.Domain.{DeceptionToken}
use open_agentic_threat_defe.Go.Maps.{delete, has_key}
use open_agentic_threat_defe.Go.Runtime.{Platform}
use open_agentic_threat_defe.Go.Strings.{contains, lower, trim_space}
use open_agentic_threat_defe.Policy.Engine.{Engine}
use open_agentic_threat_defe.Policy.Text.{gateway_text_variants, normalize_gateway_text}
use open_agentic_threat_defe.Prelude.{
  Bool, List, Option, String, any, false, find, if◌then◌else◌, map, nat_eq, not, sort, true, ℕ,
  ◌&&◌, ◌==◌, ◌||◌,
}

module _ ⦃p : Platform⦄ where
  -- A token is stamped with the current time if it has no time of its own.
  unfoldable pub normalize_deception_token : ℕ → DeceptionToken → DeceptionToken
  normalize_deception_token now token =
      let kind0 = lower (trim_space token.kind) in
      let kind = if kind0 == "" then "secret" else kind0 in
      let name0 = trim_space token.name in
      record token {
        id = trim_space token.id;
        value = trim_space token.value;
        kind = kind;
        name = if name0 == "" then cat kind "-canary" else name0;
        created_at = if nat_eq token.created_at 0 then now else token.created_at;
      }

  unfoldable pub list_deception_tokens : Engine → List DeceptionToken
  list_deception_tokens e = sort (λ a b. is_lt (compare a.id b.id)) (map (λ t. t.1) e.deception)

  unfoldable pub remove_deception_token : Engine → String → Engine × Bool
  remove_deception_token e id0 =
      let id = trim_space id0 in
      if id == "" || not (has_key id e.deception)
      then (e, false)
      else (record e { deception = delete id e.deception }, true)

  -- A token's value, in normal form, is found in one of the variants.
  unfoldable pub token_hits : List String → DeceptionToken → Bool
  token_hits variants token =
      let needle = normalize_gateway_text token.value in
      not (needle == "") && any (λ v. contains v needle) variants

  unfoldable pub match_deception : Engine → List String → Option DeceptionToken
  unfolding token_hits
  match_deception e values =
      let variants = gateway_text_variants values in
      find (token_hits variants) (map (λ t. t.1) e.deception)
