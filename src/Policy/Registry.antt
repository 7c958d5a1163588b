-- ===== src/Policy/Registry.antt =====
-- engine.go: how canary tokens get into the deception registry, and the ids they are given.
pub mod Fresh
use Prim.Native.String.{◌++◌ as cat}
use open_agentic_threat_defe.Domain.{DeceptionToken}
use open_agentic_threat_defe.Go.Maps.{Dict, has_key, put}
use open_agentic_threat_defe.Go.Runtime.{Platform}
use open_agentic_threat_defe.Go.Strings.{itoa, trim_space}
use open_agentic_threat_defe.Policy.Deception.{normalize_deception_token}
use open_agentic_threat_defe.Policy.Engine.{Engine}
use open_agentic_threat_defe.Prelude.{
  List, String, [], if◌then◌else◌, inl, inr, length, suc, zero, ℕ, ◌==◌, ◌∷◌, ◌⊎◌,
}

abbrev pub deception_id : ℕ → String
deception_id n = cat "dt-" (itoa n)

-- The loop of nextDeceptionIDLocked: the first number after `seq` whose id is not in the registry.
-- There is one among the next `length m + 1`, so fuel for that many rounds is enough, and the last
-- need not be tested.
unfoldable pub next_seq : ℕ → Dict DeceptionToken → ℕ → ℕ
next_seq zero m seq = suc seq
next_seq (suc fuel) m seq =
    let rest = next_seq fuel m (suc seq) in
    if has_key (deception_id (suc seq)) m then rest else suc seq

unfoldable pub next_deception_seq : Engine → ℕ
unfolding next_seq
next_deception_seq e = next_seq (length e.deception) e.deception e.deception_seq

-- A token with its own id, or the next one.
unfoldable pub named_token : Engine → DeceptionToken → Engine × DeceptionToken
unfolding next_deception_seq
named_token e token =
    if token.id == ""
    then (
      record e { deception_seq = next_deception_seq e },
      record token { id = deception_id (next_deception_seq e) },
    )
    else (e, token)

unfoldable pub store_token : Engine → DeceptionToken → Engine × DeceptionToken
unfolding named_token
store_token e token =
    let (named, t) = named_token e token in
    (record named { deception = put t.id t named.deception }, t)

module _ ⦃p : Platform⦄ where
  -- AddDeceptionToken
  unfoldable pub add_deception_token :
      Engine → ℕ → DeceptionToken → Engine × (DeceptionToken ⊎ String)
  unfolding store_token
  add_deception_token e now token =
      if trim_space token.value == ""
      then (e, inr "deception token value is required")
      else (let (stored, t) = store_token e (normalize_deception_token now token) in
          (stored, inl t))

  -- The loop of SetDeceptionTokens, whose ith round reads the clock for the ith time.
  unfoldable pub set_tokens : (ℕ → ℕ) → ℕ → Engine → List DeceptionToken → Engine
  unfolding store_token
  set_tokens clock i e [] = e
  set_tokens clock i e (token ∷ tokens) =
      let t = normalize_deception_token (clock i) token in
      set_tokens clock (suc i) (if t.value == "" then e else (store_token e t).0) tokens

  -- SetDeceptionTokens
  unfoldable pub set_deception_tokens : (ℕ → ℕ) → Engine → List DeceptionToken → Engine
  unfolding set_tokens
  set_deception_tokens clock e tokens =
      set_tokens clock 0 (record e { deception = []; deception_seq = 0 }) tokens
