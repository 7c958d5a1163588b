-- ===== src/Server/Guard.antt =====
-- server.go: what `withAuth` does with a request: its handler runs, or the refusal is recorded and
-- answered.
use open_agentic_threat_defe.Go.Exec.{◌>>◌}
use open_agentic_threat_defe.Auth.Roles.{Principal, has_any, required_roles}
use open_agentic_threat_defe.Go.Exec
use open_agentic_threat_defe.Go.Exec.{go_on, pure}
use open_agentic_threat_defe.Go.Exec.Keeps.{Keeps, keeps_rules}
use open_agentic_threat_defe.Go.Runtime.{Platform}
use open_agentic_threat_defe.Prelude.{
  Bool, Option, String, [], ap, false, get_or, inl, inr, none, refl, some, true, ℕ, ◌∷◌, ◌≡◌, ◌⊎◌,
}
use open_agentic_threat_defe.Server.Access.{
  Passage, authorize, forbidden, is_open_path, served, unauthenticated, unconfigured, with_auth,
}
use open_agentic_threat_defe.Server.Stable.{Recordable, record_audit-Keeps, record_audit-answers}
use open_agentic_threat_defe.Server.State.{
  App, Handler, HttpRequest, Reply, Settings, World, on_store, record_audit, reply_of, write_error,
}

-- auth.Principal{}, and the one that a refusal is recorded for where nobody was found.
abbrev nobody : Principal
nobody = record { name = ""; tenant = ""; roles = [] }

abbrev anonymous : Principal
anonymous = record nobody { name = "anonymous" }

module _ ⦃p : Platform⦄ (w : World) (set : Settings) where
  abbrev refuse : HttpRequest → Principal → String → Reply → Handler Reply
  refuse r who action reply = do
    record_audit w set r who action "http_request" r.path "denied" (("method", r.method) ∷ [])
    pure reply

  -- The handler with the principal in the request's context, or the refusal.
  unfoldable pub carry_out : Passage → (HttpRequest → Handler Reply) → HttpRequest → Handler Reply
  carry_out (served who) next r = next (record r { principal = get_or who nobody })
  carry_out unconfigured next r =
      pure (write_error 503 "proxy endpoints require authentication to be configured")
  carry_out unauthenticated next r =
      refuse r anonymous "auth.authenticate" (write_error 401 "missing or invalid API token")
  carry_out (forbidden who) next r =
      refuse r who "auth.authorize" (write_error 403 "insufficient role")

  -- withAuth: `configured` is authenticationConfigured(), `who` what Authenticate finds.
  unfoldable pub guarded :
      Bool → Option Principal → (HttpRequest → Handler Reply) → HttpRequest → Handler Reply
  unfolding carry_out
  guarded configured who next r = carry_out (with_auth configured r.method r.path who) next r

-- The engine, what was sent and what was handed to connectors are these.
abbrev UnmovedFrom : App → App → Type 0
UnmovedFrom old app =
    (app.engine ≡ old.engine)
    × (app.sent ≡ old.sent)
    × (app.dispatched ≡ old.dispatched)
    × (app.in_flight ≡ old.in_flight)

module _ ⦃p : Platform⦄ (w : World) (set : Settings) where
  UnmovedFrom-Recordable : (old : App) → Recordable w set (UnmovedFrom old)
  unfolding on_store
  UnmovedFrom-Recordable old = record {
    on_tick = λ app h. h;
    on_count = λ app h. h;
    on_audit = λ event. record { at = λ app h. h };
  }

  refuse-unmoved :
      (r : HttpRequest) (who : Principal) (action : String) (reply : Reply) (app : App)
      → UnmovedFrom app (refuse w set r who action reply app).1
  refuse-unmoved r who action reply app =
      let k : Keeps (UnmovedFrom app) (refuse w set r who action reply) = search (
        keeps_rules,
        record_audit-Keeps w set (UnmovedFrom-Recordable app) r who action "http_request" r.path
            "denied" (("method", r.method) ∷ []),
      ) in
      k.at app (refl, refl, refl, refl)

  refuse-answers :
      (r : HttpRequest) (who : Principal) (action : String) (reply : Reply) (app : App)
      → (refuse w set r who action reply app).0 ≡ inl reply
  unfolding Exec.◌>>=◌ Exec.pure go_on
  refuse-answers r who action reply app =
      ap (λ (x : (Unit {0} ⊎ Reply) × App). (go_on x.0 (λ u. Exec.pure reply) x.1).0)
        (record_audit-answers w set r who action "http_request" r.path "denied"
          (("method", r.method) ∷ []) app)

module _ ⦃p : Platform⦄ (w : World) (set : Settings) (next : HttpRequest → Handler Reply)
    (r : HttpRequest) (who : Option Principal) (app : App) where
  abbrev pub guarded_run : (Reply ⊎ Reply) × App
  guarded_run = guarded w set true who next r app

  -- A principal that was found has none of the roles that the request requires.
  abbrev pub LacksRole : Type 0
  LacksRole = (pr : Principal) → who ≡ some pr → has_any pr (required_roles r.method r.path) ≡ false

  -- A refusal decides on nothing, sends nothing and hands nothing to a connector.
  abbrev pub RefusedWith : ℕ → Type 0
  RefusedWith status = ((reply_of guarded_run.0).status ≡ status) × UnmovedFrom app guarded_run.1

  -- With authentication configured, a request for a path that is not open is refused unless its
  -- principal was found and has a role that is required: with 401 where nobody was found, and with
  -- 403 else. Whatever the request's handler would do, the engine and the requests that were sent or
  -- handed to connectors stay as they were.
  pub refused_runs_nothing :
      is_open_path r.path ≡ false
      → LacksRole
      → ((who ≡ none) × RefusedWith 401) ⊎ ((pr : Principal) × (who ≡ some pr) × RefusedWith 403)
  unfolding guarded with_auth authorize carry_out write_error
  refused_runs_nothing shut lacks = go who refl
    where
      go :
          (o : Option Principal)
          → who ≡ o
          → ((who ≡ none) × RefusedWith 401)
            ⊎ ((pr : Principal) × (who ≡ some pr) × RefusedWith 403)
      go none e = inl (
        e,
        rw (shut, e)
            (
              ap (λ x. (reply_of x).status)
                  (refuse-answers w set r anonymous "auth.authenticate"
                    (write_error 401 "missing or invalid API token") app),
              refuse-unmoved w set r anonymous "auth.authenticate"
                  (write_error 401 "missing or invalid API token") app,
            ),
      )
      go (some pr) e = inr (
        pr,
        e,
        rw (shut, e, lacks pr e)
            (
              ap (λ x. (reply_of x).status)
                  (refuse-answers w set r pr "auth.authorize" (write_error 403 "insufficient role")
                    app),
              refuse-unmoved w set r pr "auth.authorize" (write_error 403 "insufficient role") app,
            ),
      )
