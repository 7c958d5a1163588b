-- ===== src/Server/Gated.antt =====
-- Which requests reach an upstream server.
use open_agentic_threat_defe.Go.Exec
use open_agentic_threat_defe.Go.Exec.{◌>>=◌}
use open_agentic_threat_defe.Domain.{
  GatewayVerdict, ToolCallDecision, ToolCallRequest, allow, deny, require_approval, unset,
}
use open_agentic_threat_defe.Go.Exec.{Exec, go_on, or_stop, stop, update}
use open_agentic_threat_defe.Go.Exec.Keeps.{Keeps, keeps_rules}
use open_agentic_threat_defe.Go.Runtime.{Platform}
use open_agentic_threat_defe.Policy.Engine.{Engine}
use open_agentic_threat_defe.Policy.Gateway.Gate.{final_assessment, gate_tool_call}
use open_agentic_threat_defe.Policy.Gateway.Verdicts.{final_assessment-set}
use open_agentic_threat_defe.Prelude.{
  Bool-cases, List, Option, String, ap, arith, inl, inr, ltb, none, refl, some, subst, sym, true, ℕ,
  ◌+◌, ◌==◌, ◌∙◌, ◌≡◌, ◌≢◌, ◌⊎◌,
}
use open_agentic_threat_defe.Server.Actions.{decide_call, gate}
use open_agentic_threat_defe.Server.Mcp.{
  McpCodec, McpRequest, handle_mcp_proxy, is_mcp_passthrough_method, mcp_call, proxied_body,
  proxy_mcp, read_body, serve_mcp, settle_mcp,
}
use open_agentic_threat_defe.Server.Stable.{
  Keeps-decide_call, Keeps-keep_action, Keeps-record_audit, Stable,
}
use open_agentic_threat_defe.Server.State.{
  App, Handler, HttpRequest, Outbound, Reply, Settings, World, clock_now, free_slot,
  gateway_critical_start, on_store, put_back, take_slot, tick, with_slot, write_error,
}
use open_agentic_threat_defe.Server.Tenancy.{tenant_for_principal}
use open_agentic_threat_defe.Server.Upstream.{Network}

module _ {A B : Type 0} (m : Handler A) (f : A → Handler B) (app : App) where
  -- What holds after the first step, if the method stops there, and after each continuation, holds
  -- in the end.
  bind_post {κ} :
      (Q : App → Type κ)
      → Q (m app).1
      → ((a : A) → (m app).0 ≡ inl a → Q (f a (m app).1).1)
      → Q ((m >>= f) app).1
  unfolding Exec.◌>>=◌ go_on
  bind_post Q h k = go (m app).0 refl
    where
      go : (x : A ⊎ Reply) → (m app).0 ≡ x → Q (go_on x f (m app).1).1
      go (inl a) e = k a e
      go (inr r) e = h

  -- A method that answers has answered at its first step.
  bind_answer :
      (b : B)
      → ((m >>= f) app).0 ≡ inl b
      → (a : A) × ((m app).0 ≡ inl a) × ((f a (m app).1).0 ≡ inl b)
  unfolding Exec.◌>>=◌ go_on
  bind_answer b h = go (m app).0 refl h
    where
      go :
          (x : A ⊎ Reply)
          → (m app).0 ≡ x
          → (go_on x f (m app).1).0 ≡ inl b
          → (a : A) × ((m app).0 ≡ inl a) × ((f a (m app).1).0 ≡ inl b)
      go (inl a) e k = (a, e, k)
      go (inr r) e k = absurd (cc)

-- Nothing more was sent than before.
abbrev SentIs : List Outbound → App → Type 0
SentIs out app = app.sent ≡ out

module _ ⦃p : Platform⦄ (w : World) (set : Settings) (out : List Outbound) where
  sent-Stable : Stable w set (SentIs out)
  unfolding on_store
  sent-Stable = record {
    recorded = record {
      on_tick = λ app h. h;
      on_count = λ app h. h;
      on_audit = λ event. record { at = λ app h. h };
    };
    on_gate = λ app r now seen h. h;
    on_alerts = λ alerts. record { at = λ app h. h };
    on_actions = λ actions. record { at = λ app h. h };
    on_executed = λ id status err now. record { at = λ app h. h };
    on_event = λ event. record { at = λ app h. h };
    on_configured = λ app e same h. h;
    on_shared = λ b id metadata. record { at = λ app h. h };
  }

module _ ⦃p : Platform⦄ (w : World) (set : Settings) where
  gate-verdict :
      (call : ToolCallRequest) (app : App) (d : ToolCallDecision)
      → (gate w set call app).0 ≡ inl d
      → d.verdict ≡ (final_assessment app.engine call).verdict
  unfolding gate clock_now tick Exec.◌>>=◌ Exec.pure update gate_tool_call
  gate-verdict call app d h =
      ap (λ (x : ToolCallDecision ⊎ Reply). elim x [ inl y ↦ y.verdict | inr r ↦ d.verdict ])
        (sym h)

  -- The verdict of a call that was decided is the engine's on that call.
  decide_call-verdict :
      (call : ToolCallRequest) (tenant : String) (app : App) (d : ToolCallDecision)
      → (decide_call w set call tenant app).0 ≡ inl d
      → d.verdict ≡ (final_assessment app.engine call).verdict
  unfolding decide_call Exec.pure
  decide_call-verdict call tenant app d h =
      let (d0, gated, h1) = bind_answer (gate w set call) _ app d h in
      let (alerts, a, h2) = bind_answer _ _ _ d h1 in
      let (stored, b, h3) = bind_answer _ _ _ d h2 in
      let (added, c, h4) = bind_answer _ _ _ d h3 in
      ap (λ (x : ToolCallDecision ⊎ Reply). elim x [ inl y ↦ y.verdict | inr r ↦ d.verdict ])
        (sym h4)
      ∙ gate-verdict call app d0 gated

-- A handler that sends nothing, whatever the limiter holds, sends nothing under the limiter.
with_slot-sent {κ} :
    (Q : List Outbound → Type κ) (m : Handler Reply) (app : App)
    → Q app.sent
    → ((n : ℕ) → Q (m (record app { in_flight = n })).1.sent)
    → Q (with_slot m app).1.sent
unfolding with_slot gateway_critical_start
with_slot-sent Q m app h k = go app.gateway_limit
  where
    back : (o : Option ℕ) (x : App) → Q x.sent → Q (put_back o x).sent
    back none x q = q
    back (some limit) x q = q

    go : (o : Option ℕ) → Q (free_slot m (take_slot o app).0 (take_slot o app).1).1.sent
    go none = back _ _ (k app.in_flight)
    go (some limit) = elim (Bool-cases (ltb app.in_flight limit)) [
      | inl b ↦ rw b (back _ _ (k (app.in_flight + 1)))
      | inr b ↦ rw b h
    ]

or_stop-keeps : {A F : Type 0} (x : A ⊎ F) (f : F → Reply) (app : App) → (or_stop x f app).1 ≡ app
unfolding or_stop
or_stop-keeps (inl a) f app = refl
or_stop-keeps (inr e) f app = refl

or_stop-answer :
    {A F : Type 0} (x : A ⊎ F) (f : F → Reply) (app : App) (a : A)
    → (or_stop x f app).0 ≡ inl a
    → x ≡ inl a
unfolding or_stop
or_stop-answer (inl b) f app a h = cc
or_stop-answer (inr e) f app a h = absurd (cc)

-- A verdict is to allow a call, or to hold it back, unless it is not set.
verdict_cases :
    (v : GatewayVerdict) → v ≢ unset → (v ≡ allow) ⊎ ((v ≡ deny) ⊎ (v ≡ require_approval))
verdict_cases allow h = inl refl
verdict_cases deny h = inr (inl refl)
verdict_cases require_approval h = inr (inr refl)
verdict_cases unset h = absurd (h refl)

module _ ⦃p : Platform⦄ (w : World) (net : Network) (set : Settings) (codec : McpCodec)
    (r : HttpRequest) where
  -- The two verdicts that hold a call back send nothing.
  pub settle_mcp-held :
      (v : GatewayVerdict) (raw : String) (rpc : McpRequest) (call : ToolCallRequest)
      (d : ToolCallDecision) (tenant : String) (out : List Outbound)
      → (v ≡ deny) ⊎ (v ≡ require_approval)
      → Keeps (SentIs out) (settle_mcp w net set codec v r raw rpc call d tenant)
  unfolding settle_mcp
  settle_mcp-held allow raw rpc call d tenant out h = absurd (ground arith)
  settle_mcp-held unset raw rpc call d tenant out h = absurd (ground arith)
  settle_mcp-held deny raw rpc call d tenant out h =
      search
        (
          keeps_rules,
          Keeps-keep_action w set (sent-Stable w set out),
          Keeps-record_audit w set (sent-Stable w set out),
        )
        depth 12
  settle_mcp-held require_approval raw rpc call d tenant out h =
      search
        (
          keeps_rules,
          Keeps-keep_action w set (sent-Stable w set out),
          Keeps-record_audit w set (sent-Stable w set out),
        )
        depth 12

  -- The engine allows the call that an MCP request makes for the caller's tenant.
  abbrev pub Allowed : Engine → McpRequest → Type 0
  Allowed e rpc =
      (final_assessment e (mcp_call w net set codec rpc (tenant_for_principal r.principal))).verdict
      ≡ allow

  proxy_mcp-sends :
      (raw : String) (rpc : McpRequest) (app : App)
      → ((proxy_mcp w net set codec r raw rpc app).1.sent ≡ app.sent)
        ⊎ ((is_mcp_passthrough_method rpc.method ≡ true) ⊎ Allowed app.engine rpc)
  unfolding proxy_mcp
  proxy_mcp-sends raw rpc app =
      let tenant = tenant_for_principal r.principal in
      let call = mcp_call w net set codec rpc tenant in
      elim (Bool-cases (is_mcp_passthrough_method rpc.method)) [
        | inl pass ↦ inr (inl pass)
        | inr gated ↦
            elim (verdict_cases (final_assessment app.engine call).verdict
              (final_assessment-set app.engine call)) [
                | inl open_verdict ↦ inr (inr open_verdict)
                | inr held ↦
                    let quiet =
                      (Keeps-decide_call w set (sent-Stable w set app.sent) call tenant).at app
                        refl in
                    inl (
                      rw gated (
                        bind_post (decide_call w set call tenant)
                          (λ d. settle_mcp w net set codec d.verdict r raw rpc call d tenant) app
                          (SentIs app.sent) quiet
                          (λ d e.
                            (settle_mcp-held d.verdict raw rpc call d tenant app.sent (
                                subst (λ v. (v ≡ deny) ⊎ (v ≡ require_approval))
                                  (sym (decide_call-verdict w set call tenant app d e)) held)).at
                              _ quiet)))
              ]
      ]

  proxied_body-text :
      (body : String ⊎ String) (raw : String)
      → proxied_body w net set codec body ≡ inl raw
      → body ≡ inl raw
  unfolding proxied_body read_body
  proxied_body-text (inr err) raw h = absurd (ground arith)
  proxied_body-text (inl text) raw h = ground arith

  -- Why something may be sent.
  abbrev pub MaySend : String ⊎ String → Engine → Type 0
  MaySend body e =
      (raw : String) × (rpc : McpRequest) × (body ≡ inl raw)
      × (codec.decode_request raw ≡ inl rpc)
      × ((is_mcp_passthrough_method rpc.method ≡ true) ⊎ Allowed e rpc)

  serve_mcp-sends :
      (body : String ⊎ String) (app : App)
      → ((serve_mcp w net set codec r body app).1.sent ≡ app.sent) ⊎ MaySend body app.engine
  unfolding serve_mcp
  serve_mcp-sends body app =
      bind_post (or_stop (proxied_body w net set codec body) (λ reply. reply)) _ app Q
        (inl (ap (λ (x : App). x.sent) (same0)))
        (λ raw e.
          subst (λ x. Q (after raw x).1) (sym same0)
            (bind_post (or_stop (codec.decode_request raw) (write_error 400)) _ app Q
              (inl (ap (λ (x : App). x.sent) (same1 raw)))
              (λ rpc k.
                subst (λ x. Q (proxy_mcp w net set codec r raw rpc x).1) (sym (same1 raw))
                  (elim (proxy_mcp-sends raw rpc app) [
                    | inl quiet ↦ inl quiet
                    | inr why ↦ inr (
                      raw,
                      rpc,
                      proxied_body-text body raw (
                          or_stop-answer (proxied_body w net set codec body) (λ reply. reply) app
                            raw e),
                      or_stop-answer (codec.decode_request raw) (write_error 400) app rpc k,
                      why,
                    )
                  ]))))
    where
      Q : App → Type 0
      Q x = (x.sent ≡ app.sent) ⊎ MaySend body app.engine

      after : String → Handler Reply
      after raw = or_stop (codec.decode_request raw) (write_error 400) >>= λ rpc.
          proxy_mcp w net set codec r raw rpc

      same0 : (or_stop (proxied_body w net set codec body) (λ reply. reply) app).1 ≡ app
      same0 = or_stop-keeps (proxied_body w net set codec body) (λ reply. reply) app

      same1 : (raw : String) → (or_stop (codec.decode_request raw) (write_error 400) app).1 ≡ app
      same1 raw = or_stop-keeps (codec.decode_request raw) (write_error 400) app

  -- What the MCP proxy sends to the upstream server: nothing, unless the body is a request whose
  -- method is passed through (initialize, ping, the lists and notifications), or whose tool call the
  -- engine allows for the caller's tenant. A call that is denied, or waits for approval, and any
  -- request that is refused before, sends nothing.
  pub mcp_sends_only_allowed :
      (body : String ⊎ String) (app : App)
      → ((handle_mcp_proxy w net set codec r body app).1.sent ≡ app.sent) ⊎ MaySend body app.engine
  unfolding handle_mcp_proxy stop
  mcp_sends_only_allowed body app = elim (Bool-cases (r.method == "POST")) [
    | inl post ↦ rw post (
        with_slot-sent (λ out. (out ≡ app.sent) ⊎ MaySend body app.engine)
          (serve_mcp w net set codec r body) app (inl refl)
          (λ n. serve_mcp-sends body (record app { in_flight = n })))
    | inr other ↦ inl (rw other refl)
  ]
