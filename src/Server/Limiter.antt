-- ===== src/Server/Limiter.antt =====
-- server.go: the limiter of the gateway, as the handlers of tool calls use it.
use open_agentic_threat_defe.Go.Exec.{stop}
use open_agentic_threat_defe.Go.Exec.Keeps.{Keeps, Keeps-if, Keeps-stop}
use open_agentic_threat_defe.Prelude.{
  Bool, Bool-cases, Option, ap, arith, inl, inr, ltb, none, not, refl, some, sym, true, ℕ, ◌+◌, ◌-◌,
  ◌==◌, ◌≡◌, ◌⊎◌,
}
use open_agentic_threat_defe.Server.State.{
  App, Handler, HttpRequest, Reply, free_slot, gated_post, gateway_critical_start,
  method_not_allowed, put_back, release, take_slot, with_slot,
}

-- The limiter has room for a request.
abbrev pub has_room : App → Bool
has_room app = elim app.gateway_limit [ none ↦ true | some limit ↦ ltb app.in_flight limit ]

-- Where there is room, a request runs with a token, which goes back in the end.
abbrev pub slot_taken : Option ℕ → App → App
slot_taken none app = app
slot_taken (some limit) app = record app { in_flight = app.in_flight + 1 }

take_slot-room :
    (o : Option ℕ) (app : App)
    → elim o [ none ↦ true | some limit ↦ ltb app.in_flight limit ] ≡ true
    → take_slot o app ≡ (inl tt, slot_taken o app)
unfolding take_slot
take_slot-room none app h = refl
take_slot-room (some limit) app h = rw h refl

-- A request that has room runs with a token, which is put back after it.
pub with_slot-room :
    (m : Handler Reply) (app : App)
    → has_room app ≡ true
    → with_slot m app
      ≡ (let (answer, app') = m (slot_taken app.gateway_limit app) in (answer, release app'))
unfolding with_slot gateway_critical_start free_slot
with_slot-room m app h =
    ap (λ (x : (Unit {0} ⊎ Reply) × App). free_slot m x.0 x.1)
      (take_slot-room app.gateway_limit app h)

-- A property that the limiter keeps.
pub record Unlimited (P : App → Type 0) : Type 0 where
  pub on_slot : (app : App) (n : ℕ) → P app → P (record app { in_flight = n })
  pub on_refusal :
      (app : App) → P app → P (record app { gateway_rejected = app.gateway_rejected + 1 })

module _ {P : App → Type 0} (u : Unlimited P) where
  start-kept : (o : Option ℕ) (app : App) → P app → P (take_slot o app).1
  unfolding take_slot
  start-kept none app h = h
  start-kept (some limit) app h = elim (Bool-cases (ltb app.in_flight limit)) [
    | inl b ↦ rw b (u.on_slot app (app.in_flight + 1) h)
    | inr b ↦ rw b (u.on_refusal app h)
  ]

  release-kept : (o : Option ℕ) (app : App) → P app → P (put_back o app)
  unfolding put_back
  release-kept none app h = h
  release-kept (some limit) app h = u.on_slot app (app.in_flight - 1) h

  free_slot-kept :
      (m : Handler Reply) (r : Unit {0} ⊎ Reply) (app : App)
      → Keeps P m
      → P app
      → P (free_slot m r app).1
  unfolding free_slot release
  free_slot-kept m (inr refused) app k h = h
  free_slot-kept m (inl t) app k h = release-kept (m app).1.gateway_limit (m app).1 (k.at app h)

  -- A handler that keeps the property keeps it under the limiter.
  pub Keeps-gated_post :
      (r : HttpRequest) (m : Handler Reply) → Keeps P m → Keeps P (gated_post r m)
  unfolding gated_post with_slot gateway_critical_start
  Keeps-gated_post r m k =
      Keeps-if (not (r.method == "POST")) _ _ (Keeps-stop method_not_allowed) (record {
        at = λ app h.
            free_slot-kept m (take_slot app.gateway_limit app).0 (take_slot app.gateway_limit app).1
              k (start-kept app.gateway_limit app h);
      })

-- The limiter has this capacity, holds so many tokens and has refused so many requests.
abbrev pub Holds : Option ℕ → ℕ → ℕ → App → Type 0
Holds limit held refused app =
    (app.gateway_limit ≡ limit) × (app.in_flight ≡ held) × (app.gateway_rejected ≡ refused)

module _ (r : HttpRequest) (m : Handler Reply)
    (k : (limit : Option ℕ) (held refused : ℕ) → Keeps (Holds limit held refused) m) where
  slot_taken-Holds :
      (o : Option ℕ) (app : App)
      → app.gateway_limit ≡ o
      → Holds app.gateway_limit app.in_flight app.gateway_rejected
          (release (m (slot_taken o app)).1)
  unfolding release put_back
  slot_taken-Holds none app e =
      let (l, h, n) = (k none app.in_flight app.gateway_rejected).at app (e, refl, refl) in
      rw l (sym e, h, n)
  slot_taken-Holds (some limit) app e =
      let (l, h, n) =
        (k (some limit) (app.in_flight + 1) app.gateway_rejected).at (slot_taken (some limit) app)
          (e, refl, refl) in
      rw l (sym e, omega (arith, h), n)

  -- A handler of tool calls gives back the token that it took, however it ends, and where there is
  -- room it is not refused.
  pub gated_post-Holds :
      (app : App)
      → has_room app ≡ true
      → Holds app.gateway_limit app.in_flight app.gateway_rejected (gated_post r m app).1
  unfolding gated_post stop
  gated_post-Holds app room = elim (Bool-cases (r.method == "POST")) [
    | inl post ↦ rw (post, with_slot-room m app room) (slot_taken-Holds app.gateway_limit app refl)
    | inr other ↦ rw other (refl, refl, refl)
  ]
