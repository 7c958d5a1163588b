-- ===== src/Store/Assets.antt =====
-- store.go: the assets that events and alerts tell of.
use Prim.Native.String.{◌++◌ as cat}
use open_agentic_threat_defe.Domain.{Alert, Asset, Event, rank}
use open_agentic_threat_defe.Go.Maps.{Dict, lookup, put}
use open_agentic_threat_defe.Go.Runtime.{Platform}
use open_agentic_threat_defe.Go.Strings.{add_text}
use open_agentic_threat_defe.Policy.Rules.{is_tool_call}
use open_agentic_threat_defe.Prelude.{
  List, String, [], get_or, if◌then◌else◌, ltb, nat_eq, not, ℕ, ◌*◌, ◌+◌, ◌==◌, ◌||◌, ◌∷◌,
}
use open_agentic_threat_defe.Store.Tenant.{tenant_or_default}

abbrev pub blank_asset : Asset
blank_asset = record {
  id = "";
  tenant = "";
  hostname = "";
  os = "";
  ips = [];
  agent_surface = [];
  risk_score = 0;
  last_seen = 0;
  labels = [];
  metadata = [];
}

-- Two tenants may have an asset of the same id.
unfoldable pub asset_key : ⦃p : Platform⦄ → String → String → String
asset_key tenant id = cat (tenant_or_default tenant) (cat "\0" id)

unfoldable pub merge : List String → List String → List String
merge existing [] = existing
merge existing (value ∷ incoming) = merge (add_text existing value) incoming

unfoldable pub latest : ℕ → ℕ → ℕ
latest a b = if ltb b a then a else b

unfoldable pub put_all {ℓ} : {V : Type ℓ} → Dict V → Dict V → Dict V
put_all [] m = m
put_all ((k, v) ∷ entries) m = put_all entries (put k v m)

-- The asset after an event, by the fields that the event has.
unfoldable pub seen_asset : ⦃p : Platform⦄ → Event → Asset → Asset
unfolding merge latest put_all
seen_asset event asset =
    let hostname = if event.hostname == "" then asset.hostname else event.hostname in
    record asset {
      id = event.asset_id;
      tenant = tenant_or_default event.tenant;
      hostname = if hostname == "" then event.asset_id else hostname;
      ips = if event.source_ip == "" then asset.ips else add_text asset.ips event.source_ip;
      agent_surface =
          if event.tool_name == "" || not (is_tool_call event.kind)
          then asset.agent_surface
          else add_text asset.agent_surface event.tool_name;
      last_seen = latest asset.last_seen event.timestamp;
      labels = merge asset.labels event.labels;
      metadata = put_all event.metadata asset.metadata;
    }

-- The asset after an alert.
unfoldable pub raised_asset : ⦃p : Platform⦄ → Alert → Asset → Asset
raised_asset alert asset = record asset {
  id = alert.asset_id;
  tenant = tenant_or_default alert.tenant;
  hostname = if asset.hostname == "" then alert.asset_id else asset.hostname;
  risk_score = asset.risk_score + rank alert.severity * 10;
  last_seen = if nat_eq asset.last_seen 0 then alert.created_at else asset.last_seen;
}

module _ ⦃p : Platform⦄ where
  -- upsertAssetLocked
  unfoldable pub upsert_asset : Event → Dict Asset → Dict Asset
  unfolding asset_key
  upsert_asset event assets =
      let key = asset_key event.tenant event.asset_id in
      if event.asset_id == ""
      then assets
      else put key (seen_asset event (get_or (lookup key assets) blank_asset)) assets

  -- raiseAssetRiskLocked
  unfoldable pub raise_asset_risk : Alert → Dict Asset → Dict Asset
  unfolding asset_key
  raise_asset_risk alert assets =
      let key = asset_key alert.tenant alert.asset_id in
      if alert.asset_id == ""
      then assets
      else put key (raised_asset alert (get_or (lookup key assets) blank_asset)) assets

  upsert_assets : List Event → Dict Asset → Dict Asset
  upsert_assets [] assets = assets
  upsert_assets (event ∷ events) assets = upsert_assets events (upsert_asset event assets)

  raise_asset_risks : List Alert → Dict Asset → Dict Asset
  raise_asset_risks [] assets = assets
  raise_asset_risks (alert ∷ alerts) assets =
      raise_asset_risks alerts (raise_asset_risk alert assets)

  -- rebuildAssetsLocked
  unfoldable pub rebuild_assets : List Event → List Alert → Dict Asset
  unfolding upsert_assets raise_asset_risks
  rebuild_assets events alerts = raise_asset_risks alerts (upsert_assets events [])
