-- ===== src/Lifecycle/Cdi.antt =====
-- internal/lifecycle/cdi.go
use Prim.Native.Char.{code}
use text.Mathlib.Text.{starts_with}
use tenstorrent_dra_framewor.Base.{
  String, ◌<>◌, List, [], ◌∷◌, Option, ◌==◌, nat_eq, string_eq, if◌then◌else◌, map,
}
use tenstorrent_dra_framewor.Base.Text.{drop_text}
use tenstorrent_dra_framewor.Base.Dict.{insert}
use tenstorrent_dra_framewor.Lifecycle.State.{
  ClaimDevice, PreparedClaim, CdiNode, Env, M, write_error, has_content, tick,
}

-- `strings.ReplaceAll(s, "/", "-")`
unfoldable pub dashed : String → String
dashed String.[] = String.[]
dashed (String.◌∷◌ c s) =
    let rest = dashed s in if code c == b'/' then "-" <> rest else String.◌∷◌ c rest

-- `cdiID`
unfoldable pub cdi_id : String → String → String
unfolding dashed
cdi_id uid device = "tenstorrent.com/accelerator=" <> (uid <> ("-" <> dashed device))

-- `cdiName`
unfoldable pub cdi_name : String → String
unfolding drop_text
cdi_name id = if starts_with id "tenstorrent.com/accelerator=" then drop_text 28 id else id

-- `cdiFilename`
unfoldable pub cdi_filename : String → String
unfolding dashed
cdi_filename uid = "claim-" <> (dashed uid <> ".json")

abbrev pub cdi_node : ClaimDevice → CdiNode
unfolding cdi_name
cdi_node item = record {
  name = cdi_name item.cdi_id;
  path = item.path;
  major = item.major;
  minor = item.minor;
}

-- `kubeletplugin.Device`
pub record PluginDevice : Type 0 where
  pub requests : List String
  pub pool_name : String
  pub device_name : String
  pub cdi_device_ids : List String

-- `cdiResults`
unfoldable pub cdi_results : PreparedClaim → List PluginDevice
cdi_results claim =
    map
      (λ item. record {
        requests = item.requests;
        pool_name = item.pool;
        device_name = item.device;
        cdi_device_ids = item.cdi_id ∷ [];
      })
      claim.devices

module _ (env : Env) where
  -- `writeCDI`
  unfoldable pub write_cdi : PreparedClaim → M (Option String)
  unfolding cdi_filename insert
  write_cdi claim m =
      let w = env.write_cdi m.clock in
      (
        write_error w,
        record (tick m) {
          cdi =
              if has_content w
              then insert (cdi_filename claim.uid) (map cdi_node claim.devices) m.cdi
              else m.cdi;
        },
      )
