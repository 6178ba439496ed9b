-- ===== src/Db/Settings.antt =====
-- The Pulumi settings: `GetPulumiSettings` and `SetPulumiSettings` of internal/db/dapr.go, and the
-- document of internal/db/settings.go.
use metio.Base.{String, Bool, Option, none, some}
use metio.Types.{Time}
use metio.Exec.{Error, Exec, pure, lift, ◌>>=◌}
use metio.Db.Store.{Client, Codec, put_document}

pub record PulumiSettings : Type 0 where
  pub state_bucket : String
  pub initialized : Bool
  pub initialized_at : Time
  pub initialized_by : String

module _ {S Bytes : Type 0} (client : Client S Bytes) (codec : Codec PulumiSettings Bytes) where
  -- A missing document is nil, without an error.
  unfoldable pub parse_settings : Option Bytes → Exec Error S (Option PulumiSettings)
  parse_settings none = pure none
  parse_settings (some bytes) = lift (codec.unmarshal bytes) >>= λ settings. pure (some settings)

  unfoldable pub get_pulumi_settings : Exec Error S (Option PulumiSettings)
  get_pulumi_settings = client.get "pulumisettings" >>= parse_settings

  unfoldable pub set_pulumi_settings : PulumiSettings → Exec Error S (Unit {0})
  set_pulumi_settings settings = put_document client codec "pulumisettings" settings
