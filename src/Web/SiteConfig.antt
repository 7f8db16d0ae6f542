-- ===== src/Web/SiteConfig.antt =====
-- frontend/src/components/site/SiteConfigProvider.tsx: the configuration of the site, which comes as the answers of
-- the service and as messages of the socket, in any order. The reading of times is a parameter; the fields of a
-- configuration are known by their names.
pub mod Newest
mod Examples
use unity_runn.Prelude.{
  ℕ, suc, String, Option, none, some, List, [], ◌∷◌, ◌++◌, Bool, true, false, ◌&&◌, ltb, truthy,
  if◌then◌else◌,
}
use unity_runn.Exec.{Result, ok, err}

pub record SiteConfig : Type 0 where
  pub updated_at : Option String
  -- The fields that are set; a later entry of a name is hidden by an earlier one.
  pub fields : List (String × String)

pub record ConfigProvider : Type 0 where
  pub config : SiteConfig
  pub loading : Bool
  pub realtime_connected : Bool
  -- Whether the effect has not been cleaned up
  pub active : Bool

-- `Date.parse`
abbrev pub Parse : Type 0
Parse = String → ℕ

-- The time of a configuration, or the one that stands in for a missing one
abbrev pub time_or : Parse → ℕ → Option String → ℕ
time_or parse missing none = missing
time_or parse missing (some at) = if truthy at then parse at else missing

abbrev pub over_defaults : SiteConfig → SiteConfig → SiteConfig
over_defaults defaults value = record value { fields = value.fields ++ defaults.fields }

abbrev pub newer_config : Parse → SiteConfig → (now : ℕ) → SiteConfig → SiteConfig → SiteConfig
newer_config parse defaults now value current =
    if ltb (time_or parse now value.updated_at) (time_or parse 0 current.updated_at)
    then current
    else over_defaults defaults value

unfoldable pub apply_config :
    Parse → SiteConfig → (now : ℕ) → SiteConfig → ConfigProvider → ConfigProvider
apply_config parse defaults now value s =
    if s.active then record s { config = newer_config parse defaults now value s.config } else s

abbrev answered : Parse → SiteConfig → ℕ → Result SiteConfig → ConfigProvider → ConfigProvider
answered parse defaults now (ok value) s = apply_config parse defaults now value s
answered parse defaults now (err e) s = s

abbrev ended_first : Bool → ConfigProvider → ConfigProvider
ended_first first s = if first && s.active then record s { loading = false } else s

pub data Arrival : Type 0 where
  -- The answer to a refresh, the first one or one after the socket connected again
  refreshed : (first : Bool) → (now : ℕ) → Result SiteConfig → Arrival
  published : (now : ℕ) → SiteConfig → Arrival
  connected disconnected cleaned_up : Arrival

unfoldable pub arrive : Parse → SiteConfig → Arrival → ConfigProvider → ConfigProvider
arrive parse defaults (refreshed first now r) s =
    ended_first first (answered parse defaults now r s)
arrive parse defaults (published now value) s = apply_config parse defaults now value s
arrive parse defaults connected s = record s { realtime_connected = true }
arrive parse defaults disconnected s = record s { realtime_connected = false }
arrive parse defaults cleaned_up s = record s { active = false }

unfoldable pub run : Parse → SiteConfig → List Arrival → ConfigProvider → ConfigProvider
run parse defaults [] s = s
run parse defaults (a ∷ as_) s = run parse defaults as_ (arrive parse defaults a s)
