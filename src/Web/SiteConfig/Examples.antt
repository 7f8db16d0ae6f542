-- ===== src/Web/SiteConfig/Examples.antt =====
-- Tests of the configuration of the site.
use unity_runn.Prelude.{
  ◌≤◌, none, some, List, [], ◌∷◌, true, false, str_eq, All, if◌then◌else◌, ◌≡◌, refl,
}
use unity_runn.Exec.{ok}
use unity_runn.Web.SiteConfig.{
  SiteConfig, ConfigProvider, Parse, Arrival, refreshed, published, connected, disconnected,
  apply_config, arrive, run,
}
use unity_runn.Web.SiteConfig.Newest.{brought, time_of, time_brought, run-newest}

abbrev parse_time : Parse
parse_time at = if str_eq at "2026-09-02" then 2 else if str_eq at "2026-09-01" then 1 else 0

abbrev plain_site : SiteConfig
plain_site = record { updated_at = none; fields = ("club_name", "Unity Runn Club") ∷ [] }

abbrev older_site : SiteConfig
older_site = record { updated_at = some "2026-09-01"; fields = ("club_name", "Old") ∷ [] }

abbrev newer_site : SiteConfig
newer_site = record { updated_at = some "2026-09-02"; fields = ("club_name", "New") ∷ [] }

abbrev opening : ConfigProvider
opening = record { config = plain_site; loading = true; realtime_connected = false; active = true }

-- The answer to the first refresh arrives after the message that is newer.
abbrev arrivals : List Arrival
arrivals = connected ∷ published 9 newer_site ∷ refreshed true 9 (ok older_site) ∷ disconnected ∷ []

config-kept : (run parse_time plain_site arrivals opening).config.updated_at ≡ some "2026-09-02"
unfolding run arrive apply_config
config-kept = refl

run-newest_example :
    let t = run parse_time plain_site arrivals opening in
    All (λ (a : Arrival). time_brought parse_time (brought a) ≤ time_of parse_time t) arrivals
    × (time_of parse_time opening ≤ time_of parse_time t)
run-newest_example =
    run-newest parse_time plain_site arrivals opening refl (refl, (refl, (refl, (refl, tt))))
