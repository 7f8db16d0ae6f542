-- ===== src/Web/SiteConfig/Newest.antt =====
-- frontend/src/components/site/SiteConfigProvider.tsx: the newest configuration is the one that stays.
use unity_runn.Prelude.{
  ℕ, ◌≤◌, String, Option, none, some, List, [], ◌∷◌, Bool, true, false, ltb, truthy, All,
  if◌then◌else◌, Bool-cases, inl, inr, ◌≡◌, refl, ◌∙◌, arith,
}
use unity_runn.Exec.{ok, err}
use unity_runn.Web.SiteConfig.{
  SiteConfig, ConfigProvider, Parse, time_or, newer_config, apply_config, Arrival, refreshed,
  published, connected, disconnected, cleaned_up, arrive, run,
}

-- The configuration that an arrival brings
abbrev pub brought : Arrival → Option SiteConfig
brought (refreshed first now (ok value)) = some value
brought (refreshed first now (err e)) = none
brought (published now value) = some value
brought connected = none
brought disconnected = none
brought cleaned_up = none

abbrev has_time : Option String → Bool
has_time none = false
has_time (some at) = truthy at

-- The effect is not cleaned up, and a configuration that arrives has a time.
abbrev pub is_dated : Arrival → Bool
is_dated (refreshed first now (ok value)) = has_time value.updated_at
is_dated (refreshed first now (err e)) = true
is_dated (published now value) = has_time value.updated_at
is_dated connected = true
is_dated disconnected = true
is_dated cleaned_up = false

module _ (parse : Parse) where
  abbrev pub time_of : ConfigProvider → ℕ
  time_of s = time_or parse 0 s.config.updated_at

  abbrev pub time_brought : Option SiteConfig → ℕ
  time_brought none = 0
  time_brought (some value) = time_or parse 0 value.updated_at

  same_time :
      (now : ℕ) (at : Option String)
      → has_time at ≡ true
      → time_or parse now at ≡ time_or parse 0 at
  same_time now none h = ground (arith, h)
  same_time now (some at) h = ground (arith, h)

  ended-time :
      (t : ConfigProvider) (b : Bool)
      → time_of (if b then record t { loading = false } else t) ≡ time_of t
  ended-time t true = refl
  ended-time t false = refl

  ended-active :
      (t : ConfigProvider) (b : Bool)
      → (if b then record t { loading = false } else t).active ≡ t.active
  ended-active t true = refl
  ended-active t false = refl

  module _ (defaults : SiteConfig) where
    newer-time :
        (now : ℕ) (value current : SiteConfig)
        → has_time value.updated_at ≡ true
        → let t = time_or parse 0 (newer_config parse defaults now value current).updated_at in
          (time_or parse 0 value.updated_at ≤ t) × (time_or parse 0 current.updated_at ≤ t)
    newer-time now value current dated =
        let v = time_or parse now value.updated_at in
        let c = time_or parse 0 current.updated_at in
        elim (Bool-cases (ltb v c)) [
          | inl h ↦ rw h (ground (arith, h, same_time now value.updated_at dated), omega arith)
          | inr h ↦ rw h (omega arith, ground (arith, h, same_time now value.updated_at dated))
        ]

    applied-time :
        (now : ℕ) (value : SiteConfig) (s : ConfigProvider)
        → has_time value.updated_at ≡ true
        → s.active ≡ true
        → let t = apply_config parse defaults now value s in
          ((time_or parse 0 value.updated_at ≤ time_of t) × (time_of s ≤ time_of t))
          × (t.active ≡ true)
    unfolding apply_config
    applied-time now value s dated alive = rw alive (newer-time now value s.config dated, refl)

    arrive-time :
        (a : Arrival) (s : ConfigProvider)
        → is_dated a ≡ true
        → s.active ≡ true
        → let t = arrive parse defaults a s in
          ((time_brought (brought a) ≤ time_of t) × (time_of s ≤ time_of t)) × (t.active ≡ true)
    unfolding arrive
    arrive-time (refreshed true now (ok value)) s dated alive =
        let t = apply_config parse defaults now value s in
        let (times, still) = applied-time now value s dated alive in
        let same = ended-time t t.active in
        (
          (omega (arith, times.0, same), omega (arith, times.1, same)),
          ended-active t t.active ∙ still,
        )
    arrive-time (refreshed false now (ok value)) s dated alive =
        applied-time now value s dated alive
    arrive-time (refreshed true now (err e)) s dated alive =
        ((omega arith, omega (arith, ended-time s s.active)), ended-active s s.active ∙ alive)
    arrive-time (refreshed false now (err e)) s dated alive = ((omega arith, omega arith), alive)
    arrive-time (published now value) s dated alive = applied-time now value s dated alive
    arrive-time connected s dated alive = ((omega arith, omega arith), alive)
    arrive-time disconnected s dated alive = ((omega arith, omega arith), alive)
    arrive-time cleaned_up s dated alive = ground (arith, dated)

    -- Where every configuration that arrives has a time and the page stays open: whatever order the answers and the
    -- messages arrive in, the configuration at the end is at least as new as each of them, and as the one before.
    pub run-newest :
        (as_ : List Arrival) (s : ConfigProvider)
        → s.active ≡ true
        → All (λ a. is_dated a ≡ true) as_
        → let t = run parse defaults as_ s in
          All (λ (a : Arrival). time_brought (brought a) ≤ time_of t) as_ × (time_of s ≤ time_of t)
    unfolding run
    run-newest [] s alive dated = (tt, omega arith)
    run-newest (a ∷ as_) s alive (one, dated) =
        let (times, still) = arrive-time a s one alive in
        let (all_, later) = run-newest as_ (arrive parse defaults a s) still dated in
        ((omega (arith, times.0, later), all_), omega (arith, times.1, later))
