-- ===== src/Web/Amounts.antt =====
-- frontend/src/lib/money.ts and frontend/src/lib/eventLocation.ts: numbers that are typed as texts. JavaScript's
-- numbers and `trim` are parameters.
use unity_runn.Prelude.{ℕ, String, Option, none, some, Bool, not, ◌&&◌, ◌||◌, truthy, if◌then◌else◌}
use unity_runn.Exec.{plain, Result, ok, err}

-- `Number`, `Number.parseFloat`, `Number.isFinite`, `<`, the numbers n and -n, `x * 100` and `Math.round`
pub record Numbers (N : Type 0) : Type 0 where
  pub number : String → N
  pub parse_float : String → N
  pub is_finite : N → Bool
  pub less : N → N → Bool
  pub natural : ℕ → N
  pub negative : ℕ → N
  pub times_hundred : N → N
  pub round : N → N

pub data Currency : Type 0 where
  usd khr : Currency

module _ {N : Type 0} (j : Numbers N) where
  abbrev pub parse_amount : String → N
  parse_amount value = j.parse_float (if truthy value then value else "0")

  abbrev pub minor_units : Currency → N → N
  minor_units khr amount = j.round amount
  minor_units usd amount = j.round (j.times_hundred amount)

  unfoldable pub parse_money_input : String → Currency → N
  parse_money_input value currency =
      let amount = parse_amount value in
      if not (j.is_finite amount) || j.less amount (j.natural 0)
      then j.natural 0
      else minor_units currency amount

  -- Whether a number lies between -n and n
  abbrev pub within : ℕ → N → Bool
  within n x = j.is_finite x && (not (j.less x (j.negative n)) && not (j.less (j.natural n) x))

  unfoldable pub parse_event_coordinates :
      (trim : String → String) (latitude longitude : String) → Result (Option (N × N))
  parse_event_coordinates trim latitude longitude =
      let lat = j.number latitude in
      let lng = j.number longitude in
      let has_lat = truthy (trim latitude) in
      let has_lng = truthy (trim longitude) in
      if not has_lat && not has_lng
      then ok none
      else if not has_lat || not has_lng
      then err (plain "Add both latitude and longitude, or remove the map pin.")
      else if not (within 90 lat)
      then err (plain "Latitude must be between -90 and 90.")
      else if not (within 180 lng)
      then err (plain "Longitude must be between -180 and 180.")
      else ok (some (lat, lng))
