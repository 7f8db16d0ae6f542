-- ===== src/Web/Api/Calls/Examples.antt =====
-- Tests of the requests on concrete filters.
use unity_runn.Prelude.{none, some, [], ◌∷◌, ◌≡◌, refl}
use unity_runn.Web.Api.Calls.{Encoding}
use unity_runn.Web.Api.Calls.Queries.{RegistrationFilter, registration_params}

abbrev encoding : Encoding
encoding = record { stringify = λ f. "{}"; search = λ p. "limit=20"; decimal = λ n. "20" }

abbrev confirmed : RegistrationFilter
confirmed = record {
  event_id = some "";
  status = some "CONFIRMED";
  search = none;
  limit = some 20;
  offset = some 0;
}

-- The event that is not set and the offset 0 are left out.
params-confirmed :
    registration_params encoding confirmed ≡ ("status", "CONFIRMED") ∷ ("limit", "20") ∷ []
unfolding registration_params
params-confirmed = refl
