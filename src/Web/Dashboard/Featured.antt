-- ===== src/Web/Dashboard/Featured.antt =====
-- frontend/src/pages/dashboard.tsx: which entry is featured.
use unity_runn.Prelude.{Option, none, some, Bool, false}
use unity_runn.Web.Dashboard.{Entry}

abbrev pub holds : (Entry → Bool) → Option Entry → Bool
holds q none = false
holds q (some reg) = q reg
