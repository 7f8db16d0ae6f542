-- ===== src/Web/Roster/Examples.antt =====
-- Tests of the roster of the registrations.
use unity_runn.Prelude.{none, some, List, [], ◌∷◌, true, false, ◌≡◌, refl, arith}
use unity_runn.Exec.{ok}
use unity_runn.Web.Alerts.{no_alerts}
use unity_runn.Web.CheckIn.{take}
use unity_runn.Web.Roster.{
  Registration, Roster, Texts, RegistrationPage, ListCall, active_filters, start_more, end_more,
  can_load_more, change_search, start_list, end_list, Happening, search_changed, timer_ended,
  list_answered, step, run,
}
use unity_runn.Web.Roster.Pages.{load_pages, load_pages-all, end_more-mixed}

abbrev texts : Texts
texts = record { trim = λ t. t; decimal = λ n. "n" }

abbrev ana : Registration
ana = record { id = "r1"; status = "PENDING" }

abbrev bo : Registration
bo = record { id = "r2"; status = "CONFIRMED" }

abbrev opened : Roster
opened = record {
  registrations = ana ∷ [];
  events = [];
  loading = false;
  selected_event_id = "ALL";
  selected_status = "ALL";
  search_query = "";
  selected_reg = some ana;
  selected_payment = some (record { status = "PROCESSING" });
  payment_loading = false;
  payment_reviewing = none;
  can_review_payments = true;
  total = 2;
  loading_more = false;
  export_open = false;
  exporting = false;
  downloads = [];
  list_round = 0;
  payment_round = 0;
  alerts = no_alerts;
}

abbrev page_sent : List Registration → RegistrationPage
page_sent rows = record { registrations = some rows; total = some 2 }

abbrev typing : List Happening
typing =
    timer_ended 0
    ∷ search_changed "b"
    ∷ timer_ended 1
    ∷ search_changed "bo"
    ∷ timer_ended 1
    ∷ timer_ended 2
    ∷ list_answered 2 (ok (page_sent (bo ∷ [])))
    ∷ list_answered 1 (ok (page_sent (ana ∷ bo ∷ [])))
    ∷ []

-- The answer to the last search stays, whatever comes later.
typed-rows : (run texts typing ([], opened)).1.registrations ≡ bo ∷ []
unfolding run step start_list end_list change_search
typed-rows = refl

load_pages-all_example :
    ((load_pages texts (ana ∷ bo ∷ []) 1 opened).registrations ≡ ana ∷ bo ∷ [])
    × (can_load_more (load_pages texts (ana ∷ bo ∷ []) 1 opened) ≡ false)
unfolding take
load_pages-all_example =
    load_pages-all texts (ana ∷ bo ∷ []) 1 1 opened (refl, refl, refl, refl) (omega arith)

abbrev more_call : ListCall
more_call = record { filters = active_filters texts opened; limit = 200; offset = 1 }

end_more-mixed_example :
    let changed = change_search "bo" (start_more texts opened).1 in
    let shown =
      end_list changed.list_round
        (ok (page_sent (bo ∷ [])))
        (start_list texts changed.list_round changed).1 in
    let t = end_more (ok (page_sent (bo ∷ []))) shown in
    (more_call.filters ≡ active_filters texts opened)
    × (t.search_query ≡ "bo")
    × (t.registrations ≡ bo ∷ bo ∷ [])
    × (t.total ≡ 2)
unfolding start_more
end_more-mixed_example =
    end_more-mixed texts "bo" opened more_call (page_sent (bo ∷ [])) (page_sent (bo ∷ [])) refl refl
