-- ===== src/Web/EventEditor/Details.antt =====
-- frontend/src/pages/admin/events/[id]/edit.tsx: saving the details of an event.
use mathlib.Core.Path.{subst}
use Prim.Native.String.{slice}
use unity_runn.Prelude.{
  String, Option, none, some, Bool, true, false, ◌&&◌, truthy, is_some, ◌≡◌, refl, sym, ap, ◌∙◌,
  arith,
}
use unity_runn.Exec.{Failure, Result, ok, err}
use unity_runn.Mobile.Payment.{message_of}
use unity_runn.Web.Amounts.{parse_event_coordinates}
use unity_runn.Web.EventEditor.{
  EventRecord, EditPage, EditForm, Browser, DetailsPayload, or_empty, part_of, end_event,
  end_detail_lists, form_of, sent_time, with_times, prepare_details, start_details, end_details,
  sent_details, saving_event, is_attached, poster_problem, unless_poster,
}

module _ {N : Type 0} (j : Browser N) where
  -- How a save of the details of an event ends
  pub data SaveEnd (s : EditPage N) (e : EventRecord N) : EditPage N → Type 0 where
    -- an error before the call, which nothing is sent for
    stopped :
        {t : EditPage N} (f : Failure)
        → prepare_details j s ≡ err f
        → t.event ≡ s.event
        → t.form_data ≡ s.form_data
        → t.error ≡ some (message_of f "Failed to save event details")
        → t.saving ≡ false
        → SaveEnd s e t
    -- an error of the service, or a poster that was not attached
    failed :
        {t : EditPage N} (p : DetailsPayload N)
        → prepare_details j s ≡ ok p
        → t.event ≡ s.event
        → t.form_data ≡ s.form_data
        → is_some t.error ≡ true
        → t.saving ≡ false
        → SaveEnd s e t
    saved :
        {t : EditPage N} (p : DetailsPayload N) (u : EventRecord N)
        → prepare_details j s ≡ ok p
        → is_attached p u ≡ true
        → t.event ≡ some u
        → t.form_data ≡ record s.form_data { cover_image = or_empty u.cover_image }
        → t.cover_image_ref ≡ t.form_data.cover_image
        → t.error ≡ none
        → t.saving ≡ false
        → SaveEnd s e t

  abbrev pub answer_details :
      Option (String × DetailsPayload N) × EditPage N → Result (EventRecord N) → EditPage N
  answer_details (none, t) r = t
  answer_details (some (id, p), t) r = end_details p r t

  -- The whole handler, with the answer of the service
  unfoldable pub save_details : EditPage N → Result (EventRecord N) → EditPage N
  save_details s r = answer_details (start_details j s) r

  attached-SaveEnd :
      (s : EditPage N) (e u : EventRecord N) (p : DetailsPayload N)
      → prepare_details j s ≡ ok p
      → (b : Bool) → is_attached p u ≡ b
      → SaveEnd s e (end_details p (ok u) (record s { saving = true; error = none }))
  unfolding end_details
  attached-SaveEnd s e u p ready true h = rw h (saved p u ready h refl refl refl refl refl)
  attached-SaveEnd s e u p ready false h = rw h (failed p ready refl refl refl refl)

  sent-SaveEnd :
      (s : EditPage N) (e : EventRecord N) (r : Result (EventRecord N))
      (prepared : Result (DetailsPayload N))
      → prepare_details j s ≡ prepared
      → SaveEnd s e (answer_details (sent_details e.id prepared s) r)
  unfolding end_details
  sent-SaveEnd s e r (err f) ready = stopped f ready refl refl refl refl
  sent-SaveEnd s e (ok u) (ok p) ready = attached-SaveEnd s e u p ready (is_attached p u) refl
  sent-SaveEnd s e (err f) (ok p) ready = failed p ready refl refl refl refl

  -- A save of the details of an event ends in one of three ways, and no save is going on then: nothing is sent and
  -- the error says why; the service answers with an error, or without the poster that was sent, and the event and the
  -- form stay with an error; or the page shows the event as the service sent it back, with its poster in the form.
  pub save_details-ends :
      (s : EditPage N) (e : EventRecord N) (r : Result (EventRecord N))
      → s.event ≡ some e
      → SaveEnd s e (save_details s r)
  unfolding save_details start_details
  save_details-ends s e r found =
      subst (λ (o : Option (EventRecord N)). SaveEnd s e (answer_details (saving_event j o s) r))
        (sym found) (sent-SaveEnd s e r (prepare_details j s) refl)

  -- What a payload says of the form that it was made of
  abbrev pub Tells : DetailsPayload N → EditForm → (cover_image : String) → Type 0
  Tells p f cover_image =
      ((p.name ≡ f.name) × (p.slug ≡ f.slug) × (p.description ≡ f.description))
      × ((p.event_date ≡ f.event_date) × (p.start_time ≡ f.start_time) × (p.location ≡ f.location))
      × (p.cover_image ≡ j.trim cover_image)
      × (parse_event_coordinates j.numbers j.trim f.latitude f.longitude ≡ ok p.coordinates)
      × (sent_time j f.registration_open_at ≡ ok p.registration_open_at)
      × (sent_time j f.registration_close_at ≡ ok p.registration_close_at)

  abbrev payload_or : DetailsPayload N → Result (DetailsPayload N) → DetailsPayload N
  payload_or p (ok q) = q
  payload_or p (err e) = p

  with_times-ok :
      (f : EditForm) (c : String) (rc : Result (Option (N × N))) (ro rl : Result (Option String))
      (p : DetailsPayload N)
      → with_times j f c rc ro rl ≡ ok p
      → ((p.name ≡ f.name) × (p.slug ≡ f.slug) × (p.description ≡ f.description))
        × ((p.event_date ≡ f.event_date)
            × (p.start_time ≡ f.start_time)
            × (p.location ≡ f.location))
        × (p.cover_image ≡ j.trim c)
        × (rc ≡ ok p.coordinates)
        × (ro ≡ ok p.registration_open_at)
        × (rl ≡ ok p.registration_close_at)
  with_times-ok f c (err e) ro rl p h = ground (arith, h)
  with_times-ok f c (ok x) (err e) rl p h = ground (arith, h)
  with_times-ok f c (ok x) (ok o) (err e) p h = ground (arith, h)
  with_times-ok f c (ok x) (ok o) (ok l) p h =
      let same = sym (ap (payload_or p) h) in
      (
        (ap (λ q. q.name) same, ap (λ q. q.slug) same, ap (λ q. q.description) same),
        (ap (λ q. q.event_date) same, ap (λ q. q.start_time) same, ap (λ q. q.location) same),
        ap (λ q. q.cover_image) same,
        ap (λ q. ok q.coordinates) (sym same),
        ap (λ q. ok q.registration_open_at) (sym same),
        ap (λ q. ok q.registration_close_at) (sym same),
      )

  unless_poster-ok :
      (o : Option Failure) (r : Result (DetailsPayload N)) (p : DetailsPayload N)
      → unless_poster o r ≡ ok p
      → r ≡ ok p
  unless_poster-ok none r p h = h
  unless_poster-ok (some e) r p h = ground (arith, h)

  prepare_details-Tells :
      (s : EditPage N) (p : DetailsPayload N)
      → prepare_details j s ≡ ok p
      → Tells p s.form_data s.cover_image_ref
  unfolding prepare_details
  prepare_details-Tells s p h =
      let f = s.form_data in
      with_times-ok f s.cover_image_ref
        (parse_event_coordinates j.numbers j.trim f.latitude f.longitude)
        (sent_time j f.registration_open_at) (sent_time j f.registration_close_at) p
        (unless_poster-ok (poster_problem s.poster_uploading s.poster_error) _ p h)

  full_time :
      (t sent : String)
      → (truthy t && truthy (slice t 0 16)) ≡ true
      → j.to_iso (slice t 0 16) ≡ ok sent
      → sent_time j (part_of 0 16 "" (some t)) ≡ ok (some sent)
  unfolding sent_time
  full_time t sent full read = ground (arith, full, read)

  sent_time-part :
      (t sent : String) (o : Option String)
      → o ≡ some t
      → (truthy t && truthy (slice t 0 16)) ≡ true
      → j.to_iso (slice t 0 16) ≡ ok sent
      → sent_time j (part_of 0 16 "" o) ≡ ok (some sent)
  unfolding sent_time
  sent_time-part t sent o same full read =
      ap (λ x. sent_time j (part_of 0 16 "" x)) same ∙ full_time t sent full read

  option_or : Option String → Result (Option String) → Option String
  option_or d (ok o) = o
  option_or d (err e) = d

  -- When an event that was loaded is saved with nothing typed, the payload, if one is sent, has its name, its slug,
  -- its description and its place; but the beginning of its registrations, where it has one, is sent as the time that
  -- the browser reads in its own zone from the first sixteen characters of the time that the service had sent.
  pub prepare_details-loaded :
      (s : EditPage N) (found : EventRecord N) (p : DetailsPayload N) (t sent : String)
      → found.registration_open_at ≡ some t
      → (truthy t && truthy (slice t 0 16)) ≡ true
      → j.to_iso (slice t 0 16) ≡ ok sent
      → prepare_details j (end_detail_lists (end_event j (ok found) s)) ≡ ok p
      → ((p.name ≡ found.name) × (p.slug ≡ found.slug))
        × ((p.description ≡ or_empty found.description) × (p.location ≡ or_empty found.location))
        × (p.registration_open_at ≡ some sent)
  unfolding end_event form_of option_or
  prepare_details-loaded s found p t sent opens full read ready =
      let told = prepare_details-Tells (end_detail_lists (end_event j (ok found) s)) p ready in
      (
        (told.0.0, told.0.1),
        (told.0.2, told.1.2),
        ap (option_or none)
            (sym told.4 ∙ sent_time-part t sent found.registration_open_at opens full read),
      )
