-- ===== src/Lib.antt =====
-- Unity RUNN: a club that organises runs. A service in Go (backend/) answers an HTTP API under /api/v1/;
-- the web site (frontend/) and the mobile app (mobile/) are its clients. This library models the
-- TypeScript of the clients: the parts that keep state, wait for the service and recover from failures.
--
-- The parts and how they interact. In the app, the transport (mobile/services/api/client.ts) turns one
-- call of `fetch` into a value or an `ApiError`. The session (mobile/services/auth/session.ts) calls the
-- transport under the user's tokens, keeps the refresh token in the secure store, and gives the screens
-- its `request`. The service of the live activities
-- (mobile/services/liveActivity/raceLiveActivity.service.ts) calls the session and the native bridge
-- (nativeBridge.ios.ts in the same folder), which drives ActivityKit, patches contents (contentState.ts)
-- and waits for push tokens (pushToken.ts). On the web site, frontend/src/lib/api.ts holds the access
-- token and sends every request, with one refresh of the session in between where that is needed.
--
-- Where the parts are modelled:
--   Prelude, Exec: shared names; asynchronous methods as functions from a state to a result and a state
--     (`Exec`), where what was written before a throw stays written; rules for what a method keeps.
--   Mobile/Api: the types of requests, and Client: `createTransport`, with the request that `fetch`
--     gets, the reading of the answer, the errors, and the timer and listener that are held.
--   Mobile/Session: State has the fields of the class `Session`; Identity has `emit`, `accept` and
--     `forget`; Operations has `establish`, `rotate`, `refresh`, `restore` and `logout`; Request has
--     `request`. Queue is the chain of promises of `serialize` and the single flight of `refresh`, as
--     events of the event loop. Alone specialises the session to calls that do not overlap.
--   Mobile/LiveActivity: Content for contentState.ts, Bridge for nativeBridge.ios.ts, PushToken for
--     pushToken.ts, and Service for raceLiveActivity.service.ts.
--   Mobile/Realtime: mobile/services/realtime/invalidation.ts, by the signals of the socket.
--   Mobile/Payment: the sheet of a payment (mobile/features/payment/BakongPayment.tsx), as the begins and
--     ends of its calls. Mobile/Entries: the pages of events and the cutoff of a category
--     (mobile/features/events/queries.ts and format.ts). Mobile/Register: the registration screen
--     (RegisterScreen.tsx in the same folder). Mobile/DateValue: mobile/components/dateValue.ts.
--   Mobile/Timeline: the list of events by month (mobile/features/events/EventListScreen.tsx): Months for
--     the groups that the loop builds, Sections for the timeline, Rows for the pages, Order for the sort.
--     Mobile/Wallet: the entries of a runner (mobile/features/registrations/WalletScreen.tsx).
--   Web/Slug, Web/Amounts: the names in paths, and numbers that are typed
--     (frontend/src/lib/eventCalendar.ts, money.ts, eventLocation.ts).
--   Web/Builder: the setup of an event (frontend/src/pages/admin/events/new.tsx): Draft for what the
--     browser keeps, Saves for the calls of the three steps, Steps for everything that happens.
--   Web/CheckIn: the station at the gate (frontend/src/pages/admin/checkin/index.tsx).
--   Web/Entry: the registration page (frontend/src/pages/events/[slug]/register.tsx).
--   Web/Alerts: the notifications (frontend/src/components/alerts/AlertSystem.tsx), which Web/Automations,
--     the messages to the runners of an event
--     (frontend/src/components/admin/EventAutomationEditor.tsx), writes to.
--   Web/Calendar: the calendar file of an event (frontend/src/lib/eventCalendar.ts).
--   Web/EventEditor: the page that edits an event (frontend/src/pages/admin/events/[id]/edit.tsx), with the
--     table of its changes of status in Lifecycle. Web/Roster: the registrations for the staff
--     (frontend/src/pages/admin/registrations/index.tsx). Both write to the notifications or to messages of
--     their own, and take the calls of Web/Api as answers. Web/Dashboard: the races of a runner
--     (frontend/src/pages/dashboard.tsx). Web/RunnerProfile: the details of a runner and the choices of
--     messages (frontend/src/pages/profile.tsx). Web/ScheduleEditor and Web/CategoriesEditor: the
--     schedule and the categories of an event (frontend/src/components/admin/EventScheduleEditor.tsx and
--     EventCategoriesEditor.tsx). Web/SiteConfig: the configuration of the site
--     (frontend/src/components/site/SiteConfigProvider.tsx).
--   Web/Api: `request`, `handleResponse`, the refresh, signing in and out; Calls: the requests that the
--     methods of the object `api` send, with the filters of the lists in Queries; Transfers: `upload`
--     and `download`.
--
-- Awaits. A method of a class is one function, in which the state may change at each `await` in the way
-- that a parameter says: `Env` of the session and of the web site, `Calls` of the service. A theorem over
-- every such parameter therefore holds however other tasks interleave; a theorem about calls that do not
-- overlap says so, by `alone` or by a hypothesis. The native bridge is modelled one call at a time; the
-- service over it is not. `Kit` (ActivityKit and the secure store), `Fetcher`
-- (`fetch` and its signals), `Format` and `Encoding` (JSON, zod, URLSearchParams), `Numbers`, `Texts`, `Clock` and
-- `Dates` (JavaScript's numbers, texts and times), `Calendar`, `Browser`, `Days` and `Wording` (comparisons,
-- dates and wording of single pages) are parameters too. What
-- is assumed of them is in `IsLawful` (a call that succeeds has its documented effect and no other),
-- `IsAlone`, `IsStill` and `IsDates` (a month and a day lie within their bounds, and a date made of a
-- date's fields has these fields); comparisons of texts are antisymmetric or transitive where a theorem
-- needs it, and `IsHonest` says that the service answers a change of status with this status. The
-- examples give concrete instances.
--
-- Bounds and fuel. The pages of events are fetched on fuel, and so are the digits of a number written; a
-- number of at most 16 digits is every exact integer of JavaScript. Nothing else runs on fuel: the source's
-- recursion (a request refreshes the session by another request) is broken where the source breaks it, by
-- `skipAuthRetry` on the web site and by sending past `request` in the app; the attempts of a registration
-- are counted down from three. Sequences of calls and events are lists. Numbers are natural; a time that may
-- lie before the epoch is an integer. Elapsed seconds are whole.
--
-- Not modelled: rendering (the markup of all .tsx), the screens and pages that are not named above, the
-- queries of TanStack but for their paging, the formatting of dates and prices by Intl, the socket.io
-- clients, cookies, what the methods of `api` read from their answers, and the wrapper of the secure store (mobile/services/storage/tokens.ts), whose behaviour is a
-- parameter. The service in Go, the realtime server and the load tests are other programs.
mod Prelude
mod Exec
pub mod Mobile
pub mod Web
