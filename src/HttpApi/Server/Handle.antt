-- ===== src/HttpApi/Server/Handle.antt =====
-- The dispatch of `ServeHTTP`, and the beginning of an event stream.
use task_worker.HttpApi.Ids.{parse_cursor}
use task_worker.Base.{
  Bool, List, Option, [], false, if◌then◌else◌, none, some, true, ◌!=◌, ◌==◌, ◌||◌, ◌∷◌,
  Bytes-comparable, Option-comparable, length, ℕ-comparable,
}
use task_worker.HttpApi.Service.{Service}
use task_worker.HttpApi.Routes.{Route, get_method, method_of, route_of}
use task_worker.Text.{Text, bytes}
use task_worker.Errors.{ErrorCode, Outcome, ok, err}
use task_worker.Events.{Cursor, Snapshot}
use task_worker.Base.Int.{ℤ-comparable}
use task_worker.HttpApi.Server.{
  serving, models, snapshot, jobs, queue, job, stream, Body, Address, Decoders, HttpRequest,
  Response, has_body, refuse_command, refuse_early, serve_asset, success, fail, bare, protocol,
}

abbrev pub answer {ℓ} : {A : Type ℓ} → (A → Body) → Outcome A → Response
answer wrap (ok a) = success (wrap a)
answer wrap (err e) = fail e

abbrev pub mapped {ℓ κ} : {A : Type ℓ} {S : Type κ} → (A → Body) → Outcome A × S → Response × S
mapped wrap (o, s) = (answer wrap o, s)

module _ {S : Type 0} (service : Service S) where
  unfoldable pub serve_get : Route → S → Response × S
  unfolding fail
  serve_get Route.health s = (success serving, s)
  serve_get Route.models s = mapped models (service.models s)
  serve_get Route.snapshot s = mapped snapshot (service.snapshot s)
  serve_get Route.jobs s = mapped (λ (x : Snapshot). jobs x.jobs) (service.snapshot s)
  serve_get Route.queue s = mapped (λ (x : Snapshot). queue x.queue) (service.snapshot s)
  serve_get (Route.job_at id) s = mapped job (service.get_job id s)
  serve_get _ s = (fail (bare ErrorCode.not_found), s)

  abbrev pub decoded {ℓ} : {A : Type ℓ} → Outcome A → (A → S → Response × S) → S → Response × S
  decoded (ok c) k s = k c s
  decoded (err e) k s = (fail e, s)

  unfoldable pub serve_post : Decoders → Route → Text → S → Response × S
  unfolding fail
  serve_post d Route.submit b s = decoded (d.submit b) (λ c t. mapped job (service.submit c t)) s
  serve_post d Route.retry b s = decoded (d.retry b) (λ c t. mapped job (service.retry c t)) s
  serve_post d Route.branch b s = decoded (d.branch b) (λ c t. mapped job (service.branch c t)) s
  serve_post d Route.pause b s =
      decoded (d.nothing b) (λ _ t. mapped queue (service.set_queue_paused true t)) s
  serve_post d Route.resume b s =
      decoded (d.nothing b) (λ _ t. mapped queue (service.set_queue_paused false t)) s
  serve_post d (Route.cancel_at id) b s =
      decoded (d.nothing b) (λ _ t. mapped job (service.cancel id t)) s
  serve_post d _ b s = (fail (bare ErrorCode.not_found), s)

  -- A response that ends the handler, or what it does otherwise.
  unfoldable pub unless_refused : Option Response → Response × S → S → Response × S
  unless_refused (some refused) m s = (refused, s)
  unless_refused none m s = m

  unfoldable pub serve_body : Decoders → Route → Option Text → S → Response × S
  unfolding serve_post fail
  serve_body d route none s = (fail (bare ErrorCode.limit_exceeded), s)
  serve_body d route (some b) s = serve_post d route b s

  unfoldable pub serve_command : Decoders → Route → HttpRequest → S → Response × S
  unfolding serve_body unless_refused
  serve_command d route r s = unless_refused (refuse_command r) (serve_body d route r.body s) s

-- A query for events has no key, or the key `after` alone with one value.
abbrev pub bad_event_query : List (Text × List Text) → Bool
bad_event_query [] = false
bad_event_query ((name, values) ∷ []) = name != bytes "after" || length values != 1
bad_event_query _ = true

-- `q["after"]`, of which a query that was not refused has one value.
unfoldable pub query_after : List (Text × List Text) → Option Text
query_after ((name, v ∷ []) ∷ []) = if name == bytes "after" then some v else none
query_after _ = none

-- The cursor that a request for events names: in its query, in its header, or in both alike.
-- `none` stands for no cursor.
unfoldable pub named_cursor : Option Text → List Text → Outcome (Option Text)
named_cursor none [] = ok none
named_cursor (some raw) [] =
    if raw == [] then err (bare ErrorCode.cursor_invalid) else ok (some raw)
named_cursor none (h ∷ []) = if h == [] then err (bare ErrorCode.cursor_invalid) else ok (some h)
named_cursor (some raw) (h ∷ []) =
    if raw != h || h == [] then err (bare ErrorCode.cursor_invalid) else ok (some h)
named_cursor _ _ = err (bare ErrorCode.cursor_invalid)

module _ {S : Type 0} (service : Service S) where
  unfoldable pub watch_from : Option Snapshot → Cursor → S → Response × S
  watch_from first c s = mapped (stream first c) (service.watch c s)

  unfoldable pub watch_after : Outcome Cursor → S → Response × S
  unfolding watch_from
  watch_after (err e) s = (fail e, s)
  watch_after (ok c) s = watch_from none c s

  -- With no cursor the stream begins with a snapshot.
  unfoldable pub watch_snapshot : Outcome Snapshot × S → Response × S
  unfolding watch_from
  watch_snapshot (err e, s) = (fail e, s)
  watch_snapshot (ok x, s) = watch_from (some x) x.cursor s

  unfoldable pub begin_events : Outcome (Option Text) → S → Response × S
  unfolding watch_after watch_snapshot
  begin_events (err e) s = (fail e, s)
  begin_events (ok none) s = watch_snapshot (service.snapshot s)
  begin_events (ok (some raw)) s = watch_after (parse_cursor raw) s

  unfoldable pub serve_events : List (Text × List Text) → HttpRequest → S → Response × S
  unfolding begin_events
  serve_events q r s =
      if has_body r || bad_event_query q
      then (protocol 400 "event query or body rejected", s)
      else begin_events (named_cursor (query_after q) r.last_event_ids) s

  unfoldable pub serve_method : Decoders → Route → HttpRequest → S → Response × S
  unfolding serve_get serve_command
  serve_method d route r s =
      if method_of route == get_method
      then (if has_body r then (protocol 400 "body rejected", s) else serve_get service route s)
      else serve_command service d route r s

  unfoldable pub serve_query :
      Decoders → Route → HttpRequest → List (Text × List Text) → S → Response × S
  unfolding serve_events serve_method
  serve_query d Route.events r q s = serve_events q r s
  serve_query d route r q s =
      if length q != 0 then (protocol 400 "query rejected", s) else serve_method d route r s

  unfoldable pub serve_parsed :
      Decoders → Route → HttpRequest → Option (List (Text × List Text)) → S → Response × S
  unfolding serve_query
  serve_parsed d route r none s = (protocol 400 "query rejected", s)
  serve_parsed d route r (some q) s = serve_query d route r q s

  -- A path with its method, and the query.
  unfoldable pub serve_route : Decoders → Option Route → HttpRequest → S → Response × S
  unfolding serve_parsed
  serve_route d none r s = (fail (bare ErrorCode.not_found), s)
  serve_route d (some route) r s =
      if r.method != method_of route
      then (protocol 405 "method rejected", s)
      else serve_parsed d route r r.query s

  -- `assets` is `webui.Asset`, an exact list of paths.
  unfoldable pub serve_path : Option (Text × Text) → Decoders → HttpRequest → S → Response × S
  unfolding serve_route
  serve_path (some content) d r s = (serve_asset r content, s)
  serve_path none d r s = serve_route d (route_of r.path) r s

  unfoldable pub serve :
      Address → (Text → Option (Text × Text)) → Decoders → HttpRequest → S → Response × S
  unfolding serve_path unless_refused
  serve a assets d r s =
      unless_refused service (refuse_early a r) (serve_path (assets r.path) d r s) s
