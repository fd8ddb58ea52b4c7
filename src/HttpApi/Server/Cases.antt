-- ===== src/HttpApi/Server/Cases.antt =====
-- The four ways in which `serve` ends: with nothing done, a read, an event stream, or a command.
use task_worker.Base.{
  Bool-cases, List, Option, arith, false, inl, inr, length, none, refl, some, ◌!=◌, ◌==◌, ◌||◌, ◌∙◌,
  ◌≡◌, Bytes-comparable, ℕ-comparable,
}
use task_worker.HttpApi.Server.{
  Address, HttpRequest, Decoders, Response, refuse_early, refuse_command, has_body,
}
use task_worker.HttpApi.Server.Handle.{
  serve_get, serve_post, serve_body, serve_command, serve_events, serve_method, serve_query,
  serve_parsed, serve_route, serve_path, serve, begin_events, named_cursor, query_after,
  bad_event_query, unless_refused,
}
use task_worker.HttpApi.Service.{Service}
use task_worker.HttpApi.Routes.{Route, route_of, method_of, get_method, post_method}
use task_worker.Errors.{Outcome}
use task_worker.Text.{Text}

not_itself : (t : Text) → (t == t) ≡ false → ⊥
not_itself t h = ground (arith, h)

-- A route that is not read by GET is a POST.
method_of_post :
    (route : Route) → (method_of route == get_method) ≡ false → method_of route ≡ post_method
unfolding method_of
method_of_post Route.submit h = refl
method_of_post Route.retry h = refl
method_of_post Route.branch h = refl
method_of_post Route.pause h = refl
method_of_post Route.resume h = refl
method_of_post (Route.cancel_at id) h = refl
method_of_post _ h = absurd (not_itself get_method h)

-- A property of the state that is left, shown for each way. A command has passed every check.
pub record Cases {S : Type 0} (service : Service S) (a : Address) (r : HttpRequest) (s : S)
    (Q : S → Type 0) : Type 0 where
  pub same : Q s
  pub got : (route : Route) → Q (serve_get service route s).1
  pub watched : (o : Outcome (Option Text)) → Q (begin_events service o s).1
  pub posted :
      (d : Decoders) (route : Route) (b : Text)
      → refuse_early a r ≡ none
      → refuse_command r ≡ none
      → r.method ≡ post_method
      → Q (serve_post service d route b s).1

module _ {S : Type 0} (service : Service S) (a : Address) (r : HttpRequest) (s : S) (Q : S → Type 0)
    (cases : Cases service a r s Q) where
  unless_refused-Q :
      (o : Option Response) (m : Response × S)
      → (o ≡ none → Q m.1)
      → Q (unless_refused service o m s).1
  unfolding unless_refused
  unless_refused-Q (some refused) m h = cases.same
  unless_refused-Q none m h = h refl

  serve_body-Q :
      (d : Decoders) (route : Route) (b : Option Text)
      → refuse_early a r ≡ none
      → refuse_command r ≡ none
      → r.method ≡ post_method
      → Q (serve_body service d route b s).1
  unfolding serve_body
  serve_body-Q d route none early typed m = cases.same
  serve_body-Q d route (some b) early typed m = cases.posted d route b early typed m

  serve_method-Q :
      (d : Decoders) (route : Route)
      → refuse_early a r ≡ none
      → r.method ≡ method_of route
      → Q (serve_method service d route r s).1
  unfolding serve_method serve_command
  serve_method-Q d route early m = elim (Bool-cases (method_of route == get_method)) [
    | inl get ↦ elim (Bool-cases (has_body r)) [
      | inl b ↦ rw (get, b) cases.same
      | inr b ↦ rw (get, b) (cases.got route)
    ]
    | inr post ↦ rw post (
        unless_refused-Q (refuse_command r) (serve_body service d route r.body s)
          (λ typed. serve_body-Q d route r.body early typed (m ∙ method_of_post route post)))
  ]

  serve_events-Q : (q : List (Text × List Text)) → Q (serve_events service q r s).1
  unfolding serve_events
  serve_events-Q q = elim (Bool-cases (has_body r || bad_event_query q)) [
    | inl bad ↦ rw bad cases.same
    | inr good ↦ rw good (cases.watched (named_cursor (query_after q) r.last_event_ids))
  ]

  serve_query-Q :
      (d : Decoders) (route : Route) (q : List (Text × List Text))
      → refuse_early a r ≡ none
      → r.method ≡ method_of route
      → Q (serve_query service d route r q s).1
  unfolding serve_query
  serve_query-Q d Route.events q early m = serve_events-Q q
  serve_query-Q d route q early m = elim (Bool-cases (length q != 0)) [
    | inl e ↦ rw e cases.same
    | inr e ↦ rw e (serve_method-Q d route early m)
  ]

  serve_parsed-Q :
      (d : Decoders) (route : Route) (q : Option (List (Text × List Text)))
      → refuse_early a r ≡ none
      → r.method ≡ method_of route
      → Q (serve_parsed service d route r q s).1
  unfolding serve_parsed
  serve_parsed-Q d route none early m = cases.same
  serve_parsed-Q d route (some q) early m = serve_query-Q d route q early m

  serve_route-Q :
      (d : Decoders) (route : Option Route)
      → refuse_early a r ≡ none
      → Q (serve_route service d route r s).1
  unfolding serve_route
  serve_route-Q d none early = cases.same
  serve_route-Q d (some route) early = elim (Bool-cases (r.method != method_of route)) [
    | inl e ↦ rw e cases.same
    | inr e ↦ rw e (serve_parsed-Q d route r.query early (ground (arith, e)))
  ]

  serve_path-Q :
      (asset : Option (Text × Text)) (d : Decoders)
      → refuse_early a r ≡ none
      → Q (serve_path service asset d r s).1
  unfolding serve_path
  serve_path-Q (some content) d early = cases.same
  serve_path-Q none d early = serve_route-Q d (route_of r.path) early

  pub serve-cases :
      (assets : Text → Option (Text × Text)) (d : Decoders) → Q (serve service a assets d r s).1
  unfolding serve
  serve-cases assets d =
      unless_refused-Q (refuse_early a r) (serve_path service (assets r.path) d r s)
        (serve_path-Q (assets r.path) d)
