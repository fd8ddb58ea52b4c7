-- ===== src/HttpApi/Server/Effects.antt =====
-- What a request can change: reads change nothing, and only trusted commands reach the rest.
use task_worker.Base.{
  Option, inl, inr, none, refl, some, ◌≡◌, ◌∙◌, ◌⊎◌, Bytes-comparable, ℕ-comparable,
}
use task_worker.HttpApi.Server.{HttpRequest, Decoders, Address}
use task_worker.HttpApi.Server.Handle.{serve_get, watch_after, watch_snapshot, begin_events, serve}
use task_worker.HttpApi.Server.Trust.{IsCommand, refuse_command-none, IsTrusted, refuse_early-none}
use task_worker.HttpApi.Server.Cases.{serve-cases}
use task_worker.HttpApi.Service.{Service}
use task_worker.HttpApi.Routes.{Route}
use task_worker.HttpApi.Ids.{parse_cursor}
use task_worker.Errors.{Outcome, err, ok}
use task_worker.Events.{Cursor, Snapshot}
use task_worker.Jobs.{JobId}
use task_worker.Text.{Text}

-- The reading operations of a service leave a part of its state alone.
pub record ReadsOnly {S V : Type 0} (service : Service S) (view : S → V) : Type 0 where
  pub get_job : (id : JobId) (s : S) → view (service.get_job id s).1 ≡ view s
  pub snapshot : (s : S) → view (service.snapshot s).1 ≡ view s
  pub models : (s : S) → view (service.models s).1 ≡ view s
  pub watch : (c : Cursor) (s : S) → view (service.watch c s).1 ≡ view s

module _ {S V : Type 0} (service : Service S) (view : S → V) (reads : ReadsOnly service view) where
  serve_get-view : (route : Route) (s : S) → view (serve_get service route s).1 ≡ view s
  unfolding serve_get
  serve_get-view Route.health s = refl
  serve_get-view Route.models s = reads.models s
  serve_get-view Route.snapshot s = reads.snapshot s
  serve_get-view Route.jobs s = reads.snapshot s
  serve_get-view Route.queue s = reads.snapshot s
  serve_get-view Route.events s = refl
  serve_get-view Route.submit s = refl
  serve_get-view Route.retry s = refl
  serve_get-view Route.branch s = refl
  serve_get-view Route.pause s = refl
  serve_get-view Route.resume s = refl
  serve_get-view (Route.job_at id) s = reads.get_job id s
  serve_get-view (Route.cancel_at id) s = refl

  watch_after-view : (o : Outcome Cursor) (s : S) → view (watch_after service o s).1 ≡ view s
  unfolding watch_after
  watch_after-view (err e) s = refl
  watch_after-view (ok c) s = reads.watch c s

  watch_snapshot-view :
      (m : Outcome Snapshot × S) (s : S)
      → view m.1 ≡ view s
      → view (watch_snapshot service m).1 ≡ view s
  unfolding watch_snapshot
  watch_snapshot-view (err e, t) s h = h
  watch_snapshot-view (ok x, t) s h = reads.watch x.cursor t ∙ h

  begin_events-view :
      (o : Outcome (Option Text)) (s : S) → view (begin_events service o s).1 ≡ view s
  unfolding begin_events
  begin_events-view (err e) s = refl
  begin_events-view (ok none) s = watch_snapshot-view (service.snapshot s) s (reads.snapshot s)
  begin_events-view (ok (some raw)) s = watch_after-view (parse_cursor raw) s

  -- A request changes nothing of what the reading operations leave alone, unless it is trusted (its
  -- Host is the server's address, its Origin and its Sec-Fetch-Site are absent or the server's own)
  -- and it is a POST of one `application/json` document.
  pub serve_guarded :
      (a : Address) (assets : Text → Option (Text × Text)) (d : Decoders) (r : HttpRequest) (s : S)
      → (view (serve service a assets d r s).1 ≡ view s) ⊎ (IsTrusted a r × IsCommand r)
  serve_guarded a assets d r s =
      serve-cases service a r s (λ t. (view t ≡ view s) ⊎ (IsTrusted a r × IsCommand r))
        (record {
          same = inl refl;
          got = λ route. inl (serve_get-view route s);
          watched = λ o. inl (begin_events-view o s);
          posted = λ d route b early typed m.
              inr (refuse_early-none a r early, refuse_command-none r m typed);
        })
        assets d
