-- ===== src/HttpApi/Routes.antt =====
-- The paths of internal/adapters/httpapi/server.go and what each asks for.
use task_worker.Base.{List, Option, [], if◌then◌else◌, none, not, some, ◌==◌, ◌∷◌, Bytes-comparable}
use task_worker.Text.{Text, bytes, split_on, cut_prefix}
use task_worker.HttpApi.Ids.{is_id}
use task_worker.Jobs.{JobId}

-- `/v1/jobs/ID` and `/v1/jobs/ID/result` are one route.
pub data Route : Type 0 where
  health models snapshot jobs queue events submit retry branch pause resume : Route
  job_at cancel_at : JobId → Route

abbrev pub get_method : Text
get_method = bytes "GET"

abbrev pub post_method : Text
post_method = bytes "POST"

unfoldable pub method_of : Route → Text
method_of submit = post_method
method_of retry = post_method
method_of branch = post_method
method_of pause = post_method
method_of resume = post_method
method_of (cancel_at id) = post_method
method_of _ = get_method

job_parts : List Text → Option Route
job_parts (id ∷ []) = if is_id id then some (job_at id) else none
job_parts (id ∷ verb ∷ []) =
    if not (is_id id)
    then none
    else if verb == bytes "cancel"
    then some (cancel_at id)
    else if verb == bytes "result"
    then some (job_at id)
    else none
job_parts _ = none

job_route : Option Text → Option Route
unfolding job_parts
job_route none = none
job_route (some rest) = job_parts (split_on b'/' rest)

-- The switch over the path: `none` for a path that is not known.
unfoldable pub route_of : Text → Option Route
unfolding job_route
route_of path =
    if path == bytes "/v1/health"
    then some health
    else if path == bytes "/v1/models"
    then some models
    else if path == bytes "/v1/snapshot"
    then some snapshot
    else if path == bytes "/v1/jobs"
    then some jobs
    else if path == bytes "/v1/queue"
    then some queue
    else if path == bytes "/v1/events"
    then some events
    else if path == bytes "/v1/submit"
    then some submit
    else if path == bytes "/v1/retry"
    then some retry
    else if path == bytes "/v1/branch"
    then some branch
    else if path == bytes "/v1/queue/pause"
    then some pause
    else if path == bytes "/v1/queue/resume"
    then some resume
    else job_route (cut_prefix (bytes "/v1/jobs/") path)
