-- ===== src/Bridge/Framer.antt =====
-- `framer` of internal/adapters/mcpbridge/framing.go: `track` and `Write`, which keep the answer of
-- a cancelled request from the peer. The lock makes each of them one step.
pub mod Promise
use task_worker.Base.{
  Bool, Option, List, [], ◌∷◌, ◌++◌, true, false, none, some, not, ◌&&◌, ◌||◌, ◌==◌, ◌!=◌, is_none,
  Comparable, Bytes-comparable, if◌then◌else◌,
}
use task_worker.Bridge.Envelope.{Json}
use task_worker.Errors.{Error}
use task_worker.Text.{Text, bytes}

-- A `map[string]bool` all of whose values are true: its keys.
unfoldable pub member : Text → List Text → Bool
member x [] = false
member x (y ∷ ys) = y == x || member x ys

unfoldable pub insert : Text → List Text → List Text
unfolding member
insert x ys = if member x ys then ys else x ∷ ys

unfoldable pub delete : Text → List Text → List Text
delete x [] = []
delete x (y ∷ ys) = let rest = delete x ys in if y == x then rest else y ∷ rest

is_empty : List Text → Bool
is_empty [] = true
is_empty (x ∷ xs) = false

-- The fields that both methods decode of a message; an absent raw field has no text.
pub record Head : Type 0 where
  pub id : Text
  pub method : Text
  pub params : Text

-- `head` is `json.Unmarshal` into the fields above, `request_id` into the field `requestId` of the
-- parameters, and `sink` the writer under the framer, by what it was given before.
pub record Wire : Type 0 where
  pub json : Json
  pub head : Text → Option Head
  pub request_id : Text → Option Text
  pub sink : List Text → Text → Option Error

pub record Framer : Type 0 where
  pub inflight : List Text
  pub cancelled : List Text
  pub written : List Text

abbrev pub new_framer : Framer
new_framer = record { inflight = []; cancelled = []; written = [] }

module _ (w : Wire) where
  unfoldable pub canon_id : Text → Text
  canon_id raw = elim (w.json.compact raw) [ none ↦ [] | some t ↦ t ]

  cancel : Option Text → Framer → Framer
  cancel none f = f
  cancel (some raw) f =
      if raw == [] || not (member (canon_id raw) f.inflight)
      then f
      else record f { cancelled = insert (canon_id raw) f.cancelled }

  begin : Text → Framer → Framer
  begin id f =
      if id != [] && id != bytes "null"
      then record f { inflight = insert (canon_id id) f.inflight }
      else f

  track_head : Option Head → Framer → Framer
  unfolding cancel begin
  track_head none f = f
  track_head (some m) f =
      if m.method == []
      then f
      else if m.method == bytes "notifications/cancelled"
      then cancel (w.request_id m.params) f
      else begin m.id f

  unfoldable pub track : Text → Framer → Framer
  unfolding track_head
  track line f = track_head (w.head line) f

  -- `f.w.Write(p)`.
  pass : Text → Framer → Option Error × Framer
  pass p f = (w.sink f.written p, record f { written = f.written ++ p ∷ [] })

  -- The answer to the request `id`.
  respond : Text → Text → Framer → Option Error × Framer
  unfolding pass
  respond id p f =
      if not (member id f.inflight)
      then pass p f
      else if member id f.cancelled
      then (none, record f { inflight = delete id f.inflight; cancelled = delete id f.cancelled })
      else pass p (record f { inflight = delete id f.inflight })

  write_head : Option Head → Text → Framer → Option Error × Framer
  unfolding respond
  write_head none p f = pass p f
  write_head (some m) p f =
      if m.method == [] && m.id != [] then respond (canon_id m.id) p f else pass p f

  unfoldable pub write : Text → Framer → Option Error × Framer
  unfolding write_head pass is_empty
  write p f = if is_empty f.inflight then pass p f else write_head (w.head p) p f
