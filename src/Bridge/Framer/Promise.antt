-- ===== src/Bridge/Framer/Promise.antt =====
-- What the peer is promised: each request is idle, active or silenced, and a message is kept back
-- only if it answers a silenced one.
pub mod Kept
pub mod Steps
use task_worker.Base.{
  List, Option, [], if◌then◌else◌, none, some, ◌!=◌, ◌&&◌, ◌++◌, ◌==◌, ◌∷◌, Bytes-comparable,
}
use task_worker.Bridge.Framer.{Head, Wire, Framer, canon_id, track, write}
use task_worker.Text.{Text, bytes}

-- A request as the peer sees it.
pub data Phase : Type 0 where
  idle active silenced : Phase

-- What a line of the peer says, and which request a message of the bridge answers.
pub data Inbound : Type 0 where
  starts : Text → Inbound
  silences : Text → Inbound
  quiet : Inbound

module _ (w : Wire) where
  silencing : Option Text → Inbound
  silencing none = quiet
  silencing (some raw) = if raw == [] then quiet else silences (canon_id w raw)

  inbound_head : Option Head → Inbound
  unfolding silencing
  inbound_head none = quiet
  inbound_head (some m) =
      if m.method == []
      then quiet
      else if m.method == bytes "notifications/cancelled"
      then silencing (w.request_id m.params)
      else if m.id != [] && m.id != bytes "null"
      then starts (canon_id w m.id)
      else quiet

  unfoldable pub inbound : Text → Inbound
  unfolding inbound_head
  inbound line = inbound_head (w.head line)

  answered_head : Option Head → Option Text
  answered_head none = none
  answered_head (some m) = if m.method == [] && m.id != [] then some (canon_id w m.id) else none

  unfoldable pub answered : Text → Option Text
  unfolding answered_head
  answered p = answered_head (w.head p)

-- The promise: the phase of every request, and what has been written.
pub record Promise : Type 0 where
  pub phase_of : Text → Phase
  pub out : List Text

pub set_phase : Text → Phase → Promise → Promise
set_phase id q s = record s { phase_of = λ x. if id == x then q else s.phase_of x }

abbrev pub all_idle : Promise
all_idle = record { phase_of = λ x. idle; out = [] }

pub start_phase : Phase → Phase
start_phase idle = active
start_phase active = active
start_phase silenced = silenced

pub silence_phase : Phase → Phase
silence_phase idle = idle
silence_phase active = silenced
silence_phase silenced = silenced

promise_in : Inbound → Promise → Promise
promise_in quiet s = s
promise_in (starts id) s = set_phase id (start_phase (s.phase_of id)) s
promise_in (silences id) s = set_phase id (silence_phase (s.phase_of id)) s

pub say : Text → Promise → Promise
say p s = record s { out = s.out ++ p ∷ [] }

promise_by : Phase → Text → Text → Promise → Promise
promise_by silenced id p s = set_phase id idle s
promise_by _ id p s = say p (set_phase id idle s)

promise_out : Option Text → Text → Promise → Promise
promise_out none p s = say p s
promise_out (some id) p s = promise_by (s.phase_of id) id p s

-- A line of the peer, or a message of the bridge.
pub data Move : Type 0 where
  hears : Text → Move
  says : Text → Move

unfoldable pub promised : Wire → Promise → List Move → Promise
unfolding promise_in promise_out promise_by set_phase start_phase silence_phase say
promised w s [] = s
promised w s (hears line ∷ ms) = promised w (promise_in (inbound w line) s) ms
promised w s (says p ∷ ms) = promised w (promise_out (answered w p) p s) ms

unfoldable pub run_framer : Wire → Framer → List Move → Framer
run_framer w f [] = f
run_framer w f (hears line ∷ ms) = run_framer w (track w line f) ms
run_framer w f (says p ∷ ms) = run_framer w (write w p f).1 ms
