-- ===== src/Bridge/Slots.antt =====
-- `acquire` of internal/adapters/mcpbridge/tools.go, and the releases that it returns, one channel
-- operation at a time: calls run concurrently.
use task_worker.Base.{
  Option, arith, if◌then◌else◌, ltb, none, some, suc, zero, ℕ, ◌+◌, ◌≡◌, ◌≤◌, refl, ◌<◌,
}

abbrev pub max_concurrent : ℕ
max_concurrent = 16

abbrev pub max_waiters : ℕ
max_waiters = 4

-- A send on a buffered channel with a `default`, and a receive; `none` where it would wait.
unfoldable pub send_within : ℕ → ℕ → Option ℕ
send_within capacity n = if ltb n capacity then some (suc n) else none

unfoldable pub receive : ℕ → Option ℕ
receive zero = none
receive (suc n) = some n

-- What the channels hold, and the calls at each place of the code: plain ones and blocking ones
-- that run, blocking ones that have a slot and try for a place among the waiters, those refused it,
-- and those that have left it.
pub record Room : Type 0 where
  pub slots : ℕ
  pub waiters : ℕ
  pub plain : ℕ
  pub blocking : ℕ
  pub trying : ℕ
  pub refused : ℕ
  pub leaving : ℕ

abbrev pub no_calls : Room
no_calls = record {
  slots = 0;
  waiters = 0;
  plain = 0;
  blocking = 0;
  trying = 0;
  refused = 0;
  leaving = 0;
}

pub data Step : Room → Room → Type 0 where
  start_plain :
      (r : Room) (n : ℕ)
      → send_within max_concurrent r.slots ≡ some n
      → Step r (record r { slots = n; plain = suc r.plain })
  start_blocking :
      (r : Room) (n : ℕ)
      → send_within max_concurrent r.slots ≡ some n
      → Step r (record r { slots = n; trying = suc r.trying })
  wait :
      (r : Room) (t n : ℕ)
      → r.trying ≡ suc t
      → send_within max_waiters r.waiters ≡ some n
      → Step r (record r { waiters = n; trying = t; blocking = suc r.blocking })
  refuse :
      (r : Room) (t : ℕ)
      → r.trying ≡ suc t
      → send_within max_waiters r.waiters ≡ none
      → Step r (record r { trying = t; refused = suc r.refused })
  give_back :
      (r : Room) (t n : ℕ)
      → r.refused ≡ suc t
      → receive r.slots ≡ some n
      → Step r (record r { slots = n; refused = t })
  end_plain :
      (r : Room) (t n : ℕ)
      → r.plain ≡ suc t
      → receive r.slots ≡ some n
      → Step r (record r { slots = n; plain = t })
  leave :
      (r : Room) (t n : ℕ)
      → r.blocking ≡ suc t
      → receive r.waiters ≡ some n
      → Step r (record r { waiters = n; blocking = t; leaving = suc r.leaving })
  end_blocking :
      (r : Room) (t n : ℕ)
      → r.leaving ≡ suc t
      → receive r.slots ≡ some n
      → Step r (record r { slots = n; leaving = t })

pub data Reaches : Room → Type 0 where
  at_start : Reaches no_calls
  then_step : (r s : Room) → Reaches r → Step r s → Reaches s

-- The channels hold one element for each call that has sent one, within their capacities.
pub record Counted (r : Room) : Type 0 where
  pub slots_are : r.slots ≡ r.plain + r.blocking + r.trying + r.refused + r.leaving
  pub waiters_are : r.waiters ≡ r.blocking
  pub slots_fit : r.slots ≤ max_concurrent
  pub waiters_fit : r.waiters ≤ max_waiters

sent : (c n m : ℕ) → send_within c n ≡ some m → (m ≡ suc n) × (m ≤ c)
unfolding send_within
sent c n m h = (ground (arith, h), ground (arith, h))

received : (n m : ℕ) → receive n ≡ some m → n ≡ suc m
unfolding receive
received zero m h = cc
received (suc n) m h = ground (arith, h)

step-Counted : (r s : Room) → Step r s → Counted r → Counted s
step-Counted _ _ (start_plain r n h) k =
    let known = sent max_concurrent r.slots n h in
    record {
      slots_are = omega (arith, k.slots_are, known);
      waiters_are = omega (arith, k.waiters_are, known);
      slots_fit = omega (arith, k.slots_fit, known);
      waiters_fit = omega (arith, k.waiters_fit, known);
    }
step-Counted _ _ (start_blocking r n h) k =
    let known = sent max_concurrent r.slots n h in
    record {
      slots_are = omega (arith, k.slots_are, known);
      waiters_are = omega (arith, k.waiters_are, known);
      slots_fit = omega (arith, k.slots_fit, known);
      waiters_fit = omega (arith, k.waiters_fit, known);
    }
step-Counted _ _ (wait r t n e h) k =
    let sends = sent max_waiters r.waiters n h in
    record {
      slots_are = omega (arith, k.slots_are, e, sends);
      waiters_are = omega (arith, k.waiters_are, e, sends);
      slots_fit = omega (arith, k.slots_fit, e, sends);
      waiters_fit = omega (arith, k.waiters_fit, e, sends);
    }
step-Counted _ _ (refuse r t e h) k =
    let known = e in
    record {
      slots_are = omega (arith, k.slots_are, known);
      waiters_are = omega (arith, k.waiters_are, known);
      slots_fit = omega (arith, k.slots_fit, known);
      waiters_fit = omega (arith, k.waiters_fit, known);
    }
step-Counted _ _ (give_back r t n e h) k =
    let sends = received r.slots n h in
    record {
      slots_are = omega (arith, k.slots_are, e, sends);
      waiters_are = omega (arith, k.waiters_are, e, sends);
      slots_fit = omega (arith, k.slots_fit, e, sends);
      waiters_fit = omega (arith, k.waiters_fit, e, sends);
    }
step-Counted _ _ (end_plain r t n e h) k =
    let sends = received r.slots n h in
    record {
      slots_are = omega (arith, k.slots_are, e, sends);
      waiters_are = omega (arith, k.waiters_are, e, sends);
      slots_fit = omega (arith, k.slots_fit, e, sends);
      waiters_fit = omega (arith, k.waiters_fit, e, sends);
    }
step-Counted _ _ (leave r t n e h) k =
    let sends = received r.waiters n h in
    record {
      slots_are = omega (arith, k.slots_are, e, sends);
      waiters_are = omega (arith, k.waiters_are, e, sends);
      slots_fit = omega (arith, k.slots_fit, e, sends);
      waiters_fit = omega (arith, k.waiters_fit, e, sends);
    }
step-Counted _ _ (end_blocking r t n e h) k =
    let sends = received r.slots n h in
    record {
      slots_are = omega (arith, k.slots_are, e, sends);
      waiters_are = omega (arith, k.waiters_are, e, sends);
      slots_fit = omega (arith, k.slots_fit, e, sends);
      waiters_fit = omega (arith, k.waiters_fit, e, sends);
    }

Reaches-Counted : (r : Room) → Reaches r → Counted r
Reaches-Counted _ at_start = record {
  slots_are = omega arith;
  waiters_are = omega arith;
  slots_fit = omega arith;
  waiters_fit = omega arith;
}
Reaches-Counted _ (then_step r s before now) = step-Counted r s now (Reaches-Counted r before)

-- However calls start and end: at most sixteen run and at most four of them wait, and no release
-- ever blocks, for the channel that it receives from holds an element.
pub release_never_blocks :
    (r : Room)
    → Reaches r
    → (r.plain + r.blocking ≤ max_concurrent)
      × (r.blocking ≤ max_waiters)
      × (0 < r.plain + r.refused + r.leaving → (n : ℕ) × (receive r.slots ≡ some n))
      × (0 < r.blocking → (n : ℕ) × (receive r.waiters ≡ some n))
unfolding receive
release_never_blocks r reached =
    let k = Reaches-Counted r reached in
    (
      omega (arith, k.slots_are, k.slots_fit),
      omega (arith, k.waiters_are, k.waiters_fit),
      λ some_run. held r.slots (omega (arith, k.slots_are, some_run)),
      λ some_wait. held r.waiters (omega (arith, k.waiters_are, some_wait)),
    )
  where
    held : (n : ℕ) → 0 < n → (m : ℕ) × (receive n ≡ some m)
    held zero h = absurd (omega (arith, h))
    held (suc m) h = (m, refl)
