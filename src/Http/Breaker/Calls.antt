-- ===== src/Http/Breaker/Calls.antt =====
-- Calls in flight at the same time.
use canals.Prelude.{ℕ, ◌+◌, ◌-◌, ◌<◌, ◌≡◌, Bool, if◌then◌else◌}
use canals.Http.Breaker.{CircuitBreaker, new, Admission, rejected, probing, plain, begin, finish}
use canals.Http.Breaker.Laws.{IsSound}

-- The breaker, with the calls that were let through and have not settled: probes and others.
pub record Traffic : Type 0 where
  pub breaker : CircuitBreaker
  pub probes : ℕ
  pub others : ℕ

count_in : Admission → Traffic → Traffic
count_in rejected t = t
count_in probing t = record t { probes = t.probes + 1 }
count_in plain t = record t { others = t.others + 1 }

unfoldable pub arrive : ℕ → Traffic → Traffic
unfolding count_in
arrive now t = let (b, a) = begin now t.breaker in count_in a (record t { breaker = b })

-- A call arrives at some time, or one that is in flight settles, well or badly, at some time.
pub data Step (t : Traffic) (u : Traffic) : Type 0 where
  arriving : (now : ℕ) → u ≡ arrive now t → Step t u
  probe_settles :
      (now : ℕ) (success : Bool)
      → 0 < t.probes
      → u ≡ record t { breaker = finish probing success now t.breaker; probes = t.probes - 1 }
      → Step t u
  call_settles :
      (now : ℕ) (success : Bool)
      → 0 < t.others
      → u ≡ record t { breaker = finish plain success now t.breaker; others = t.others - 1 }
      → Step t u

pub data Reach (t : Traffic) : Traffic → Type 0 where
  here : Reach t t
  next : {u v : Traffic} → Reach t u → Step u v → Reach t v

abbrev pub idle : ℕ → ℕ → Traffic
idle n ms = record { breaker = new n ms; probes = 0; others = 0 }

-- The flag counts the probes in flight, and the breaker is sound.
record Counted (t : Traffic) : Type 0 where
  flagged : t.probes ≡ (if t.breaker.half_open_probe_in_flight then 1 else 0)
  sound : IsSound t.breaker
