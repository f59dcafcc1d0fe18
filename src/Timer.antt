-- ===== src/Timer.antt =====
-- src/system/kernel/timer/timer.c: ticks of the interval timer, and the milliseconds counted from them.
-- The millisecond handlers act on a state of their own.
pub mod Drift
use gunw_os.Prelude.Outcome.{Outcome, ok, oops, ◌>>=◌}
use gunw_os.Prelude.{
  ℕ, zero, suc, ◌+◌, ◌/◌, ◌%◌, ◌^◌, Bool, true, false, not, Array, update, leb, if◌then◌else◌,
}

-- `k_pit_freq`, of driver/pit/pit.c, and the frequency of the timer's interrupts.
abbrev pub pit_freq : ℕ
pit_freq = 1193182

abbrev pub event_freq : ℕ
event_freq = 1000

abbrev pub max_ms_handlers : ℕ
max_ms_handlers = 1

-- The file's static variables. A handler is a routine on the state `S`.
pub record Timer (S : Type 0) : Type 0 where
  pub ticks : ℕ
  pub ms : ℕ
  pub pit_drift : ℕ
  pub drift_current : ℕ
  pub ms_handler_count : ℕ
  pub aux_ms_handlers : Array (S → Outcome S)

module _ {S : Type 0} where
  -- `k_tmr_init`, but for the settings of the interval timer.
  unfoldable pub k_tmr_init : Timer S → Timer S
  k_tmr_init t = record t { pit_drift = pit_freq % event_freq }

  unfoldable pub run_handlers : Array (S → Outcome S) → ℕ → ℕ → S → Outcome S
  run_handlers handlers i zero s = ok s
  run_handlers handlers i (suc n) s = handlers i s >>= run_handlers handlers (i + 1) n

  -- The counters after `k_tmr_tick`, and whether the millisecond counts.
  unfoldable pub count_tick : Timer S → Bool × Timer S
  count_tick t =
      let drift = (t.drift_current + t.pit_drift) % 2 ^ 32 in
      let ticks = (t.ticks + 1) % 2 ^ 32 in
      if leb pit_freq drift
      then (false, record t { ticks = ticks; drift_current = drift % pit_freq })
      else (true, record t { ticks = ticks; drift_current = drift; ms = (t.ms + 1) % 2 ^ 32 })

  unfoldable pub k_tmr_tick : Timer S → S → Outcome (Timer S × S)
  unfolding count_tick run_handlers
  k_tmr_tick t s =
      let (counts, t') = count_tick t in
      if not counts
      then ok (t', s)
      else (run_handlers t'.aux_ms_handlers 0 t'.ms_handler_count s >>= λ s'. ok (t', s'))

  pub k_tmr_get_ticks : Timer S → ℕ
  k_tmr_get_ticks t = t.ticks

  pub k_tmr_get_sec : Timer S → ℕ
  k_tmr_get_sec t = t.ms / 1000

  pub k_tmr_get_ms : Timer S → ℕ
  k_tmr_get_ms t = t.ms

  -- The handler is not null.
  unfoldable pub k_tmr_reg_ms_handler : (S → Outcome S) → Timer S → Outcome (Timer S)
  k_tmr_reg_ms_handler handler t =
      if leb max_ms_handlers t.ms_handler_count
      then oops
      else ok (record t {
        aux_ms_handlers = update t.aux_ms_handlers t.ms_handler_count handler;
        ms_handler_count = t.ms_handler_count + 1;
      })

  -- The counters after a number of ticks.
  unfoldable pub count_ticks : ℕ → Timer S → Timer S
  unfolding count_tick
  count_ticks zero t = t
  count_ticks (suc n) t = count_ticks n (count_tick t).1
