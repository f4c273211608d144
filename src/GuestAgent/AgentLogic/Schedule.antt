-- ===== src/GuestAgent/AgentLogic/Schedule.antt =====
-- How often the host hears of the agent.
use native.Mathlib.Nat.{suc-mul, zero-mul}
use ovirt_guest_agent.Prelude.{
  ℕ, ◌+◌, ◌-◌, ◌*◌, ◌≤◌, ◌<◌, ◌≡◌, ap, ◌∙◌, inl, inr, false, List, All, [], ◌∷◌, arith, length,
  Bool-cases, tests,
}
use ovirt_guest_agent.GuestAgent.AgentLogic.Smooth.{beats, Smooth, tick_due, tick_idle}
use ovirt_guest_agent.GuestAgent.AgentLogic.{is_due, Worker, Second, tick, work}

-- As many heartbeats as whole rates have passed since the timer was set.
abbrev pub Regular : ℕ → ℕ → ℕ → Type 0
Regular beaten rate seconds = (beaten * rate ≤ seconds) × (seconds < beaten * rate + rate)

work-Regular :
    (ss : List Second) (w : Worker)
    → All Smooth ss
    → w.stopped ≡ false
    → 1 ≤ w.heartbeats.left
    → w.heartbeats.left ≤ w.heartbeats.rate
    → Regular (beats (work w ss).agent.sent) w.heartbeats.rate (
        beats w.agent.sent * w.heartbeats.rate
        + (w.heartbeats.rate - w.heartbeats.left)
        + length ss)
unfolding work tick
work-Regular [] w smooth on low high = (omega arith, omega (arith, low, high))
work-Regular (s ∷ ss) w smooth on low high = elim (Bool-cases (is_due w.heartbeats)) [
  | inl due ↦
      let (more, full, rate, still) = tick_due s smooth.0 w on due in
      let times : beats (tick w s).agent.sent * w.heartbeats.rate
          ≡ beats w.agent.sent * w.heartbeats.rate + w.heartbeats.rate =
        ap (λ b. b * w.heartbeats.rate) more ∙ suc-mul (beats w.agent.sent) w.heartbeats.rate in
      let one : w.heartbeats.left ≡ 1 = omega (tests, due, low) in
      let (a, b) = rw rate at (
        work-Regular ss (tick w s) smooth.1 still (omega (arith, full, low, high))
          (omega (arith, full, rate))) in
      (omega (arith, a, times, full, one), omega (arith, b, times, full, one))
  | inr idle ↦
      let (same, less, rate, still) = tick_idle s smooth.0 w on idle in
      let times : beats (tick w s).agent.sent * w.heartbeats.rate
          ≡ beats w.agent.sent * w.heartbeats.rate =
        ap (λ b. b * w.heartbeats.rate) same in
      let many : 2 ≤ w.heartbeats.left = ground (arith, idle, low) in
      let (a, b) = rw rate at (
        work-Regular ss (tick w s) smooth.1 still (omega (arith, less, many))
          (omega (arith, less, high, rate))) in
      (omega (arith, a, times, less, many, high), omega (arith, b, times, less, many, high))
]

-- From a worker in its loop that has just set the timer, as long as no second stops the agent, none raises an
-- exception and the host has set no negative version: after so many seconds the host got one heartbeat for
-- each whole rate among them, and no more. The rate is not 0.
pub heartbeats-Regular :
    (ss : List Second) (w : Worker)
    → All Smooth ss
    → w.stopped ≡ false
    → 1 ≤ w.heartbeats.rate
    → w.heartbeats.left ≡ w.heartbeats.rate
    → beats w.agent.sent ≡ 0
    → Regular (beats (work w ss).agent.sent) w.heartbeats.rate (length ss)
heartbeats-Regular ss w smooth on some_rate set none_yet =
    let times : beats w.agent.sent * w.heartbeats.rate ≡ 0 =
      ap (λ b. b * w.heartbeats.rate) none_yet ∙ zero-mul w.heartbeats.rate in
    let (a, b) = work-Regular ss w smooth on (omega (arith, some_rate, set)) (omega (arith, set)) in
    (omega (arith, a, times, set), omega (arith, b, times, set))
