-- ===== src/GuestAgent/AgentLogic/Smooth.antt =====
-- The reports of a second in which nothing goes wrong, and the heartbeat among them.
use ovirt_guest_agent.Prelude.{
  ℕ, suc, ◌+◌, ◌-◌, ◌≡◌, refl, ap, ◌∙◌, Bool, true, false, not, ◌||◌, List, [], ◌∷◌, arith, str_eq,
  if◌then◌else◌, if_both,
}
use ovirt_guest_agent.GuestAgent.AgentLogic.{
  Name, heartbeat, active_user, applications, containers, host_name, os_version, network_interfaces,
  fqdn, disks_usage, number_of_cpus, min_api_version, Arguments, from_guest, api_version, user_name,
  Message, Agent, pos, supports, Outcome, done, ◌>>=◌, send, with_data, report, note_user,
  send_user, send_user_info, send_info, is_due, Worker, Second, when, beat, report_apps, others,
  leave, after_reports, reports, tick,
}

abbrev is_heartbeat : Name → Bool
is_heartbeat heartbeat = true
is_heartbeat _ = false

-- The heartbeats among the messages.
abbrev pub beats : List Message → ℕ
beats [] = 0
beats (m ∷ ms) = if is_heartbeat m.name then suc (beats ms) else beats ms

-- A second in which the agent is not being stopped, the host has set a version that is not negative, and
-- neither the data of a message nor a write raises an exception.
pub record Smooth (s : Second) : Type 0 where
  pub goes_on : s.wait_stop ≡ false
  pub number : ℕ
  pub version_eq : s.version ≡ pos number
  pub data_there : (name : Name) → s.data_raises name ≡ false
  pub written : (name : Name) → s.write_raises name ≡ false

-- The report goes through, with so many heartbeats.
abbrev Through : ℕ → Agent → Outcome → Type 0
Through n a o = (b : Agent) × (o ≡ done b) × (beats b.sent ≡ n + beats a.sent)

abbrev Adds : ℕ → (Agent → Outcome) → Type 0
Adds n f = (a : Agent) → Through n a (f a)

Adds-then : (n k : ℕ) (f g : Agent → Outcome) → Adds n f → Adds k g → Adds (n + k) (λ a. f a >>= g)
unfolding ◌>>=◌
Adds-then n k f g p q a =
    let (b, first, x) = p a in let (c, second, y) = q b in (c, rw first second, omega (arith, x, y))

if-false : (b : Bool) (x y : Worker) → b ≡ false → (if b then x else y) ≡ y
if-false b x y no_branch = rw no_branch refl

Adds-when : (due : Bool) (f : Agent → Outcome) → Adds 0 f → Adds 0 (when due f)
Adds-when due f p a = if_both (Through 0 a) due (f a) (done a) (p a) (a, refl, omega arith)

supports-zero :
    (name : Name) (number : ℕ)
    → min_api_version name ≡ 0
    → supports (min_api_version name) (pos number) ≡ true
unfolding supports
supports-zero name number zero_needed = ground (arith, zero_needed)

module _ (s : Second) (smooth : Smooth s) where
  Adds-with_data :
      (n : ℕ) (name : Name) (f : Agent → Outcome) → Adds n f → Adds n (with_data s name f)
  Adds-with_data n name f p a = rw (smooth.data_there name) (p a)

  send-Quiet :
      (name : Name) (args : Arguments) → is_heartbeat name ≡ false → Adds 0 (send s name args)
  unfolding send
  send-Quiet name args other a =
      if_both (Through 0 a) (not (supports (min_api_version name) s.version)) (done a) _
        (a, refl, omega arith) (rw (smooth.written name) (_, refl, rw other (omega arith)))

  report-Quiet : (name : Name) → is_heartbeat name ≡ false → Adds 0 (report s name)
  report-Quiet name other =
      Adds-with_data 0 name (send s name from_guest) (send-Quiet name from_guest other)

  send_user-Quiet : (force : Bool) → Adds 0 (send_user s force)
  send_user-Quiet force a =
      if_both (Through 0 a) (not (str_eq s.current_user a.active_user) || force)
        (send s active_user (user_name s.current_user) a >>= note_user s.current_user) (done a)
        (Adds-then 0 0 (send s active_user (user_name s.current_user)) (note_user s.current_user)
          (send-Quiet active_user (user_name s.current_user) refl) (λ b. (_, refl, omega arith)) a)
        (a, refl, omega arith)

  send_user_info-Quiet : (force : Bool) → Adds 0 (send_user_info s force)
  unfolding send_user_info
  send_user_info-Quiet force =
      Adds-with_data 0 active_user (send_user s force) (send_user-Quiet force)

  Quiet-then : (f g : Agent → Outcome) → Adds 0 f → Adds 0 g → Adds 0 (λ a. f a >>= g)
  Quiet-then f g p q = Adds-then 0 0 f g p q

  send_info-Quiet : Adds 0 (send_info s)
  send_info-Quiet =
      Quiet-then (λ a. report s host_name a >>= report s os_version) (report s network_interfaces)
        (Quiet-then (report s host_name) (report s os_version) (report-Quiet host_name refl)
          (report-Quiet os_version refl))
        (report-Quiet network_interfaces refl)

  report_apps-Quiet : Adds 0 (report_apps s)
  report_apps-Quiet =
      Quiet-then (λ a. report s applications a >>= report s containers >>= send_info s)
        (report s fqdn)
        (Quiet-then (λ a. report s applications a >>= report s containers) (send_info s)
          (Quiet-then (report s applications) (report s containers) (report-Quiet applications refl)
            (report-Quiet containers refl))
          send_info-Quiet)
        (report-Quiet fqdn refl)

  others-Quiet : (w : Worker) → Adds 0 (others w s)
  unfolding others
  others-Quiet w =
      let users = when (is_due w.users) (send_user_info s false) in
      let apps = when (is_due w.apps) (report_apps s) in
      let disks = when (is_due w.disks) (report s disks_usage) in
      let cpus = when (is_due w.cpus) (report s number_of_cpus) in
      Quiet-then (λ a. users a >>= apps >>= disks) cpus
        (Quiet-then (λ a. users a >>= apps) disks
          (Quiet-then users apps
            (Adds-when (is_due w.users) (send_user_info s false) (send_user_info-Quiet false))
            (Adds-when (is_due w.apps) (report_apps s) report_apps-Quiet))
          (Adds-when (is_due w.disks) (report s disks_usage) (report-Quiet disks_usage refl)))
        (Adds-when (is_due w.cpus) (report s number_of_cpus) (report-Quiet number_of_cpus refl))

  beat-Adds : (w : Worker) → Adds 1 (beat w s)
  unfolding send min_api_version
  beat-Adds w = Adds-with_data 1 heartbeat (send s heartbeat (api_version w.reported_version)) (λ a.
      rw (smooth.version_eq, supports-zero heartbeat smooth.number refl, smooth.written heartbeat)
        (_, refl, omega arith))

  reports-due : (w : Worker) → is_due w.heartbeats ≡ true → Through 1 w.agent (reports w s)
  reports-due w due =
      rw due (Adds-then 1 0 (beat w s) (others w s) (beat-Adds w) (others-Quiet w) w.agent)

  reports-idle : (w : Worker) → is_due w.heartbeats ≡ false → Through 0 w.agent (reports w s)
  unfolding ◌>>=◌
  reports-idle w idle = rw idle (others-Quiet w w.agent)

  tick_through :
      (w : Worker) (b : Agent)
      → w.stopped ≡ false
      → reports w s ≡ done b
      → tick w s ≡ after_reports w s (done b)
  unfolding tick
  tick_through w b on through =
      if-false w.stopped w _ on
      ∙ if-false s.wait_stop (leave s w.agent w) _ smooth.goes_on
      ∙ ap (after_reports w s) through

  -- One second: a heartbeat and the whole rate, or none and a second less.
  pub tick_due :
      (w : Worker)
      → w.stopped ≡ false
      → is_due w.heartbeats ≡ true
      → (beats (tick w s).agent.sent ≡ suc (beats w.agent.sent))
        × ((tick w s).heartbeats.left ≡ w.heartbeats.rate)
        × ((tick w s).heartbeats.rate ≡ w.heartbeats.rate)
        × ((tick w s).stopped ≡ false)
  tick_due w on due =
      let (b, through, more) = reports-due w due in
      rw (tick_through w b on through, due) (omega (arith, more), refl, refl, on)

  pub tick_idle :
      (w : Worker)
      → w.stopped ≡ false
      → is_due w.heartbeats ≡ false
      → (beats (tick w s).agent.sent ≡ beats w.agent.sent)
        × ((tick w s).heartbeats.left ≡ w.heartbeats.left - 1)
        × ((tick w s).heartbeats.rate ≡ w.heartbeats.rate)
        × ((tick w s).stopped ≡ false)
  tick_idle w on idle =
      let (b, through, same) = reports-idle w idle in
      rw (tick_through w b on through, idle) (omega (arith, same), refl, refl, on)
