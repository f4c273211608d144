-- ===== src/GuestAgent/AgentLogic/Versions.antt =====
-- Messages are sent to a host that knows them.
use ovirt_guest_agent.Prelude.{
  ℕ, ◌≤◌, ◌≡◌, inl, inr, Bool, true, false, not, ◌||◌, List, [], ◌∷◌, All, arith, leb→le, str_eq,
  if_both, Bool-cases,
}
use ovirt_guest_agent.GuestAgent.AgentLogic.{
  Name, heartbeat, active_user, applications, containers, host_name, os_version, network_interfaces,
  fqdn, disks_usage, number_of_cpus, session_shutdown, min_api_version, Arguments, from_guest,
  api_version, user_name, Agent, ℤ, pos, negsuc, supports, Outcome, done, raised, ◌>>=◌, agent_of,
  send, with_data, report, note_user, send_user, send_user_info, send_info, is_due, Worker, Second,
  when, beat, report_apps, others, leave, after_reports, reports, tick, work,
}

-- All messages are known to a host of this version.
abbrev pub Known : ℕ → Agent → Type 0
Known most a = All (λ m. min_api_version m.name ≤ most) a.sent

-- The version set is this one at most.
abbrev pub AtMost : ℕ → ℤ → Type 0
AtMost most (pos version) = version ≤ most
AtMost most (negsuc _) = Unit

supports-AtMost :
    (most minimum : ℕ) (v : ℤ) → AtMost most v → supports minimum v ≡ true → minimum ≤ most
unfolding supports
supports-AtMost most minimum (pos version) low fits =
    let enough = leb→le minimum version fits in omega (arith, enough, low)
supports-AtMost most minimum (negsuc n) low fits = absurd cc

module _ (most : ℕ) where
  -- A report keeps it so, ended by an exception or not.
  abbrev Keeps : (Agent → Outcome) → Type 0
  Keeps f = (a : Agent) → Known most a → Known most (agent_of (f a))

  >>=-Keeps :
      (o : Outcome) (f : Agent → Outcome)
      → Known most (agent_of o)
      → Keeps f
      → Known most (agent_of (o >>= f))
  unfolding ◌>>=◌
  >>=-Keeps (done a) f k q = q a k
  >>=-Keeps (raised a) f k q = k

  module _ (s : Second) (low : AtMost most s.version) where
    send-Keeps : (name : Name) (args : Arguments) → Keeps (send s name args)
    unfolding send
    send-Keeps name args a k = elim (Bool-cases (supports (min_api_version name) s.version)) [
      | inl fits ↦ rw fits (
          if_both (λ o. Known most (agent_of o)) (s.write_raises name) (raised a) _ k
            (supports-AtMost most (min_api_version name) s.version low fits, k))
      | inr unfit ↦ rw unfit k
    ]

    with_data-Keeps : (name : Name) (f : Agent → Outcome) → Keeps f → Keeps (with_data s name f)
    with_data-Keeps name f q a k =
        if_both (λ o. Known most (agent_of o)) (s.data_raises name) (raised a) (f a) k (q a k)

    report-Keeps : (name : Name) → Keeps (report s name)
    report-Keeps name = with_data-Keeps name (send s name from_guest) (send-Keeps name from_guest)

    send_user-Keeps : (force : Bool) → Keeps (send_user s force)
    send_user-Keeps force a k =
        if_both (λ o. Known most (agent_of o)) (not (str_eq s.current_user a.active_user) || force)
          (send s active_user (user_name s.current_user) a >>= note_user s.current_user) (done a)
          (>>=-Keeps (send s active_user (user_name s.current_user) a) (note_user s.current_user)
            (send-Keeps active_user (user_name s.current_user) a k) (λ b l. l))
          k

    send_user_info-Keeps : (force : Bool) → Keeps (send_user_info s force)
    unfolding send_user_info
    send_user_info-Keeps force =
        with_data-Keeps active_user (send_user s force) (send_user-Keeps force)

    send_info-Keeps : Keeps (send_info s)
    send_info-Keeps a k =
        >>=-Keeps _ (report s network_interfaces)
          (>>=-Keeps _ (report s os_version) (report-Keeps host_name a k) (report-Keeps os_version))
          (report-Keeps network_interfaces)

    report_apps-Keeps : Keeps (report_apps s)
    report_apps-Keeps a k =
        >>=-Keeps _ (report s fqdn)
          (>>=-Keeps _ (send_info s)
            (>>=-Keeps _ (report s containers) (report-Keeps applications a k)
              (report-Keeps containers))
            send_info-Keeps)
          (report-Keeps fqdn)

    when-Keeps : (due : Bool) (f : Agent → Outcome) → Keeps f → Keeps (when due f)
    when-Keeps due f q a k = if_both (λ o. Known most (agent_of o)) due (f a) (done a) (q a k) k

    others-Keeps : (w : Worker) → Keeps (others w s)
    unfolding others
    others-Keeps w a k =
        >>=-Keeps _ (when (is_due w.cpus) (report s number_of_cpus))
          (>>=-Keeps _ (when (is_due w.disks) (report s disks_usage))
            (>>=-Keeps _ (when (is_due w.apps) (report_apps s))
              (when-Keeps (is_due w.users) (send_user_info s false) (send_user_info-Keeps false) a
                k)
              (when-Keeps (is_due w.apps) (report_apps s) report_apps-Keeps))
            (when-Keeps (is_due w.disks) (report s disks_usage) (report-Keeps disks_usage)))
          (when-Keeps (is_due w.cpus) (report s number_of_cpus) (report-Keeps number_of_cpus))

    reports-Known : (w : Worker) → Known most w.agent → Known most (agent_of (reports w s))
    reports-Known w k =
        >>=-Keeps _ (others w s)
          (when-Keeps (is_due w.heartbeats) (beat w s)
            (with_data-Keeps heartbeat (send s heartbeat (api_version w.reported_version))
              (send-Keeps heartbeat (api_version w.reported_version)))
            w.agent k)
          (others-Keeps w)

    leave-Known : (a : Agent) (w : Worker) → Known most a → Known most (leave s a w).agent
    unfolding leave
    leave-Known a w k = send-Keeps session_shutdown from_guest a k

    after_reports-Known :
        (w : Worker) (o : Outcome)
        → Known most (agent_of o)
        → Known most (after_reports w s o).agent
    after_reports-Known w (done a) k = k
    after_reports-Known w (raised a) k = leave-Known a w k

    tick-Known : (w : Worker) → Known most w.agent → Known most (tick w s).agent
    unfolding tick
    tick-Known w k =
        let P : Worker → Type 0 = λ x. Known most x.agent in
        if_both P w.stopped w _ k (
          if_both P s.wait_stop (leave s w.agent w) _ (leave-Known w.agent w k)
            (after_reports-Known w (reports w s) (reports-Known w k)))

  -- Whatever falls due in whatever second, exceptions and the end of the loop included: as long as the host
  -- has set no version above this one, no message is sent that takes a higher one.
  pub work-Known :
      (ss : List Second) (w : Worker)
      → All (λ s. AtMost most s.version) ss
      → Known most w.agent
      → Known most (work w ss).agent
  unfolding work
  work-Known [] w v k = k
  work-Known (s ∷ ss) w v k = work-Known ss (tick w s) v.1 (tick-Known s v.0 w k)
