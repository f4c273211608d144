-- ===== src/GuestAgent/AgentLogic.antt =====
-- ovirt-guest-agent/OVirtAgentLogic.py: the reports of the agent to the host, second by second, and the
-- credentials as they are logged. What the guest answers is an argument; what is sent is recorded, latest
-- first.
pub mod Smooth
pub mod Schedule
pub mod Masking
pub mod Versions
mod Tests
use ovirt_guest_agent.Prelude.{
  ℕ, ◌+◌, ◌-◌, ◌*◌, ◌^◌, Bool, true, false, not, ◌||◌, Option, none, some, List, [], ◌∷◌, ◌++◌,
  Bytes, codes, str_eq, length, take, drop, replicate, leb, if◌then◌else◌,
}
use ovirt_guest_agent.PamOvirtCred.CredChannel.{load_int}

-- The messages by their names.
pub data Name : Type 0 where
  active_user applications completion disks_usage echo fqdn heartbeat host_name : Name
  memory_stats network_interfaces number_of_cpus os_version os_info session_lock : Name
  session_logoff session_logon session_shutdown session_startup session_unlock : Name
  timezone containers : Name

-- _MESSAGE_MIN_API_VERSION
pub min_api_version : Name → ℕ
min_api_version number_of_cpus = 1
min_api_version os_info = 2
min_api_version timezone = 2
min_api_version completion = 3
min_api_version containers = 3
min_api_version _ = 0

abbrev pub max_supported_api_version : ℕ
max_supported_api_version = 3

-- The arguments that depend on the agent's own state.
pub data Arguments : Type 0 where
  from_guest : Arguments
  api_version : ℕ → Arguments
  user_name : Bytes → Arguments

pub record Message : Type 0 where
  pub name : Name
  pub arguments : Arguments

-- The user reported last, and the messages.
pub record Agent : Type 0 where
  pub active_user : Bytes
  pub sent : List Message

-- The version that the host has set, 0 at first; the host may set any integer. `negsuc n` is -(n + 1).
pub data ℤ : Type 0 where
  pos : ℕ → ℤ
  negsuc : ℕ → ℤ

-- version <= self.dr.getAPIVersion()
pub supports : ℕ → ℤ → Bool
supports minimum (pos version) = leb minimum version
supports minimum (negsuc _) = false

-- What one second brings: whether the service is being stopped, the version that the host has set, who is
-- logged in, and of which messages the data or the write raises an exception. The code reads the version for
-- each message; here it is the same for a second.
pub record Second : Type 0 where
  pub wait_stop : Bool
  pub version : ℤ
  pub current_user : Bytes
  pub data_raises : Name → Bool
  pub write_raises : Name → Bool

-- What a report leaves: the agent, or the agent as it is when an exception is raised.
pub data Outcome : Type 0 where
  done raised : Agent → Outcome

infixl 20 ◌>>=◌
pub ◌>>=◌ : Outcome → (Agent → Outcome) → Outcome
done a >>= f = f a
raised a >>= f = raised a

-- A message whose write raises an exception does not count as sent.
pub send : Second → Name → Arguments → Agent → Outcome
send s name args a =
    if not (supports (min_api_version name) s.version)
    then done a
    else if s.write_raises name
    then raised a
    else done (record a { sent = record { name = name; arguments = args } ∷ a.sent })

-- The data is read before the version is looked at.
abbrev with_data : Second → Name → (Agent → Outcome) → Agent → Outcome
with_data s name f a = if s.data_raises name then raised a else f a

abbrev report : Second → Name → Agent → Outcome
report s name = with_data s name (send s name from_guest)

abbrev note_user : Bytes → Agent → Outcome
note_user current a = done (record a { active_user = current })

abbrev send_user : Second → Bool → Agent → Outcome
send_user s force a =
    if not (str_eq s.current_user a.active_user) || force
    then send s active_user (user_name s.current_user) a >>= note_user s.current_user
    else done a

pub send_user_info : Second → Bool → Agent → Outcome
send_user_info s force = with_data s active_user (send_user s force)

abbrev send_info : Second → Agent → Outcome
send_info s a = report s host_name a >>= report s os_version >>= report s network_interfaces

-- A number of seconds that is counted down, and what it starts from.
pub record Timer : Type 0 where
  pub left : ℕ
  pub rate : ℕ

abbrev pub is_due : Timer → Bool
is_due t = leb (t.left - 1) 0

abbrev pub count_down : Timer → Timer
count_down t = record t { left = if is_due t then t.rate else t.left - 1 }

-- The loop of doWork() between two rounds, and whether it was left.
pub record Worker : Type 0 where
  pub heartbeats : Timer
  pub users : Timer
  pub apps : Timer
  pub disks : Timer
  pub cpus : Timer
  pub reported_version : ℕ
  pub stopped : Bool
  pub agent : Agent

abbrev when : Bool → (Agent → Outcome) → Agent → Outcome
when due f a = if due then f a else done a

abbrev beat : Worker → Second → Agent → Outcome
beat w s = with_data s heartbeat (send s heartbeat (api_version w.reported_version))

abbrev report_apps : Second → Agent → Outcome
report_apps s a = report s applications a >>= report s containers >>= send_info s >>= report s fqdn

-- All that follows the heartbeat.
others : Worker → Second → Agent → Outcome
others w s a =
    when (is_due w.users) (send_user_info s false) a
    >>= when (is_due w.apps) (report_apps s)
    >>= when (is_due w.disks) (report s disks_usage)
    >>= when (is_due w.cpus) (report s number_of_cpus)

abbrev pub agent_of : Outcome → Agent
agent_of (done a) = a
agent_of (raised a) = a

-- sessionShutdown() behind the loop; an exception there ends the thread.
pub leave : Second → Agent → Worker → Worker
leave s a w = record w { stopped = true; agent = agent_of (send s session_shutdown from_guest a) }

abbrev after_reports : Worker → Second → Outcome → Worker
after_reports w s (raised a) = leave s a w
after_reports w s (done a) = record {
  heartbeats = count_down w.heartbeats;
  users = count_down w.users;
  apps = count_down w.apps;
  disks = count_down w.disks;
  cpus = count_down w.cpus;
  reported_version = if is_due w.heartbeats then max_supported_api_version else w.reported_version;
  stopped = w.stopped;
  agent = a;
}

abbrev reports : Worker → Second → Outcome
reports w s = when (is_due w.heartbeats) (beat w s) w.agent >>= others w s

pub tick : Worker → Second → Worker
tick w s =
    if w.stopped
    then w
    else if s.wait_stop
    then leave s w.agent w
    else after_reports w s (reports w s)

pub work : Worker → List Second → Worker
work w [] = w
work w (s ∷ ss) = work (tick w s) ss

-- safe_creds_repr() without the quotes: the bytes up to the password, eight stars, the last byte. An error
-- where there is no length.
pub safe_creds : Bytes → Option Bytes
safe_creds creds = elim (load_int creds) [
  | none ↦ none
  | some user_len ↦
      let cut = user_len + 4 in
      some
        (take cut creds ++ replicate 8 b'*' ++ drop (cut + length creds - (user_len + 4 + 1)) creds)
]
