-- ===== src/GuestAgent/AgentLogic/Tests.antt =====
-- Five seconds at a rate of two.
use ovirt_guest_agent.Prelude.{ℕ, ◌≡◌, refl, some, [], ◌∷◌, false, true, arith, codes, replicate}
use ovirt_guest_agent.PamOvirtCred.CredChannel.Parse.{pack}
use ovirt_guest_agent.GuestAgent.AgentLogic.{
  Timer, Worker, Second, pos, negsuc, work, tick, leave, send_user_info, others, ◌>>=◌, safe_creds,
}
use ovirt_guest_agent.GuestAgent.AgentLogic.Smooth.{beats, Smooth}
use ovirt_guest_agent.GuestAgent.AgentLogic.Schedule.{Regular, heartbeats-Regular}
use ovirt_guest_agent.GuestAgent.AgentLogic.Versions.{Known, work-Known}
use ovirt_guest_agent.GuestAgent.AgentLogic.Masking.{masked, safe_creds_masks}

abbrev every : ℕ → Timer
every n = record { left = n; rate = n }

abbrev worker : Worker
worker = record {
  heartbeats = every 2;
  users = every 1;
  apps = every 3;
  disks = every 4;
  cpus = every 5;
  reported_version = 0;
  stopped = false;
  agent = record { active_user = []; sent = [] };
}

abbrev second : Second
second = record {
  wait_stop = false;
  version = pos 1;
  current_user = codes "eve";
  data_raises = λ name. false;
  write_raises = λ name. false;
}

second-Smooth : Smooth second
second-Smooth = record {
  goes_on = refl;
  number = 1;
  version_eq = refl;
  data_there = λ name. refl;
  written = λ name. refl;
}

-- The host has set -1, and no data can be read any more.
abbrev broken : Second
broken = record second { version = negsuc 0; data_raises = λ name. true }

broken_leaves : (tick worker broken).stopped ≡ true
unfolding tick leave send_user_info others ◌>>=◌
broken_leaves = refl

heartbeats-Regular_example : Regular (beats (work worker (replicate 5 second)).agent.sent) 2 5
heartbeats-Regular_example =
    heartbeats-Regular (replicate 5 second) worker
      (second-Smooth, (second-Smooth, (second-Smooth, (second-Smooth, (second-Smooth, tt))))) refl
      (omega arith) refl refl

-- The third second ends the loop.
work-Known_example : Known 1 (work worker (second ∷ second ∷ broken ∷ second ∷ [])).agent
work-Known_example =
    work-Known 1 (second ∷ second ∷ broken ∷ second ∷ []) worker
      (omega arith, (omega arith, (tt, (omega arith, tt)))) tt

safe_creds_masks_example :
    safe_creds (pack (codes "eve") (codes "secret")) ≡ some (masked (codes "eve"))
safe_creds_masks_example = safe_creds_masks (codes "eve") (codes "secret") (omega arith)
