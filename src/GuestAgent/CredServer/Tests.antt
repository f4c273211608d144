-- ===== src/GuestAgent/CredServer/Tests.antt =====
-- A process of root with the right token.
use ovirt_guest_agent.Prelude.{◌≡◌, refl, none, some, [], ◌∷◌, ◌++◌, codes}
use ovirt_guest_agent.PamOvirtCred.CredChannel.Acquire.{Ensures}
use ovirt_guest_agent.GuestAgent.CredServer.{Peer, Server, user_authenticated, packcreds}
use ovirt_guest_agent.GuestAgent.CredServer.Guarded.{Answered, user_authenticated-Answered}
use ovirt_guest_agent.GuestAgent.CredServer.Serving.{process}

abbrev peer : Peer
peer = process (record { pid = 77; uid = 0; gid = 0 }) (codes "123456")

abbrev idle : Server
idle = record { cred_channel = none; announced = []; sent = [] }

user_authenticated-Answered_example :
    Ensures
      (Answered idle (codes "123456") (codes "message") peer)
      (user_authenticated (λ name. none) idle (codes "123456") (codes "message") peer)
user_authenticated-Answered_example =
    user_authenticated-Answered (λ name. none) idle (codes "123456") (codes "message") peer refl

-- Behind its header the message of main() is that of pack().
packed :
    packcreds (codes "user@domain") (codes "pass") []
    ≡ some (codes "login" ++ 0 ∷ 0 ∷ 0 ∷ 0 ∷ 11 ∷ codes "user@domainpass" ++ 0 ∷ [])
unfolding packcreds
packed = refl
