-- ===== src/Login/Tests.antt =====
-- A greeter that shows a message between the signal and the prompt, and one that got another token.
use ovirt_guest_agent.Prelude.{
  ◌≡◌, refl, inr, none, some, [], ◌∷◌, arith, true, Option, Bytes, codes, length,
}
use ovirt_guest_agent.PamOvirtCred.CredChannel.{ok, Sys, ret}
use ovirt_guest_agent.PamOvirtCred.CredChannel.Parse.{pack}
use ovirt_guest_agent.PamOvirtCred.CredChannel.Examples.{
  username, password, ticket, host, stack, username-NonZero, password-NonZero,
}
use ovirt_guest_agent.PamOvirtCred.CredChannel.Acquire.{retry_ret, set_sock_non_blocking_lem}
use ovirt_guest_agent.PamOvirtCred.Authenticate.{
  Pam, Handle, pam_success, pam_other, pam_user_unknown, free_token, pam_sm_authenticate,
}
use ovirt_guest_agent.GuestAgent.CredServer.{Ucred, Server, run, user_authenticated}
use ovirt_guest_agent.GuestAgent.CredServer.Serving.{process, replies}
use ovirt_guest_agent.Gdm2Plugin.Extension.{Extension, init}
use ovirt_guest_agent.Login.Greeter.{Greeter, asked}
use ovirt_guest_agent.Login.Greeters.{shows, gdm2}
use ovirt_guest_agent.Login.Served.{Linked, accepted, token_logs_in, stranger_refused}

abbrev root : Ucred
root = record { pid = 77; uid = 0; gid = 0 }

abbrev greeter : Greeter
greeter = gdm2 true

abbrev extension : Extension
extension = init 1 (some (2, 3)) 4

-- The socket of a process that sends `sent` to a channel that waits for the ticket.
abbrev socket_to : Bytes → Sys
socket_to sent = record {
  socket = ret 3;
  connect = λ address. ret tt;
  getfl = ret 2;
  setfl = λ flags. ret tt;
  sends = λ t. ret (length t) ∷ [];
  selects = ret (1, true) ∷ [];
  recvs = replies (run (0 ∷ []) (ticket, pack username password) (process root sent));
}

abbrev linked :
    (sent : Bytes) → Linked (0 ∷ []) (ticket, pack username password) root sent (socket_to sent)
linked sent = record {
  fd = 3;
  flags = 2;
  ready = 0;
  socket_ok = refl;
  connect_ok = refl;
  nonblock_ok = set_sock_non_blocking_lem (socket_to sent) 2 refl (λ f. refl);
  send_ok = refl;
  select_ok = retry_ret (1, true) [];
  recv_ok = refl;
}

abbrev told : Option Bytes → Pam
told answer = record {
  prompt = (pam_success, answer);
  get_user = (pam_other 8, none);
  set_item = λ item value. pam_success;
}

abbrev blank : Handle
blank = record { user = none; authtok = none }

abbrev server : Server
server = record { cred_channel = none; announced = []; sent = [] }

token_logs_in_example :
    (user_authenticated (λ name. none) server ticket (pack username password) (process root ticket)
      ≡ ok (record {
        cred_channel = none;
        announced = ticket ∷ [];
        sent = pack username password ∷ [];
      }))
    × (pam_sm_authenticate
          (told (greeter.answered (asked greeter extension ticket (shows (codes "Wait") 5 ∷ []))))
          (socket_to ticket)
          host
          stack
          blank
        ≡ ok (accepted host ticket username password))
token_logs_in_example =
    token_logs_in greeter extension (shows (codes "Wait") 5 ∷ [])
      (told (greeter.answered (asked greeter extension ticket (shows (codes "Wait") 5 ∷ []))))
      (socket_to ticket) host stack blank root ticket username password (λ name. none) server refl
      (linked ticket) refl (λ e. ground (arith, e)) (omega arith) tt (tt, tt) refl username-NonZero
      password-NonZero (omega arith) refl refl refl refl refl refl

stranger_refused_example :
    pam_sm_authenticate (told (some (codes "43"))) (socket_to (codes "43")) host stack blank
    ≡ ok (record {
      retval = pam_user_unknown;
      handle = blank;
      cleanup = free_token (codes "43") ∷ [];
    })
stranger_refused_example =
    stranger_refused (told (some (codes "43"))) (socket_to (codes "43")) host stack blank root
      ticket (pack username password) (codes "43") (linked (codes "43")) (λ e. ground (arith, e))
      (inr refl) refl
