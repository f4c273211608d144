-- ===== src/Gina/Tests.antt =====
-- A Windows XP with the stub, and messages of the agent.
use ovirt_guest_agent.Prelude.{
  ◌≡◌, refl, ◌↔◌, ◌⊎◌, ◌<◌, ◌≤◌, true, false, some, [], ◌∷◌, ◌++◌, arith, Bytes, length, replicate,
  here, next, List,
}
use ovirt_guest_agent.PamOvirtCred.CredChannel.{ok, fault}
use ovirt_guest_agent.PamOvirtCred.CredChannel.Parse.{pack}
use ovirt_guest_agent.CredProv.Channel.{load_little, ntohl}
use ovirt_guest_agent.CredProv.Channel.Examples.{user, secret, user-NonZero, secret-NonZero}
use ovirt_guest_agent.Gina.Config.{unset}
use ovirt_guest_agent.Gina.Dialogs.{
  Message, init_dialog, credentials, command, other, idok, Gina, loaded, Answers, Template,
  my_wlx_dialog_box_param, logon_dlg_proc,
}
use ovirt_guest_agent.Gina.Dialogs.Forwarding.{forwards, Transparent, dialog_box-Transparent}
use ovirt_guest_agent.Gina.Dialogs.Threads.{running, listed}
use ovirt_guest_agent.Gina.Dialogs.Fields.{field_text, logon-restarts}
use ovirt_guest_agent.Gina.Listener.{Host, thread_func}
use ovirt_guest_agent.Gina.Listener.Overrun.{sends, thread_faults_iff}
use ovirt_guest_agent.Gina.Listener.Delivery.{posts}
use ovirt_guest_agent.Gina.Sessions.{opens, handles, Reach, one_listener, credentials_fill_dialog}

-- UTF-8 is ASCII here, and there is memory.
abbrev host : Host
host = record { news = λ n. true; to_wide = λ bs. bs }

abbrev answers : Answers
answers = record { restarted = some 31; started = some 30; result = 1 }

-- The log-in dialog has its number, and a log-in was tried.
abbrev tried : Gina
tried = record loaded {
  config = record unset { logged_out_sas_dialog = 1500; restart_credentials_listener = 1 };
  thread = some 29;
  attempted_to_login = true;
}

abbrev logon_dialog : Template
logon_dialog = record { high = 0; low = 1500 }

-- The dialog is initialised, OK is pressed in it, and it is closed.
abbrev pressed : List (Answers × Message)
pressed = (answers, init_dialog) ∷ (answers, command idok) ∷ (answers, other 16) ∷ []

dialog_box-Transparent_example :
    let (opened, proc) = my_wlx_dialog_box_param logon_dialog 70 tried in
    Transparent 8 proc 70 pressed opened × (forwards opened.calls ≡ [])
dialog_box-Transparent_example = dialog_box-Transparent logon_dialog 70 8 pressed tried

logon-restarts_example :
    (g' : Gina) × (logon_dlg_proc 8 answers (some 70) 1502 1503 (other 15) tried ≡ some (g', 1))
    × (g'.thread ≡ some 31)
    × (g'.attempted_to_login ≡ false)
logon-restarts_example = logon-restarts 8 answers 70 1502 1503 (other 15) tried refl refl

-- The buffer announces a user name of three bytes.
abbrev filled : Bytes
filled = 0 ∷ 0 ∷ 0 ∷ 3 ∷ replicate 1020 b'x'

filled_size : length filled ≡ 1024
filled_size = refl

filled_head : load_little filled ≡ some 0x3000000
unfolding load_little
filled_head = refl

thread_faults_iff_example :
    (thread_func host 8 (some 5) (sends filled 1022) tried ≡ fault)
    ↔ ((1021 < 1022) ⊎ (1022 ≤ ntohl 0x3000000))
thread_faults_iff_example =
    thread_faults_iff host 8 5 filled 1022 0x3000000 tried (λ n. refl) filled_size (omega arith)
      (omega arith) filled_head

-- What follows the message in the buffer, after its first byte.
abbrev rest : Bytes
rest = replicate 1009 b'x'

buffer_size : length (pack user secret ++ b'x' ∷ rest) ≡ 1024
buffer_size = refl

credentials_fill_dialog_example :
    (g1 g2 g3 : Gina) × (thread_func host 8
        (some 5)
        (sends (pack user secret ++ b'x' ∷ rest) (length (pack user secret)))
        loaded
      ≡ ok (g1, true))
    × (posts g1.calls ≡ (8, command idok) ∷ (8, credentials user secret) ∷ [])
    × (logon_dlg_proc 8 answers (some 70) 1502 1503 (credentials user secret) g1 ≡ some (g2, 1))
    × (logon_dlg_proc 8 answers (some 70) 1502 1503 (command idok) g2 ≡ some (g3, 1))
    × (field_text 1502 g3.calls ≡ some user)
    × (field_text 1503 g3.calls ≡ some secret)
    × (g3.attempted_to_login ≡ true)
credentials_fill_dialog_example =
    credentials_fill_dialog host user secret b'x' rest (λ n. refl) buffer_size (omega arith)
      user-NonZero secret-NonZero 8 5 70 1502 1503 answers answers loaded refl (omega arith)

-- A dialog is opened and initialised.
abbrev after_init : Gina
after_init = (dialog_box-Transparent logon_dialog 70 8 ((answers, init_dialog) ∷ []) loaded).0.0

init_run : Reach loaded after_init
init_run = next (next here (opens logon_dialog 70)) (
    handles 8 answers (my_wlx_dialog_box_param logon_dialog 70 loaded).1 init_dialog after_init 1
      (dialog_box-Transparent logon_dialog 70 8 ((answers, init_dialog) ∷ []) loaded).0.1)

one_listener_example : running after_init.calls ≡ listed after_init.thread
one_listener_example = one_listener after_init init_run
