-- ===== src/Lib.antt =====
-- The oVirt guest agent: its channel to the host, and the programs, most of them native, through which the
-- host logs a user into the guest without a password prompt. The agent (Python, ovirt-guest-agent/) gets user name and password
-- from the host, packs them into a message, and announces a token or opens a pipe; a part of the log-in
-- system of the guest fetches the message and hands the credentials over.
--
-- The parts, their sources and their modules:
--   PamOvirtCred.CredChannel    pam-ovirt-cred/cred_channel.c: connects to the agent's socket, sends the
--     token, reads the message, takes it apart (`parse_credentials_buffer`), closes the socket and
--     wipes the buffer (`acquire_user_credentials`). Parse, Overread and Acquire hold the proofs,
--     Parse also the message as the agent packs it (ovirt-guest-agent/OVirtAgentLogic.py).
--   PamOvirtCred.Authenticate   pam-ovirt-cred/pam_ovirt_cred.c: the PAM module that prompts for the
--     token, calls CredChannel and sets the items of PAM (`pam_sm_authenticate`); proofs in Access, Releases and
--     Accepts.
--   GdmPlugin.Extension         gdm-plugin/gdm-ovirtcred-extension.c: the greeter's extension that
--     listens to the agent on D-Bus, selects the PAM service and answers its prompt with the token.
--     Messages, Timers, Drain, Token, Listening, Display and Answering hold the proofs, Display also the
--     queue as the user sees it; GdmPlugin.Visible the test for visibility with its PID file.
--   Gdm2Plugin.Extension        gdm2-plugin/gdm-ovirtcred-extension.c: the same for another greeter;
--     Gdm2Plugin.Visible is its test for visibility, Gdm2Plugin.Plugin is gdm2-plugin/plugin.c, the one
--     extension of the process.
--   CredProv.Channel            windows-credprov/CredentialsChannel.cpp: the pipe and its parser.
--   CredProv.Credentials        windows-credprov/OVirtCredentials.cpp: the strings that are stored.
--   CredProv.Serialization      its GetSerialization() with the functions of windows-credprov/Helpers.cpp
--     that it calls, and the one that unpacks the block; Layout and Unpacking hold the proofs. LogonInit
--     is the helper that does the first part of GetSerialization() once more.
--   CredProv.Helpers            the functions of windows-credprov/Helpers.cpp that work on the heap: copies
--     of fields (Fields), the password that is encrypted if need be (Protect), the conversion of a 32-bit
--     block (Repack), the name with its domain (Names); Blocks, Protect.Once and Repack.Clean hold the proofs.
--   CredProv.Provider           windows-credprov/OVirtProvider.cpp: owns the two, tells LogonUI.
--   CredProv.Submission         the three together, from the pipe to the block submitted.
--   CredProv.Factory            windows-credprov/OVirtCredProv.cpp: the class factory that makes the
--     provider, and the functions of the DLL; Unloading holds the proofs.
--   Gina                        GinaSSO/, the same for Windows XP: a GINA that stands between Winlogon
--     and the original one. Config (the registry), Dialogs (the dialog procedures and the hook that puts
--     them in place) and Listener (the thread that waits for the agent) are GinaSSO/GinaDlg.cpp,
--     Sessions puts dialogs and thread together; Negotiate is GinaSSO/GinaSSO.cpp. Forwarding, Threads,
--     Fields, Delivery, Overrun, Pointers and Entries hold the proofs.
--   Kdm                         kdm-plugin/src/kgreet_ovirtcred.cpp: the greeter of KDM, OneTime and
--     Answering hold the proofs.
--   GuestAgent.CredServer       ovirt-guest-agent/CredServer.py: the agent's channel, which asks a peer for
--     its user and its token before it sends the credentials (`run`), and the server that opens it and
--     announces the token (`user_authenticated`). Guarded and Serving hold the proofs.
--   GuestAgent.VirtIoChannel    ovirt-guest-agent/VirtIoChannel.py: messages between agent and host, a line of
--     JSON each (`write`, `readline`, `parse_line`), and the filter for characters that XML does not allow.
--     Keys, Filter, Lines and RoundTrip hold the proofs.
--   GuestAgent.AgentLogic       ovirt-guest-agent/OVirtAgentLogic.py: the reports to the host, second by
--     second (`tick`), up to the stop or the exception that ends the loop, and the credentials as they are
--     logged (`safe_creds`). Smooth, Schedule, Versions and Masking hold the proofs.
--   Login                       all in one log-in: Greeter is what it asks of a greeter's plugin, Greeters
--     the three plugins as such, by the tables of functions that they register (the modules Iface), Served
--     the agent, the plugin and the PAM module together.
--   Prelude                     tests on numbers, lists, C strings: what the modules share.
--   The modules Examples and Tests hold concrete inputs.
--
-- State and operations. A struct is a record, and each function of the source is a function here with
-- the source's name, in lower case with underscores; long bodies are cut at their calls into helpers
-- that stand before them. What a library or the system answers is an argument. What the code asks of a
-- library is recorded in the list `calls` of the state, latest first. Pointers into a buffer are
-- offsets, and a read outside of the buffer is the outcome `fault`; a loop on an interrupted call that
-- is never answered is the outcome `blocked`. Conversions between `int`, DWORD and `size_t` wrap at 32
-- and 64 bits, as on a 64-bit system; in GinaSSO `size_t` has 32 bits. Environments are step relations
-- (Step) with their runs (Reach). Blocks of a heap are numbers, and one given back twice marks the heap as
-- corrupt. Loops that wait for a peer are recursion on the list of its answers. Only the decimal printing of a number takes fuel: one round for each
-- unit of the number and one more, and a number never has more digits.
--
-- Not modelled: the type registration of GObject and COM, user interface and log output; the vendored
-- headers of windows-credprov and what is switched off by #if 0; the D-Bus proxy generated for kdm-plugin;
-- the commands of the host to the agent and what the agent reads from the system for its reports.
pub mod Prelude
pub mod PamOvirtCred
pub mod GdmPlugin
pub mod CredProv
pub mod Gdm2Plugin
pub mod Gina
pub mod Kdm
pub mod GuestAgent
pub mod Login
