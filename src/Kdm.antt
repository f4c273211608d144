-- ===== src/Kdm.antt =====
-- The KDM greeter plugin, kdm-plugin/src/kgreet_ovirtcred.cpp. QString's search that ignores case and its
-- conversion to ASCII are arguments; of what the plugin asks of KDM the texts and the starts are recorded,
-- latest first.
pub mod OneTime
pub mod Answering
mod Tests
use ovirt_guest_agent.Prelude.{ℕ, Bool, true, false, List, [], ◌∷◌, Bytes, codes, if◌then◌else◌}

pub record Qt : Type 0 where
  pub contains_any_case : Bytes → Bytes → Bool
  pub to_ascii : Bytes → Bytes

pub data Call : Type 0 where
  gplug_return_text : Bytes → Call
  gplug_start : Call
  gplug_msg_box : Bytes → Call

-- KOVirtCredGreeter: the token is a string, empty at the start.
pub record Greeter : Type 0 where
  pub token : Bytes
  pub calls : List Call

abbrev pub new : Greeter
new = record { token = []; calls = [] }

abbrev call : Call → Greeter → Greeter
call c g = record g { calls = c ∷ g.calls }

-- The methods that do nothing.
pub data Notice : Type 0 where
  load_users preset_entity set_user set_enabled start suspend resume next_field abort : Notice
  succeeded failed revive clear binary_prompt get_entity : Notice

pub on_notice : Notice → Greeter → Greeter
on_notice n g = g

pub text_message : Greeter → Bytes → Bool → Greeter × Bool
text_message g message error =
    (if error then on_notice abort g else call (gplug_msg_box message) g, true)

pub text_prompt : Qt → Greeter → Bytes → Greeter
text_prompt qt g prompt =
    if qt.contains_any_case prompt (codes "Token?")
    then record (call (gplug_return_text (qt.to_ascii g.token)) g) { token = [] }
    else on_notice abort g

pub user_authenticated : Greeter → Bytes → Greeter
user_authenticated g token = call gplug_start (record g { token = token })
