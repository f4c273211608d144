-- ===== src/Login/Greeters.antt =====
-- The three plugins as greeters, each called through the functions that it registers.
use ovirt_guest_agent.Prelude.{ℕ, ◌≡◌, ◌∙◌, ap, Bool, true, false, some, Bytes, codes}
use ovirt_guest_agent.GdmPlugin.Extension as Gdm
use ovirt_guest_agent.GdmPlugin.Extension.Display as Display
use ovirt_guest_agent.GdmPlugin.Extension.Answering as GdmAnswering
use ovirt_guest_agent.GdmPlugin.Extension.Iface as GdmIface
use ovirt_guest_agent.Gdm2Plugin.Extension as Gdm2
use ovirt_guest_agent.Gdm2Plugin.Extension.Answering as Gdm2Answering
use ovirt_guest_agent.Gdm2Plugin.Extension.Iface as Gdm2Iface
use ovirt_guest_agent.Kdm as Kdm
use ovirt_guest_agent.Kdm.Answering as KdmAnswering
use ovirt_guest_agent.Login.Greeter.{Greeter}

-- `chosen` is what GDM answers when the extension selects its service.
abbrev pub gdm : Bool → Greeter
gdm chosen = record {
  State = Gdm.Extension;
  Event = Display.Event;
  Carries = λ token. Unit;
  GoesOn = λ e ev. GdmAnswering.GoesOn ev;
  authenticated = λ e token. Gdm.on_user_authenticated e (some token) true chosen;
  happens = Display.handle;
  prompt = λ e. GdmIface.gdm_login_extension_iface_init.ask_question e (codes "Token?");
  answered = λ e. GdmAnswering.last_answer e.calls;
  held = λ e. e.token;
  authenticated_held = λ e token c. GdmAnswering.on_user_authenticated-token e token chosen;
  happens_held = λ e ev on. GdmAnswering.handle-token e ev on;
  prompt_answered = λ e token h. GdmAnswering.ask_question-last_answer e ∙ h;
}

-- What happens to the extension for the older greeter: a message, the end of its time, a reset.
pub data Gdm2Event : Type 0 where
  shows : Bytes → ℕ → Gdm2Event
  expired : ℕ → Gdm2Event
  resets : Gdm2Event

abbrev pub gdm2_happens : Gdm2.Extension → Gdm2Event → Gdm2.Extension
gdm2_happens e (shows message id) = Gdm2Iface.gdm_conversation_iface_init.set_message e message id
gdm2_happens e (expired fired) = Gdm2.expire e fired
gdm2_happens e resets = Gdm2Iface.gdm_conversation_iface_init.reset e

abbrev pub Gdm2GoesOn : Gdm2Event → Type 0
Gdm2GoesOn (shows message id) = Unit
Gdm2GoesOn (expired fired) = Unit
Gdm2GoesOn resets = ⊥

pub gdm2_happens-token :
    (e : Gdm2.Extension) (ev : Gdm2Event) → Gdm2GoesOn ev → (gdm2_happens e ev).token ≡ e.token
gdm2_happens-token e (shows message id) on = Gdm2Answering.set_message-token e message id
gdm2_happens-token e (expired fired) on = Gdm2Answering.expire-token e fired
gdm2_happens-token e resets on = absurd on

abbrev pub gdm2 : Bool → Greeter
gdm2 chosen = record {
  State = Gdm2.Extension;
  Event = Gdm2Event;
  Carries = λ token. Unit;
  GoesOn = λ e ev. Gdm2GoesOn ev;
  authenticated = λ e token. Gdm2.on_user_authenticated e (some token) true chosen;
  happens = gdm2_happens;
  prompt = λ e. Gdm2Iface.gdm_conversation_iface_init.ask_question e (codes "Token?");
  answered = λ e. Gdm2Answering.last_answer e.calls;
  held = λ e. e.token;
  authenticated_held = λ e token c. Gdm2Answering.on_user_authenticated-token e token chosen;
  happens_held = λ e ev on. gdm2_happens-token e ev on;
  prompt_answered = Gdm2Answering.ask_question-last_answer;
}

-- What KDM does with its plugin: messages, prompts and notices.
pub data KdmEvent : Type 0 where
  tells : Bytes → Bool → KdmEvent
  prompts : Bytes → KdmEvent
  notices : Kdm.Notice → KdmEvent

abbrev pub kdm_happens : Kdm.Qt → Kdm.Greeter → KdmEvent → Kdm.Greeter
kdm_happens qt g (tells message error) = (Kdm.text_message g message error).0
kdm_happens qt g (prompts prompt) = Kdm.text_prompt qt g prompt
kdm_happens qt g (notices n) = Kdm.on_notice n g

-- No other prompt asks for the token.
abbrev pub KdmGoesOn : Kdm.Qt → KdmEvent → Type 0
KdmGoesOn qt (tells message error) = Unit
KdmGoesOn qt (prompts prompt) = qt.contains_any_case prompt (codes "Token?") ≡ false
KdmGoesOn qt (notices n) = Unit

pub kdm_happens-token :
    (qt : Kdm.Qt) (g : Kdm.Greeter) (ev : KdmEvent)
    → KdmGoesOn qt ev
    → (kdm_happens qt g ev).token ≡ g.token
kdm_happens-token qt g (tells message error) on = KdmAnswering.text_message-token g message error
kdm_happens-token qt g (prompts prompt) on = KdmAnswering.other_prompt-token qt g prompt on
kdm_happens-token qt g (notices n) on = KdmAnswering.on_notice-token g n

-- Qt finds a text in itself; a token gets through where its conversion to ASCII leaves it as it is.
abbrev pub kdm :
    (qt : Kdm.Qt) → qt.contains_any_case (codes "Token?") (codes "Token?") ≡ true → Greeter
kdm qt found = record {
  State = Kdm.Greeter;
  Event = KdmEvent;
  Carries = λ token. qt.to_ascii token ≡ token;
  GoesOn = λ g ev. KdmGoesOn qt ev;
  authenticated = Kdm.user_authenticated;
  happens = kdm_happens qt;
  prompt = λ g. Kdm.text_prompt qt g (codes "Token?");
  answered = λ g. KdmAnswering.last_text g.calls;
  held = λ g. some (qt.to_ascii g.token);
  authenticated_held = λ g token c.
      ap (λ t. some (qt.to_ascii t)) (KdmAnswering.user_authenticated-token g token) ∙ ap some c;
  happens_held = λ g ev on. ap (λ t. some (qt.to_ascii t)) (kdm_happens-token qt g ev on);
  prompt_answered = λ g token h. KdmAnswering.text_prompt-last_text qt g found ∙ h;
}
