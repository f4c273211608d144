-- ===== src/Gdm2Plugin/Extension/Iface.antt =====
-- The tables of functions through which the greeter calls the extension: gdm_task_iface_init() and
-- gdm_conversation_iface_init().
use ovirt_guest_agent.Prelude.{ℕ, Bool, Option, Bytes}
use ovirt_guest_agent.Gdm2Plugin.Extension.{
  Extension, get_icon, get_description, get_name, is_choosable, set_message, ask_question,
  ask_secret, reset, set_ready, get_service_name, get_page, get_actions, request_answer, focus,
}
use ovirt_guest_agent.Gdm2Plugin.Visible as Visible

-- GdmTaskIface, for objects of type `E`.
pub record TaskIface (E : Type 0) : Type 0 where
  pub get_icon : E → ℕ
  pub get_description : E → Bytes
  pub get_name : E → Bytes
  pub is_choosable : E → Bool
  pub is_visible : E → Option Bytes → (Bytes → Bool) → Bool

-- GdmConversationIface. What a function takes from the libraries follows the object.
pub record ConversationIface (E : Type 0) : Type 0 where
  pub set_message : E → Bytes → ℕ → E
  pub ask_question : E → Bytes → E
  pub ask_secret : E → Bytes → E
  pub reset : E → E
  pub set_ready : E → Option ℕ → Option ℕ → Bool → E
  pub get_service_name : E → Bytes
  pub get_page : E → Option ℕ
  pub get_actions : E → ℕ
  pub request_answer : E → E
  pub focus : E → E × Bool

abbrev pub gdm_task_iface_init : TaskIface Extension
gdm_task_iface_init = record {
  get_icon = get_icon;
  get_description = get_description;
  get_name = get_name;
  is_choosable = is_choosable;
  is_visible = λ e. Visible.is_visible;
}

abbrev pub gdm_conversation_iface_init : ConversationIface Extension
gdm_conversation_iface_init = record {
  set_message = set_message;
  ask_question = ask_question;
  ask_secret = ask_secret;
  reset = reset;
  set_ready = set_ready;
  get_service_name = get_service_name;
  get_page = get_page;
  get_actions = get_actions;
  request_answer = request_answer;
  focus = focus;
}
