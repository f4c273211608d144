-- ===== src/GdmPlugin/Extension/Iface.antt =====
-- The table of functions through which GDM calls the extension: gdm_login_extension_iface_init().
use ovirt_guest_agent.Prelude.{ℕ, Bool, Option, Bytes}
use ovirt_guest_agent.GdmPlugin.Extension.{
  MessageType, Extension, get_icon, get_description, get_name, is_choosable, queue_message,
  ask_question, ask_secret, reset, set_ready, get_service_name, get_page, get_actions, focus,
  has_queued_messages,
}
use ovirt_guest_agent.GdmPlugin.Visible as Visible

-- GdmLoginExtensionIface, for objects of type `E`. What a function takes from the libraries follows the
-- object.
pub record LoginExtensionIface (E : Type 0) : Type 0 where
  pub get_icon : E → ℕ
  pub get_description : E → Bytes
  pub get_name : E → Bytes
  pub is_choosable : E → Bool
  pub is_visible : E → Option Bytes → (Bytes → Bool) → Bool
  pub queue_message : E → MessageType → Bytes → ℕ → E
  pub ask_question : E → Bytes → E
  pub ask_secret : E → Bytes → E
  pub reset : E → E
  pub set_ready : E → Option ℕ → Option ℕ → Bool → E
  pub get_service_name : E → Bytes
  pub get_page : E → Option ℕ
  pub get_actions : E → ℕ
  pub focus : E → E × Bool
  pub has_queued_messages : E → Bool

abbrev pub gdm_login_extension_iface_init : LoginExtensionIface Extension
gdm_login_extension_iface_init = record {
  get_icon = get_icon;
  get_description = get_description;
  get_name = get_name;
  is_choosable = is_choosable;
  is_visible = λ e. Visible.is_visible;
  queue_message = queue_message;
  ask_question = ask_question;
  ask_secret = ask_secret;
  reset = reset;
  set_ready = set_ready;
  get_service_name = get_service_name;
  get_page = get_page;
  get_actions = get_actions;
  focus = focus;
  has_queued_messages = has_queued_messages;
}
