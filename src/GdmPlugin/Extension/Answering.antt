-- ===== src/GdmPlugin/Extension/Answering.antt =====
-- The token from the D-Bus signal to the answer that PAM gets.
use ovirt_guest_agent.Prelude.{
  ℕ, ◌≡◌, refl, ◌∙◌, Bool, true, false, Option, none, some, List, [], ◌∷◌, ◌++◌, arith, Bytes,
  codes, All, if_both, ◌==◌,
}
use ovirt_guest_agent.GdmPlugin.Extension.{
  Call, answer, QueuedMessage, Extension, on_user_authenticated, dequeue, dequeue_message,
  queue_message, set_message, expire, ask_question,
}
use ovirt_guest_agent.GdmPlugin.Extension.Display.{
  Event, arrives, time_over, clears, handle, handle_all,
}

-- The last answer given.
abbrev pub last_answer : List Call → Option Bytes
last_answer [] = none
last_answer (answer t ∷ cs) = t
last_answer (_ ∷ cs) = last_answer cs

-- The conversation is not reset.
abbrev pub GoesOn : Event → Type 0
GoesOn (arrives type text id) = Unit
GoesOn (time_over id) = Unit
GoesOn clears = ⊥

dequeue-token : (e : Extension) (q : List QueuedMessage) (id : ℕ) → (dequeue e q id).token ≡ e.token
unfolding dequeue set_message
dequeue-token e [] id = refl
dequeue-token e (m ∷ rest) id = ground arith

pub handle-token : (e : Extension) (ev : Event) → GoesOn ev → (handle e ev).token ≡ e.token
unfolding queue_message dequeue_message expire
handle-token e (arrives type text id) g =
    let pushed : Extension = record e {
      message_queue = e.message_queue ++ record { text = text; type = type } ∷ [];
    } in
    if_both (λ f. f.token ≡ e.token) (e.message_timeout_id == 0)
      (dequeue pushed pushed.message_queue id) pushed (dequeue-token pushed pushed.message_queue id)
      refl
handle-token e (time_over id) g =
    if_both (λ f. f.token ≡ e.token) (e.message_timeout_id == 0) e
      (expire e e.message_timeout_id id) refl (dequeue-token e e.message_queue id)
handle-token e clears g = absurd g

handle_all-token :
    (e : Extension) (evs : List Event) → All GoesOn evs → (handle_all e evs).token ≡ e.token
handle_all-token e [] g = refl
handle_all-token e (ev ∷ evs) g = handle_all-token (handle e ev) evs g.1 ∙ handle-token e ev g.0

-- The token that the signal brought is the answer to the prompt, whatever messages were shown meanwhile.
pub signal-answered :
    (e : Extension) (token : Bytes) (chosen : Bool) (evs : List Event)
    → All GoesOn evs
    → last_answer
        (ask_question
          (handle_all (on_user_authenticated e (some token) true chosen) evs)
          (codes "Token?")).calls
      ≡ some token
unfolding ask_question on_user_authenticated
signal-answered e token true evs g =
    handle_all-token (on_user_authenticated e (some token) true true) evs g
signal-answered e token false evs g =
    handle_all-token (on_user_authenticated e (some token) true false) evs g

-- The signal puts the token there, and the prompt gives it to GDM.
pub on_user_authenticated-token :
    (e : Extension) (token : Bytes) (chosen : Bool)
    → (on_user_authenticated e (some token) true chosen).token ≡ some token
unfolding on_user_authenticated
on_user_authenticated-token e token true = refl
on_user_authenticated-token e token false = refl

pub ask_question-last_answer :
    (e : Extension) → last_answer (ask_question e (codes "Token?")).calls ≡ e.token
unfolding ask_question
ask_question-last_answer e = refl
