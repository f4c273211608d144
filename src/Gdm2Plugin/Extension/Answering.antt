-- ===== src/Gdm2Plugin/Extension/Answering.antt =====
-- The token from the D-Bus signal to the answer that PAM gets.
use ovirt_guest_agent.Prelude.{
  ℕ, ◌≡◌, refl, Bool, true, false, Option, none, some, List, [], ◌∷◌, Bytes, codes, arith,
}
use ovirt_guest_agent.Gdm2Plugin.Extension.{
  Call, answer, Extension, on_user_authenticated, on_message_expired, expire, set_message,
  answer_token, request_answer, ask_question,
}

-- The last answer given.
abbrev pub last_answer : List Call → Option Bytes
last_answer [] = none
last_answer (answer t ∷ cs) = t
last_answer (_ ∷ cs) = last_answer cs

pub on_user_authenticated-token :
    (e : Extension) (token : Bytes) (chosen : Bool)
    → (on_user_authenticated e (some token) true chosen).token ≡ some token
unfolding on_user_authenticated
on_user_authenticated-token e token true = refl
on_user_authenticated-token e token false = refl

pub set_message-token :
    (e : Extension) (message : Bytes) (id : ℕ) → (set_message e message id).token ≡ e.token
unfolding set_message
set_message-token e message id = ground arith

pub expire-token : (e : Extension) (fired : ℕ) → (expire e fired).token ≡ e.token
unfolding expire on_message_expired
expire-token e fired = refl

pub ask_question-last_answer :
    (e : Extension) (token : Bytes)
    → e.token ≡ some token
    → last_answer (ask_question e (codes "Token?")).calls ≡ some token
unfolding ask_question request_answer answer_token
ask_question-last_answer e token h = rw h refl
