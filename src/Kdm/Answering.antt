-- ===== src/Kdm/Answering.antt =====
-- The token from the D-Bus signal to the text that KDM gets.
use ovirt_guest_agent.Prelude.{
  ◌≡◌, refl, Bool, true, false, Option, none, some, List, [], ◌∷◌, Bytes, codes,
}
use ovirt_guest_agent.Kdm.{
  Qt, Call, gplug_return_text, Greeter, Notice, on_notice, text_message, text_prompt,
  user_authenticated,
}

-- The last text given.
abbrev pub last_text : List Call → Option Bytes
last_text [] = none
last_text (gplug_return_text t ∷ cs) = some t
last_text (_ ∷ cs) = last_text cs

pub user_authenticated-token :
    (g : Greeter) (token : Bytes) → (user_authenticated g token).token ≡ token
unfolding user_authenticated
user_authenticated-token g token = refl

pub text_message-token :
    (g : Greeter) (message : Bytes) (error : Bool)
    → (text_message g message error).0.token ≡ g.token
unfolding text_message on_notice
text_message-token g message true = refl
text_message-token g message false = refl

pub on_notice-token : (g : Greeter) (n : Notice) → (on_notice n g).token ≡ g.token
unfolding on_notice
on_notice-token g n = refl

pub other_prompt-token :
    (qt : Qt) (g : Greeter) (prompt : Bytes)
    → qt.contains_any_case prompt (codes "Token?") ≡ false
    → (text_prompt qt g prompt).token ≡ g.token
unfolding text_prompt on_notice
other_prompt-token qt g prompt h = rw h refl

pub text_prompt-last_text :
    (qt : Qt) (g : Greeter)
    → qt.contains_any_case (codes "Token?") (codes "Token?") ≡ true
    → last_text (text_prompt qt g (codes "Token?")).calls ≡ some (qt.to_ascii g.token)
unfolding text_prompt
text_prompt-last_text qt g h = rw h refl
