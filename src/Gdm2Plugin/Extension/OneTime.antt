-- ===== src/Gdm2Plugin/Extension/OneTime.antt =====
-- A token is used once: the tokens that the greeter got are among those that the D-Bus signals
-- brought.
use ovirt_guest_agent.Prelude.{
  Sublist, nil, skip, keep, Sublist_tail, here, next, ℕ, ◌≡◌, refl, Bool, true, false, Option, none,
  some, List, [], ◌∷◌, ◌++◌, arith, Bytes,
}
use ovirt_guest_agent.Gdm2Plugin.Extension.{
  Call, answer, Extension, on_user_authenticated, ovirtcred_server_start, on_message_expired,
  expire, set_message, request_answer, answer_token, ask_question, ask_secret, reset, set_ready,
  focus, init,
}
use ovirt_guest_agent.Gdm2Plugin.Extension.Timers.{
  Step, Reach, authenticated, shows, expired, asked, asked_secret, requested, resets, readied,
  focused,
}

abbrev pub tokens_of : Option Bytes → List Bytes
tokens_of none = []
tokens_of (some t) = t ∷ []

-- The tokens among the answers to the greeter, latest first.
abbrev pub given : List Call → List Bytes
given [] = []
given (answer t ∷ cs) = tokens_of t ++ given cs
given (_ ∷ cs) = given cs

abbrev pub signal : {e e' : Extension} → Step e e' → List Bytes
signal (authenticated token saved chosen q) = tokens_of token
signal (shows message id p q) = []
signal (expired fired p q) = []
signal (asked message q) = []
signal (asked_secret message q) = []
signal (requested q) = []
signal (resets q) = []
signal (readied bus proxy chosen q) = []
signal (focused q) = []

-- The tokens that the signals of a run brought, latest first.
abbrev pub announced : {e f : Extension} → Reach e f → List Bytes
announced here = []
announced (next r s) = signal s ++ announced r

abbrev pub uses : Extension → List Bytes
uses e = tokens_of e.token ++ given e.calls

Sublist_tokens :
    (o : Option Bytes) {xs ys : List Bytes} → Sublist (tokens_of o ++ xs) ys → Sublist xs ys
Sublist_tokens none s = s
Sublist_tokens (some t) s = Sublist_tail s

authenticated-uses :
    (e : Extension) (token : Option Bytes) (saved chosen : Bool) {ys : List Bytes}
    → Sublist (uses e) ys
    → Sublist (uses (on_user_authenticated e token saved chosen)) (tokens_of token ++ ys)
unfolding on_user_authenticated
authenticated-uses e none saved chosen s = s
authenticated-uses e (some token) false chosen s = skip (Sublist_tokens e.token s)
authenticated-uses e (some token) true true s = keep (Sublist_tokens e.token s)
authenticated-uses e (some token) true false s = keep (Sublist_tokens e.token s)

set_message-uses :
    (e : Extension) (message : Bytes) (id : ℕ) → uses (set_message e message id) ≡ uses e
unfolding set_message
set_message-uses e message id = ground arith

expire-uses : (e : Extension) (fired : ℕ) → uses (expire e fired) ≡ uses e
unfolding expire on_message_expired
expire-uses e fired = refl

answer_token-uses :
    (o : Option Bytes) (e : Extension) → e.token ≡ o → uses (answer_token o e) ≡ uses e
unfolding answer_token
answer_token-uses none e q = rw q refl
answer_token-uses (some t) e q = rw q refl

request_answer-uses : (e : Extension) → uses (request_answer e) ≡ uses e
unfolding request_answer
request_answer-uses e = answer_token-uses e.token e refl

ask_question-uses : (e : Extension) (message : Bytes) → uses (ask_question e message) ≡ uses e
unfolding ask_question
ask_question-uses e message = ground (arith, request_answer-uses e)

ask_secret-uses : (e : Extension) (message : Bytes) → uses (ask_secret e message) ≡ uses e
unfolding ask_secret
ask_secret-uses e message = ground (arith, request_answer-uses e)

reset-uses : (e : Extension) {ys : List Bytes} → Sublist (uses e) ys → Sublist (uses (reset e)) ys
unfolding reset
reset-uses e s = Sublist_tokens e.token s

set_ready-uses :
    (e : Extension) (bus proxy : Option ℕ) (chosen : Bool)
    → uses (set_ready e bus proxy chosen) ≡ uses e
unfolding set_ready ovirtcred_server_start
set_ready-uses e bus proxy chosen = ground arith

focus-uses : (e : Extension) → uses (focus e).0 ≡ uses e
unfolding focus
focus-uses e = refl

Step-uses :
    {e e' : Extension} (s : Step e e') {ys : List Bytes}
    → Sublist (uses e) ys
    → Sublist (uses e') (signal s ++ ys)
Step-uses {e} (authenticated token saved chosen q) u =
    rw q (authenticated-uses e token saved chosen u)
Step-uses {e} (shows message id p q) u = rw (q, set_message-uses e message id) u
Step-uses {e} (expired fired p q) u = rw (q, expire-uses e fired) u
Step-uses {e} (asked message q) u = rw (q, ask_question-uses e message) u
Step-uses {e} (asked_secret message q) u = rw (q, ask_secret-uses e message) u
Step-uses {e} (requested q) u = rw (q, request_answer-uses e) u
Step-uses {e} (resets q) u = rw q (reset-uses e u)
Step-uses {e} (readied bus proxy chosen q) u = rw (q, set_ready-uses e bus proxy chosen) u
Step-uses {e} (focused q) u = rw (q, focus-uses e) u

Reach-uses : {e f : Extension} (r : Reach e f) → uses e ≡ [] → Sublist (uses f) (announced r)
Reach-uses here b = rw b nil
Reach-uses (next r s) b = Step-uses s (Reach-uses r b)

init-uses : (icon : ℕ) (ui : Option (ℕ × ℕ)) (actions : ℕ) → uses (init icon ui actions) ≡ []
unfolding init reset
init-uses icon none actions = refl
init-uses icon (some (page, label)) actions = refl

-- In every run from a new extension, the token held and the tokens answered so far, latest first,
-- come from the tokens of the D-Bus signals, latest first, by leaving some out: no token is
-- answered more often than it was announced, nor out of turn.
pub answers_once :
    (icon : ℕ) (ui : Option (ℕ × ℕ)) (actions : ℕ) {f : Extension}
    (r : Reach (init icon ui actions) f)
    → Sublist (tokens_of f.token ++ given f.calls) (announced r)
answers_once icon ui actions r = Reach-uses r (init-uses icon ui actions)
