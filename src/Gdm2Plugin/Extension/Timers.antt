-- ===== src/Gdm2Plugin/Extension/Timers.antt =====
-- One message, one timer.
use ovirt_guest_agent.Prelude.{
  Run, Run-keeps, ℕ, ◌<◌, ◌≡◌, refl, Bool, Option, none, some, List, [], ◌∷◌, arith, Bytes, ◌==◌,
  if◌then◌else◌,
}
use ovirt_guest_agent.Gdm2Plugin.Extension.{
  Call, timeout_add_seconds, source_remove, source_destroyed, Extension, on_user_authenticated,
  ovirtcred_server_start, ovirtcred_server_stop, drop_proxy, drop_connection, on_message_expired,
  expire, set_message, request_answer, answer_token, ask_question, ask_secret, reset, set_ready,
  focus, finalize, init,
}

abbrev remove : ℕ → List ℕ → List ℕ
remove id [] = []
remove id (t ∷ ts) = if t == id then remove id ts else t ∷ remove id ts

-- The timers that the calls leave pending, by the documentation of GLib.
abbrev pub pending : List Call → List ℕ
pending [] = []
pending (timeout_add_seconds s id ∷ cs) = id ∷ pending cs
pending (source_remove id ∷ cs) = remove id (pending cs)
pending (source_destroyed id ∷ cs) = remove id (pending cs)
pending (_ ∷ cs) = pending cs

abbrev pub timers_of : ℕ → List ℕ
timers_of id = if id == 0 then [] else id ∷ []

abbrev pub Inv : Extension → Type 0
Inv e = pending e.calls ≡ timers_of e.message_timeout_id

-- What the environment may do; a timer that is made gets a positive number, and only a pending timer
-- runs out.
pub data Step (e : Extension) : Extension → Type 0 where
  authenticated :
      (token : Option Bytes) (saved chosen : Bool) {e' : Extension}
      → e' ≡ on_user_authenticated e token saved chosen
      → Step e e'
  shows :
      (message : Bytes) (id : ℕ) {e' : Extension}
      → 0 < id
      → e' ≡ set_message e message id
      → Step e e'
  expired :
      (fired : ℕ) {e' : Extension} → pending e.calls ≡ fired ∷ [] → e' ≡ expire e fired → Step e e'
  asked : (message : Bytes) {e' : Extension} → e' ≡ ask_question e message → Step e e'
  asked_secret : (message : Bytes) {e' : Extension} → e' ≡ ask_secret e message → Step e e'
  requested : {e' : Extension} → e' ≡ request_answer e → Step e e'
  resets : {e' : Extension} → e' ≡ reset e → Step e e'
  readied :
      (bus proxy : Option ℕ) (chosen : Bool) {e' : Extension}
      → e' ≡ set_ready e bus proxy chosen
      → Step e e'
  focused : {e' : Extension} → e' ≡ (focus e).0 → Step e e'

abbrev pub Reach : Extension → Extension → Type 0
Reach = Run Step

authenticated-Inv :
    (e : Extension) (token : Option Bytes) (saved chosen : Bool)
    → Inv e
    → Inv (on_user_authenticated e token saved chosen)
unfolding on_user_authenticated
authenticated-Inv e none saved chosen v = v
authenticated-Inv e (some token) saved chosen v = ground arith

set_message-Inv :
    (e : Extension) (message : Bytes) (id : ℕ) → 0 < id → Inv e → Inv (set_message e message id)
unfolding set_message
set_message-Inv e message id p v = ground arith

expire-Inv : (e : Extension) (fired : ℕ) → pending e.calls ≡ fired ∷ [] → Inv (expire e fired)
unfolding expire on_message_expired
expire-Inv e fired p = rw p (ground arith)

request_answer-Inv : (e : Extension) → Inv e → Inv (request_answer e)
unfolding request_answer answer_token
request_answer-Inv e v = ground arith

ask_question-Inv : (e : Extension) (message : Bytes) → Inv e → Inv (ask_question e message)
unfolding ask_question request_answer answer_token
ask_question-Inv e message v = ground arith

ask_secret-Inv : (e : Extension) (message : Bytes) → Inv e → Inv (ask_secret e message)
unfolding ask_secret request_answer answer_token
ask_secret-Inv e message v = ground arith

reset-Inv : (e : Extension) → Inv e → Inv (reset e)
unfolding reset
reset-Inv e v = v

set_ready-Inv :
    (e : Extension) (bus proxy : Option ℕ) (chosen : Bool)
    → Inv e
    → Inv (set_ready e bus proxy chosen)
unfolding set_ready ovirtcred_server_start
set_ready-Inv e bus proxy chosen v = ground arith

focus-Inv : (e : Extension) → Inv e → Inv (focus e).0
unfolding focus
focus-Inv e v = v

Step-Inv : {e e' : Extension} → Step e e' → Inv e → Inv e'
Step-Inv {e} (authenticated token saved chosen q) v =
    rw q (authenticated-Inv e token saved chosen v)
Step-Inv {e} (shows message id p q) v = rw q (set_message-Inv e message id p v)
Step-Inv {e} (expired fired p q) v = rw q (expire-Inv e fired p)
Step-Inv {e} (asked message q) v = rw q (ask_question-Inv e message v)
Step-Inv {e} (asked_secret message q) v = rw q (ask_secret-Inv e message v)
Step-Inv {e} (requested q) v = rw q (request_answer-Inv e v)
Step-Inv {e} (resets q) v = rw q (reset-Inv e v)
Step-Inv {e} (readied bus proxy chosen q) v = rw q (set_ready-Inv e bus proxy chosen v)
Step-Inv {e} (focused q) v = rw q (focus-Inv e v)

Reach-Inv : {e f : Extension} → Reach e f → Inv e → Inv f
Reach-Inv {e} {f} r v = Run-keeps Step Inv (λ x y s w. Step-Inv s w) e f r v

init-Inv : (icon : ℕ) (ui : Option (ℕ × ℕ)) (actions : ℕ) → Inv (init icon ui actions)
unfolding init reset
init-Inv icon none actions = refl
init-Inv icon (some (page, label)) actions = refl

stop_stopped :
    (e : Extension)
    → ((ovirtcred_server_stop e).message_timeout_id ≡ e.message_timeout_id)
      × (pending (ovirtcred_server_stop e).calls ≡ pending e.calls)
unfolding ovirtcred_server_stop drop_proxy drop_connection
stop_stopped e = (ground arith, ground arith)

remove-timers_of : (id : ℕ) → remove id (timers_of id) ≡ []
remove-timers_of id = ground arith

-- In every state that a new extension comes to, the timers pending are none or the one that it
-- remembers, and after `finalize` none is.
pub finalize_stops_timer :
    (icon : ℕ) (ui : Option (ℕ × ℕ)) (actions : ℕ) {f : Extension}
    → Reach (init icon ui actions) f
    → (pending f.calls ≡ timers_of f.message_timeout_id) × (pending (finalize f).calls ≡ [])
unfolding finalize
finalize_stops_timer icon ui actions {f} r =
    let v = Reach-Inv r (init-Inv icon ui actions) in
    let (i, p) = stop_stopped (record f { token = none }) in
    (v, rw (i, p, v) (remove-timers_of f.message_timeout_id))
