-- ===== src/GdmPlugin/Extension/Timers.antt =====
-- The timers of the main loop: what is pending follows from the calls made, and a run of the
-- extension is a chain of steps of its environment.
use ovirt_guest_agent.Prelude.{
  Run, Run-keeps, ℕ, ◌<◌, ◌≡◌, refl, ◌∙◌, ap, ◌≢◌, ◌↔◌, ◌⊎◌, inl, inr, Bool, false, Option, none,
  some, List, [], ◌∷◌, ◌++◌, arith, Bytes, ◌==◌, if◌then◌else◌, Bool-cases, ==_iff, ==_refl, ne→==,
}
use ovirt_guest_agent.GdmPlugin.Extension.{
  MessageType, QueuedMessage, Call, timeout_add, source_remove, source_destroyed, Extension,
  on_user_authenticated, ovirtcred_server_start, set_message, purge_message_queue, dequeue,
  dequeue_message, queue_message, expire, ask_question, ask_secret, reset, set_ready, focus,
  has_queued_messages, init,
}

abbrev remove : ℕ → List ℕ → List ℕ
remove id [] = []
remove id (t ∷ ts) = if t == id then remove id ts else t ∷ remove id ts

-- What the documentation of g_timeout_add() and g_source_remove() says of the calls made: a timer is
-- pending from its creation until it is removed or its callback returns FALSE.
abbrev pub pending : List Call → List ℕ
pending [] = []
pending (timeout_add ms id ∷ cs) = id ∷ pending cs
pending (source_remove id ∷ cs) = remove id (pending cs)
pending (source_destroyed id ∷ cs) = remove id (pending cs)
pending (_ ∷ cs) = pending cs

abbrev pub timers_of : ℕ → List ℕ
timers_of id = if id == 0 then [] else id ∷ []

-- At most one timer is pending, and `message_timeout_id` names it; with none pending no message
-- waits.
pub record Inv (e : Extension) : Type 0 where
  pub one_timer : pending e.calls ≡ timers_of e.message_timeout_id
  pub no_wait : e.message_timeout_id ≡ 0 → e.message_queue ≡ []

-- What the environment may do. A timer that is made gets a positive number, not that of the timer
-- which is running out, and only a pending timer runs out.
pub data Step (e : Extension) : Extension → Type 0 where
  authenticated :
      (token : Option Bytes) (saved chosen : Bool) {e' : Extension}
      → e' ≡ on_user_authenticated e token saved chosen
      → Step e e'
  queued :
      (type : MessageType) (text : Bytes) (id : ℕ) {e' : Extension}
      → 0 < id
      → e' ≡ queue_message e type text id
      → Step e e'
  expired :
      (fired id : ℕ) {e' : Extension}
      → pending e.calls ≡ fired ∷ []
      → 0 < id
      → id ≢ fired
      → e' ≡ expire e fired id
      → Step e e'
  asked : (message : Bytes) {e' : Extension} → e' ≡ ask_question e message → Step e e'
  asked_secret : (message : Bytes) {e' : Extension} → e' ≡ ask_secret e message → Step e e'
  resets : {e' : Extension} → e' ≡ reset e → Step e e'
  readied :
      (bus proxy : Option ℕ) (chosen : Bool) {e' : Extension}
      → e' ≡ set_ready e bus proxy chosen
      → Step e e'
  focused : {e' : Extension} → e' ≡ (focus e).0 → Step e e'

abbrev pub Reach : Extension → Extension → Type 0
Reach = Run Step

init-Inv : (icon : ℕ) (ui : Option (ℕ × ℕ)) (actions : ℕ) → Inv (init icon ui actions)
unfolding init reset purge_message_queue set_message
init-Inv icon none actions = record { one_timer = refl; no_wait = λ _. refl }
init-Inv icon (some (page, label)) actions = record { one_timer = refl; no_wait = λ _. refl }

authenticated-Inv :
    (e : Extension) (token : Option Bytes) (saved chosen : Bool)
    → Inv e
    → Inv (on_user_authenticated e token saved chosen)
unfolding on_user_authenticated
authenticated-Inv e none saved chosen v = v
authenticated-Inv e (some token) saved chosen v = ground arith

-- `rest` is pending beside the timer that a dequeued message gets.
dequeue-timers :
    (e : Extension) (q : List QueuedMessage) (id : ℕ)
    → 0 < id
    → (pending (dequeue e q id).calls
        ≡ timers_of (dequeue e q id).message_timeout_id ++ pending e.calls)
      × ((dequeue e q id).message_timeout_id ≡ 0 → q ≡ [])
      × (((dequeue e q id).message_timeout_id ≡ 0) ⊎ ((dequeue e q id).message_timeout_id ≡ id))
unfolding dequeue set_message
dequeue-timers e [] id p = (refl, λ _. refl, inl refl)
dequeue-timers e (m ∷ rest) id p = (ground arith, ground arith, ground arith)

dequeue-queue :
    (e : Extension) (q : List QueuedMessage) (id : ℕ)
    → e.message_queue ≡ q
    → q ≡ []
    → (dequeue e q id).message_queue ≡ []
unfolding dequeue
dequeue-queue e [] id w z = w
dequeue-queue e (m ∷ rest) id w z = ground arith

dequeue_one-Inv :
    (e : Extension) (m : QueuedMessage) (id : ℕ)
    → 0 < id
    → pending e.calls ≡ []
    → Inv (dequeue (record e { message_queue = m ∷ [] }) (m ∷ []) id)
unfolding dequeue set_message
dequeue_one-Inv e m id p none_pending = record {
  one_timer = ground arith;
  no_wait = λ z. ground arith;
}

queue_message-Inv :
    (e : Extension) (type : MessageType) (text : Bytes) (id : ℕ)
    → 0 < id
    → Inv e
    → Inv (queue_message e type text id)
unfolding queue_message dequeue_message
queue_message-Inv e type text id p v = elim (Bool-cases (e.message_timeout_id == 0)) [
  | inl idle ↦
      let unset : e.message_timeout_id ≡ 0 = (==_iff e.message_timeout_id 0).0 idle in
      rw (idle, v.no_wait unset)
        (dequeue_one-Inv e (record { text = text; type = type }) id p
          (v.one_timer ∙ ap timers_of unset))
  | inr busy ↦ rw busy (record { one_timer = v.one_timer; no_wait = λ z. absurd (ground arith) })
]

expire-Inv :
    (e : Extension) (fired id : ℕ)
    → pending e.calls ≡ fired ∷ []
    → 0 < id
    → id ≢ fired
    → Inv e
    → Inv (expire e fired id)
unfolding expire dequeue_message
expire-Inv e fired id f p n v =
    let t = dequeue-timers e e.message_queue id p in
    record {
      one_timer =
          rw (t.0, f)
            (elim t.2 [
              | inl z ↦ rw (z, ==_refl fired) refl
              | inr z ↦ rw (z, ne→== id 0 (omega arith)) (rw (ne→== id fired n, ==_refl fired) refl)
            ]);
      no_wait = λ z. dequeue-queue e e.message_queue id refl (t.1 z);
    }

reset-Inv : (e : Extension) → Inv e → Inv (reset e)
unfolding reset purge_message_queue set_message
reset-Inv e v = ground arith

set_ready-Inv :
    (e : Extension) (bus proxy : Option ℕ) (chosen : Bool)
    → Inv e
    → Inv (set_ready e bus proxy chosen)
unfolding set_ready ovirtcred_server_start
set_ready-Inv e bus proxy chosen v = ground arith

ask-Inv : (e : Extension) (message : Bytes) → Inv e → Inv (ask_question e message)
unfolding ask_question
ask-Inv e message v = ground arith

ask_secret-Inv : (e : Extension) (message : Bytes) → Inv e → Inv (ask_secret e message)
unfolding ask_secret
ask_secret-Inv e message v = ground arith

focus-Inv : (e : Extension) → Inv e → Inv (focus e).0
unfolding focus
focus-Inv e v = record { one_timer = v.one_timer; no_wait = v.no_wait }

-- Every step of the environment keeps the timers and the queue in order.
pub Step-Inv : {e e' : Extension} → Step e e' → Inv e → Inv e'
Step-Inv {e} (authenticated token saved chosen q) v =
    rw q (authenticated-Inv e token saved chosen v)
Step-Inv {e} (queued type text id p q) v = rw q (queue_message-Inv e type text id p v)
Step-Inv {e} (expired fired id f p n q) v = rw q (expire-Inv e fired id f p n v)
Step-Inv {e} (asked message q) v = rw q (ask-Inv e message v)
Step-Inv {e} (asked_secret message q) v = rw q (ask_secret-Inv e message v)
Step-Inv {e} (resets q) v = rw q (reset-Inv e v)
Step-Inv {e} (readied bus proxy chosen q) v = rw q (set_ready-Inv e bus proxy chosen v)
Step-Inv {e} (focused q) v = rw q (focus-Inv e v)

Reach-Inv : {e f : Extension} → Reach e f → Inv e → Inv f
Reach-Inv {e} {f} r v = Run-keeps Step Inv (λ x y s w. Step-Inv s w) e f r v

-- In every state that a new extension comes to, at most one timer is pending, and it is the one
-- that the extension remembers; while a message waits, the extension remembers one.
pub init-Reach-Inv :
    (icon : ℕ) (ui : Option (ℕ × ℕ)) (actions : ℕ) {f : Extension}
    → Reach (init icon ui actions) f
    → Inv f
init-Reach-Inv icon ui actions r = Reach-Inv r (init-Inv icon ui actions)

-- Where the timers and the queue are in order, `has_queued_messages` says no exactly where no timer
-- is pending and no message waits.
pub has_queued_messages_iff :
    (e : Extension)
    → Inv e
    → (has_queued_messages e ≡ false) ↔ ((pending e.calls ≡ []) × (e.message_queue ≡ []))
unfolding has_queued_messages
has_queued_messages_iff e v = (λ h. (ground arith, ground arith), λ h. ground arith)
