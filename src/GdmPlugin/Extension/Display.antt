-- ===== src/GdmPlugin/Extension/Display.antt =====
-- The message queue as the user sees it: a display that shows one text at a time.
use mathlib.Core.List.{map-append}
use ovirt_guest_agent.Prelude.{
  ℕ, ◌≡◌, refl, ◌∙◌, ap, ◌≢◌, inl, inr, Bool, true, false, not, ◌||◌, List, [], ◌∷◌, ◌++◌, arith,
  Bytes, ◌==◌, if◌then◌else◌, Bool-cases, ne→==, ==_iff, All,
}
use ovirt_guest_agent.GdmPlugin.Extension.{
  MessageType, QueuedMessage, Extension, needs_beep, dequeue, dequeue_message, queue_message,
  set_message, expire, reset, purge_message_queue, has_queued_messages, is_empty,
}
use ovirt_guest_agent.GdmPlugin.Extension.Messages.{shown, texts}

-- Whether a text has its time, the texts behind it, and all that were shown, first to last.
pub record Display : Type 0 where
  pub busy : Bool
  pub waiting : List Bytes
  pub displayed : List Bytes

-- What happens to it: a text arrives, a time is over, all is cleared. In the extension a text has a
-- type, and a number is that of the timer made where one is.
pub data Event : Type 0 where
  arrives : MessageType → Bytes → ℕ → Event
  time_over : ℕ → Event
  clears : Event

abbrev next_text : Display → List Bytes → Display
next_text d [] = record d { busy = false }
next_text d (t ∷ ts) = record d { waiting = ts; displayed = d.displayed ++ t ∷ [] }

abbrev pub see : Display → Event → Display
see d (arrives type text id) =
    if d.busy
    then record d { waiting = d.waiting ++ text ∷ [] }
    else record d { busy = true; displayed = d.displayed ++ text ∷ [] }
see d (time_over id) = if d.busy then next_text d d.waiting else d
see d clears = record { busy = false; waiting = []; displayed = d.displayed ++ [] ∷ [] }

-- The extension's handlers: a timer runs out where there is one.
abbrev pub handle : Extension → Event → Extension
handle e (arrives type text id) = queue_message e type text id
handle e (time_over id) = if e.message_timeout_id == 0 then e else expire e e.message_timeout_id id
handle e clears = reset e

abbrev pub display : Extension → Display
display e = record {
  busy = not (e.message_timeout_id == 0);
  waiting = texts e.message_queue;
  displayed = shown e.calls;
}

-- g_timeout_add() gives numbers other than 0.
abbrev pub Numbered : Event → Type 0
Numbered (arrives type text id) = id ≢ 0
Numbered (time_over id) = id ≢ 0
Numbered clears = Unit

-- Messages wait behind a timer only.
abbrev pub Timed : Extension → Type 0
Timed e = e.message_timeout_id ≡ 0 → e.message_queue ≡ []

-- One event: what is displayed afterwards is as the display says, and messages wait behind a timer.
abbrev Refines : Extension → Extension → Event → Type 0
Refines e e' ev = (display e' ≡ see (display e) ev) × Timed e'

-- The next message is shown, and its timer runs.
dequeue_next :
    (e : Extension) (m : QueuedMessage) (rest : List QueuedMessage) (id : ℕ)
    → id ≢ 0
    → (display (dequeue e (m ∷ rest) id)
        ≡ record { busy = true; waiting = texts rest; displayed = shown e.calls ++ m.text ∷ [] })
      × Timed (dequeue e (m ∷ rest) id)
unfolding dequeue set_message
dequeue_next e m rest id n = elim (Bool-cases (needs_beep m.type)) [
  | inl b ↦ rw (b, ne→== id 0 n) (refl, λ z. absurd (n z))
  | inr b ↦ rw (b, ne→== id 0 n) (refl, λ z. absurd (n z))
]

arrives-Refines :
    (e : Extension) (type : MessageType) (text : Bytes) (id : ℕ)
    → id ≢ 0
    → Timed e
    → Refines e (handle e (arrives type text id)) (arrives type text id)
unfolding queue_message dequeue_message
arrives-Refines e type text id n w = elim (Bool-cases (e.message_timeout_id == 0)) [
  | inl idle ↦
      let none_waits : e.message_queue ≡ [] = w ((==_iff e.message_timeout_id 0).0 idle) in
      rw (idle, none_waits)
        (dequeue_next (record e { message_queue = record { text = text; type = type } ∷ [] })
          (record { text = text; type = type }) [] id n)
  | inr busy ↦
      rw
        (
          busy,
          busy,
          map-append (λ m. m.text) e.message_queue (record { text = text; type = type } ∷ []),
        )
        (refl, λ z. ground (arith, busy, z))
]

time_over-dequeue :
    (e : Extension) (q : List QueuedMessage) (id : ℕ)
    → id ≢ 0
    → e.message_queue ≡ q
    → (display (dequeue e q id) ≡ next_text (record (display e) { busy = true }) (texts q))
      × Timed (dequeue e q id)
unfolding dequeue
time_over-dequeue e [] id n w = (refl, λ z. w)
time_over-dequeue e (m ∷ rest) id n w = dequeue_next e m rest id n

time_over-Refines :
    (e : Extension) (id : ℕ) → id ≢ 0 → Timed e → Refines e (handle e (time_over id)) (time_over id)
unfolding expire dequeue_message
time_over-Refines e id n w = elim (Bool-cases (e.message_timeout_id == 0)) [
  | inl idle ↦ rw (idle, idle) (refl, w)
  | inr busy ↦ rw busy (time_over-dequeue e e.message_queue id n refl)
]

clears-Refines : (e : Extension) → Refines e (handle e clears) clears
unfolding reset purge_message_queue set_message
clears-Refines e = ground arith

handle-Refines : (e : Extension) (ev : Event) → Numbered ev → Timed e → Refines e (handle e ev) ev
handle-Refines e (arrives type text id) n w = arrives-Refines e type text id n w
handle-Refines e (time_over id) n w = time_over-Refines e id n w
handle-Refines e clears n w = clears-Refines e

abbrev pub handle_all : Extension → List Event → Extension
handle_all e [] = e
handle_all e (ev ∷ evs) = handle_all (handle e ev) evs

abbrev pub see_all : Display → List Event → Display
see_all d [] = d
see_all d (ev ∷ evs) = see_all (see d ev) evs

run-display :
    (e : Extension) (evs : List Event)
    → All Numbered evs
    → Timed e
    → display (handle_all e evs) ≡ see_all (display e) evs
run-display e [] n w = refl
run-display e (ev ∷ evs) n w =
    let (seen, timed) = handle-Refines e ev n.0 w in
    run-display (handle e ev) evs n.1 timed ∙ ap (λ d. see_all d evs) seen

abbrev some_wait : List Bytes → Bool
some_wait [] = false
some_wait (_ ∷ _) = true

-- Whether there is something to wait for.
abbrev pub anything_queued : Display → Bool
anything_queued d = d.busy || some_wait d.waiting

has_queued_messages-anything_queued :
    (e : Extension) → has_queued_messages e ≡ anything_queued (display e)
unfolding has_queued_messages
has_queued_messages-anything_queued e = go e.message_queue
  where
    go :
        (q : List QueuedMessage)
        → (if not (e.message_timeout_id == 0)
            then true
            else if not (is_empty q)
            then true
            else false)
          ≡ (not (e.message_timeout_id == 0) || some_wait (texts q))
    go [] = ground arith
    go (m ∷ q) = ground arith

-- Whatever messages arrive, times run out and resets come, from a state in which messages wait only
-- behind a timer: what is shown, what waits and whether a text has its time are as the display says; and
-- the extension reports queued messages where a text has its time or others wait.
pub queue_refines_display :
    (e : Extension) (evs : List Event)
    → All Numbered evs
    → Timed e
    → (display (handle_all e evs) ≡ see_all (display e) evs)
      × (has_queued_messages (handle_all e evs) ≡ anything_queued (see_all (display e) evs))
queue_refines_display e evs n w =
    let same = run-display e evs n w in
    (same, has_queued_messages-anything_queued (handle_all e evs) ∙ ap anything_queued same)
