-- ===== src/GdmPlugin/Extension/Messages.antt =====
-- The message queue: every message is shown, once and in the order of arrival.
use mathlib.Core.List.{append_assoc, map-append}
use ovirt_guest_agent.Prelude.{
  ℕ, ◌≤◌, ◌≡◌, refl, sym, ◌∙◌, ap, inl, inr, List, [], ◌∷◌, ◌++◌, map, arith, Bytes, ◌==◌,
  Bool-cases,
}
use ovirt_guest_agent.GdmPlugin.Extension.{
  MessageType, QueuedMessage, Call, show_text, Extension, needs_beep, dequeue, dequeue_message,
  queue_message, set_message, expire, duration,
}

-- The texts shown, first to last.
abbrev pub shown : List Call → List Bytes
shown [] = []
shown (show_text label text ∷ cs) = shown cs ++ text ∷ []
shown (_ ∷ cs) = shown cs

abbrev pub texts : List QueuedMessage → List Bytes
texts = map λ m. m.text

-- What was shown and, behind it, what waits to be shown.
abbrev pub history : Extension → List Bytes
history e = shown e.calls ++ texts e.message_queue

history-dequeue :
    (e : Extension) (q : List QueuedMessage) (id : ℕ)
    → e.message_queue ≡ q
    → history (dequeue e q id) ≡ history e
unfolding dequeue set_message
history-dequeue e [] id w = refl
history-dequeue e (m ∷ rest) id w = elim (Bool-cases (needs_beep m.type)) [
  | inl b ↦ rw (b, w) (append_assoc (shown e.calls) (m.text ∷ []) (texts rest))
  | inr b ↦ rw (b, w) (append_assoc (shown e.calls) (m.text ∷ []) (texts rest))
]

-- A new message goes behind all others, whether these were shown or wait.
pub history-queue_message :
    (e : Extension) (type : MessageType) (text : Bytes) (id : ℕ)
    → history (queue_message e type text id) ≡ history e ++ text ∷ []
unfolding queue_message dequeue_message
history-queue_message e type text id = elim (Bool-cases (e.message_timeout_id == 0)) [
  | inl idle ↦ rw idle (history-dequeue pushed pushed.message_queue id refl ∙ at_end)
  | inr busy ↦ rw busy at_end
]
  where
    pushed : Extension
    pushed = record e {
      message_queue = e.message_queue ++ record { text = text; type = type } ∷ [];
    }

    at_end : history pushed ≡ history e ++ text ∷ []
    at_end =
        ap (◌++◌ (shown e.calls)) (map-append _ e.message_queue _)
        ∙ sym (append_assoc (shown e.calls) (texts e.message_queue) (text ∷ []))

-- A timer that runs out neither loses a message nor changes the order of those that were shown and
-- wait.
pub history-expire : (e : Extension) (fired id : ℕ) → history (expire e fired id) ≡ history e
unfolding expire dequeue_message
history-expire e fired id = history-dequeue e e.message_queue id refl

-- Each message stays for 400 to 3000 ms.
pub duration_bounds : (text : Bytes) → (400 ≤ duration text) × (duration text ≤ 3000)
unfolding duration
duration_bounds text = ground arith
