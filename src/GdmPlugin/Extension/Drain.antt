-- ===== src/GdmPlugin/Extension/Drain.antt =====
-- The queue runs empty: the timers that run out one after the other show every message.
use mathlib.Core.List.{append-nil, append_assoc}
use ovirt_guest_agent.Prelude.{
  ℕ, suc, ◌<◌, ◌≡◌, ◌≢◌, ◌⊎◌, Option, refl, sym, ◌∙◌, ap, inl, inr, true, false, List, [], ◌∷◌,
  ◌++◌, map, All, arith, Bytes, length, Bool-cases, ◌==◌, ==_iff,
}
use ovirt_guest_agent.GdmPlugin.Extension.Messages.{shown, texts}
use ovirt_guest_agent.GdmPlugin.Extension.{
  QueuedMessage, Extension, expire, set_message, dequeue, dequeue_message, has_queued_messages,
  init,
}
use ovirt_guest_agent.GdmPlugin.Extension.Timers.{
  pending, timers_of, Inv, Reach, expired, Step-Inv, init-Reach-Inv,
}
use ovirt_guest_agent.GdmPlugin.Extension.Display.{
  Display, Event, time_over, handle, handle_all, see_all, display, anything_queued, Numbered, Timed,
  queue_refines_display,
}

-- Times that run out one after the other; each list entry is the number of the timer made next, if any.
abbrev times : List ℕ → List Event
times = map time_over

abbrev idle : List Bytes → Display
idle texts = record { busy = false; waiting = []; displayed = texts }

see_all-idle :
    (ids : List ℕ) (displayed : List Bytes) → see_all (idle displayed) (times ids) ≡ idle displayed
see_all-idle [] displayed = refl
see_all-idle (id ∷ ids) displayed = see_all-idle ids displayed

see_all-busy :
    (ids : List ℕ) (waiting displayed : List Bytes)
    → length waiting < length ids
    → see_all (record { busy = true; waiting = waiting; displayed = displayed }) (times ids)
      ≡ idle (displayed ++ waiting)
see_all-busy [] waiting displayed more = absurd (omega (arith, more))
see_all-busy (id ∷ ids) [] displayed more =
    see_all-idle ids displayed ∙ ap idle (sym (append-nil displayed))
see_all-busy (id ∷ ids) (t ∷ ts) displayed more =
    see_all-busy ids ts (displayed ++ t ∷ []) (omega (arith, more))
    ∙ ap idle (append_assoc displayed (t ∷ []) ts)

length-texts : (q : List QueuedMessage) → length (texts q) ≡ length q
length-texts [] = refl
length-texts (m ∷ q) = ap suc (length-texts q)

see_all-times :
    (e : Extension) (ids : List ℕ)
    → Timed e
    → length (texts e.message_queue) < length ids
    → see_all (display e) (times ids) ≡ idle (shown e.calls ++ texts e.message_queue)
see_all-times e ids timed more = elim (Bool-cases (e.message_timeout_id == 0)) [
  | inl none_pending ↦
      let nothing : e.message_queue ≡ [] = timed ((==_iff e.message_timeout_id 0).0 none_pending) in
      rw (none_pending, nothing)
        (see_all-idle ids (shown e.calls) ∙ ap idle (sym (append-nil (shown e.calls))))
  | inr pending ↦ rw pending (see_all-busy ids (texts e.message_queue) (shown e.calls) more)
]

-- The main loop calls the extension for the timer that is pending, if one is.
abbrev fire : List ℕ → Extension → ℕ → Extension
fire [] e id = e
fire (fired ∷ _) e id = expire e fired id

-- Again and again; each list entry is the number of the timer made then, if any.
pub drain : Extension → List ℕ → Extension
drain e [] = e
drain e (id ∷ ids) = drain (fire (pending e.calls) e id) ids

-- A timer that is made gets a positive number, not that of the timer which is running out.
abbrev pub Fresh : ℕ → List ℕ → Type 0
Fresh last [] = Unit
Fresh last (id ∷ ids) = (0 < id) × (id ≢ last) × Fresh id ids

Fresh-Numbered : (last : ℕ) (ids : List ℕ) → Fresh last ids → All Numbered (times ids)
Fresh-Numbered last [] fresh = tt
Fresh-Numbered last (id ∷ ids) (positive, other, fresh) =
    (λ z. omega (arith, positive, z), Fresh-Numbered id ids fresh)

dequeue-timeout_id :
    (e : Extension) (q : List QueuedMessage) (id : ℕ)
    → ((dequeue e q id).message_timeout_id ≡ 0) ⊎ ((dequeue e q id).message_timeout_id ≡ id)
unfolding dequeue set_message
dequeue-timeout_id e [] id = inl refl
dequeue-timeout_id e (m ∷ rest) id = inr (ground arith)

expire-timeout_id :
    (e : Extension) (fired id : ℕ)
    → ((expire e fired id).message_timeout_id ≡ 0) ⊎ ((expire e fired id).message_timeout_id ≡ id)
unfolding expire dequeue_message
expire-timeout_id e fired id = dequeue-timeout_id e e.message_queue id

-- Where the timers are in order, the timer that is pending is the one of the display's event.
drain-handle_all :
    (e : Extension) (last : ℕ) (ids : List ℕ)
    → Inv e
    → (e.message_timeout_id ≡ 0) ⊎ (e.message_timeout_id ≡ last)
    → Fresh last ids
    → drain e ids ≡ handle_all e (times ids)
unfolding drain
drain-handle_all e last [] v known fresh = refl
drain-handle_all e last (id ∷ ids) v known (positive, other, fresh) =
    elim (Bool-cases (e.message_timeout_id == 0)) [
      | inl unset ↦
          let none_pending : pending e.calls ≡ [] =
            v.one_timer ∙ timers_unset e.message_timeout_id unset in
          ap (λ ts. drain (fire ts e id) ids) none_pending
          ∙ drain-handle_all e id ids v (inl ((==_iff e.message_timeout_id 0).0 unset)) fresh
          ∙ ap (λ f. handle_all f (times ids)) (sym (handle-unset e id unset))
      | inr set ↦
          let fired = e.message_timeout_id in
          let one : pending e.calls ≡ fired ∷ [] = v.one_timer ∙ timers_set fired set in
          let fired_last : fired ≡ last = ground (arith, known, set) in
          let kept : Inv (expire e fired id) =
            Step-Inv (expired fired id one positive (λ z. other (z ∙ fired_last)) refl) v in
          ap (λ ts. drain (fire ts e id) ids) one
          ∙ drain-handle_all (expire e fired id) id ids kept (expire-timeout_id e fired id) fresh
          ∙ ap (λ f. handle_all f (times ids)) (sym (handle-set e id set))
    ]
  where
    timers_unset : (n : ℕ) → (n == 0) ≡ true → timers_of n ≡ []
    timers_unset n unset = rw unset refl

    timers_set : (n : ℕ) → (n == 0) ≡ false → timers_of n ≡ n ∷ []
    timers_set n set = rw set refl

    handle-unset :
        (f : Extension) (n : ℕ) → (f.message_timeout_id == 0) ≡ true → handle f (time_over n) ≡ f
    handle-unset f n unset = ground (arith, unset)

    handle-set :
        (f : Extension) (n : ℕ)
        → (f.message_timeout_id == 0) ≡ false
        → handle f (time_over n) ≡ expire f f.message_timeout_id n
    handle-set f n set = ground (arith, set)

-- In every state that a new extension comes to: when the main loop has come round more often than there are
-- messages that wait, calling the extension for the timer that is pending, if one is, all of the messages were
-- shown, in their order, behind those shown before, and nothing is queued any more. Each timer made has a
-- positive number, not that of the timer which is running out.
pub drain_empties :
    (icon : ℕ) (ui : Option (ℕ × ℕ)) (actions : ℕ) {e : Extension}
    → Reach (init icon ui actions) e
    → (ids : List ℕ) → Fresh e.message_timeout_id ids
    → length e.message_queue < length ids
    → (has_queued_messages (drain e ids) ≡ false)
      × (shown (drain e ids).calls ≡ shown e.calls ++ texts e.message_queue)
drain_empties icon ui actions {e} run ids fresh more =
    let v = init-Reach-Inv icon ui actions run in
    let runs = drain-handle_all e e.message_timeout_id ids v (inr refl) fresh in
    let (same, queued) =
      queue_refines_display e (times ids) (Fresh-Numbered e.message_timeout_id ids fresh)
        v.no_wait in
    let seen = see_all-times e ids v.no_wait (rw (length-texts e.message_queue) more) in
    (
      ap has_queued_messages runs ∙ queued ∙ ap anything_queued seen,
      ap (λ f. shown f.calls) runs ∙ ap (λ d. d.displayed) (same ∙ seen),
    )
