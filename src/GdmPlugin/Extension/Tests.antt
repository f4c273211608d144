-- ===== src/GdmPlugin/Extension/Tests.antt =====
-- An extension that gets a token and two messages.
use ovirt_guest_agent.Prelude.{
  here, next, ◌≡◌, refl, true, false, some, [], ◌∷◌, ◌++◌, arith, Bytes, codes,
}
use ovirt_guest_agent.GdmPlugin.Extension.{
  info, problem, Extension, on_user_authenticated, queue_message, dequeue_message, dequeue,
  set_message, ask_question, reset, purge_message_queue, has_queued_messages, init,
}
use ovirt_guest_agent.GdmPlugin.Extension.Messages.{shown, texts}
use ovirt_guest_agent.GdmPlugin.Extension.Display.{
  Timed, anything_queued, time_over, arrives, clears, handle_all, see_all, display,
  queue_refines_display,
}
use ovirt_guest_agent.GdmPlugin.Extension.Timers.{
  Inv, Reach, authenticated, queued, asked, init-Reach-Inv,
}
use ovirt_guest_agent.GdmPlugin.Extension.Drain.{drain, drain_empties}
use ovirt_guest_agent.GdmPlugin.Extension.Token.{Known, Announced, answers-Announced}

abbrev fresh : Extension
fresh = init 1 (some (2, 3)) 4

abbrev token : Bytes
token = codes "42"

abbrev first : Bytes
first = codes "Wait"

abbrev second : Bytes
second = codes "Failed"

abbrev known : Extension
known = on_user_authenticated fresh (some token) true false

abbrev showing : Extension
showing = queue_message known info first 5

abbrev waiting : Extension
waiting = queue_message showing problem second 6

abbrev prompted : Extension
prompted = ask_question waiting (codes "Token?")

abbrev run : Reach fresh prompted
run =
    next
      (next
        (next (next here (authenticated (some token) true false refl))
          (queued info first 5 (omega arith) refl))
        (queued problem second 6 (omega arith) refl))
      (asked (codes "Token?") refl)

prompted-Inv : Inv prompted
prompted-Inv = init-Reach-Inv 1 (some (2, 3)) 4 run

init-Reach-Inv_example : Inv prompted
init-Reach-Inv_example = init-Reach-Inv 1 (some (2, 3)) 4 run

waiting-Timed : Timed waiting
unfolding queue_message dequeue_message dequeue set_message on_user_authenticated init reset
    purge_message_queue
waiting-Timed z = absurd (omega (arith, z))

-- The second message still waits.
drain_empties_example :
    (has_queued_messages (drain prompted (7 ∷ 8 ∷ [])) ≡ false)
    × (shown (drain prompted (7 ∷ 8 ∷ [])).calls
        ≡ shown prompted.calls ++ texts prompted.message_queue)
unfolding ask_question queue_message on_user_authenticated init reset set_message
    purge_message_queue dequeue_message dequeue
drain_empties_example =
    drain_empties 1 (some (2, 3)) 4 run (7 ∷ 8 ∷ [])
      (omega arith, λ z. omega (arith, z), (omega arith, λ z. omega (arith, z), tt)) (omega arith)

answers-Announced_example : Known (Announced run) prompted
answers-Announced_example = answers-Announced 1 (some (2, 3)) 4 run

queue_refines_display_example :
    (display (handle_all waiting (time_over 8 ∷ arrives problem first 9 ∷ clears ∷ []))
      ≡ see_all (display waiting) (time_over 8 ∷ arrives problem first 9 ∷ clears ∷ []))
    × (has_queued_messages
          (handle_all waiting (time_over 8 ∷ arrives problem first 9 ∷ clears ∷ []))
        ≡ anything_queued
            (see_all (display waiting) (time_over 8 ∷ arrives problem first 9 ∷ clears ∷ [])))
queue_refines_display_example =
    queue_refines_display waiting (time_over 8 ∷ arrives problem first 9 ∷ clears ∷ [])
      (ground arith) waiting-Timed
