-- ===== src/Gdm2Plugin/Extension/Tests.antt =====
-- A token that is asked for twice.
use ovirt_guest_agent.Prelude.{Sublist, here, next, refl, true, some, ◌++◌, arith, codes}
use ovirt_guest_agent.Gdm2Plugin.Extension.{
  Extension, on_user_authenticated, ask_question, set_message, init,
}
use ovirt_guest_agent.Gdm2Plugin.Extension.Timers.{Reach, authenticated, shows, asked}
use ovirt_guest_agent.Gdm2Plugin.Extension.OneTime.{tokens_of, given, announced, answers_once}

abbrev fresh : Extension
fresh = init 1 (some (2, 3)) 4

abbrev known : Extension
known = on_user_authenticated fresh (some (codes "42")) true true

abbrev twice : Extension
twice = ask_question (ask_question known (codes "Token?")) (codes "Token?")

abbrev shown : Extension
shown = set_message twice (codes "Wait") 5

abbrev run : Reach fresh shown
run =
    next
      (next
        (next (next here (authenticated (some (codes "42")) true true refl))
          (asked (codes "Token?") refl))
        (asked (codes "Token?") refl))
      (shows (codes "Wait") 5 (omega arith) refl)

answers_once_example : Sublist (tokens_of shown.token ++ given shown.calls) (announced run)
answers_once_example = answers_once 1 (some (2, 3)) 4 run
