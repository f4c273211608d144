-- ===== src/Login/Greeter.antt =====
-- What a log-in asks of a greeter's plugin: that the token of the D-Bus signal is its answer to the prompt
-- of the PAM module. Greeters shows it of the three plugins.
use ovirt_guest_agent.Prelude.{◌≡◌, refl, ◌∙◌, Option, some, List, [], ◌∷◌, Bytes}

-- The plugin's states and what happens to it between the signal and the prompt; the signal; the prompt
-- "Token?"; the last answer given; the answer that it holds ready. `Carries` is whether a token gets through
-- unchanged, `GoesOn` whether the log-in goes on.
pub record Greeter : Type 1 where
  pub State : Type 0
  pub Event : Type 0
  pub Carries : Bytes → Type 0
  pub GoesOn : State → Event → Type 0
  pub authenticated : State → Bytes → State
  pub happens : State → Event → State
  pub prompt : State → State
  pub answered : State → Option Bytes
  pub held : State → Option Bytes
  pub authenticated_held :
      (s : State) (token : Bytes) → Carries token → held (authenticated s token) ≡ some token
  pub happens_held : (s : State) (ev : Event) → GoesOn s ev → held (happens s ev) ≡ held s
  pub prompt_answered :
      (s : State) (token : Bytes) → held s ≡ some token → answered (prompt s) ≡ some token

module _ (g : Greeter) where
  open g use {
    State, Event, Carries, GoesOn, authenticated, happens, prompt, answered, held,
    authenticated_held, happens_held, prompt_answered,
  }

  abbrev pub run_all : State → List Event → State
  run_all s [] = s
  run_all s (ev ∷ evs) = run_all (happens s ev) evs

  -- Each event finds a state in which it lets the log-in go on.
  abbrev pub AllGoOn : State → List Event → Type 0
  AllGoOn s [] = Unit
  AllGoOn s (ev ∷ evs) = GoesOn s ev × AllGoOn (happens s ev) evs

  run_all-held : (s : State) (evs : List Event) → AllGoOn s evs → held (run_all s evs) ≡ held s
  run_all-held s [] on = refl
  run_all-held s (ev ∷ evs) on = run_all-held (happens s ev) evs on.1 ∙ happens_held s ev on.0

  -- From the signal to the answer, whatever happens meanwhile.
  abbrev pub asked : State → Bytes → List Event → State
  asked s token evs = prompt (run_all (authenticated s token) evs)

  pub asked-answered :
      (s : State) (token : Bytes) (evs : List Event)
      → Carries token
      → AllGoOn (authenticated s token) evs
      → answered (asked s token evs) ≡ some token
  asked-answered s token evs carries on =
      prompt_answered (run_all (authenticated s token) evs) token
        (run_all-held (authenticated s token) evs on ∙ authenticated_held s token carries)
