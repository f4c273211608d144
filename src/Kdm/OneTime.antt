-- ===== src/Kdm/OneTime.antt =====
-- What KDM gets of the tokens that the D-Bus signals bring.
use ovirt_guest_agent.Prelude.{
  if_both, ◌≡◌, Bool, true, false, List, [], ◌∷◌, ◌++◌, Bytes, codes, Run, here, next, Sublist, nil,
  keep, Sublist_tail,
}
use ovirt_guest_agent.Kdm.{
  Qt, Call, gplug_return_text, Greeter, new, Notice, on_notice, text_message, text_prompt,
  user_authenticated,
}

-- What KDM and the bus do with the plugin.
pub data Step (qt : Qt) (g : Greeter) : Greeter → Type 0 where
  authenticated : (token : Bytes) → Step qt g (user_authenticated g token)
  prompts : (prompt : Bytes) → Step qt g (text_prompt qt g prompt)
  tells : (message : Bytes) (error : Bool) → Step qt g (text_message g message error).0
  notices : (n : Notice) → Step qt g (on_notice n g)

abbrev pub Reach : Qt → Greeter → Greeter → Type 0
Reach qt = Run (Step qt)

abbrev pub nonempty : Bytes → List Bytes
nonempty [] = []
nonempty (b ∷ bs) = (b ∷ bs) ∷ []

-- The texts given to KDM that are not empty, latest first.
abbrev pub given : List Call → List Bytes
given [] = []
given (gplug_return_text t ∷ cs) = nonempty t ++ given cs
given (_ ∷ cs) = given cs

abbrev pub signal : {qt : Qt} {x y : Greeter} → Step qt x y → List Bytes
signal {qt} (authenticated token) = nonempty (qt.to_ascii token)
signal (prompts prompt) = []
signal (tells message error) = []
signal (notices n) = []

-- The tokens that the signals brought, in ASCII and where that is not empty, latest first.
abbrev pub announced : {qt : Qt} {x y : Greeter} → Reach qt x y → List Bytes
announced here = []
announced (next r s) = signal s ++ announced r

abbrev uses : Qt → Greeter → List Bytes
uses qt g = nonempty (qt.to_ascii g.token) ++ given g.calls

Sublist_nonempty : (t : Bytes) {xs ys : List Bytes} → Sublist (nonempty t ++ xs) ys → Sublist xs ys
Sublist_nonempty [] s = s
Sublist_nonempty (b ∷ bs) s = Sublist_tail s

Sublist_both :
    (t : Bytes) {xs ys : List Bytes} → Sublist xs ys → Sublist (nonempty t ++ xs) (nonempty t ++ ys)
Sublist_both [] s = s
Sublist_both (b ∷ bs) s = keep s

module _ (qt : Qt) (empty : qt.to_ascii [] ≡ []) where
  step-uses :
      (x y : Greeter) (step : Step qt x y) (ys : List Bytes)
      → Sublist (uses qt x) ys
      → Sublist (uses qt y) (signal step ++ ys)
  unfolding user_authenticated text_prompt text_message on_notice
  step-uses x _ (authenticated token) ys s =
      Sublist_both (qt.to_ascii token) (Sublist_nonempty (qt.to_ascii x.token) s)
  step-uses x _ (prompts prompt) ys s =
      if_both (λ g. Sublist (uses qt g) ys) (qt.contains_any_case prompt (codes "Token?")) _ x
        (rw empty s) s
  step-uses x _ (tells message true) ys s = s
  step-uses x _ (tells message false) ys s = s
  step-uses x _ (notices n) ys s = s

  run-uses : (g : Greeter) (run : Reach qt new g) → Sublist (uses qt g) (announced run)
  run-uses _ here = rw empty nil
  run-uses g (next {mid} before step) =
      step-uses mid g step (announced before) (run-uses mid before)

  -- Empty texts left out on both sides: the texts that KDM gets are among the tokens that the signals
  -- brought, in ASCII, in their order and each used once at most. Of the empty texts that KDM gets, as where
  -- no token is left, nothing is said. The empty string in ASCII is empty.
  pub token_one_time :
      (g : Greeter) (run : Reach qt new g) → Sublist (given g.calls) (announced run)
  token_one_time g run = Sublist_nonempty (qt.to_ascii g.token) (run-uses g run)
