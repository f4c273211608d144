-- ===== src/GdmPlugin/Extension/Token.antt =====
-- Where the token comes from and where it goes.
use ovirt_guest_agent.Prelude.{
  here, next, ℕ, ◌≡◌, refl, sym, ◌∙◌, ◌⊎◌, inl, inr, Bool, true, false, Option, none, some, List,
  [], ◌∷◌, ◌++◌, arith, Bytes, ◌==◌, Bool-cases, All,
}
use ovirt_guest_agent.GdmPlugin.Extension.{
  MessageType, QueuedMessage, Call, answer, Extension, on_user_authenticated,
  ovirtcred_server_start, set_message, purge_message_queue, dequeue, dequeue_message, queue_message,
  expire, ask_question, ask_secret, reset, set_ready, focus, init,
}
use ovirt_guest_agent.GdmPlugin.Extension.Timers.{
  Step, Reach, authenticated, queued, expired, asked, asked_secret, resets, readied, focused,
}

-- The answers given to the greeter, latest first.
abbrev pub answers : List Call → List (Option Bytes)
answers [] = []
answers (answer t ∷ cs) = t ∷ answers cs
answers (_ ∷ cs) = answers cs

-- The step is the D-Bus signal with this token.
abbrev pub Announces : {e e' : Extension} → Step e e' → Bytes → Type 0
Announces (authenticated token saved chosen q) t = token ≡ some t
Announces (queued type text id p q) t = ⊥
Announces (expired fired id f p n q) t = ⊥
Announces (asked message q) t = ⊥
Announces (asked_secret message q) t = ⊥
Announces (resets q) t = ⊥
Announces (readied bus proxy chosen q) t = ⊥
Announces (focused q) t = ⊥

abbrev pub Announced : {e f : Extension} → Reach e f → Bytes → Type 0
Announced here t = ⊥
Announced (next r s) t = Announced r t ⊎ Announces s t

-- The token held and all tokens answered have the property.
pub record Known (P : Bytes → Type 0) (e : Extension) : Type 0 where
  pub held : (t : Bytes) → e.token ≡ some t → P t
  pub given : All (λ a. (t : Bytes) → a ≡ some t → P t) (answers e.calls)

-- An operation that neither answers nor takes a token.
abbrev Quiet : Extension → Extension → Type 0
Quiet e e' = (e'.token ≡ e.token) × (answers e'.calls ≡ answers e.calls)

Quiet-Known : {P : Bytes → Type 0} {e e' : Extension} → Quiet e e' → Known P e → Known P e'
Quiet-Known {P} (t, a) k = record { held = λ u q. k.held u (sym t ∙ q); given = rw a k.given }

All-weaken :
    (P Q : Bytes → Type 0) (given : List (Option Bytes))
    → ((t : Bytes) → P t → Q t)
    → All (λ a. (t : Bytes) → a ≡ some t → P t) given
    → All (λ a. (t : Bytes) → a ≡ some t → Q t) given
All-weaken P Q [] f h = tt
All-weaken P Q (a ∷ rest) f h = (λ t q. f t (h.0 t q), All-weaken P Q rest f h.1)

Known-weaken :
    (P Q : Bytes → Type 0) {e : Extension} → ((t : Bytes) → P t → Q t) → Known P e → Known Q e
Known-weaken P Q {e} f k = record {
  held = λ t q. f t (k.held t q);
  given = All-weaken P Q (answers e.calls) f k.given;
}

dequeue-Quiet : (e : Extension) (q : List QueuedMessage) (id : ℕ) → Quiet e (dequeue e q id)
unfolding dequeue set_message
dequeue-Quiet e [] id = (refl, refl)
dequeue-Quiet e (m ∷ rest) id = (ground arith, ground arith)

queue_message-Quiet :
    (e : Extension) (type : MessageType) (text : Bytes) (id : ℕ)
    → Quiet e (queue_message e type text id)
unfolding queue_message dequeue_message
queue_message-Quiet e type text id =
    let pushed : Extension = record e {
      message_queue = e.message_queue ++ record { text = text; type = type } ∷ [];
    } in
    elim (Bool-cases (e.message_timeout_id == 0)) [
      | inl b ↦ rw b (dequeue-Quiet pushed pushed.message_queue id)
      | inr b ↦ rw b (refl, refl)
    ]

expire-Quiet : (e : Extension) (fired id : ℕ) → Quiet e (expire e fired id)
unfolding expire dequeue_message
expire-Quiet e fired id = dequeue-Quiet e e.message_queue id

set_ready-Quiet :
    (e : Extension) (bus proxy : Option ℕ) (chosen : Bool) → Quiet e (set_ready e bus proxy chosen)
unfolding set_ready ovirtcred_server_start
set_ready-Quiet e bus proxy chosen = (ground arith, ground arith)

focus-Quiet : (e : Extension) → Quiet e (focus e).0
unfolding focus
focus-Quiet e = (refl, refl)

reset-answers :
    (e : Extension) → ((reset e).token ≡ none) × (answers (reset e).calls ≡ answers e.calls)
unfolding reset purge_message_queue set_message
reset-answers e = (ground arith, ground arith)

-- A prompt is answered with the token held, or not at all.
ask-answers :
    (e : Extension) (message : Bytes)
    → ((ask_question e message).token ≡ e.token)
      × ((answers (ask_question e message).calls ≡ answers e.calls)
          ⊎ (answers (ask_question e message).calls ≡ e.token ∷ answers e.calls))
unfolding ask_question
ask-answers e message = (ground arith, ground arith)

ask_secret_eq : (e : Extension) (message : Bytes) → ask_secret e message ≡ ask_question e message
unfolding ask_secret ask_question
ask_secret_eq e message = refl

ask-Known :
    (P : Bytes → Type 0) (e : Extension) (message : Bytes)
    → Known P e
    → Known P (ask_question e message)
ask-Known P e message k =
    let (t, a) = ask-answers e message in
    record {
      held = λ u q. k.held u (sym t ∙ q);
      given = elim a [ inl same ↦ rw same k.given | inr more ↦ rw more (k.held, k.given) ];
    }

authenticated-answers :
    (e : Extension) (token : Option Bytes) (saved chosen : Bool)
    → (((on_user_authenticated e token saved chosen).token ≡ e.token)
        ⊎ ((on_user_authenticated e token saved chosen).token ≡ none)
        ⊎ ((on_user_authenticated e token saved chosen).token ≡ token))
      × (answers (on_user_authenticated e token saved chosen).calls ≡ answers e.calls)
unfolding on_user_authenticated
authenticated-answers e none saved chosen = (inl refl, refl)
authenticated-answers e (some token) false chosen = (inr (inl refl), refl)
authenticated-answers e (some token) true chosen = (inr (inr (ground arith)), ground arith)

Step-Known :
    {e e' : Extension} (P : Bytes → Type 0) (s : Step e e')
    → Known P e
    → Known (λ t. P t ⊎ Announces s t) e'
Step-Known {e} P (authenticated token saved chosen q) k = rw q (record {
  held = λ t u. elim (authenticated-answers e token saved chosen).0 [
    | inl same ↦ inl (k.held t (sym same ∙ u))
    | inr (inl gone) ↦ absurd cc
    | inr (inr new) ↦ inr (sym new ∙ u)
  ];
  given =
      rw ((authenticated-answers e token saved chosen).1)
        (All-weaken P _ (answers e.calls) (λ t. inl) k.given);
})
Step-Known {e} P (queued type text id p q) k =
    rw q (Quiet-Known (queue_message-Quiet e type text id) (Known-weaken P _ (λ t. inl) k))
Step-Known {e} P (expired fired id f p n q) k =
    rw q (Quiet-Known (expire-Quiet e fired id) (Known-weaken P _ (λ t. inl) k))
Step-Known {e} P (asked message q) k = rw q (ask-Known _ e message (Known-weaken P _ (λ t. inl) k))
Step-Known {e} P (asked_secret message q) k =
    rw (q, ask_secret_eq e message) (ask-Known _ e message (Known-weaken P _ (λ t. inl) k))
Step-Known {e} P (resets q) k = rw q (record {
  held = λ t u. absurd (cc (reset-answers e).0);
  given = rw ((reset-answers e).1) (All-weaken P _ (answers e.calls) (λ t. inl) k.given);
})
Step-Known {e} P (readied bus proxy chosen q) k =
    rw q (Quiet-Known (set_ready-Quiet e bus proxy chosen) (Known-weaken P _ (λ t. inl) k))
Step-Known {e} P (focused q) k = rw q (Quiet-Known (focus-Quiet e) (Known-weaken P _ (λ t. inl) k))

Reach-Known :
    {e f : Extension} (r : Reach e f)
    → e.token ≡ none
    → answers e.calls ≡ []
    → Known (Announced r) f
Reach-Known here t a = record { held = λ u q. cc; given = rw a tt }
Reach-Known (next r s) t a = Step-Known (Announced r) s (Reach-Known r t a)

init-blank :
    (icon : ℕ) (ui : Option (ℕ × ℕ)) (actions : ℕ)
    → ((init icon ui actions).token ≡ none) × (answers (init icon ui actions).calls ≡ [])
unfolding init reset purge_message_queue set_message
init-blank icon none actions = (refl, refl)
init-blank icon (some (page, label)) actions = (refl, refl)

-- In every run from a new extension, the token that it holds, and every token that it answered to
-- the greeter, came with a D-Bus signal of the run.
pub answers-Announced :
    (icon : ℕ) (ui : Option (ℕ × ℕ)) (actions : ℕ) {f : Extension}
    (r : Reach (init icon ui actions) f)
    → Known (Announced r) f
answers-Announced icon ui actions r =
    Reach-Known r (init-blank icon ui actions).0 (init-blank icon ui actions).1
