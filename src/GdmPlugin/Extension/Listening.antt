-- ===== src/GdmPlugin/Extension/Listening.antt =====
-- The pending selection, the connection to the agent's D-Bus service, and the end of the extension.
use ovirt_guest_agent.Prelude.{
  ℕ, zero, suc, ◌+◌, ◌≡◌, refl, ◌∙◌, Bool, true, false, not, Option, none, some, List, [], ◌∷◌,
  ◌++◌, arith, Bytes, replicate,
}
use ovirt_guest_agent.GdmPlugin.Extension.{
  Call, choose_user, Extension, on_user_authenticated, ovirtcred_server_start,
  ovirtcred_server_stop, drop_proxy, drop_connection, purge_message_queue, set_ready, finalize,
}
use ovirt_guest_agent.GdmPlugin.Extension.Timers.{Inv, pending}

-- How often the greeter was asked to select the service.
abbrev pub choices : List Call → ℕ
choices [] = 0
choices (choose_user s ∷ cs) = suc (choices cs)
choices (_ ∷ cs) = choices cs

-- The greeter becomes ready again and again; each entry is its answer to a request.
pub ready_all : Extension → Option ℕ → Option ℕ → List Bool → Extension
ready_all e bus proxy [] = e
ready_all e bus proxy (chosen ∷ cs) = ready_all (set_ready e bus proxy chosen) bus proxy cs

set_ready_selecting :
    (e : Extension) (bus proxy : Option ℕ) (chosen : Bool)
    → e.select_when_ready ≡ true
    → ((set_ready e bus proxy chosen).select_when_ready ≡ not chosen)
      × (choices (set_ready e bus proxy chosen).calls ≡ suc (choices e.calls))
unfolding set_ready ovirtcred_server_start
set_ready_selecting e bus proxy chosen s = (ground arith, ground arith)

set_ready_idle :
    (e : Extension) (bus proxy : Option ℕ) (chosen : Bool)
    → e.select_when_ready ≡ false
    → ((set_ready e bus proxy chosen).select_when_ready ≡ false)
      × (choices (set_ready e bus proxy chosen).calls ≡ choices e.calls)
unfolding set_ready ovirtcred_server_start
set_ready_idle e bus proxy chosen s = (ground arith, ground arith)

ready_all_idle :
    (e : Extension) (bus proxy : Option ℕ) (cs : List Bool)
    → e.select_when_ready ≡ false
    → choices (ready_all e bus proxy cs).calls ≡ choices e.calls
unfolding ready_all
ready_all_idle e bus proxy [] s = refl
ready_all_idle e bus proxy (c ∷ cs) s =
    let (s', n) = set_ready_idle e bus proxy c s in
    ready_all_idle (set_ready e bus proxy c) bus proxy cs s' ∙ n

ready_all_selecting :
    (e : Extension) (bus proxy : Option ℕ) (n : ℕ) (cs : List Bool)
    → e.select_when_ready ≡ true
    → choices (ready_all e bus proxy (replicate n false ++ true ∷ cs)).calls
      ≡ suc n + choices e.calls
unfolding ready_all
ready_all_selecting e bus proxy zero cs s =
    let (s', k) = set_ready_selecting e bus proxy true s in
    ready_all_idle (set_ready e bus proxy true) bus proxy cs s' ∙ omega (arith, k)
ready_all_selecting e bus proxy (suc n) cs s =
    let (s', k) = set_ready_selecting e bus proxy false s in
    omega (arith, k, ready_all_selecting (set_ready e bus proxy false) bus proxy n cs s')

-- After a signal on which the greeter refuses to select the service, it is asked again each time
-- that it is ready: after `n` more refusals and one consent `n + 1` times, and never again however
-- often it is ready then.
pub selection_retried :
    (e : Extension) (token : Bytes) (bus proxy : Option ℕ) (n : ℕ) (cs : List Bool)
    → let refused = on_user_authenticated e (some token) true false in
      choices (ready_all refused bus proxy (replicate n false ++ true ∷ cs)).calls
      ≡ suc n + choices refused.calls
unfolding on_user_authenticated
selection_retried e token bus proxy n cs = ready_all_selecting _ bus proxy n cs refl

stop_stopped :
    (e : Extension)
    → ((ovirtcred_server_stop e).cred_proxy ≡ none)
      × ((ovirtcred_server_stop e).connection ≡ none)
      × ((ovirtcred_server_stop e).token ≡ e.token)
      × ((ovirtcred_server_stop e).message_queue ≡ e.message_queue)
      × (pending (ovirtcred_server_stop e).calls ≡ pending e.calls)
unfolding ovirtcred_server_stop drop_proxy drop_connection
stop_stopped e = (ground arith, ground arith, ground arith, ground arith, ground arith)

pending-purge : (e : Extension) → Inv e → pending (purge_message_queue e).calls ≡ []
unfolding purge_message_queue
pending-purge e v = ground arith

-- Where the timers and the queue are in order, an extension that is finalized holds no token, no
-- message and no D-Bus object, and leaves no timer behind.
pub finalize_releases :
    (e : Extension)
    → Inv e
    → (pending (finalize e).calls ≡ [])
      × ((finalize e).token ≡ none)
      × ((finalize e).message_queue ≡ [])
      × ((finalize e).cred_proxy ≡ none)
      × ((finalize e).connection ≡ none)
unfolding finalize purge_message_queue
finalize_releases e v =
    let (p, c, t, q, k) = stop_stopped (record (purge_message_queue e) { token = none }) in
    (k ∙ pending-purge e v, t, q, p, c)
