-- ===== src/Gina/Negotiate/Entries.antt =====
-- What Winlogon finds behind the functions of the stub after a negotiation.
use ovirt_guest_agent.Prelude.{
  arith, All, ℕ, ◌<◌, ◌≡◌, refl, Bool, true, false, Option, none, some, List, [], ◌∷◌, ltb,
  if◌then◌else◌,
}
use mathlib.Core.Path.{subst}
use ovirt_guest_agent.Gina.Config.{Registry}
use ovirt_guest_agent.Gina.Dialogs.{version_1_2, version_1_3, version_1_4}
use ovirt_guest_agent.Gina.Negotiate.{
  Wlx, negotiate, Library, System, Stub, load_original_gina, assign, functions_1_0, functions_1_3,
  functions_1_4, my_initialize, concluded, settled, with_library, named, wlx_negotiate, through,
  is_screen_saver_notify, prepared, wlx_entry,
}
use ovirt_guest_agent.Gina.Negotiate.Pointers.{Loaded, AllLoaded, my_initialize-AllLoaded}

module _ (lib : Library) where
  -- Winlogon's call reaches the library's function with its arguments and returns its result.
  abbrev pub Forwards : Registry → Stub → Wlx → Type 0
  Forwards r s f =
      (args : ℕ)
      → (p : ℕ) × (s' : Stub) × (lib.exports f ≡ some p)
        × (wlx_entry lib r f args s ≡ some (s', lib.returns p args))
        × (s'.called ≡ (p, args) ∷ s.called)
        × (s'.gina ≡ prepared r f s.gina)

  Loaded-Forwards :
      (r : Registry) (s : Stub) (f : Wlx)
      → is_screen_saver_notify f ≡ false
      → Loaded lib s f
      → Forwards r s f
  unfolding wlx_entry through
  Loaded-Forwards r s f other (p, h, e) args = (
    p,
    record s { gina = prepared r f s.gina; called = (p, args) ∷ s.called },
    e,
    rw (other, h),
    refl,
    refl,
  )

  All-Forwards :
      (r : Registry) (s : Stub) (fs : List Wlx)
      → All (λ f. is_screen_saver_notify f ≡ false) fs
      → All (Loaded lib s) fs
      → All (Forwards r s) fs
  All-Forwards r s [] o a = tt
  All-Forwards r s (f ∷ fs) o a = (Loaded-Forwards r s f o.0 a.0, All-Forwards r s fs o.1 a.1)

-- WLX_VERSION_1_4, or Winlogon's version where that is older.
abbrev pub asked : ℕ → ℕ
asked winlogon = if ltb winlogon version_1_4 then winlogon else version_1_4

-- What a successful negotiation comes to.
abbrev pub Negotiated : System → ℕ → ℕ → Stub → Type 0
Negotiated sys winlogon version s =
    (lib : Library) × (sys.load_library (named (load_original_gina sys)) ≡ some lib)
    × (lib.settles (asked winlogon) ≡ some version)
    × (s.version ≡ version)
    × AllLoaded lib version s

-- What holds of the version and the pointers, where Winlogon gets a version.
abbrev OnSuccess : (ℕ → Stub → Type 0) → Stub × Option ℕ → Type 0
OnSuccess P (s, none) = Unit
OnSuccess P (s, some v) = P v s

concluded-OnSuccess :
    (P : ℕ → Stub → Type 0) (version : ℕ) (r : Stub × Bool)
    → (r.1 ≡ true → P version (record r.0 { version = version }))
    → OnSuccess P (concluded version r)
unfolding concluded
concluded-OnSuccess P version (s, true) k = k refl
concluded-OnSuccess P version (s, false) k = tt

settled-OnSuccess :
    (P : ℕ → Stub → Type 0) (lib : Library) (answer : Option ℕ) (s : Stub)
    → ((version : ℕ) (s' : Stub)
        → answer ≡ some version
        → AllLoaded lib version s'
        → P version (record s' { version = version }))
    → OnSuccess P (settled lib answer s)
unfolding settled
settled-OnSuccess P lib none s k = tt
settled-OnSuccess P lib (some version) s k =
    concluded-OnSuccess P version (my_initialize lib version s) (λ h.
      k version (my_initialize lib version s).0 refl (my_initialize-AllLoaded lib version s h))

with_library-OnSuccess :
    (sys : System) (winlogon : ℕ) (library : Option Library) (s : Stub)
    → sys.load_library (named (load_original_gina sys)) ≡ library
    → OnSuccess (Negotiated sys winlogon) (with_library library winlogon s)
unfolding with_library
with_library-OnSuccess sys winlogon none s e = tt
with_library-OnSuccess sys winlogon (some lib) s e = go (lib.exports negotiate)
  where
    go :
        (o : Option ℕ)
        → OnSuccess (Negotiated sys winlogon) (elim o [
          | none ↦ (assign lib negotiate s, none)
          | some _ ↦ settled lib (lib.settles (asked winlogon)) (assign lib negotiate s)
        ])
    go none = tt
    go (some p) =
        settled-OnSuccess (Negotiated sys winlogon) lib (lib.settles (asked winlogon))
          (assign lib negotiate s) (λ version s' h loaded. (lib, e, h, refl, loaded))

negotiate-Negotiated :
    (sys : System) (winlogon : ℕ) (s s' : Stub) (version : ℕ)
    → wlx_negotiate sys winlogon s ≡ (s', some version)
    → Negotiated sys winlogon version s'
unfolding wlx_negotiate
negotiate-Negotiated sys winlogon s s' version h =
    subst (OnSuccess (Negotiated sys winlogon)) h (
      with_library-OnSuccess sys winlogon (sys.load_library (named (load_original_gina sys))) s
        refl)

-- After a negotiation that gives Winlogon a version, that version is the one which the original GINA
-- settled on when asked for Winlogon's or 1.4, whichever is older, and every function that a Winlogon of
-- this version calls, but the two optional ones of 1.1, goes through to the original GINA with its
-- arguments and its result.
pub negotiated-Forwards :
    (sys : System) (winlogon : ℕ) (s s' : Stub) (version : ℕ) (r : Registry)
    → wlx_negotiate sys winlogon s ≡ (s', some version)
    → (lib : Library) × (sys.load_library (named (load_original_gina sys)) ≡ some lib)
      × (lib.settles (asked winlogon) ≡ some version)
      × (s'.version ≡ version)
      × All (Forwards lib r s') functions_1_0
      × (version_1_2 < version → All (Forwards lib r s') functions_1_3)
      × (version_1_3 < version → All (Forwards lib r s') functions_1_4)
negotiated-Forwards sys winlogon s s' version r h =
    let (lib, found, settled_on, kept, loaded) = negotiate-Negotiated sys winlogon s s' version h in
    (
      lib,
      found,
      settled_on,
      kept,
      All-Forwards lib r s' functions_1_0 (ground arith) loaded.0,
      λ above. All-Forwards lib r s' functions_1_3 (ground arith) (loaded.1 above),
      λ above. All-Forwards lib r s' functions_1_4 (ground arith) (loaded.2 above),
    )
