-- ===== src/Gina/Negotiate/Pointers.antt =====
-- The pointers that the stub takes from the original GINA.
use ovirt_guest_agent.Prelude.{
  if_both, All, ℕ, ◌<◌, ◌≡◌, refl, ap, sym, ◌∙◌, Bool, true, false, Option, none, some, List, [],
  ◌∷◌, arith, ltb, lt→ltb, if◌then◌else◌, ◌≢◌,
}
use mathlib.Core.Logic.{ite}
use ovirt_guest_agent.Gina.Dialogs.{version_1_0, version_1_2, version_1_3}
use ovirt_guest_agent.Gina.Negotiate.{
  Wlx, start_application, screen_saver_notify, Library, Stub, assign, load_required, checked,
  Wlx-discrete, functions_1_0, functions_1_3, functions_1_4, and_then, load_1_1, load_1_3, load_1_4,
  my_initialize,
}

-- The pointer is the library's function.
abbrev pub Loaded : Library → Stub → Wlx → Type 0
Loaded lib s f = (p : ℕ) × (s.pointers f ≡ some p) × (lib.exports f ≡ some p)

module _ (lib : Library) where
  assign-pointer :
      (g : Wlx) (s : Stub) (f : Wlx) (o : Option ℕ)
      → (f ≡ g → lib.exports g ≡ o)
      → (f ≢ g → s.pointers f ≡ o)
      → (assign lib g s).pointers f ≡ o
  assign-pointer g s f o same differs = go (Wlx-discrete f g)
    where
      go : (d : Dec (f ≡ g)) → ite d (lib.exports g) (s.pointers f) ≡ o
      go (yes e) = same e
      go (no n) = differs n

  assign-keeps : (g : Wlx) (s : Stub) (f : Wlx) → Loaded lib s f → Loaded lib (assign lib g s) f
  assign-keeps g s f (p, h, e) =
      (p, assign-pointer g s f (some p) (λ same. ap lib.exports (sym same) ∙ e) (λ n. h), e)

  checked-keeps :
      (P : Stub → Type 0) (o : Option ℕ) (s : Stub) (rest : Stub × Bool)
      → P s
      → P rest.0
      → P (checked o s rest).0
  checked-keeps P none s rest h r = h
  checked-keeps P (some p) s rest h r = r

  load_required-keeps :
      (fs : List Wlx) (s : Stub) (f : Wlx)
      → Loaded lib s f
      → Loaded lib (load_required lib fs s).0 f
  unfolding load_required
  load_required-keeps [] s f h = h
  load_required-keeps (g ∷ fs) s f h =
      let kept : Loaded lib (assign lib g s) f = assign-keeps g s f h in
      checked-keeps (λ s'. Loaded lib s' f) (lib.exports g) (assign lib g s)
        (load_required lib fs (assign lib g s)) kept
        (load_required-keeps fs (assign lib g s) f kept)

  checked-Loaded :
      (g : Wlx) (fs : List Wlx) (s : Stub) (o : Option ℕ) (rest : Stub × Bool)
      → lib.exports g ≡ o
      → (Loaded lib (assign lib g s) g → Loaded lib rest.0 g)
      → (rest.1 ≡ true → All (Loaded lib rest.0) fs)
      → (checked o (assign lib g s) rest).1 ≡ true
      → All (Loaded lib (checked o (assign lib g s) rest).0) (g ∷ fs)
  checked-Loaded g fs s none rest e first others h = ground arith
  checked-Loaded g fs s (some p) rest e first others h =
      (first (p, assign-pointer g s g (some p) (λ same. e) (λ n. absurd (n refl)), e), others h)

  -- Where the run succeeds every pointer of it is the library's.
  load_required-Loaded :
      (fs : List Wlx) (s : Stub)
      → (load_required lib fs s).1 ≡ true
      → All (Loaded lib (load_required lib fs s).0) fs
  unfolding load_required
  load_required-Loaded [] s h = tt
  load_required-Loaded (g ∷ fs) s h =
      checked-Loaded g fs s (lib.exports g) (load_required lib fs (assign lib g s)) refl
        (load_required-keeps fs (assign lib g s) g) (load_required-Loaded fs (assign lib g s)) h

  All-keeps :
      (x y : Stub) (fs : List Wlx)
      → ((f : Wlx) → Loaded lib x f → Loaded lib y f)
      → All (Loaded lib x) fs
      → All (Loaded lib y) fs
  All-keeps x y [] k a = tt
  All-keeps x y (f ∷ fs) k a = (k f a.0, All-keeps x y fs k a.1)

  and_then-true :
      (P : Stub × Bool → Type 0) (r : Stub × Bool) (f : Stub → Stub × Bool)
      → (and_then r f).1 ≡ true
      → (r.1 ≡ true → (f r.0).1 ≡ true → P (f r.0))
      → P (and_then r f)
  and_then-true P (s, true) f h k = k refl h
  and_then-true P (s, false) f h k = ground arith

  -- The pointers that a version asks for.
  abbrev pub AllLoaded : ℕ → Stub → Type 0
  AllLoaded version s =
      All (Loaded lib s) functions_1_0
      × (version_1_2 < version → All (Loaded lib s) functions_1_3)
      × (version_1_3 < version → All (Loaded lib s) functions_1_4)

  load_1_1-keeps :
      (version : ℕ) (s : Stub) (f : Wlx) → Loaded lib s f → Loaded lib (load_1_1 lib version s).0 f
  unfolding load_1_1
  load_1_1-keeps version s f h =
      if_both (λ s'. Loaded lib s' f) (ltb version_1_0 version) _ _
        (assign-keeps screen_saver_notify (assign lib start_application s) f
          (assign-keeps start_application s f h))
        h

  load_if-keeps :
      (b : Bool) (fs : List Wlx) (s : Stub) (f : Wlx)
      → Loaded lib s f
      → Loaded lib (if b then load_required lib fs s else (s, true)).0 f
  load_if-keeps true fs s f h = load_required-keeps fs s f h
  load_if-keeps false fs s f h = h

  load_if-Loaded :
      (b : Bool) (fs : List Wlx) (s : Stub)
      → b ≡ true
      → (if b then load_required lib fs s else (s, true)).1 ≡ true
      → All (Loaded lib (if b then load_required lib fs s else (s, true)).0) fs
  load_if-Loaded true fs s e h = load_required-Loaded fs s h
  load_if-Loaded false fs s e h = ground arith

  pub my_initialize-AllLoaded :
      (version : ℕ) (s : Stub)
      → (my_initialize lib version s).1 ≡ true
      → AllLoaded version (my_initialize lib version s).0
  unfolding my_initialize load_1_3 load_1_4
  my_initialize-AllLoaded version s h =
      and_then-true (λ r. AllLoaded version r.0) second (load_1_4 lib version) h
        (λ ok2 ok3.
          let (base, third) = with_1_3 ok2 in
          (
            All-keeps second.0 (load_1_4 lib version second.0).0 functions_1_0
                (keeps functions_1_4 version_1_3 second.0) base,
            λ above.
                All-keeps second.0 (load_1_4 lib version second.0).0 functions_1_3
                  (keeps functions_1_4 version_1_3 second.0) (third above),
            λ above.
                load_if-Loaded (ltb version_1_3 version) functions_1_4 second.0
                  (lt→ltb version_1_3 version above) ok3,
          ))
    where
      base : Stub × Bool
      base = load_required lib functions_1_0 s

      first : Stub × Bool
      first = and_then base (load_1_1 lib version)

      second : Stub × Bool
      second = and_then first (load_1_3 lib version)

      keeps :
          (fs : List Wlx) (low : ℕ) (s : Stub) (f : Wlx)
          → Loaded lib s f
          → Loaded lib (if ltb low version then load_required lib fs s else (s, true)).0 f
      keeps fs low s f = load_if-keeps (ltb low version) fs s f

      with_1_0 : first.1 ≡ true → All (Loaded lib first.0) functions_1_0
      with_1_0 h =
          and_then-true (λ r. All (Loaded lib r.0) functions_1_0) base (load_1_1 lib version) h
            (λ ok0 ok1.
              All-keeps base.0 (load_1_1 lib version base.0).0 functions_1_0
                (load_1_1-keeps version base.0) (load_required-Loaded functions_1_0 s ok0))

      with_1_3 :
          second.1 ≡ true
          → All (Loaded lib second.0) functions_1_0
            × (version_1_2 < version → All (Loaded lib second.0) functions_1_3)
      with_1_3 h =
          and_then-true
            (λ r.
              All (Loaded lib r.0) functions_1_0
              × (version_1_2 < version → All (Loaded lib r.0) functions_1_3))
            first (load_1_3 lib version) h
            (λ ok1 ok2. (
              All-keeps first.0 (load_1_3 lib version first.0).0 functions_1_0
                  (keeps functions_1_3 version_1_2 first.0) (with_1_0 ok1),
              λ above.
                  load_if-Loaded (ltb version_1_2 version) functions_1_3 first.0
                    (lt→ltb version_1_2 version above) ok2,
            ))
