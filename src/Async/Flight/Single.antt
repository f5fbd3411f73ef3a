-- ===== src/Async/Flight/Single.antt =====
-- A flag that disables the control which takes it.
use webhook_listener.Prelude.{
  Option, none, some, if◌then◌else◌, ◌≡◌, ◌∙◌, Bool, true, false, List, [], ◌∷◌, ◌⊎◌, inl, inr, All,
}
use webhook_listener.Async.{Act}
use mathlib.Core.WellFounded.{Acc}
use webhook_listener.Async.Stage.{
  Stage, after, residue, begin, begin_all, Resumed, resumed, Component, Step, click, rerun, resume,
  Reach, here, next,
}
use webhook_listener.Async.Flight.{
  Quiet, Takes, OneHolds, IsSingle, after-Quiet, after-Takes, after-Holds, IsSingle-append-Quiet,
  Replace-Quiet, Replace-OneHolds, Resumes-Quiet, Resumes-Holds, Quiet-append-IsSingle,
}
use webhook_listener.Async.Flight.Rest.{Follows, Follows-Acc, Inevitably, now, wait}
use webhook_listener.View.{Offers}

module _ {S : Type 0} (busy : S → Bool) where
  -- At most one handler of the stage holds the flag, and it is up exactly while one does.
  abbrev pub StageIsSingle : Stage S → Type 0
  StageIsSingle t = IsSingle busy (busy t.ui) t.running

  pub begin-IsSingle :
      (a : Act S Unit) (s : S) (rest : List (Act S Unit))
      → Quiet busy a
      → StageIsSingle (record { ui = s; running = rest })
      → StageIsSingle (begin a s rest)
  begin-IsSingle a s rest q h =
      let r = after-Quiet busy a s q in Quiet-append-IsSingle busy _ (residue a) rest r.1 (rw r.0 h)

  pub Resumed-IsSingle :
      (t : Stage S) (b : Act S Unit) (ys : List (Act S Unit))
      → Resumed t.running ys b
      → StageIsSingle t
      → StageIsSingle (record { ui = after b t.ui; running = ys })
  Resumed-IsSingle t b ys (resumed r p) (inl h) =
      let q = Replace-Quiet busy p h.1 in
      let s = after-Quiet busy b t.ui (Resumes-Quiet busy r q.0) in inl (s.0 ∙ h.0, q.1 s.1)
  Resumed-IsSingle t b ys (resumed r p) (inr h) = elim (Replace-OneHolds busy p h.1) [
    | inl q ↦ q.1 _ (after-Holds busy b t.ui (Resumes-Holds busy r q.0) h.0)
    | inr q ↦ let s = after-Quiet busy b t.ui (Resumes-Quiet busy r q.0) in inr (s.0 ∙ h.0, q.1 s.1)
  ]

  OneHolds-nil : (as' : List (Act S Unit)) → as' ≡ [] → OneHolds busy as' → ⊥
  OneHolds-nil [] e h = elim h [ ]
  OneHolds-nil (a ∷ as') e h = cc

  released :
      (s : S) (as' : List (Act S Unit))
      → Acc Follows as'
      → IsSingle busy (busy s) as'
      → Inevitably (λ u. busy u.ui ≡ false) (record { ui = s; running = as' })
  released s as' w (inl h) = now _ h.0
  released s as' (Acc.intro _ smaller) (inr h) =
      let t : Stage S = record { ui = s; running = as' } in
      wait t (λ e. OneHolds-nil as' e h.1)
        (λ b ys r. released (after b s) ys (smaller ys (b, r)) (Resumed-IsSingle t b ys r (inr h)))

  -- A flag that only one handler holds comes down again, whatever the handlers wait for.
  pub IsSingle-released : (t : Stage S) → StageIsSingle t → Inevitably (λ u. busy u.ui ≡ false) t
  IsSingle-released t h = released t.ui t.running (Follows-Acc t.running) h

  free_running :
      (flag : Bool) (as' : List (Act S Unit))
      → flag ≡ false
      → IsSingle busy flag as'
      → All (Quiet busy) as'
  free_running flag as' e (inl h) = h.1
  free_running flag as' e (inr h) = cc

  -- A handler that leaves the flag alone, or one that starts while it is down and takes it.
  abbrev pub Allowed : S → Act S Unit → Type 0
  Allowed s a = Quiet busy a ⊎ ((busy s ≡ false) × Takes busy a)

  pub Allowed-if :
      (s : S) (b : Bool) (m n : Act S Unit)
      → Allowed s m
      → Allowed s n
      → Allowed s (if b then m else n)
  Allowed-if s true m n h k = h
  Allowed-if s false m n h k = k

  pub Allowed-option :
      {A : Type 0} (s : S) (o : Option A) (m : Act S Unit) (f : A → Act S Unit)
      → Allowed s m
      → ((a : A) → Allowed s (f a))
      → Allowed s (elim o [ none ↦ m | some a ↦ f a ])
  Allowed-option s none m f h k = h
  Allowed-option s (some a) m f h k = k a

  pub Allowed-IsSingle :
      (t : Stage S) (a : Act S Unit)
      → Allowed t.ui a
      → StageIsSingle t
      → StageIsSingle (begin a t.ui t.running)
  Allowed-IsSingle t a (inl q) h = begin-IsSingle a t.ui t.running q h
  Allowed-IsSingle t a (inr k) h =
      IsSingle-append-Quiet busy _ _ t.running (after-Takes busy a t.ui k.1)
        (free_running (busy t.ui) t.running k.0 h)

  pub begin_all-IsSingle :
      (as' : List (Act S Unit)) (t : Stage S)
      → All (Quiet busy) as'
      → StageIsSingle t
      → StageIsSingle (begin_all as' t)
  begin_all-IsSingle [] t q h = h
  begin_all-IsSingle (a ∷ as') t q h =
      begin_all-IsSingle as' _ q.1 (begin-IsSingle a t.ui t.running q.0 h)

module _ {S : Type 0} (busy : S → Bool) where
  -- What a control does: one that is guarded is offered only while the flag is down, and its handler
  -- puts the flag up first and takes it down when it neither sends nor waits any more. The handlers
  -- of the others leave the flag alone.
  abbrev pub Duty : Bool → S → Act S Unit → Type 0
  Duty true s a = (busy s ≡ false) × Takes busy a
  Duty false s a = Quiet busy a

  Duty-Allowed : (b : Bool) (s : S) (a : Act S Unit) → Duty b s a → Allowed busy s a
  Duty-Allowed true s a h = inr h
  Duty-Allowed false s a h = inl h

module _ {S M : Type 0} (busy : S → Bool) (c : Component S M) (guards : S → M → Bool) where
  -- The flag is down at the start, the effects leave it alone, and the controls do their duty.
  pub record Guarded : Type 0 where
    pub down : busy c.start ≡ false
    pub opens : All (Quiet busy) c.opening
    pub clicks : (s : S) (m : M) → Offers (c.view s) m → Duty busy (guards s m) s (c.on s m)
    pub effects : (s : S) (a : Act S Unit) → c.effect s a → Quiet busy a

  -- At most one waiting handler of the stage holds the flag, which is up exactly while one does; what
  -- the controls of the view and the effects start keeps it so; and the flag comes down, whatever the
  -- handlers wait for.
  pub record Exclusive (t : Stage S) : Type 0 where
    pub single : StageIsSingle busy t
    pub clicks : (m : M) → Offers (c.view t.ui) m → Duty busy (guards t.ui m) t.ui (c.on t.ui m)
    pub effects : (a : Act S Unit) → c.effect t.ui a → Quiet busy a
    pub released : Inevitably (λ u. busy u.ui ≡ false) t

  Step-IsSingle :
      Guarded → {t u : Stage S} → Step c t u → StageIsSingle busy t → StageIsSingle busy u
  Step-IsSingle g (click t m o) h =
      Allowed-IsSingle busy t (c.on t.ui m)
        (Duty-Allowed busy (guards t.ui m) t.ui (c.on t.ui m) (g.clicks t.ui m o)) h
  Step-IsSingle g (rerun t a e) h = begin-IsSingle busy a t.ui t.running (g.effects t.ui a e) h
  Step-IsSingle g (resume t {b} {ys} r) h = Resumed-IsSingle busy t b ys r h

  pub Reach-IsSingle : Guarded → {t : Stage S} → Reach c t → StageIsSingle busy t
  Reach-IsSingle g here = begin_all-IsSingle busy c.opening _ g.opens (inl (g.down, tt))
  Reach-IsSingle g (next r s) = Step-IsSingle g s (Reach-IsSingle g r)

  pub Reach-Exclusive : Guarded → (t : Stage S) → Reach c t → Exclusive t
  Reach-Exclusive g t r =
      let h = Reach-IsSingle g r in
      record {
        single = h;
        clicks = g.clicks t.ui;
        effects = g.effects t.ui;
        released = IsSingle-released busy t h;
      }
