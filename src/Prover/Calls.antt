-- ===== src/Prover/Calls.antt =====
-- What it means that a method of prover/prover.go stops at the first call of the system that fails,
-- and that its parts do.
use erigon_risc_v_executable.Prelude.{
  ◌≡◌, refl, ap, List, [], ◌∷◌, Option, none, some, Option-cases, inl, inr, Text,
}
use erigon_risc_v_executable.Prover.{
  Answer, given, refused, Call, make_temp, make_dir, open_embedded, create, copy, write_file,
  read_file, command, remove_all, Host, ProverError, Ran, ok, fail, P, CommandRun, answered,
  done_unless, continue, wrapped, act, make_temp_dir, read_bytes, run_error, with_stderr, execute,
  or_raise, or_raise_unit,
}

abbrev refused_with {ℓ} : {A : Type ℓ} → Answer A → Option Text
refused_with (given a) = none
refused_with (refused e) = some e

module _ (host : Host) where
  -- the error of the newest call
  unfoldable pub refusal : List Call → Option Text
  refusal [] = none
  refusal (make_temp p ∷ h) = refused_with (host.temp_dir (make_temp p ∷ h))
  refusal (make_dir p ∷ h) = host.act (make_dir p ∷ h)
  refusal (open_embedded p ∷ h) = host.act (open_embedded p ∷ h)
  refusal (create p ∷ h) = host.act (create p ∷ h)
  refusal (copy p bytes ∷ h) = host.act (copy p bytes ∷ h)
  refusal (write_file p bytes ∷ h) = host.act (write_file p bytes ∷ h)
  refusal (read_file p ∷ h) = refused_with (host.read (read_file p ∷ h))
  refusal (command dir name args ∷ h) = (host.run (command dir name args ∷ h)).error
  refusal (remove_all p ∷ h) = none

  -- the second list is the first with more calls, none of which failed
  pub data Clean (first : List Call) : List Call → Type 0 where
    here : Clean first first
    next : {h : List Call} {c : Call} → Clean first h → refusal (c ∷ h) ≡ none → Clean first (c ∷ h)

  -- the second list is the first with more calls, of which the newest failed and no other
  pub record Fails (first h : List Call) : Type 0 where
    pub call : Call
    pub earlier : List Call
    pub newest : h ≡ call ∷ earlier
    pub clean : Clean first earlier
    pub failure : (e : Text) × (refusal h ≡ some e)

  abbrev pub Stops {ℓ} : {A : Type ℓ} → List Call → Ran A → Type 0
  Stops first (ok a h) = Clean first h
  Stops first (fail e h) = Fails first h

  pub Clean-trans : {a b c : List Call} → Clean a b → Clean b c → Clean a c
  Clean-trans x here = x
  Clean-trans x (next y e) = next (Clean-trans x y) e

  pub Fails-trans : {a b c : List Call} → Clean a b → Fails b c → Fails a c
  Fails-trans x y = record {
    call = y.call;
    earlier = y.earlier;
    newest = y.newest;
    clean = Clean-trans x y.clean;
    failure = y.failure;
  }

  module _ {ℓ} {A : Type ℓ} where
    pub Stops-trans : {a b : List Call} (o : Ran A) → Clean a b → Stops b o → Stops a o
    Stops-trans (ok x h) c s = Clean-trans c s
    Stops-trans (fail e h) c s = Fails-trans c s

    pub Stops-wrapped :
        (first : List Call) (message : Text) (o : Ran A)
        → Stops first o
        → Stops first (wrapped message o)
    Stops-wrapped first message (ok x h) s = s
    Stops-wrapped first message (fail e h) s = s

  module _ {ℓ κ} {A : Type ℓ} {B : Type κ} where
    pub Stops-bind :
        (first : List Call) (o : Ran A) (f : A → P B)
        → Stops first o
        → ((a : A) (h : List Call) → Stops h (f a h))
        → Stops first (continue f o)
    Stops-bind first (ok a h) f s k = Stops-trans (f a h) s (k a h)
    Stops-bind first (fail e h) f s k = s

  -- a call, by the error that it is answered with
  answered-Stops {ℓ} :
      {A : Type ℓ} (c : Call) (h : List Call) (x : Answer A)
      → refusal (c ∷ h) ≡ refused_with x
      → Stops h (answered (c ∷ h) x)
  answered-Stops c h (given a) e = next here e
  answered-Stops c h (refused t) e = record {
    call = c;
    earlier = h;
    newest = refl;
    clean = here;
    failure = (t, e);
  }

  done_unless-Stops :
      (c : Call) (h : List Call) (x : Option Text)
      → refusal (c ∷ h) ≡ x
      → Stops h (done_unless (c ∷ h) x)
  done_unless-Stops c h none e = next here e
  done_unless-Stops c h (some t) e = record {
    call = c;
    earlier = h;
    newest = refl;
    clean = here;
    failure = (t, e);
  }

  pub act-Stops :
      (c : Call) (h : List Call) → refusal (c ∷ h) ≡ host.act (c ∷ h) → Stops h (act host c h)
  unfolding act
  act-Stops c h same = done_unless-Stops c h (host.act (c ∷ h)) same

  pub make_temp_dir-Stops : (p : Text) (h : List Call) → Stops h (make_temp_dir host p h)
  unfolding make_temp_dir refusal
  make_temp_dir-Stops p h = answered-Stops (make_temp p) h _ refl

  pub read_bytes-Stops : (p : Text) (h : List Call) → Stops h (read_bytes host p h)
  unfolding read_bytes refusal
  read_bytes-Stops p h = answered-Stops (read_file p) h _ refl

  pub run_error-none : (r : CommandRun) → r.error ≡ none → run_error r ≡ none
  unfolding run_error
  run_error-none r e =
      ap
        (λ x. elim x as (λ _. Option ProverError) [
          | none ↦ none
          | some t ↦ some (with_stderr t r.stderr)
        ])
        e

  pub run_error-some :
      (r : CommandRun) {t : Text} → r.error ≡ some t → (x : ProverError) × (run_error r ≡ some x)
  unfolding run_error
  run_error-some r e = (
    _,
    ap
        (λ x. elim x as (λ _. Option ProverError) [
          | none ↦ none
          | some t ↦ some (with_stderr t r.stderr)
        ])
        e,
  )

  -- a command whose error is passed on
  executed-Stops {ℓ} :
      {A : Type ℓ} (f : Text × Option ProverError → P A)
      → ((output : Text) (h : List Call) → Stops h (f (output, none) h))
      → ((output : Text) (x : ProverError) (first h : List Call)
          → Fails first h
          → Stops first (f (output, some x) h))
      → (dir name : Text) (args : List Text) (h : List Call)
      → Stops h (continue f (execute host dir (name ∷ args) h))
  unfolding execute refusal
  executed-Stops f good bad dir name args h =
      let h' = command dir name args ∷ h in
      let r = host.run h' in
      elim (Option-cases r.error) [
        | inl e ↦
            rw (run_error-none r e)
              (Stops-trans (f (r.stdout, none) h') (next here e) (good r.stdout h'))
        | inr (t, e) ↦
            let (x, failed) = run_error-some r e in
            rw failed (
              bad r.stdout x h h' (record {
                call = command dir name args;
                earlier = h;
                newest = refl;
                clean = here;
                failure = (t, e);
              }))
      ]

  pub execute-Stops :
      (dir name : Text) (args : List Text) (h : List Call)
      → Stops h (continue or_raise (execute host dir (name ∷ args) h))
  execute-Stops = executed-Stops or_raise (λ output h. here) (λ output x first h f. f)

  pub execute_unit-Stops :
      (dir name : Text) (args : List Text) (h : List Call)
      → Stops h (continue or_raise_unit (execute host dir (name ∷ args) h))
  execute_unit-Stops = executed-Stops or_raise_unit (λ output h. here) (λ output x first h f. f)
