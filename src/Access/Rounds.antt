-- ===== src/Access/Rounds.antt =====
-- How often the pod is asked for its token: `open_notebook`'s loop over `get_access_token`.
use mathlib.Core.Path.{subst}
use marimo_operator.Base.{
  sym, ℕ, zero, suc, ◌+◌, ◌≤◌, Text, ◌≡◌, refl, ap, ◌∙◌, ◌⊎◌, inl, inr, Option, none, some, List,
  [], ◌∷◌, arith,
}
use marimo_operator.Access.{search_token, token_command, get_access_token, or_again, wait_for_token}
use marimo_operator.Credentials.{run_found, found}
use marimo_operator.Exec.{Event, ran, slept, log, Process, Outside, World, next, run_command}
use marimo_operator.Exec.Programs.{sleep}
use marimo_operator.Result.{Result, ok}

-- The programs run, and the pauses.
unfoldable pub calls : List Event → ℕ
calls [] = 0
calls (ran cmd input ∷ t) = suc (calls t)
calls (e ∷ t) = calls t

unfoldable pub pauses : List Event → ℕ
pauses [] = 0
pauses (slept n ∷ t) = suc (pauses t)
pauses (e ∷ t) = pauses t

-- Every program is found.
pub record Installed (o : Outside) : Type 0 where
  pub process : (t : List Event) → (p : Process) × (o.reply t ≡ some p)

-- A number of rounds, at most the limit, with one call each. All of them were needed where there is
-- no token, and each of them had a pause; a token is the one that is found in the
-- answer to the last call, and its round has no pause.
pub record Polled (o : Outside) (limit : ℕ) (before : World) (out : Result (Option Text) × World)
    : Type 0 where
  pub token : Option Text
  pub returns : out.0 ≡ ok token
  pub rounds : ℕ
  pub called : calls out.1.trace ≡ rounds + calls before.trace
  pub ended :
      ((token ≡ none) × (rounds ≡ limit) × (pauses out.1.trace ≡ rounds + pauses before.trace))
      ⊎ ((t : Text) × (token ≡ some t)
          × (1 ≤ rounds)
          × (rounds ≤ limit)
          × (pauses out.1.trace + 1 ≡ rounds + pauses before.trace)
          × (r : Process) × (o.reply out.1.trace ≡ some r)
          × (search_token r.stdout ≡ some t))

module _ (o : Outside) (installed : Installed o) (name : Text) (namespace : Option Text) where
  abbrev asked_world : World → World
  asked_world w =
      let t = ran (token_command name namespace) [] ∷ w.trace in
      record w { files = o.moves t w.files; trace = t }

  abbrev answer : World → Process
  answer w = (installed.process (asked_world w).trace).0

  get_access_token_lem :
      (w : World)
      → get_access_token o name namespace w ≡ (ok (search_token (answer w).stdout), asked_world w)
  unfolding get_access_token run_found run_command found
  get_access_token_lem w = rw (installed.process (asked_world w).trace).1 refl

  round :
      (n : ℕ) (w : World)
      → wait_for_token o (suc n) name namespace w
        ≡ or_again o
            (wait_for_token o n name namespace)
            (search_token (answer w).stdout)
            (asked_world w)
  unfolding wait_for_token
  round n w =
      ap (λ r. next r (or_again o (wait_for_token o n name namespace))) (get_access_token_lem w)

  -- A round and its pause before the others.
  later :
      (n : ℕ) (w : World) (out : Result (Option Text) × World)
      → Polled o n (log (slept 1) (asked_world w)) out
      → Polled o (suc n) w out
  later n w out polled = record {
    token = polled.token;
    returns = polled.returns;
    rounds = suc polled.rounds;
    called = polled.called ∙ (unfold calls in omega arith);
    ended = elim polled.ended [
      | inl (e, r, p) ↦ inl (e, ap suc r, p ∙ (unfold pauses in omega arith))
      | inr (t, e, l, m, p, r, a, f) ↦
          inr (t, e, omega arith, omega arith, p ∙ (unfold pauses in omega arith), r, a, f)
    ];
  }

  or_again-Polled :
      (n : ℕ) (w : World) (r : Option Text)
      → search_token (answer w).stdout ≡ r
      → ((w2 : World) → Polled o n w2 (wait_for_token o n name namespace w2))
      → Polled o (suc n) w (or_again o (wait_for_token o n name namespace) r (asked_world w))
  or_again-Polled n w none e polled =
      unfold or_again sleep in later n w _ (polled (log (slept 1) (asked_world w)))
  or_again-Polled n w (some token) e polled = record {
    token = some token;
    returns = unfold or_again in refl;
    rounds = 1;
    called = unfold or_again calls in omega arith;
    ended = inr (
      token,
      refl,
      omega arith,
      omega arith,
      unfold or_again pauses in omega arith,
      answer w,
      unfold or_again in (installed.process (asked_world w).trace).1,
      e,
    );
  }

  -- With kubectl there, the loop ends without an exception: after the limit of rounds with one call
  -- and one pause each, or earlier with the token of the last answer.
  pub wait_for_token-Polled :
      (n : ℕ) (w : World) → Polled o n w (wait_for_token o n name namespace w)
  wait_for_token-Polled zero w = record {
    token = none;
    returns = unfold wait_for_token in refl;
    rounds = 0;
    called = unfold wait_for_token in omega arith;
    ended = inl (refl, refl, unfold wait_for_token in omega arith);
  }
  wait_for_token-Polled (suc n) w =
      subst (Polled o (suc n) w) (sym (round n w))
        (or_again-Polled n w (search_token (answer w).stdout) refl (wait_for_token-Polled n))
