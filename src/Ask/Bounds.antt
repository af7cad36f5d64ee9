-- ===== src/Ask/Bounds.antt =====
-- The loop ends: every round that goes on uses an attempt up, or a retry that is given once.
use ask_sql.Prelude.{
  ℕ, zero, suc, ◌≤◌, ◌<◌, false, not, ◌&&◌, some, Text, Bool-cases, ◌≡◌, refl, inl, inr, arith,
}
use ask_sql.Ask.{Setting, Calls, State, ModelReply, replied, refused, Outcome, Round, again, ended}
use ask_sql.Ask.Loop.{
  is_overflow, after_reply, heard, on_reply, turn, run, initial, max_rounds, ask_loop,
}
use ask_sql.Ask.Descent.{room, IsInRange, GoesDown, Round-cases, after_reply-GoesDown}

module _ (setting : Setting) (calls : Calls) where
  -- A round that goes on leaves less room than there was, and has called the model once.
  abbrev pub IsLess : State → Round → Type 0
  IsLess s (again t) = IsInRange t × (room t < room s) × (t.calls_made ≡ suc s.calls_made)
  IsLess s (ended outcome) = Unit

  on_reply-IsLess :
      (s : State) (reply : ModelReply) → IsInRange s → IsLess s (on_reply setting calls s reply)
  unfolding on_reply
  on_reply-IsLess s (refused err) range =
      elim (Bool-cases (is_overflow err && not s.context_shrunk)) [
        | inr e ↦ rw e tt
        | inl e ↦
            let fresh : s.context_shrunk ≡ false = ground arith in
            rw e (range, rw fresh (omega arith), refl)
      ]
  on_reply-IsLess s (replied text input output) range =
      let t = heard setting calls s text input output in
      IsLess-heard s text input output (after_reply setting calls t text)
        (after_reply-GoesDown setting calls t text range)
    where
      IsLess-heard :
          (s : State) (text : Text) (i o : ℕ) (r : Round)
          → GoesDown (heard setting calls s text i o) r
          → IsLess s r
      IsLess-heard s text i o (again t) h = h
      IsLess-heard s text i o (ended outcome) h = tt

  pub turn-IsLess : (s : State) → IsInRange s → IsLess s (turn setting calls s)
  unfolding turn
  turn-IsLess s range = on_reply-IsLess s (calls.call_model s.calls_made s.user_prompt) range

  -- The rounds that a state leads to.
  pub data Runs : ℕ → State → Outcome → Type 0 where
    last_round : {s : State} {o : Outcome} → turn setting calls s ≡ ended o → Runs 1 s o
    one_more :
        {n : ℕ} {s t : State} {o : Outcome}
        → turn setting calls s ≡ again t
        → Runs n t o
        → Runs (suc n) s o

  run-Runs :
      (fuel : ℕ) (s : State)
      → IsInRange s
      → room s < fuel
      → (n : ℕ) × (o : Outcome) × (run setting calls fuel s ≡ some o)
        × Runs n s o
        × (n ≤ suc (room s))
  unfolding run
  run-Runs zero s range enough = absurd (omega arith)
  run-Runs (suc fuel) s range enough = elim (Round-cases (turn setting calls s)) [
    | inl (o, e) ↦ (1, o, rw (e, run) refl, last_round e, omega arith)
    | inr (t, e) ↦
        let (range', less, _) = rw e at (turn-IsLess s range) in
        let (n, o, result, rest, few) = run-Runs fuel t range' (omega arith) in
        (suc n, o, rw (e, run) result, one_more e rest, omega arith)
  ]

  -- The loop ends, whatever the model answers and whatever the checks find: after at most six rounds,
  -- each with one call of the model, there is an answer or an error, and the fuel is enough for it.
  pub ask_loop-Runs :
      (schema_text user_prompt : Text)
      → (n : ℕ) × (o : Outcome) × (ask_loop setting calls schema_text user_prompt ≡ some o)
        × Runs n (initial schema_text user_prompt) o
        × (n ≤ 6)
  unfolding ask_loop
  ask_loop-Runs schema_text user_prompt =
      run-Runs max_rounds (initial schema_text user_prompt) (omega arith) (omega arith)
